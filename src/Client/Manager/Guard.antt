-- ===== src/Client/Manager/Guard.antt =====
-- The kill switch over a run (`_run`, `_set_state` of client/outwarp/tunnel.py with `reconcile` of
-- client/outwarp/killswitch.py).
use mathlib.Core.Path.{subst}
use out_warp.Prelude.{
  ℕ, ◌≡◌, ◌⊎◌, refl, sym, ◌∙◌, Bool, true, false, Option, none, some, List, [], ◌∷◌, String, arith,
  ◌==◌, if_cases,
}
use out_warp.Client.DnsCache.{DnsCache}
use out_warp.Client.KillSwitch.{
  TunnelState, disconnected, connecting, connected, reconnecting, failed, resolved_allowlist,
  reconcile,
}
use out_warp.Client.Tunnel.Transport.{Disk}
use out_warp.Client.Manager.{
  Setting, Change, Manager, Round, run, set_state, rank, reconcile_kill_switch,
}
use out_warp.Client.Manager.Moves.{SameCore}
use out_warp.Client.Manager.Keeps.{run-keeps}

-- What the kill switch owes to a state: it blocks while the tunnel is unexpectedly down, and is
-- released while the tunnel is up or was stopped. A first attempt leaves it as it was.
abbrev pub Guarded : TunnelState → Option (List String) → Type 0
Guarded reconnecting rules = (allowlist : List String) × (rules ≡ some allowlist)
Guarded failed rules = (allowlist : List String) × (rules ≡ some allowlist)
Guarded connected rules = rules ≡ none
Guarded disconnected rules = rules ≡ none
Guarded connecting rules = Unit

abbrev pub AllGuarded : List Change → Type 0
AllGuarded [] = Unit
AllGuarded (c ∷ changes) = Guarded c.to c.rules × AllGuarded changes

abbrev pub is_given : Option (List String) → Bool
is_given none = false
is_given (some []) = false
is_given (some (a ∷ allowlist)) = true

-- The switch is enabled, its calls succeed, and some address can always be let through.
pub record Works (c : Setting) : Type 0 where
  pub engages : c.engages ≡ true
  pub releases : c.releases ≡ true
  pub reaches :
      (dns : DnsCache)
      → is_given (resolved_allowlist c.title c.config c.names c.system_proxy dns).0 ≡ true

record IsGuarded (m : Manager) : Type 0 where
  enabled : m.kill_switch_enabled ≡ true
  guarded : AllGuarded m.changes

reconcile-Guarded :
    (s : TunnelState) (allowlist rules : Option (List String))
    → is_given allowlist ≡ true
    → Guarded s (reconcile true true allowlist s rules)
unfolding reconcile
reconcile-Guarded reconnecting (some (a ∷ l)) rules h = (a ∷ l, refl)
reconcile-Guarded failed (some (a ∷ l)) rules h = (a ∷ l, refl)
reconcile-Guarded reconnecting none rules h = absurd (ground (arith, h))
reconcile-Guarded reconnecting (some []) rules h = absurd (ground (arith, h))
reconcile-Guarded failed none rules h = absurd (ground (arith, h))
reconcile-Guarded failed (some []) rules h = absurd (ground (arith, h))
reconcile-Guarded connected allowlist rules h = refl
reconcile-Guarded disconnected allowlist rules h = refl
reconcile-Guarded connecting allowlist rules h = tt

reconcile_kill_switch-Guarded :
    (c : Setting) (m : Manager)
    → Works c
    → m.kill_switch_enabled ≡ true
    → Guarded m.state (reconcile_kill_switch c m).rules
unfolding reconcile_kill_switch
reconcile_kill_switch-Guarded c m w on =
    if_cases (λ (n : Manager). Guarded m.state n.rules) m.kill_switch_enabled _ _
      (λ _.
        rw (w.engages, w.releases) (reconcile-Guarded m.state _ m.rules (w.reaches m.tunnel.dns)))
      (λ off. absurd (let e = sym on ∙ off in cc))

reconcile_kill_switch-keeps :
    (c : Setting) (m : Manager)
    → ((reconcile_kill_switch c m).state ≡ m.state)
      × ((reconcile_kill_switch c m).changes ≡ m.changes)
      × ((reconcile_kill_switch c m).kill_switch_enabled ≡ m.kill_switch_enabled)
unfolding reconcile_kill_switch
reconcile_kill_switch-keeps c m = ground arith

set_state-IsGuarded :
    (c : Setting) (s : TunnelState) (m : Manager)
    → Works c
    → IsGuarded m
    → IsGuarded (set_state c s m)
unfolding set_state
set_state-IsGuarded c s m w g =
    let m1 : Manager = record m { state = s } in
    let (at_s, same, on) = reconcile_kill_switch-keeps c m1 in
    if_cases (λ (n : Manager). IsGuarded n) (rank m.state == rank s) _ _ (λ _. g)
      (λ _. record {
        enabled = on ∙ g.enabled;
        guarded = (
          subst (λ (t : TunnelState). Guarded t (reconcile_kill_switch c m1).rules) (sym at_s)
              (reconcile_kill_switch-Guarded c m1 w g.enabled),
          subst (AllGuarded) (sym same) g.guarded,
        );
      })

same-IsGuarded : (m n : Manager) → SameCore m n → IsGuarded m → IsGuarded n
same-IsGuarded m n e g = record {
  enabled = e.kill_switch_enabled ∙ g.enabled;
  guarded = subst (AllGuarded) (sym e.changes) g.guarded;
}

-- Where the kill switch is enabled and its calls succeed, and the profile always has an address to let
-- through, every change of state of a run that starts in `disconnected` or `failed` leaves it blocking
-- in `reconnecting` and `failed`, and released in `connected` and `disconnected`.
pub run-AllGuarded :
    (c : Setting) (disk : Disk) (rounds : ℕ → Round) (fuel : ℕ) (m last : Manager)
    → Works c
    → m.kill_switch_enabled ≡ true
    → AllGuarded m.changes
    → (m.state ≡ disconnected) ⊎ (m.state ≡ failed)
    → run c disk rounds fuel m ≡ some last
    → AllGuarded last.changes
run-AllGuarded c disk rounds fuel m last w on g ready e =
    (run-keeps c (IsGuarded) same-IsGuarded (λ s n step h. set_state-IsGuarded c s n w h) disk
      rounds fuel m last ready (record { enabled = on; guarded = g }) e).guarded
