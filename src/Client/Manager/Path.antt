-- ===== src/Client/Manager/Path.antt =====
-- The states that a worker passes through (`_run` of client/outwarp/tunnel.py).
use mathlib.Core.Path.{subst}
use out_warp.Prelude.{ℕ, ◌≡◌, ◌⊎◌, refl, sym, some, List, [], ◌∷◌, arith, ◌==◌, if_cases}
use out_warp.Client.KillSwitch.{TunnelState, disconnected, failed}
use out_warp.Client.Tunnel.Transport.{Disk}
use out_warp.Client.Manager.{
  Setting, Change, Manager, Round, run, set_state, rank, reconcile_kill_switch, log_change,
}
use out_warp.Client.Manager.Moves.{Moves, SameCore}
use out_warp.Client.Manager.Keeps.{run-keeps}

-- The abstract machine: from `start`, each change is one of its moves. The latest change stands first.
pub data Walk (start : TunnelState) : TunnelState → List Change → Type 0 where
  here : Walk start start []
  move :
      {s t : TunnelState} {changes : List Change} (c : Change)
      → Walk start s changes
      → Moves s t
      → c.to ≡ t
      → Walk start t (c ∷ changes)

-- The state that is kept is the one that the changes lead to.
abbrev pub IsLogged : TunnelState → Manager → Type 0
IsLogged start m = Walk start m.state m.changes

log_change-IsLogged :
    (start s : TunnelState) (m x : Manager)
    → x.state ≡ s
    → x.changes ≡ m.changes
    → Moves m.state s
    → IsLogged start m
    → IsLogged start (log_change x)
log_change-IsLogged start s m x at_s same step w =
    move (record { to = x.state; rules = x.rules })
      (subst (λ (l : List Change). Walk start m.state l) (sym same) w)
      (subst (Moves m.state) (sym at_s) step) refl

reconcile_kill_switch-changes :
    (c : Setting) (m : Manager)
    → ((reconcile_kill_switch c m).state ≡ m.state)
      × ((reconcile_kill_switch c m).changes ≡ m.changes)
unfolding reconcile_kill_switch
reconcile_kill_switch-changes c m = ground arith

set_state-IsLogged :
    (c : Setting) (start s : TunnelState) (m : Manager)
    → Moves m.state s
    → IsLogged start m
    → IsLogged start (set_state c s m)
unfolding set_state
set_state-IsLogged c start s m step w =
    let (at_s, same) = reconcile_kill_switch-changes c (record m { state = s }) in
    if_cases (λ (n : Manager). IsLogged start n) (rank m.state == rank s) _ _ (λ _. w)
      (λ _.
        log_change-IsLogged start s m (reconcile_kill_switch c (record m { state = s })) at_s same
          step w)

same-IsLogged :
    (start : TunnelState) (m n : Manager) → SameCore m n → IsLogged start m → IsLogged start n
same-IsLogged start m n e w =
    subst (λ (s : TunnelState). Walk start s n.changes) (sym e.state)
      (subst (λ (l : List Change). Walk start m.state l) (sym e.changes) w)

-- A run that starts in `disconnected` or `failed` refines the abstract machine: its changes of state
-- are a walk of allowed moves, from the state at the start to the one at the end.
pub run-Walk :
    (c : Setting) (disk : Disk) (rounds : ℕ → Round) (fuel : ℕ) (m last : Manager)
    → (m.state ≡ disconnected) ⊎ (m.state ≡ failed)
    → m.changes ≡ []
    → run c disk rounds fuel m ≡ some last
    → Walk m.state last.state last.changes
run-Walk c disk rounds fuel m last ready fresh e =
    run-keeps c (IsLogged m.state) (same-IsLogged m.state)
      (λ s n step w. set_state-IsLogged c m.state s n step w) disk rounds fuel m last ready
      (subst (λ (l : List Change). Walk m.state m.state l) (sym fresh) here) e
