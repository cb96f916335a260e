-- ===== src/Client/Manager/Moves.antt =====
-- The changes of state that `TunnelManager` of client/outwarp/tunnel.py makes, and what they see.
use mathlib.Core.Path.{subst}
use out_warp.Prelude.{
  ℕ, zero, suc, ◌+◌, ◌<◌, ◌≡◌, ◌⊎◌, refl, sym, ◌∙◌, ap, Bool, true, not, ◌&&◌, ◌||◌, List, [], ◌∷◌,
  String, arith, ◌==◌, if◌then◌else◌, Bool-cases, inl, inr,
}
use out_warp.Client.KillSwitch.{
  TunnelState, disconnected, connecting, connected, reconnecting, failed,
}
use out_warp.Client.Manager.{
  Setting, Manager, Watch, watch_over, set_state, rank, reconcile_kill_switch, set_attempt,
  attempt_state, remember_winner,
}

-- The changes of state that a worker and a stop may make.
pub data Moves : TunnelState → TunnelState → Type 0 where
  first_attempt : Moves disconnected connecting
  new_attempt : Moves failed connecting
  first_connected : Moves connecting connected
  reconnected : Moves reconnecting connected
  retry : Moves connecting reconnecting
  drop : Moves connected reconnecting
  refuse : Moves disconnected failed
  give_up_first : Moves connecting failed
  give_up : Moves reconnecting failed
  stop_any : (s : TunnelState) → Moves s disconnected

-- The same but for what the changes of state do not see.
pub record SameCore (m n : Manager) : Type 0 where
  pub state : n.state ≡ m.state
  pub rules : n.rules ≡ m.rules
  pub changes : n.changes ≡ m.changes
  pub kill_switch_enabled : n.kill_switch_enabled ≡ m.kill_switch_enabled

pub SameCore-refl : (m : Manager) → SameCore m m
SameCore-refl m = record { state = refl; rules = refl; changes = refl; kill_switch_enabled = refl }

pub watch_over-SameCore :
    (ws : List Watch) (reset : Bool) (attempt : ℕ) (m : Manager)
    → SameCore m (watch_over ws reset attempt m).2
unfolding watch_over
watch_over-SameCore [] reset attempt m = SameCore-refl m
watch_over-SameCore (w ∷ ws) reset attempt m = ground (
  arith,
  watch_over-SameCore ws (reset || w.stable) (if not reset && w.stable then 0 else attempt)
      (if not reset && w.stable then set_attempt 0 m else m),
)

pub remember_winner-SameCore :
    (signature : String) (m : Manager) → SameCore m (remember_winner signature m)
unfolding remember_winner
remember_winner-SameCore signature m = ground arith

pub eq_self : (n : ℕ) → (n == n) ≡ true
eq_self n = ground arith

state_of_rank : ℕ → TunnelState
state_of_rank zero = disconnected
state_of_rank (suc zero) = connecting
state_of_rank (suc (suc zero)) = connected
state_of_rank (suc (suc (suc zero))) = reconnecting
state_of_rank (suc (suc (suc (suc n)))) = failed

state_of_rank-rank : (s : TunnelState) → state_of_rank (rank s) ≡ s
unfolding state_of_rank
state_of_rank-rank disconnected = refl
state_of_rank-rank connecting = refl
state_of_rank-rank connected = refl
state_of_rank-rank reconnecting = refl
state_of_rank-rank failed = refl

pub rank-injective : (s t : TunnelState) → rank s ≡ rank t → s ≡ t
rank-injective s t e = sym (state_of_rank-rank s) ∙ ap state_of_rank e ∙ state_of_rank-rank t

pub state-set_state : (c : Setting) (s : TunnelState) (m : Manager) → (set_state c s m).state ≡ s
unfolding set_state reconcile_kill_switch
state-set_state c s m = elim (Bool-cases (rank m.state == rank s)) [
  | inl same ↦ simp same (rank-injective m.state s (ground (arith, same)))
  | inr new ↦ ground (arith, new)
]

-- The states from which a count of failed attempts goes on.
pub Ready : ℕ → TunnelState → Type 0
Ready attempt disconnected = attempt ≡ 0
Ready attempt failed = attempt ≡ 0
Ready attempt connecting = 0 < attempt
Ready attempt reconnecting = 0 < attempt
Ready attempt connected = ⊥

attempt_state-suc : (n : ℕ) → attempt_state (suc n) ≡ reconnecting
attempt_state-suc n = ground arith

pub Ready-Moves :
    (attempt : ℕ) (s : TunnelState)
    → Ready attempt s
    → (s ≡ attempt_state attempt) ⊎ Moves s (attempt_state attempt)
unfolding Ready
Ready-Moves zero disconnected h = inr first_attempt
Ready-Moves zero failed h = inr new_attempt
Ready-Moves zero connecting h = absurd (omega arith)
Ready-Moves zero reconnecting h = absurd (omega arith)
Ready-Moves (suc n) connecting h = inr (subst (Moves connecting) (sym (attempt_state-suc n)) retry)
Ready-Moves (suc n) reconnecting h = inl (sym (attempt_state-suc n))
Ready-Moves (suc n) disconnected h = absurd (omega arith)
Ready-Moves (suc n) failed h = absurd (omega arith)
Ready-Moves n connected h = absurd h

-- A state in which a connection is tried.
pub data IsTrying : TunnelState → Type 0 where
  trying_first : IsTrying connecting
  trying_again : IsTrying reconnecting

pub attempt_state-IsTrying : (attempt : ℕ) → IsTrying (attempt_state attempt)
attempt_state-IsTrying zero = trying_first
attempt_state-IsTrying (suc n) = subst (IsTrying) (sym (attempt_state-suc n)) trying_again

pub IsTrying-failed : {s : TunnelState} → IsTrying s → Moves s failed
IsTrying-failed trying_first = give_up_first
IsTrying-failed trying_again = give_up

pub IsTrying-connected : {s : TunnelState} → IsTrying s → Moves s connected
IsTrying-connected trying_first = first_connected
IsTrying-connected trying_again = reconnected

pub IsTrying-Ready : (n : ℕ) {s : TunnelState} → IsTrying s → Ready (n + 1) s
unfolding Ready
IsTrying-Ready n trying_first = omega arith
IsTrying-Ready n trying_again = omega arith

pub may_fail : (s : TunnelState) → (s ≡ disconnected) ⊎ (s ≡ failed) → (s ≡ failed) ⊎ Moves s failed
may_fail s (inl e) = inr (subst (λ (t : TunnelState). Moves t failed) (sym e) refuse)
may_fail s (inr e) = inl e

pub may_start : (s : TunnelState) → (s ≡ disconnected) ⊎ (s ≡ failed) → Ready 0 s
unfolding Ready
may_start s (inl e) = subst (Ready 0) (sym e) refl
may_start s (inr e) = subst (Ready 0) (sym e) refl
