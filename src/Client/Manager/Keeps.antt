-- ===== src/Client/Manager/Keeps.antt =====
-- What every change of state keeps, a whole run keeps (`_run` of client/outwarp/tunnel.py).
use mathlib.Core.Path.{subst}
use out_warp.Prelude.{
  ℕ, zero, suc, ◌+◌, ◌≡◌, ◌⊎◌, refl, sym, ◌∙◌, ap, false, Option, none, some, String, Result, ok,
  err, leb, if_cases, inl, inr,
}
use out_warp.Client.KillSwitch.{TunnelState, disconnected, connected, reconnecting, failed}
use out_warp.Client.Tunnel.State.{Tunnel, Failure, Outcome, returned, raised}
use out_warp.Client.Tunnel.Transport.{Disk}
use out_warp.Client.Manager.{
  Setting, Manager, Round, WatchEnd, stopped, down, Next, halt, again, watch_over, back_off,
  after_failure, after_watch, after_success, after_connect, one_round, run_loop, run_with, run,
  set_state, rank, set_phase, set_error, set_attempt, attempt_state, is_expired,
  is_transport_unavailable, clean_up, remember_winner, connect_failed, closed_unexpectedly, expired,
}
use out_warp.Client.Manager.Moves.{
  Moves, may_fail, may_start, SameCore, watch_over-SameCore, remember_winner-SameCore, eq_self,
  state-set_state, Ready, Ready-Moves, drop, IsTrying, trying_again, attempt_state-IsTrying,
  IsTrying-failed, IsTrying-connected, IsTrying-Ready,
}
use out_warp.Client.Manager.Ends.{Next-cases, run_loop-halt, run_loop-again}

pub still_running :
    (c : Setting) (signature : String) (rounds : ℕ → Round) (i n : ℕ) (m last : Manager)
    → run_loop c signature rounds zero i n m ≡ some last
    → ⊥
unfolding run_loop
still_running c signature rounds i n m last e = cc

pub some-injective : {m n : Manager} → ◌≡◌ {A = Option Manager} (some m) (some n) → m ≡ n
some-injective e = cc

module _ (c : Setting) (P : Manager → Type 0) (core : (m n : Manager) → SameCore m n → P m → P n)
    (moves : (s : TunnelState) (m : Manager) → Moves m.state s → P m → P (set_state c s m)) where
  AtEnd : Next → Type 0
  AtEnd (halt m) = P m
  AtEnd (again attempt m) = P m × Ready attempt m.state

  AtEnd-halt : (m : Manager) → P m → AtEnd (halt m)
  unfolding AtEnd
  AtEnd-halt m h = h

  AtEnd-again : (n : ℕ) (m : Manager) → P m → Ready n m.state → AtEnd (again n m)
  unfolding AtEnd
  AtEnd-again n m h r = (h, r)

  -- a change to a state that is the same, or that may follow
  moves_or_stays :
      (s : TunnelState) (m : Manager) → (m.state ≡ s) ⊎ Moves m.state s → P m → P (set_state c s m)
  unfolding set_state
  moves_or_stays s m (inl e) h = rw (ap rank e, eq_self (rank s)) h
  moves_or_stays s m (inr move) h = moves s m move h

  back_off-AtEnd :
      (r : Round) (n : ℕ) (m : Manager) → IsTrying m.state → P m → AtEnd (back_off c r (n + 1) m)
  unfolding back_off
  back_off-AtEnd r n m t h =
      if_cases AtEnd (leb c.max_attempts (n + 1)) _ _
        (λ _.
          AtEnd-halt (set_state c failed counted) (moves failed counted (IsTrying-failed t) kept))
        (λ _.
          if_cases AtEnd r.stop_in_backoff _ _ (λ _. AtEnd-halt counted kept)
            (λ _. AtEnd-again (n + 1) counted kept (IsTrying-Ready n t)))
    where
      counted : Manager
      counted = set_attempt (n + 1) m

      kept : P counted
      kept =
          core m counted
            (record { state = refl; rules = refl; changes = refl; kill_switch_enabled = refl }) h

  after_failure-AtEnd :
      (r : Round) (n : ℕ) (e : Failure) (m : Manager)
      → IsTrying m.state
      → P m
      → AtEnd (after_failure c r n e m)
  unfolding after_failure
  after_failure-AtEnd r n e m t h =
      if_cases AtEnd (is_transport_unavailable e) _ _
        (λ _. AtEnd-halt (set_state c failed noted) (moves failed noted (IsTrying-failed t) kept))
        (λ _.
          if_cases AtEnd r.stop_at_failure _ _ (λ _. AtEnd-halt m h)
            (λ _. back_off-AtEnd r n noted t kept))
    where
      noted : Manager
      noted = set_error (some (connect_failed e)) m

      kept : P noted
      kept =
          core m noted
            (record { state = refl; rules = refl; changes = refl; kill_switch_enabled = refl }) h

  -- A tunnel that died is cleaned up in the state of a new attempt.
  clean_up-IsTrying :
      (r : Round) (m : Manager)
      → m.state ≡ connected
      → P m
      → P (clean_up c r m) × IsTrying (clean_up c r m).state
  unfolding clean_up
  clean_up-IsTrying r m e h = (
    core flipped (clean_up c r m)
        (record { state = refl; rules = refl; changes = refl; kill_switch_enabled = refl })
        (moves reconnecting noted (subst (λ (s : TunnelState). Moves s reconnecting) (sym e) drop) (
          core m noted
            (record { state = refl; rules = refl; changes = refl; kill_switch_enabled = refl }) h)),
    subst (IsTrying) (sym (state-set_state c reconnecting noted)) trying_again,
  )
    where
      noted : Manager
      noted = set_error (some closed_unexpectedly) m

      flipped : Manager
      flipped = set_state c reconnecting noted

  after_watch-AtEnd :
      (r : Round) (w : WatchEnd × ℕ × Manager)
      → w.2.state ≡ connected
      → P w.2
      → AtEnd (after_watch c r w)
  unfolding after_watch
  after_watch-AtEnd r (stopped, n, m) e h = AtEnd-halt m h
  after_watch-AtEnd r (down, n, m) e h =
      let (kept, t) = clean_up-IsTrying r m e h in
      if_cases AtEnd r.stop_after_watch _ _ (λ _. AtEnd-halt m h)
        (λ _.
          if_cases AtEnd m.auto_reconnect _ _ (λ _. back_off-AtEnd r n (clean_up c r m) t kept)
            (λ _.
              AtEnd-halt (set_state c failed (clean_up c r m))
                (moves failed (clean_up c r m) (IsTrying-failed t) kept)))

  after_success-AtEnd :
      (signature : String) (r : Round) (n : ℕ) (m : Manager)
      → IsTrying m.state
      → P m
      → AtEnd (after_success c signature r n m)
  unfolding after_success
  after_success-AtEnd signature r n m t h =
      after_watch-AtEnd r (watch_over r.watches false n up)
        (watched.state ∙ state-set_state c connected done)
        (core up _ watched (
          moves connected done
            (subst (λ (s : TunnelState). Moves s connected) (sym won.state) (IsTrying-connected t))
            (core (remember_winner signature m) done
              (record { state = refl; rules = refl; changes = refl; kill_switch_enabled = refl })
              (core m _ won h))))
    where
      won : SameCore m (remember_winner signature m)
      won = remember_winner-SameCore signature m

      done : Manager
      done = set_phase "done" (set_error none (remember_winner signature m))

      up : Manager
      up = set_state c connected done

      watched : SameCore up (watch_over r.watches false n up).2
      watched = watch_over-SameCore r.watches false n up

  after_connect-AtEnd :
      (signature : String) (r : Round) (n : ℕ) (m : Manager) (o : Outcome × Tunnel)
      → IsTrying m.state
      → P m
      → AtEnd (after_connect c signature r n m o)
  after_connect-AtEnd signature r n m (raised e, u) t h =
      after_failure-AtEnd r n e (record m { tunnel = u }) t
        (core m _
          (record { state = refl; rules = refl; changes = refl; kill_switch_enabled = refl }) h)
  after_connect-AtEnd signature r n m (returned, u) t h =
      after_success-AtEnd signature r n (record m { tunnel = u }) t
        (core m _
          (record { state = refl; rules = refl; changes = refl; kill_switch_enabled = refl }) h)

  one_round-AtEnd :
      (signature : String) (r : Round) (n : ℕ) (m : Manager)
      → Ready n m.state
      → P m
      → AtEnd (one_round c signature r n m)
  unfolding one_round
  one_round-AtEnd signature r n m ready h =
      if_cases AtEnd r.stop_before _ _ (λ _. AtEnd-halt m h)
        (λ _.
          after_connect-AtEnd signature r n begun _
            (subst (IsTrying) (sym (state-set_state c (attempt_state n) fresh))
              (attempt_state-IsTrying n))
            (moves_or_stays (attempt_state n) fresh (Ready-Moves n m.state ready) (
              core m fresh
                (record { state = refl; rules = refl; changes = refl; kill_switch_enabled = refl })
                h)))
    where
      fresh : Manager
      fresh = set_phase "" m

      begun : Manager
      begun = set_state c (attempt_state n) fresh

  run_loop-keeps :
      (signature : String) (rounds : ℕ → Round) (fuel i n : ℕ) (m last : Manager)
      → Ready n m.state
      → P m
      → run_loop c signature rounds fuel i n m ≡ some last
      → P last
  unfolding AtEnd
  run_loop-keeps signature rounds zero i n m last ready h e =
      absurd (still_running c signature rounds i n m last e)
  run_loop-keeps signature rounds (suc fuel) i n m last ready h e =
      let ends = one_round-AtEnd signature (rounds i) n m ready h in
      elim (Next-cases (one_round c signature (rounds i) n m)) [
        | inl (m1, halts) ↦
            subst P
              (some-injective (sym (run_loop-halt c signature rounds fuel i n m m1 halts) ∙ e))
              (subst AtEnd halts ends)
        | inr (n1, m1, goes_on) ↦
            let (kept, ready1) = subst AtEnd goes_on ends in
            run_loop-keeps signature rounds fuel (suc i) n1 m1 last ready1 kept
              (sym (run_loop-again c signature rounds fuel i n n1 m m1 goes_on) ∙ e)
      ]

  run_with-keeps :
      (rounds : ℕ → Round) (fuel : ℕ) (m last : Manager) (found : Result Failure String × Tunnel)
      → (m.state ≡ disconnected) ⊎ (m.state ≡ failed)
      → P m
      → run_with c rounds fuel m found ≡ some last
      → P last
  unfolding run_with
  run_with-keeps rounds fuel m last (err f, t) ready h e = subst P (some-injective e) (
      moves_or_stays failed noted (may_fail m.state ready) (
        core m noted
          (record { state = refl; rules = refl; changes = refl; kill_switch_enabled = refl }) h))
    where
      noted : Manager
      noted = set_error (some (connect_failed f)) (record m { tunnel = t })
  run_with-keeps rounds fuel m last (ok bin, t) ready h e =
      run_loop-keeps _ rounds fuel 0 0 _ last (may_start m.state ready)
        (core m _
          (record { state = refl; rules = refl; changes = refl; kill_switch_enabled = refl }) h)
        e

  -- A run that starts in the state `disconnected` or `failed` keeps it.
  pub run-keeps :
      (disk : Disk) (rounds : ℕ → Round) (fuel : ℕ) (m last : Manager)
      → (m.state ≡ disconnected) ⊎ (m.state ≡ failed)
      → P m
      → run c disk rounds fuel m ≡ some last
      → P last
  unfolding run
  run-keeps disk rounds fuel m last ready h =
      if_cases (λ (o : Option Manager). o ≡ some last → P last) (is_expired c.expires_at c.today) _
        _
        (λ _ e. subst P (some-injective e) (
          moves_or_stays failed noted (may_fail m.state ready) (
            core m noted
              (record { state = refl; rules = refl; changes = refl; kill_switch_enabled = refl })
              h)))
        (λ _ e.
          run_with-keeps rounds fuel (set_attempt 0 m) last _ ready
            (core m _
              (record { state = refl; rules = refl; changes = refl; kill_switch_enabled = refl }) h)
            e)
    where
      noted : Manager
      noted = set_error (some (expired c.expires_at)) (set_attempt 0 m)
