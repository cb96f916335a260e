-- ===== src/Client/Manager/Ends.antt =====
-- The worker gives up (`_run` of client/outwarp/tunnel.py).
use mathlib.Core.Path.{subst}
use out_warp.Prelude.{
  ℕ, zero, suc, ◌+◌, ◌≤◌, ◌<◌, ◌≡◌, ◌⊎◌, refl, ◌∙◌, Bool, false, Option, some, List, [], ◌∷◌,
  String, Result, ok, err, arith, any, Bool-cases, if_cases, inl, inr,
}
use out_warp.Client.Tunnel.State.{Tunnel, Failure, Outcome, returned, raised}
use out_warp.Client.Tunnel.Transport.{Disk}
use out_warp.Client.Tunnel.Rung.{ensure_wstunnel}
use out_warp.Client.Manager.{
  Setting, Manager, Watch, Round, WatchEnd, stopped, down, Next, halt, again, watch_over, back_off,
  after_failure, after_watch, after_success, after_connect, one_round, run_loop, run_with, run,
  set_state, set_phase, set_error, connect_failed, clean_up, set_attempt, attempt_state, is_expired,
  signature_of, is_transport_unavailable,
}

-- No session lasts for the stability window.
abbrev pub NeverStable : (ℕ → Round) → Type 0
NeverStable rounds = (i : ℕ) → any (λ (w : Watch). w.stable) (rounds i).watches ≡ false

watch_over-attempt :
    (ws : List Watch) (reset : Bool) (attempt : ℕ) (m : Manager)
    → any (λ (w : Watch). w.stable) ws ≡ false
    → (watch_over ws reset attempt m).1 ≡ attempt
unfolding watch_over any
watch_over-attempt [] reset attempt m h = refl
watch_over-attempt (w ∷ ws) reset attempt m h = elim (Bool-cases w.stable) [
  | inl long ↦ absurd (ground (arith, h, long))
  | inr short ↦ ground (arith, h, short, watch_over-attempt ws reset attempt m)
]

-- A round that goes on has counted one failure, below the limit.
Advances : Setting → ℕ → Next → Type 0
Advances c attempt (halt m) = Unit
Advances c attempt (again next m) = (next ≡ attempt + 1) × (next < c.max_attempts)

halt-Advances : (c : Setting) (attempt : ℕ) (m : Manager) → Advances c attempt (halt m)
unfolding Advances
halt-Advances c attempt m = tt

back_off-Advances :
    (c : Setting) (r : Round) (attempt next : ℕ) (m : Manager)
    → next ≡ attempt + 1
    → Advances c attempt (back_off c r next m)
unfolding back_off Advances
back_off-Advances c r attempt next m e = ground (arith, e)

after_failure-Advances :
    (c : Setting) (r : Round) (attempt : ℕ) (e : Failure) (m : Manager)
    → Advances c attempt (after_failure c r attempt e m)
unfolding after_failure
after_failure-Advances c r attempt e m =
    if_cases (Advances c attempt) (is_transport_unavailable e) _ _ (λ _. halt-Advances c attempt _)
      (λ _.
        if_cases (Advances c attempt) r.stop_at_failure _ _ (λ _. halt-Advances c attempt _)
          (λ _.
            back_off-Advances c r attempt (attempt + 1) (set_error (some (connect_failed e)) m)
              refl))

after_watch-Advances :
    (c : Setting) (r : Round) (attempt : ℕ) (w : WatchEnd × ℕ × Manager)
    → w.1 ≡ attempt
    → Advances c attempt (after_watch c r w)
unfolding after_watch
after_watch-Advances c r attempt (stopped, n, m) e = halt-Advances c attempt m
after_watch-Advances c r attempt (down, n, m) e =
    if_cases (Advances c attempt) r.stop_after_watch _ _ (λ _. halt-Advances c attempt _)
      (λ _.
        if_cases (Advances c attempt) m.auto_reconnect _ _
          (λ _. back_off-Advances c r attempt (n + 1) (clean_up c r m) (omega (arith, e)))
          (λ _. halt-Advances c attempt _))

after_connect-Advances :
    (c : Setting) (signature : String) (r : Round) (attempt : ℕ) (m : Manager)
    (o : Outcome × Tunnel)
    → any (λ (w : Watch). w.stable) r.watches ≡ false
    → Advances c attempt (after_connect c signature r attempt m o)
unfolding after_success
after_connect-Advances c signature r attempt m (raised e, t) h =
    after_failure-Advances c r attempt e _
after_connect-Advances c signature r attempt m (returned, t) h =
    after_watch-Advances c r attempt _ (watch_over-attempt r.watches false attempt _ h)

one_round-Advances :
    (c : Setting) (signature : String) (r : Round) (attempt : ℕ) (m : Manager)
    → any (λ (w : Watch). w.stable) r.watches ≡ false
    → Advances c attempt (one_round c signature r attempt m)
unfolding one_round
one_round-Advances c signature r attempt m h =
    if_cases (Advances c attempt) r.stop_before _ _ (λ _. halt-Advances c attempt m)
      (λ _.
        after_connect-Advances c signature r attempt
          (set_state c (attempt_state attempt) (set_phase "" m)) _ h)

pub Next-cases :
    (n : Next)
    → ((m : Manager) × (n ≡ halt m)) ⊎ ((attempt : ℕ) × (m : Manager) × (n ≡ again attempt m))
Next-cases (halt m) = inl (m, refl)
Next-cases (again attempt m) = inr (attempt, m, refl)

pub run_loop-halt :
    (c : Setting) (signature : String) (rounds : ℕ → Round) (fuel i attempt : ℕ) (m m1 : Manager)
    → one_round c signature (rounds i) attempt m ≡ halt m1
    → run_loop c signature rounds (suc fuel) i attempt m ≡ some m1
unfolding run_loop
run_loop-halt c signature rounds fuel i attempt m m1 e = rw (run_loop, e) refl

pub run_loop-again :
    (c : Setting) (signature : String) (rounds : ℕ → Round) (fuel i attempt next : ℕ)
    (m m1 : Manager)
    → one_round c signature (rounds i) attempt m ≡ again next m1
    → run_loop c signature rounds (suc fuel) i attempt m
      ≡ run_loop c signature rounds fuel (suc i) next m1
unfolding run_loop
run_loop-again c signature rounds fuel i attempt next m m1 e = rw (run_loop, e) refl

again-Advances :
    (c : Setting) (attempt next : ℕ) (m : Manager)
    → Advances c attempt (again next m)
    → (next ≡ attempt + 1) × (next < c.max_attempts)
unfolding Advances
again-Advances c attempt next m h = h

run_loop-ends :
    (c : Setting) (signature : String) (rounds : ℕ → Round) (fuel i attempt : ℕ) (m : Manager)
    → NeverStable rounds
    → 0 < fuel
    → c.max_attempts ≤ attempt + fuel
    → (m1 : Manager) × (run_loop c signature rounds fuel i attempt m ≡ some m1)
run_loop-ends c signature rounds zero i attempt m h pos enough = absurd (omega arith)
run_loop-ends c signature rounds (suc fuel) i attempt m h pos enough =
    elim (Next-cases (one_round c signature (rounds i) attempt m)) [
      | inl (m1, e) ↦ (m1, run_loop-halt c signature rounds fuel i attempt m m1 e)
      | inr (next, m1, e) ↦
          let (one_more, below) = again-Advances c attempt next m1 (
            subst (Advances c attempt) e
              (one_round-Advances c signature (rounds i) attempt m (h i))) in
          let (last, ends) =
            run_loop-ends c signature rounds fuel (suc i) next m1 h (omega arith) (omega arith) in
          (last, run_loop-again c signature rounds fuel i attempt next m m1 e ∙ ends)
    ]

-- The worker returns.
Returns : Option Manager → Type 0
Returns o = (m : Manager) × (o ≡ some m)

run_with-ends :
    (c : Setting) (rounds : ℕ → Round) (fuel : ℕ) (m : Manager)
    (found : Result Failure String × Tunnel)
    → NeverStable rounds
    → 0 < fuel
    → c.max_attempts ≤ fuel
    → Returns (run_with c rounds fuel m found)
unfolding run_with Returns
run_with-ends c rounds fuel m (err e, t) h pos enough = (_, refl)
run_with-ends c rounds fuel m (ok _, t) h pos enough =
    run_loop-ends c (signature_of c) rounds fuel 0 0 _ h pos (omega arith)

-- Where no session lasts for the stability window, the worker returns after at most `max_attempts`
-- rounds (one, where the limit is zero), whatever the connections, the drops and the waits bring.
pub run-ends :
    (c : Setting) (disk : Disk) (rounds : ℕ → Round) (fuel : ℕ) (m : Manager)
    → NeverStable rounds
    → 0 < fuel
    → c.max_attempts ≤ fuel
    → (m1 : Manager) × (run c disk rounds fuel m ≡ some m1)
unfolding run Returns
run-ends c disk rounds fuel m h pos enough =
    if_cases Returns (is_expired c.expires_at c.today) _ _ (λ _. (_, refl))
      (λ _.
        run_with-ends c rounds fuel (set_attempt 0 m) (ensure_wstunnel disk m.tunnel) h pos enough)
