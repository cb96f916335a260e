-- ===== src/Server/RateLimit/Throttle.antt =====
-- How many failures a `RateLimiter` (server/outwarp_server/web_auth.py) lets through: the guards of its
-- callers make a failure count only when `retry_after` is 0.
use out_warp.Prelude.{
  ℕ, ◌+◌, ◌≤◌, ◌<◌, ◌≡◌, ◌≢◌, refl, ap, String, List, [], ◌∷◌, arith, ltb, leb, length, str_eq,
  str_eq-false, ◌∙◌, eq_iff, Bool-cases, inl, inr, if◌then◌else◌,
}
use text.Mathlib.TextPositions.{eq_refl}
use mathlib.Core.Path.{subst}
use out_warp.Prelude.Dict
use out_warp.Server.RateLimit.{
  RateLimiter, new_limiter, hits_of, until_of, retry_after, recent, register_failure, reset,
}
use out_warp.Server.RateLimit.Count.{
  count_in, count_from, count_from-le-length, AllLe, AllLe-mono, count_from-AllLe, recent_past,
  recent_count,
}
use out_warp.Server.RateLimit.Laws.{
  hits_of-register_failure, until_of-register_failure, hits_of-reset, until_of-reset,
  register_failure-SameSettings, reset-SameSettings, SameSettings, retry_after-eq-zero_iff,
}

-- What a caller reports to the limiter.
pub data Event : Type 0 where
  failed passed : ℕ → String → Event

abbrev pub time_of : Event → ℕ
time_of (failed t ip) = t
time_of (passed t ip) = t

-- The limiter after the events, each failure of which came when its address was not locked out.
abbrev pub IsTrace : RateLimiter → List Event → Type 0
IsTrace l [] = Unit
IsTrace l (failed t ip ∷ es) = (retry_after t ip l ≡ 0) × IsTrace (register_failure t ip l) es
IsTrace l (passed t ip ∷ es) = IsTrace (reset ip l) es

-- The clock does not go back.
abbrev pub IsOrdered : ℕ → List Event → Type 0
IsOrdered from [] = Unit
IsOrdered from (e ∷ es) = (from ≤ time_of e) × IsOrdered (time_of e) es

abbrev pub NeverPasses : String → List Event → Type 0
NeverPasses ip [] = Unit
NeverPasses ip (failed t j ∷ es) = NeverPasses ip es
NeverPasses ip (passed t j ∷ es) = (j ≢ ip) × NeverPasses ip es

-- The times of the failures of one address.
abbrev pub failure_times : String → List Event → List ℕ
failure_times ip [] = []
failure_times ip (failed t j ∷ es) =
    let rest = failure_times ip es in if str_eq j ip then t ∷ rest else rest
failure_times ip (passed t j ∷ es) = failure_times ip es

-- Nothing that happens at `e` or later counts.
count_in-late :
    (ip : String) (s e from : ℕ) (es : List Event)
    → IsOrdered from es
    → e ≤ from
    → count_in s e (failure_times ip es) ≡ 0
unfolding count_in
count_in-late ip s e from [] o h = refl
count_in-late ip s e from (failed t j ∷ es) o h =
    ground (arith, count_in-late ip s e t es o.1 (omega arith))
count_in-late ip s e from (passed t j ∷ es) o h = count_in-late ip s e t es o.1 (omega arith)

-- Nothing is let through before the end of a lockout.
count_in-locked :
    (ip : String) (s e from : ℕ) (l : RateLimiter) (es : List Event)
    → IsTrace l es
    → IsOrdered from es
    → NeverPasses ip es
    → e ≤ until_of l ip
    → count_in s e (failure_times ip es) ≡ 0
unfolding count_in
count_in-locked ip s e from l [] tr o np h = refl
count_in-locked ip s e from l (failed t j ∷ es) tr o np h = elim (Bool-cases (str_eq j ip)) [
  | inl same ↦
      let past : until_of l j ≤ t = (retry_after-eq-zero_iff t j l).0 tr.0 in
      ground (arith, eq_iff j ip, past, count_in-late ip s e t es o.1)
  | inr other ↦ rw other (
      count_in-locked ip s e t (register_failure t j l) es tr.1 o.1 np
        (rw (until_of-register_failure t j l ip, other) h))
]
count_in-locked ip s e from l (passed t j ∷ es) tr o np h =
    count_in-locked ip s e t (reset j l) es tr o.1 np.1
      (rw (until_of-reset j l ip, str_eq-false j ip np.0) h)

-- The state of one address between two events: its hits are in the past, and fewer than the limit.
record IsBelow (ip : String) (from : ℕ) (l : RateLimiter) : Type 0 where
  past : AllLe from (hits_of l ip)
  few : length (hits_of l ip) < l.max_failures

module _ (ip : String) (s e window lockout : ℕ) (inside : e ≤ s + window)
    (shorter : e ≤ s + lockout) where
  -- One failure of the address itself, given the bound for what follows it.
  own_failure :
      (from t : ℕ) (l : RateLimiter) (es : List Event)
      → IsTrace l (failed t ip ∷ es)
      → IsOrdered from (failed t ip ∷ es)
      → NeverPasses ip es
      → IsBelow ip from l
      → l.window ≡ window
      → l.lockout ≡ lockout
      → (IsBelow ip t (register_failure t ip l)
          → count_in s e (failure_times ip es) + count_from s (hits_of (register_failure t ip l) ip)
            ≤ l.max_failures)
      → count_in s e (t ∷ failure_times ip es) + count_from s (hits_of l ip) ≤ l.max_failures
  unfolding count_in
  own_failure from t l es trace o np b w k ih =
      elim (Bool-cases (leb l.max_failures (length (recent t ip l)))) [
        | inl full ↦
            let hits : hits_of (register_failure t ip l) ip ≡ [] =
              rw (hits_of-register_failure t ip l ip, eq_refl ip, full) in
            let until : until_of (register_failure t ip l) ip ≡ t + l.lockout =
              rw (until_of-register_failure t ip l ip, eq_refl ip, full) in
            let below : IsBelow ip t (register_failure t ip l) = record {
              past = rw hits tt;
              few = rw (hits, frame.max_same) (omega (arith, b.few));
            } in
            elim (Bool-cases (leb s t)) [
              | inl inside_span ↦
                  let locked =
                    count_in-locked ip s e t (register_failure t ip l) es trace.1 o.1 np
                      (rw until (ground arith)) in
                  ground (arith, locked, b.few, count_from-le-length s (hits_of l ip))
              | inr before ↦
                  let none_left = count_from-AllLe s from (hits_of l ip) (ground arith) b.past in
                  ground (arith, none_left, ih below)
            ]
        | inr room ↦
            let hits : hits_of (register_failure t ip l) ip ≡ recent t ip l =
              rw (hits_of-register_failure t ip l ip, eq_refl ip, room) in
            let below : IsBelow ip t (register_failure t ip l) = record {
              past = rw hits (recent_past from t ip l o.0 b.past);
              few = rw (hits, frame.max_same) (ground arith);
            } in
            elim (Bool-cases (ltb t e)) [
              | inl inside_span ↦
                  ground
                    (arith, ap (count_from s) hits, ih below, recent_count s t ip l (ground arith))
              | inr after ↦ ground (
                arith,
                count_in-late ip s e t es o.1 (ground arith),
                b.few,
                count_from-le-length s (hits_of l ip),
              )
            ]
      ]
    where
      frame : SameSettings l (register_failure t ip l)
      frame = register_failure-SameSettings t ip l

  count_in-le :
      (from : ℕ) (l : RateLimiter) (es : List Event)
      → IsTrace l es
      → IsOrdered from es
      → NeverPasses ip es
      → IsBelow ip from l
      → l.window ≡ window
      → l.lockout ≡ lockout
      → count_in s e (failure_times ip es) + count_from s (hits_of l ip) ≤ l.max_failures
  unfolding count_in
  count_in-le from l [] tr o np b w k = omega (arith, count_from-le-length s (hits_of l ip), b.few)
  count_in-le from l (failed t j ∷ es) tr o np b w k = elim (Bool-cases (str_eq j ip)) [
    | inl same ↦
        let p : j ≡ ip = (eq_iff j ip).0 same in
        let trace = subst (λ (h : String). IsTrace l (failed t h ∷ es)) p tr in
        let frame = register_failure-SameSettings t ip l in
        rw same (
          own_failure from t l es trace o np b w k (λ below. ground (
            arith,
            frame,
            count_in-le t (register_failure t ip l) es trace.1 o.1 np below (frame.window_same ∙ w)
                (frame.lockout_same ∙ k),
          )))
    | inr other ↦
        let frame = register_failure-SameSettings t j l in
        let hits : hits_of (register_failure t j l) ip ≡ hits_of l ip =
          ground (arith, hits_of-register_failure t j l ip) in
        let below : IsBelow ip t (register_failure t j l) = record {
          past = rw hits (AllLe-mono from t _ o.0 b.past);
          few = rw (hits, frame.max_same) b.few;
        } in
        ground (
          arith,
          count_in-le t (register_failure t j l) es tr.1 o.1 np below (frame.window_same ∙ w)
              (frame.lockout_same ∙ k),
          frame,
          hits,
        )
  ]
  count_in-le from l (passed t j ∷ es) tr o np b w k =
      let frame = reset-SameSettings j l in
      let hits : hits_of (reset j l) ip ≡ hits_of l ip =
        rw (hits_of-reset j l ip, str_eq-false j ip np.0) in
      let below : IsBelow ip t (reset j l) = record {
        past = rw hits (AllLe-mono from t _ o.0 b.past);
        few = rw (hits, frame.max_same) b.few;
      } in
      ground (
        arith,
        count_in-le t (reset j l) es tr o.1 np.1 below (frame.window_same ∙ w)
            (frame.lockout_same ∙ k),
        frame,
        hits,
      )

-- From a new limiter on, in every span of time no longer than the window and the lockout, an address
-- that does not pass gets at most `max_failures` failures through.
pub throttle :
    (max_failures window lockout : ℕ) (es : List Event) (ip : String) (s span : ℕ)
    → 0 < max_failures
    → IsTrace (new_limiter max_failures window lockout) es
    → IsOrdered 0 es
    → NeverPasses ip es
    → span ≤ window
    → span ≤ lockout
    → count_in s (s + span) (failure_times ip es) ≤ max_failures
unfolding hits_of Dict.lookup
throttle max_failures window lockout es ip s span pos trace ordered never w k =
    let start = new_limiter max_failures window lockout in
    let below : IsBelow ip 0 start = record { past = tt; few = pos } in
    omega (
      arith,
      count_in-le ip s (s + span) window lockout (omega arith) (omega arith) 0 start es trace
          ordered never below refl refl,
    )
