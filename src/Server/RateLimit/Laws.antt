-- ===== src/Server/RateLimit/Laws.antt =====
-- What each method of `RateLimiter` (server/outwarp_server/web_auth.py) does to every address.
use out_warp.Prelude.{
  ℕ, ◌+◌, ◌≤◌, ◌≡◌, ◌↔◌, refl, String, [], arith, leb, length, str_eq, if◌then◌else◌,
}
use out_warp.Prelude.Dict
use out_warp.Prelude.Dict.{lookup-insert, lookup-remove}
use out_warp.Server.RateLimit.{
  RateLimiter, hits_of, until_of, retry_after, recent, register_failure, reset,
}

module _ (now : ℕ) (ip : String) (l : RateLimiter) (j : String) where
  pub hits_of-register_failure : hits_of (register_failure now ip l) j ≡ (
      if str_eq ip j
      then (if leb l.max_failures (length (recent now ip l)) then [] else recent now ip l)
      else hits_of l j)
  unfolding hits_of register_failure
  hits_of-register_failure = ground (
    arith,
    lookup-insert ip j [] (Dict.insert ip (recent now ip l) l.failures),
    lookup-insert ip j (recent now ip l) l.failures,
  )

  pub until_of-register_failure : until_of (register_failure now ip l) j ≡ (
      if str_eq ip j
      then (if leb l.max_failures (length (recent now ip l)) then now + l.lockout else until_of l j)
      else until_of l j)
  unfolding until_of register_failure
  until_of-register_failure = ground (arith, lookup-insert ip j (now + l.lockout) l.locked_until)

module _ (ip : String) (l : RateLimiter) (j : String) where
  pub hits_of-reset : hits_of (reset ip l) j ≡ (if str_eq ip j then [] else hits_of l j)
  unfolding hits_of reset
  hits_of-reset = ground (arith, lookup-remove ip j l.failures)

  pub until_of-reset : until_of (reset ip l) j ≡ (if str_eq ip j then 0 else until_of l j)
  unfolding until_of reset
  until_of-reset = ground (arith, lookup-remove ip j l.locked_until)

-- The settings do not change.
pub record SameSettings (l m : RateLimiter) : Type 0 where
  pub max_same : m.max_failures ≡ l.max_failures
  pub window_same : m.window ≡ l.window
  pub lockout_same : m.lockout ≡ l.lockout

pub register_failure-SameSettings :
    (now : ℕ) (ip : String) (l : RateLimiter) → SameSettings l (register_failure now ip l)
unfolding register_failure
register_failure-SameSettings now ip l = ground arith

pub reset-SameSettings : (ip : String) (l : RateLimiter) → SameSettings l (reset ip l)
unfolding reset
reset-SameSettings ip l = record { max_same = refl; window_same = refl; lockout_same = refl }

-- An address waits exactly while its lockout lasts.
pub retry_after-eq-zero_iff :
    (now : ℕ) (ip : String) (l : RateLimiter) → (retry_after now ip l ≡ 0) ↔ (until_of l ip ≤ now)
unfolding retry_after
retry_after-eq-zero_iff now ip l = ground arith
