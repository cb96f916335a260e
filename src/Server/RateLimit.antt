-- ===== src/Server/RateLimit.antt =====
-- `RateLimiter` of server/outwarp_server/web_auth.py. Times are whole clock ticks, and `now - window`
-- is moved to the other side of its comparison.
pub mod Laws
pub mod Count
pub mod Throttle
mod Examples
use out_warp.Prelude.{
  ℕ, ◌+◌, ◌-◌, String, Option, none, some, List, [], ◌∷◌, ◌++◌, ltb, leb, length, filter,
  if◌then◌else◌,
}
use out_warp.Prelude.Dict
use out_warp.Prelude.Dict.{Dict}

pub record RateLimiter : Type 0 where
  pub max_failures : ℕ
  pub window : ℕ
  pub lockout : ℕ
  pub failures : Dict (List ℕ)
  pub locked_until : Dict ℕ

-- RateLimiter(max_failures, window, lockout)
abbrev pub new_limiter : ℕ → ℕ → ℕ → RateLimiter
new_limiter max_failures window lockout = record {
  max_failures = max_failures;
  window = window;
  lockout = lockout;
  failures = [];
  locked_until = [];
}

abbrev pub or_empty {ℓ} : {A : Type ℓ} → Option (List A) → List A
or_empty none = []
or_empty (some xs) = xs

abbrev pub or_zero : Option ℕ → ℕ
or_zero none = 0
or_zero (some n) = n

-- self._failures.get(ip, [])
unfoldable pub hits_of : RateLimiter → String → List ℕ
hits_of l ip = or_empty (Dict.lookup ip l.failures)

-- self._locked_until.get(ip, 0.0)
unfoldable pub until_of : RateLimiter → String → ℕ
until_of l ip = or_zero (Dict.lookup ip l.locked_until)

unfoldable pub retry_after : ℕ → String → RateLimiter → ℕ
retry_after now ip l = let until = until_of l ip in if ltb now until then until - now else 0

-- the failures of `ip` inside the window, with the new one
unfoldable pub recent : ℕ → String → RateLimiter → List ℕ
recent now ip l = filter (λ t. ltb now (t + l.window)) (hits_of l ip) ++ now ∷ []

unfoldable pub register_failure : ℕ → String → RateLimiter → RateLimiter
register_failure now ip l =
    let hits = recent now ip l in
    if leb l.max_failures (length hits)
    then record l {
      locked_until = Dict.insert ip (now + l.lockout) l.locked_until;
      failures = Dict.insert ip [] (Dict.insert ip hits l.failures);
    }
    else record l { failures = Dict.insert ip hits l.failures }

unfoldable pub reset : String → RateLimiter → RateLimiter
reset ip l = record l {
  failures = Dict.remove ip l.failures;
  locked_until = Dict.remove ip l.locked_until;
}
