-- ===== src/Server/RateLimit/Examples.antt =====
-- A run of the rate limiter, and its theorem on it.
use out_warp.Prelude.{str-ne, ◌≤◌, ◌≡◌, refl, filter, [], ◌∷◌, List, arith}
use out_warp.Prelude.Dict
use out_warp.Server.RateLimit.{
  hits_of, until_of, retry_after, recent, register_failure, reset, new_limiter,
}
use out_warp.Server.RateLimit.Count.{count_in}
use out_warp.Server.RateLimit.Throttle.{Event, failed, passed, failure_times, throttle}

all_open : Unit {0}
unfolding Dict.lookup Dict.insert Dict.remove filter hits_of until_of retry_after recent
    register_failure reset count_in
all_open = tt

-- Two failures lock the address out until 12; another address passes meanwhile.
abbrev events : List Event
events = failed 1 "10.0.0.1" ∷ failed 2 "10.0.0.1" ∷ passed 5 "10.0.0.2" ∷ failed 12 "10.0.0.1" ∷ []

locked :
    retry_after 5 "10.0.0.1"
      (register_failure 2 "10.0.0.1" (register_failure 1 "10.0.0.1" (new_limiter 2 10 10)))
    ≡ 7
unfolding all_open
locked = refl

throttle_example : count_in 1 11 (failure_times "10.0.0.1" events) ≤ 2
unfolding all_open
throttle_example =
    throttle 2 10 10 events "10.0.0.1" 1 10 (omega arith) (refl, (refl, (refl, tt)))
      (omega arith, (omega arith, (omega arith, (omega arith, tt))))
      (str-ne "10.0.0.2" "10.0.0.1" refl, tt) (omega arith) (omega arith)
