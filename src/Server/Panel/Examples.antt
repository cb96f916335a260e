-- ===== src/Server/Panel/Examples.antt =====
-- Runs of the panel, and its theorems at them.
use out_warp.Prelude.{
  ℕ, ◌+◌, ◌≡◌, refl, String, true, false, none, some, List, [], ◌∷◌, leb, filter, if◌then◌else◌,
  str-ne,
}
use out_warp.Prelude.Text.{str_len}
use out_warp.Prelude.Dict
use out_warp.Prelude.Hex.{from_hex, bytes_eq}
use out_warp.Server.AdminToken.{Scrypt, scrypt_params, verify_token, params_or_default}
use out_warp.Server.RateLimit.{
  new_limiter, hits_of, until_of, retry_after, recent, register_failure, reset,
}
use out_warp.Server.RateLimit.Count.{count_in}
use out_warp.Server.Sessions.{missing, ttl, create, token_fingerprint, save_locked}
use out_warp.Server.Panel.{
  Panel, credentials, signed_in, unauthenticated, dispatched, handle_auth, handle_logout, guard_api,
}
use out_warp.Server.Panel.Access.{sign_in_life}
use out_warp.Server.Panel.Guess.{Attempt, replies}

all_open : Unit {0}
unfolding Dict.lookup Dict.insert Dict.remove filter hits_of until_of retry_after recent
    register_failure reset count_in replies handle_auth verify_token params_or_default from_hex
    bytes_eq create token_fingerprint save_locked
all_open = tt

-- scrypt gives one byte, the secret's length.
abbrev scrypt : Scrypt
scrypt secret salt params = some (str_len secret ∷ [])

abbrev same : String → String
same s = s

-- A panel whose token has 5 characters, with no sessions, that locks out after two failures.
abbrev panel : Panel
panel = record {
  limiter = new_limiter 2 10 10;
  sessions = record {
    sessions = [];
    persistent = true;
    writable = true;
    file = missing;
    token_file =
        some (record { stamp = 1; salt = some "00"; hash = some "05"; scrypt = scrypt_params });
    fp_cache = none;
  };
}

abbrev signed_panel : Panel
signed_panel = (handle_auth scrypt same same 3 "10.0.0.1" (credentials "token" false) "id" panel).1

sign_in :
    handle_auth scrypt same same 3 "10.0.0.1" (credentials "token" false) "id" panel
    ≡ (signed_in "id", signed_panel)
unfolding all_open
sign_in = refl

sign_in_life_example :
    ((guard_api same same 50 (some "id") true true signed_panel).0
      ≡ (if leb 50 (3 + ttl false) then dispatched else unauthenticated))
    × ((guard_api same same 50
          (some "id")
          true
          true
          (handle_logout same same (some "id") signed_panel)).0
        ≡ unauthenticated)
sign_in_life_example =
    sign_in_life scrypt same same 3 "10.0.0.1" "token" false "id" panel signed_panel 50 tt
      (str-ne "id" "" refl) sign_in

abbrev guess : ℕ → Attempt
guess t = record { time = t; ip = "10.0.0.1"; body = credentials "no" false; sid = "id" }

abbrev guesses : List Attempt
guesses = guess 1 ∷ guess 2 ∷ guess 5 ∷ []
