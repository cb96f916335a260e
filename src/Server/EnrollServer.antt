-- ===== src/Server/EnrollServer.antt =====
-- The enrolment listener, `do_POST` and `_redeem` of server/outwarp_server/enroll_server.py. A request
-- is what the HTTP parser makes of it; `sha256` is the hash of a token, in hexadecimal.
-- The reply to an unexpected exception is left out.
pub mod Laws
mod Examples
use Prim.Native.Char.{Char, code}
use Prim.Native.String.{◌++◌}
use out_warp.Prelude.{
  ℕ, zero, suc, String, Bool, true, false, not, ◌&&◌, ◌||◌, Option, none, some, List, [], ◌∷◌, ltb,
  leb, ◌==◌, str_eq, if◌then◌else◌, Result, ok, err,
}
use out_warp.Server.AdminToken.{Scrypt}
use out_warp.Server.RateLimit.{RateLimiter, new_limiter, retry_after, register_failure, reset}
use out_warp.Server.Enrollment as Enrollment
use out_warp.Server.Enrollment.{EnrollmentToken, EnrollmentError}
use out_warp.Server.ClientStore.{ClientEntry}
use out_warp.Server.Operations.{Outside, Server, Failure, complete_enrollment}

pub record Listener : Type 0 where
  pub server : Server
  pub rate_limiter : RateLimiter
  pub token_limiter : RateLimiter

-- the limiters that `serve` starts with
abbrev pub new_listener : Server → Listener
new_listener server = record {
  server = server;
  rate_limiter = new_limiter 20 300 60;
  token_limiter = new_limiter 3 300 60;
}

pub data Body : Type 0 where
  unreadable : Body
  fields : (token client_public_key : String) → Body

pub data Reply : Type 0 where
  not_found bad_request : Reply
  too_many : (wait : ℕ) → Reply
  forbidden : EnrollmentError → Reply
  conflict : Failure → Reply
  enrolled : (name client_address : String) (peer_live : Bool) → Reply

is_base64 : ℕ → Bool
is_base64 c =
    leb b'A' c && leb c b'Z'
    || leb b'a' c && leb c b'z'
    || leb b'0' c && leb c b'9'
    || c == b'+'
    || c == b'/'

occurs : ℕ → String → Bool
occurs c String.[] = false
occurs c (String.◌∷◌ d s) = c == code d || occurs c s

-- `=$` also matches before a line feed that ends the text.
ends_key : String → Bool
ends_key (String.◌∷◌ c s) = code c == b'=' && (str_eq s "" || str_eq s "\n")
ends_key String.[] = false

last_digit : String → Bool
unfolding occurs ends_key
last_digit String.[] = false
last_digit (String.◌∷◌ c s) = occurs (code c) "AEIMQUYcgkosw048" && ends_key s

key_digits : ℕ → String → Bool
unfolding is_base64 last_digit
key_digits zero s = last_digit s
key_digits (suc n) String.[] = false
key_digits (suc n) (String.◌∷◌ c s) = is_base64 (code c) && key_digits n s

-- the pattern _WG_KEY_RE
unfoldable pub is_wg_key : String → Bool
unfolding key_digits
is_wg_key s = key_digits 42 s

take_chars : ℕ → String → String
take_chars zero s = ""
take_chars (suc n) String.[] = ""
take_chars (suc n) (String.◌∷◌ c s) = String.◌∷◌ c (take_chars n s)

module _ (scrypt : Scrypt) (sha256 : String → String) where
  unfoldable pub token_bucket : String → String
  unfolding take_chars
  token_bucket token = "tok:" ++ take_chars 16 (sha256 token)

  unfoldable pub register_failures : ℕ → String → String → Listener → Listener
  register_failures now ip token_key l = record l {
    rate_limiter = register_failure now ip l.rate_limiter;
    token_limiter = register_failure now token_key l.token_limiter;
  }

  -- the registration of a redeemed token
  unfoldable pub admit_client :
      Outside → String → String → String → EnrollmentToken → Listener → Reply × Listener
  admit_client o ip public_key token_key e l =
      let (reply, server) =
        complete_enrollment o l.server.config e.client_name public_key l.server in
      elim reply [
        | err failure ↦ (conflict failure, record l { server = server })
        | ok (client, hot) ↦ (
          enrolled client.name client.address hot,
          record {
            server = server;
            rate_limiter = reset ip l.rate_limiter;
            token_limiter = reset token_key l.token_limiter;
          },
        )
      ]

  unfoldable pub redeem : Outside → String → String → String → String → Listener → Reply × Listener
  redeem o ip token public_key token_key l =
      let (result, tokens) = Enrollment.redeem scrypt o.now token l.server.tokens in
      let stored = record l { server = record l.server { tokens = tokens } } in
      elim result [
        | err e ↦ (forbidden e, register_failures o.now ip token_key stored)
        | ok e ↦ admit_client o ip public_key token_key e stored
      ]

  unfoldable pub answer : Outside → String → Body → Listener → Reply × Listener
  answer o ip unreadable l = (bad_request, l)
  answer o ip (fields token public_key) l =
      let wait = retry_after o.now (token_bucket token) l.token_limiter in
      if not (is_wg_key public_key)
      then (bad_request, l)
      else if ltb 0 wait
      then (too_many wait, l)
      else redeem o ip token public_key (token_bucket token) l

  -- `is_route` is whether the path is the listener's.
  unfoldable pub do_post : Outside → (is_route : Bool) → String → Body → Listener → Reply × Listener
  do_post o false ip body l = (not_found, l)
  do_post o true ip body l =
      let wait = retry_after o.now ip l.rate_limiter in
      if ltb 0 wait then (too_many wait, l) else answer o ip body l
