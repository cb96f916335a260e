-- ===== src/Server/Panel.antt =====
-- The web panel's sign-in, sign-out and access check (`_handle_auth`, `_handle_logout`, `_authed` and
-- the guards of `_handle_api` of server/outwarp_server/web_server.py). Headers and bodies are what the
-- request parser makes of them; `scrypt`, `sha256` and `token_digest` are as in AdminToken and Sessions.
pub mod Guess
pub mod Access
mod Examples
use out_warp.Prelude.{
  ℕ, String, Bool, true, false, Option, none, some, List, [], ◌∷◌, ltb, if◌then◌else◌,
}
use out_warp.Server.AdminToken.{Scrypt, verify_token}
use out_warp.Server.RateLimit.{RateLimiter, retry_after, register_failure, reset}
use out_warp.Server.Sessions.{SessionStore, create, destroy, validate}

pub record Panel : Type 0 where
  pub limiter : RateLimiter
  pub sessions : SessionStore

-- the JSON body of POST /auth
pub data Body : Type 0 where
  malformed : Body
  credentials : (token : String) (remember : Bool) → Body

pub data AuthReply : Type 0 where
  too_many : (wait : ℕ) → AuthReply
  bad_request unauthorized : AuthReply
  signed_in : (sid : String) → AuthReply

pub data ApiReply : Type 0 where
  unauthenticated missing_header unknown_method dispatched : ApiReply

module _ (scrypt : Scrypt) (sha256 token_digest : String → String) where
  answer : ℕ → String → Body → String → Panel → AuthReply × Panel
  answer now ip malformed sid p = (bad_request, p)
  answer now ip (credentials token remember) sid p =
      if verify_token scrypt p.sessions.token_file token
      then (
        signed_in sid,
        record p {
          limiter = reset ip p.limiter;
          sessions = create sha256 token_digest now sid remember p.sessions;
        },
      )
      else (unauthorized, record p { limiter = register_failure now ip p.limiter })

  -- `sid` is the id that a successful sign-in draws.
  unfoldable pub handle_auth : ℕ → String → Body → String → Panel → AuthReply × Panel
  unfolding answer
  handle_auth now ip body sid p =
      let wait = retry_after now ip p.limiter in
      if ltb 0 wait then (too_many wait, p) else answer now ip body sid p

module _ (sha256 token_digest : String → String) where
  unfoldable pub handle_logout : Option String → Panel → Panel
  handle_logout cookie p = record p { sessions = destroy sha256 token_digest cookie p.sessions }

  unfoldable pub authed : ℕ → Option String → Panel → Bool × Panel
  authed now cookie p =
      let (is_open, s) = validate sha256 token_digest now cookie p.sessions in
      (is_open, record p { sessions = s })

  -- `has_header` is the panel header's presence, `allowed` whether the method is in the list.
  unfoldable pub guard_api : ℕ → Option String → Bool → Bool → Panel → ApiReply × Panel
  unfolding authed
  guard_api now cookie has_header allowed p =
      let (is_open, q) = authed now cookie p in
      (
        if is_open
            then (if has_header
                then (if allowed then dispatched else unknown_method)
                else missing_header)
            else unauthenticated,
        q,
      )
