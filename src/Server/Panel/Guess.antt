-- ===== src/Server/Panel/Guess.antt =====
-- How often an address can guess the admin token at `_handle_auth`
-- (server/outwarp_server/web_server.py).
use out_warp.Prelude.{ℕ, ◌≤◌, ◌≢◌, String, List, [], ◌∷◌, str_eq, if◌then◌else◌}
use out_warp.Server.AdminToken.{Scrypt}
use out_warp.Server.RateLimit.Throttle.{Event, failed, passed}
use out_warp.Server.Panel.{
  Panel, Body, AuthReply, too_many, bad_request, unauthorized, signed_in, handle_auth,
}

-- One POST /auth: its time, its address, its body, and the id that a success would draw.
pub record Attempt : Type 0 where
  pub time : ℕ
  pub ip : String
  pub body : Body
  pub sid : String

abbrev pub AttemptsOrdered : ℕ → List Attempt → Type 0
AttemptsOrdered from [] = Unit
AttemptsOrdered from (a ∷ rest) = (from ≤ a.time) × AttemptsOrdered a.time rest

abbrev pub Log : Type 0
Log = List (ℕ × String × AuthReply)

-- The times at which `ip` was told that its token is wrong.
abbrev pub unauthorized_times : String → Log → List ℕ
unauthorized_times ip [] = []
unauthorized_times ip ((t, j, unauthorized) ∷ log) =
    let later = unauthorized_times ip log in if str_eq j ip then t ∷ later else later
unauthorized_times ip (r ∷ log) = unauthorized_times ip log

abbrev pub NeverSignsIn : String → Log → Type 0
NeverSignsIn ip [] = Unit
NeverSignsIn ip ((t, j, signed_in sid) ∷ log) = (j ≢ ip) × NeverSignsIn ip log
NeverSignsIn ip (r ∷ log) = NeverSignsIn ip log

abbrev event_of : ℕ → String → AuthReply → List Event → List Event
event_of t ip unauthorized es = failed t ip ∷ es
event_of t ip (signed_in sid) es = passed t ip ∷ es
event_of t ip bad_request es = es
event_of t ip (too_many wait) es = es

abbrev events_of : Log → List Event
events_of [] = []
events_of ((t, ip, reply) ∷ log) = event_of t ip reply (events_of log)

module _ (scrypt : Scrypt) (sha256 token_digest : String → String) where
  unfoldable pub replies : Panel → List Attempt → Log
  replies p [] = []
  replies p (a ∷ rest) =
      let (reply, q) = handle_auth scrypt sha256 token_digest a.time a.ip a.body a.sid p in
      (a.time, a.ip, reply) ∷ replies q rest
