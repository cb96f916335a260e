-- ===== src/Client/Config/Optional.antt =====
-- The sections of a profile that may be missing (`_parse_enrollment`, `_parse_reconnect` and
-- `_parse_network` of client/outwarp/config.py). `lower` stands for `str.lower`.
use Prim.Native.Char.{code}
use out_warp.Prelude.{
  ℕ, String, Bool, true, false, not, ◌&&◌, ◌||◌, Option, none, some, List, [], ◌∷◌, Result, ok, err,
  ◌>>=◌, leb, ◌==◌, str_eq,
}
use out_warp.Server.ClientNames.{strip}
use out_warp.Client.Config.Json.{
  Value, null, boolean, number, minus, real, text, array, object, Items, nil, cons, Fields,
  ConfigError, invalid, get_default, ensure, as_object, in_range, Python, to_text, to_int,
}
use out_warp.Client.Config.Sections.{EnrollmentConfig, ReconnectConfig, as_items, passes_if_given}

abbrev pub is_hostile_mode : String → Bool
is_hostile_mode s = str_eq s "auto" || str_eq s "on" || str_eq s "off"

abbrev pub default_reconnect : ReconnectConfig
default_reconnect = record { max_attempts = 5; delays_seconds = 5 ∷ 10 ∷ 20 ∷ 30 ∷ 60 ∷ [] }

abbrev default_delays : Value
default_delays = array (
    cons (number 5) (cons (number 10) (cons (number 20) (cons (number 30) (cons (number 60) nil)))))

-- `isinstance(d, dict)` where the section may be left out for anything else
abbrev pub fields_of : Value → Option Fields
fields_of (object d) = some d
fields_of null = none
fields_of (boolean b) = none
fields_of (number n) = none
fields_of (minus n) = none
fields_of (real s) = none
fields_of (text s) = none
fields_of (array xs) = none

abbrev pub text_of : Value → Option String
text_of (text s) = some s
text_of (object d) = none
text_of null = none
text_of (boolean b) = none
text_of (number n) = none
text_of (minus n) = none
text_of (real s) = none
text_of (array xs) = none

abbrev is_boolean : Value → Bool
is_boolean (boolean b) = true
is_boolean (object d) = false
is_boolean null = false
is_boolean (text s) = false
is_boolean (number n) = false
is_boolean (minus n) = false
is_boolean (real s) = false
is_boolean (array xs) = false

-- the text starts with `p`
unfoldable pub starts_with : String → String → Bool
starts_with String.[] s = true
starts_with (String.◌∷◌ c p) String.[] = false
starts_with (String.◌∷◌ c p) (String.◌∷◌ d s) = code c == code d && starts_with p s

abbrev pub is_http_url : String → Bool
is_http_url s = starts_with "https://" s || starts_with "http://" s

-- `_parse_enrollment`
unfoldable pub parse_enrollment : Python → Value → Result ConfigError EnrollmentConfig
unfolding starts_with
parse_enrollment py v = do
  d ← as_object "enrollment" v
  let token = to_text py (get_default d "token" (text ""))
  let url = to_text py (get_default d "url" (text ""))
  let port = get_default d "remote_port" (number 0)
  _ ← ensure (not (is_boolean port)) "enrollment.remote_port"
  remote_port ← in_range 0 65535 "enrollment.remote_port" port
  _ ← ensure (not (not (str_eq token "") && str_eq url "" && remote_port == 0)) "enrollment.token"
  _ ← ensure (passes_if_given is_http_url url) "enrollment.url"
  ok (record { token = token; url = url; remote_port = remote_port })

-- `int(…)` that does not raise
abbrev pub int_or : String → Option ℕ → Result ConfigError ℕ
int_or label none = err (invalid label)
int_or label (some n) = ok n

-- the delays, each at least 1
unfoldable pub parse_delays : Python → Items → Result ConfigError (List ℕ)
parse_delays py nil = ok []
parse_delays py (cons v xs) = do
  n ← int_or "reconnect.delays_seconds" (to_int py v)
  _ ← ensure (leb 1 n) "reconnect.delays_seconds"
  rest ← parse_delays py xs
  ok (n ∷ rest)

-- the section of a profile that has one
unfoldable pub reconnect_fields : Python → Fields → Result ConfigError ReconnectConfig
unfolding parse_delays
reconnect_fields py d = do
  attempts ← int_or "reconnect.max_attempts" (to_int py (get_default d "max_attempts" (number 5)))
  _ ← ensure (leb 1 attempts) "reconnect.max_attempts"
  listed ← as_items "reconnect.delays_seconds" (get_default d "delays_seconds" default_delays)
  delays ← parse_delays py listed
  ok (record { max_attempts = attempts; delays_seconds = delays })

-- `_parse_reconnect`
unfoldable pub parse_reconnect : Python → Value → Result ConfigError ReconnectConfig
unfolding reconnect_fields
parse_reconnect py v = elim (fields_of v) [
  | none ↦ ok default_reconnect
  | some d ↦ reconnect_fields py d
]

-- a mode that is one of the three
unfoldable pub mode_of : (String → String) → Option String → Result ConfigError String
mode_of lower none = err (invalid "network.hostile_mode")
mode_of lower (some raw_mode) = do
  _ ← ensure (is_hostile_mode (lower (strip raw_mode))) "network.hostile_mode"
  ok (lower (strip raw_mode))

-- `_parse_network`
unfoldable pub parse_network_mode : (String → String) → Value → Result ConfigError String
unfolding mode_of
parse_network_mode lower v = elim (fields_of v) [
  | none ↦ ok "auto"
  | some d ↦ mode_of lower (text_of (get_default d "hostile_mode" (text "auto")))
]
