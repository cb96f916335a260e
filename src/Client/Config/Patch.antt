-- ===== src/Client/Config/Patch.antt =====
-- `apply_profile_patch` of client/outwarp/config.py: the changes that a user may make to a profile.
pub mod Laws
use out_warp.Prelude.{
  ℕ, String, Bool, true, false, not, Option, none, some, List, [], ◌∷◌, Result, ok, err, ◌>>=◌, leb,
  str_eq,
}
use out_warp.Server.ClientNames.{strip}
use out_warp.Client.Config.Json.{
  Value, text, Fields, get, ConfigError, invalid, ensure, Python, to_text, to_int,
}
use out_warp.Client.Config.Checks.{Addresses, split_list, parse_ip_list, parse_endpoint_list}
use out_warp.Client.Config.Sections.{int_within}
use out_warp.Client.Config.Optional.{is_hostile_mode, int_or, text_of}
use out_warp.Client.Config.Strategies.{or_text}
use out_warp.Client.Config.Parse.{ProfileConfig}

-- `if key in patch: …`, which leaves the old value where it is not
unfoldable pub patched {ℓ} :
    {A : Type ℓ} → Option Value → A → (Value → Result ConfigError A) → Result ConfigError A
patched none old change = ok old
patched (some v) old change = change v

abbrev is_empty : List String → Bool
is_empty [] = true
is_empty (s ∷ ss) = false

module _ (py : Python) where
  unfoldable pub new_name : Value → Result ConfigError String
  new_name v = do
    _ ← ensure (not (str_eq (strip (to_text py v)) "")) "name"
    ok (strip (to_text py v))

  -- the loop over the delays
  unfoldable pub delays_of : List String → Result ConfigError (List ℕ)
  delays_of [] = ok []
  delays_of (tok ∷ tokens) = do
    v ← int_or "reconnect_delays" (to_int py (text tok))
    _ ← ensure (leb 1 v) "reconnect_delays"
    rest ← delays_of tokens
    ok (v ∷ rest)

  unfoldable pub new_delays : Value → Result ConfigError (List ℕ)
  unfolding delays_of
  new_delays v = do
    tokens ← split_list py v
    _ ← ensure (not (is_empty tokens)) "reconnect_delays"
    delays_of tokens

  unfoldable pub new_address : Addresses → Value → Result ConfigError String
  new_address ip v = do
    _ ← ensure (ip.is_ip_interface (strip (to_text py v))) "client_address"
    ok (strip (to_text py v))

-- a text that names a mode, `auto` where it is blank
unfoldable pub new_mode : (String → String) → Option String → Result ConfigError String
new_mode lower none = err (invalid "hostile_mode")
new_mode lower (some raw) = do
  _ ← ensure (is_hostile_mode (or_text (lower (strip raw)) "auto")) "hostile_mode"
  ok (or_text (lower (strip raw)) "auto")

-- `replace(cfg, …)`
abbrev pub with_changes :
    ProfileConfig
    → String
    → ℕ
    → List String
    → String
    → List String
    → ℕ
    → List ℕ
    → String
    → ProfileConfig
with_changes cfg name mtu dns address bypass_ips attempts delays mode = record cfg {
  name = name;
  required = record cfg.required {
    wireguard = record cfg.required.wireguard { mtu = mtu; dns = dns; client_address = address };
    bypass_ips = bypass_ips;
  };
  reconnect = record { max_attempts = attempts; delays_seconds = delays };
  hostile_mode = mode;
}

module _ (py : Python) (ip : Addresses) (lower : String → String) where
  unfoldable pub apply_profile_patch : ProfileConfig → Fields → Result ConfigError ProfileConfig
  unfolding patched new_name new_delays new_address new_mode
  apply_profile_patch cfg patch = do
    name ← patched (get "name" patch) cfg.name (new_name py)
    mtu ← patched (get "mtu" patch) cfg.required.wireguard.mtu (int_within py ip 576 1500 "MTU")
    dns ← patched (get "dns" patch) cfg.required.wireguard.dns (parse_ip_list py ip "DNS")
    address ←
        patched (get "client_address" patch) cfg.required.wireguard.client_address
          (new_address py ip)
    bypass_ips ←
        patched (get "bypass_ips" patch) cfg.required.bypass_ips
          (parse_endpoint_list py ip "Bypass routes")
    attempts ←
        patched (get "reconnect_max_attempts" patch) cfg.reconnect.max_attempts
          (int_within py ip 1 100 "reconnect_max_attempts")
    delays ← patched (get "reconnect_delays" patch) cfg.reconnect.delays_seconds (new_delays py)
    mode ← patched (get "hostile_mode" patch) cfg.hostile_mode (λ v. new_mode lower (text_of v))
    ok (with_changes cfg name mtu dns address bypass_ips attempts delays mode)
