-- ===== src/Client/Config/Patch/Laws.antt =====
-- What a change leaves of a profile (`apply_profile_patch` of client/outwarp/config.py).
use mathlib.Core.Path.{subst}
use out_warp.Prelude.{
  ℕ, ◌≤◌, ◌≡◌, refl, String, true, Option, none, some, List, [], ◌∷◌, Result, ok, >>=-eq-ok,
  ok-injective, leb,
}
use out_warp.Server.ClientNames.{strip}
use out_warp.Client.Config.Json.{
  Value, text, Fields, get, ConfigError, ensure, Python, to_text, to_int,
}
use out_warp.Client.Config.Checks.{
  Addresses, is_plain_address, is_endpoint, split_list, parse_ip_list, parse_endpoint_list,
}
use out_warp.Client.Config.Sections.{WireguardConfig, ReconnectConfig, int_within}
use out_warp.Client.Config.Optional.{is_hostile_mode, int_or, text_of}
use out_warp.Client.Config.Strategies.{or_text}
use out_warp.Client.Config.Parse.{ProfileConfig}
use out_warp.Client.Config.Valid.{All, ensure-true, int_within-bounds}
use out_warp.Client.Config.Valid.Sections.{
  IsWireguard, IsReconnect, parse_ip_list-All, parse_endpoint_list-All,
}
use out_warp.Client.Config.Valid.Whole.{IsProfile}
use out_warp.Client.Config.Patch.{
  patched, new_name, delays_of, new_delays, new_address, new_mode, with_changes,
  apply_profile_patch,
}

-- What holds of the old value and of every new one holds afterwards.
patched-keeps {ℓ κ} :
    {A : Type ℓ} (P : A → Type κ) (v : Option Value) (old : A)
    (change : Value → Result ConfigError A) {x : A}
    → P old
    → ((u : Value) (y : A) → change u ≡ ok y → P y)
    → patched v old change ≡ ok x
    → P x
unfolding patched
patched-keeps P none old change kept changed h = subst P (ok-injective h) kept
patched-keeps P (some v) old change kept changed h = changed v _ h

delays_of-All :
    (py : Python) (tokens : List String) {out : List ℕ}
    → delays_of py tokens ≡ ok out
    → All (λ n. leb 1 n) out
unfolding delays_of
delays_of-All py [] {out} h = let e : ◌≡◌ {A = List ℕ} [] out = ok-injective h in rw (← e) tt
delays_of-All py (tok ∷ tokens) {out} h =
    let (n, e0, h0) = >>=-eq-ok (int_or "reconnect_delays" (to_int py (text tok))) _ h in
    let (u, e1, h1) = >>=-eq-ok (ensure (leb 1 n) _) _ h0 in
    let (rest, e2, h2) = >>=-eq-ok (delays_of py tokens) _ h1 in
    let e : n ∷ rest ≡ out = ok-injective h2 in
    rw (← e) (ensure-true _ _ e1, delays_of-All py tokens e2)

new_delays-All :
    (py : Python) (v : Value) {out : List ℕ} → new_delays py v ≡ ok out → All (λ n. leb 1 n) out
unfolding new_delays
new_delays-All py v h =
    let (tokens, e0, h0) = >>=-eq-ok (split_list py v) _ h in
    let (u, e1, h1) = >>=-eq-ok (ensure _ "reconnect_delays") _ h0 in delays_of-All py tokens h1

new_address-is_interface :
    (py : Python) (ip : Addresses) (v : Value) {a : String}
    → new_address py ip v ≡ ok a
    → ip.is_ip_interface a ≡ true
unfolding new_address
new_address-is_interface py ip v h =
    let (u, e, h1) = >>=-eq-ok (ensure (ip.is_ip_interface (strip (to_text py v))) _) _ h in
    let made = ok-injective h1 in rw (← made) (ensure-true _ _ e)

new_mode-is_hostile_mode :
    (lower : String → String) (s : Option String) {mode : String}
    → new_mode lower s ≡ ok mode
    → is_hostile_mode mode ≡ true
unfolding new_mode
new_mode-is_hostile_mode lower none h = cc
new_mode-is_hostile_mode lower (some raw) h =
    let (u, e, h1) =
      >>=-eq-ok (ensure (is_hostile_mode (or_text (lower (strip raw)) "auto")) _) _ h in
    let made = ok-injective h1 in rw (← made) (ensure-true _ _ e)

-- What identifies the server, the keys, and all else that a user may not change.
pub record HaveSameServer (p q : ProfileConfig) : Type 0 where
  pub schema_version : p.schema_version ≡ q.schema_version
  pub server : p.required.server ≡ q.required.server
  pub tls : p.required.tls ≡ q.required.tls
  pub tunnel : p.required.tunnel ≡ q.required.tunnel
  pub tunnel_name : p.required.wireguard.tunnel_name ≡ q.required.wireguard.tunnel_name
  pub server_public_key :
      p.required.wireguard.server_public_key ≡ q.required.wireguard.server_public_key
  pub client_private_key :
      p.required.wireguard.client_private_key ≡ q.required.wireguard.client_private_key
  pub preshared_key : p.required.wireguard.preshared_key ≡ q.required.wireguard.preshared_key
  pub fallback : p.fallback ≡ q.fallback
  pub enrollment : p.enrollment ≡ q.enrollment
  pub expires_at : p.expires_at ≡ q.expires_at

HaveSameServer-with_changes :
    (cfg : ProfileConfig) (name : String) (mtu : ℕ) (dns : List String) (address : String)
    (bypass : List String) (attempts : ℕ) (delays : List ℕ) (mode : String)
    → HaveSameServer cfg (with_changes cfg name mtu dns address bypass attempts delays mode)
HaveSameServer-with_changes cfg name mtu dns address bypass attempts delays mode = record {
  schema_version = refl;
  server = refl;
  tls = refl;
  tunnel = refl;
  tunnel_name = refl;
  server_public_key = refl;
  client_private_key = refl;
  preshared_key = refl;
  fallback = refl;
  enrollment = refl;
  expires_at = refl;
}

module _ (py : Python) (ip : Addresses) (patch : Fields) where
  patched-IsWireguard :
      (w : WireguardConfig) {mtu : ℕ} {dns : List String} {address : String}
      → IsWireguard ip w
      → patched (get "mtu" patch) w.mtu (int_within py ip 576 1500 "MTU") ≡ ok mtu
      → patched (get "dns" patch) w.dns (parse_ip_list py ip "DNS") ≡ ok dns
      → patched (get "client_address" patch) w.client_address (new_address py ip) ≡ ok address
      → IsWireguard ip (record w { mtu = mtu; dns = dns; client_address = address })
  patched-IsWireguard w old e1 e2 e3 = record {
    tunnel_name = old.tunnel_name;
    client_address =
        patched-keeps (λ a. ip.is_ip_interface a ≡ true) _ _ (new_address py ip) old.client_address
          (λ v y k. new_address-is_interface py ip v k) e3;
    client_private_key = old.client_private_key;
    server_public_key = old.server_public_key;
    preshared_key = old.preshared_key;
    dns =
        patched-keeps (λ ss. All (is_plain_address ip) ss) _ _ (parse_ip_list py ip "DNS") old.dns
          (λ v y k. parse_ip_list-All py ip "DNS" v k) e2;
    mtu =
        patched-keeps (λ n. (576 ≤ n) × (n ≤ 1500)) _ _ (int_within py ip 576 1500 "MTU") old.mtu
          (λ v y k. int_within-bounds py ip 576 1500 "MTU" v k) e1;
  }

  patched-IsReconnect :
      (r : ReconnectConfig) {attempts : ℕ} {delays : List ℕ}
      → IsReconnect r
      → patched
          (get "reconnect_max_attempts" patch)
          r.max_attempts
          (int_within py ip 1 100 "reconnect_max_attempts")
        ≡ ok attempts
      → patched (get "reconnect_delays" patch) r.delays_seconds (new_delays py) ≡ ok delays
      → IsReconnect (record { max_attempts = attempts; delays_seconds = delays })
  patched-IsReconnect r old e5 e6 = record {
    max_attempts =
        patched-keeps (λ n. 1 ≤ n) _ _ (int_within py ip 1 100 "reconnect_max_attempts")
          old.max_attempts (λ v y k. (int_within-bounds py ip 1 100 "reconnect_max_attempts" v k).0)
          e5;
    delays =
        patched-keeps (λ ns. All (λ n. leb 1 n) ns) _ _ (new_delays py) old.delays
          (λ v y k. new_delays-All py v k) e6;
  }

-- A change that is accepted leaves a profile of which all that holds of an accepted one still holds,
-- and changes neither what identifies the server nor the keys, the ladder, the enrolment and the date
-- of expiry.
pub apply_profile_patch-IsProfile :
    (py : Python) (ip : Addresses) (lower : String → String) (cfg : ProfileConfig) (patch : Fields)
    (out : ProfileConfig)
    → IsProfile ip cfg
    → apply_profile_patch py ip lower cfg patch ≡ ok out
    → IsProfile ip out × HaveSameServer cfg out
unfolding apply_profile_patch
apply_profile_patch-IsProfile py ip lower cfg patch out valid h =
    let wg = cfg.required.wireguard in
    let (name, e0, h0) = >>=-eq-ok (patched (get "name" patch) cfg.name (new_name py)) _ h in
    let change_mtu = int_within py ip 576 1500 "MTU" in
    let (mtu, e1, h1) = >>=-eq-ok (patched (get "mtu" patch) wg.mtu change_mtu) _ h0 in
    let change_dns = parse_ip_list py ip "DNS" in
    let (dns, e2, h2) = >>=-eq-ok (patched (get "dns" patch) wg.dns change_dns) _ h1 in
    let change_address = new_address py ip in
    let (address, e3, h3) =
      >>=-eq-ok (patched (get "client_address" patch) wg.client_address change_address) _ h2 in
    let change_bypass = parse_endpoint_list py ip "Bypass routes" in
    let (bypass, e4, h4) =
      >>=-eq-ok (patched (get "bypass_ips" patch) cfg.required.bypass_ips change_bypass) _ h3 in
    let change_attempts = int_within py ip 1 100 "reconnect_max_attempts" in
    let (attempts, e5, h5) =
      >>=-eq-ok
        (patched (get "reconnect_max_attempts" patch) cfg.reconnect.max_attempts change_attempts) _
        h4 in
    let (delays, e6, h6) =
      >>=-eq-ok
        (patched (get "reconnect_delays" patch) cfg.reconnect.delays_seconds (new_delays py)) _
        h5 in
    let change_mode : Value → Result ConfigError String = λ v. new_mode lower (text_of v) in
    let (mode, e7, h7) =
      >>=-eq-ok (patched (get "hostile_mode" patch) cfg.hostile_mode change_mode) _ h6 in
    subst (λ q. IsProfile ip q × HaveSameServer cfg q) (ok-injective h7)
      (
        record {
          version = valid.version;
          required = record {
            server = valid.required.server;
            tls = valid.required.tls;
            tunnel = valid.required.tunnel;
            wireguard = patched-IsWireguard py ip patch wg valid.required.wireguard e1 e2 e3;
            bypass_ips =
                patched-keeps (λ ss. All (is_endpoint ip) ss) _ _ change_bypass
                  valid.required.bypass_ips
                  (λ v y k. parse_endpoint_list-All py ip "Bypass routes" v k) e4;
          };
          reconnect = patched-IsReconnect py ip patch cfg.reconnect valid.reconnect e5 e6;
          hostile_mode =
              patched-keeps (λ m. is_hostile_mode m ≡ true) _ _ change_mode valid.hostile_mode
                (λ v y k. new_mode-is_hostile_mode lower (text_of v) k) e7;
        },
        HaveSameServer-with_changes cfg name mtu dns address bypass attempts delays mode,
      )
