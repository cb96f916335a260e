-- ===== src/Client/Config/Valid.antt =====
-- What a profile that was parsed satisfies (`_parse` of client/outwarp/config.py).
pub mod Sections
pub mod Whole
use mathlib.Core.List.{◌++◌ as append}
use out_warp.Prelude.{
  ℕ, ◌+◌, ◌≤◌, ◌<◌, ◌≡◌, ◌⊎◌, refl, sym, ap, ◌∙◌, String, Bool, true, false, not, ◌&&◌, ◌||◌,
  Option, none, some, List, [], ◌∷◌, Result, ok, err, ◌>>=◌, >>=-eq-ok, ok-injective, arith, leb,
  ltb, ◌==◌, str_eq, if◌then◌else◌, any, Bool-cases, Option-cases, inl, inr,
}
use out_warp.Server.EnrollServer.{is_wg_key}
use out_warp.Client.Config.Json.{
  Value, Items, nil, cons, ConfigError, ensure, as_object, require, in_range, as_nat, Python,
  to_int, to_text,
}
use out_warp.Client.Config.Checks.{
  matches_path_prefix, matches_tunnel_name, matches_fingerprint, Addresses, is_valid_host,
  is_plain_address, is_endpoint, all_pass, parse_ip_list, parse_endpoint_list,
}
use out_warp.Client.Config.Sections.{
  ServerConfig, TlsConfig, TunnelConfig, WireguardConfig, ReconnectConfig, parse_server,
  parse_ports, as_items, parse_tls, parse_tunnel, parse_wireguard, int_within, passes_if_given,
}

abbrev pub IsPort : ℕ → Type 0
IsPort p = (1 ≤ p) × (p ≤ 65535)

abbrev pub All {ℓ} : {A : Type ℓ} → (A → Bool) → List A → Type 0
All test [] = Unit
All test (x ∷ xs) = (test x ≡ true) × All test xs

pub ensure-true : (b : Bool) (label : String) {u : Unit {0}} → ensure b label ≡ ok u → b ≡ true
unfolding ensure
ensure-true b label h = ground (arith, h)

pub in_range-bounds :
    (low high : ℕ) (label : String) (v : Value) {n : ℕ}
    → in_range low high label v ≡ ok n
    → (low ≤ n) × (n ≤ high)
unfolding in_range
in_range-bounds low high label v h = ground (arith, h)

pub int_within-bounds :
    (py : Python) (ip : Addresses) (low high : ℕ) (label : String) (v : Value) {n : ℕ}
    → int_within py ip low high label v ≡ ok n
    → (low ≤ n) × (n ≤ high)
unfolding int_within
int_within-bounds py ip low high label v h = ground (arith, h)

pub all_pass-All :
    (label : String) (test : String → Bool) (ss : List String) {out : List String}
    → all_pass label test ss ≡ ok out
    → All test out
unfolding all_pass
all_pass-All label test [] {out} h =
    let e : ◌≡◌ {A = List String} [] out = ok-injective h in rw (← e) tt
all_pass-All label test (s ∷ ss) {out} h =
    let (u, passed, h1) = >>=-eq-ok _ _ h in
    let (rest, others, h2) = >>=-eq-ok _ _ h1 in
    let e : s ∷ rest ≡ out = ok-injective h2 in
    rw (← e) (ensure-true (test s) label passed, all_pass-All label test ss others)

-- Other ports, each of them once and none the primary one.
abbrev pub AreOtherPorts : ℕ → List ℕ → Type 0
AreOtherPorts port [] = Unit
AreOtherPorts port (p ∷ ps) =
    IsPort p × ((p == port) ≡ false) × (any (λ q. q == p) ps ≡ false) × AreOtherPorts port ps

AreOtherPorts-append :
    (port p : ℕ) (ps : List ℕ)
    → AreOtherPorts port ps
    → IsPort p
    → (p == port) ≡ false
    → any (λ q. p == q) ps ≡ false
    → AreOtherPorts port (append ps (p ∷ []))
unfolding any
AreOtherPorts-append port p [] h k new fresh = (k, new, refl, tt)
AreOtherPorts-append port p (q ∷ ps) h k new fresh = (
  h.0,
  h.1,
  any-append_one p q ps (ground (arith, fresh)) h.2,
  AreOtherPorts-append port p ps h.3 k new (ground (arith, fresh)),
)
  where
    any-append_one :
        (p q : ℕ) (ps : List ℕ)
        → (p == q) ≡ false
        → any (λ x. x == q) ps ≡ false
        → any (λ x. x == q) (append ps (p ∷ [])) ≡ false
    any-append_one p q [] h k = ground (arith, h)
    any-append_one p q (x ∷ ps) h k = ground (arith, h, k, any-append_one p q ps)

parse_ports-AreOtherPorts :
    (port : ℕ) (ps : List ℕ) (xs : Items) {out : List ℕ}
    → AreOtherPorts port ps
    → parse_ports port ps xs ≡ ok out
    → AreOtherPorts port out
unfolding parse_ports
parse_ports-AreOtherPorts port ps nil {out} h e =
    let same : ps ≡ out = ok-injective e in rw (← same) h
parse_ports-AreOtherPorts port ps (cons v xs) {out} h e =
    let (p, good, e1) = >>=-eq-ok (in_range 1 65535 "server.fallback_ports" v) _ e in
    elim (Bool-cases (p == port || any (λ q. p == q) ps)) [
      | inl known ↦ parse_ports-AreOtherPorts port ps xs h (rw known at e1)
      | inr new ↦
          parse_ports-AreOtherPorts port (append ps (p ∷ [])) xs
            (AreOtherPorts-append port p ps h
              (in_range-bounds 1 65535 "server.fallback_ports" v good) (ground (arith, new))
              (ground (arith, new)))
            (rw new at e1)
    ]

pub record IsServer (ip : Addresses) (s : ServerConfig) : Type 0 where
  pub endpoint : is_valid_host ip s.endpoint ≡ true
  pub port : IsPort s.port
  pub prefix : matches_path_prefix s.http_upgrade_path_prefix ≡ true
  pub fallback_ports : AreOtherPorts s.port s.fallback_ports

pub parse_server-IsServer :
    (py : Python) (ip : Addresses) (v : Value) {s : ServerConfig}
    → parse_server py ip v ≡ ok s
    → IsServer ip s
unfolding parse_server
parse_server-IsServer py ip v {s} h =
    let (d, e0, h0) = >>=-eq-ok (as_object "server" v) _ h in
    let (endpoint, e1, h1) = >>=-eq-ok (require d "endpoint") _ h0 in
    let (u1, e2, h2) = >>=-eq-ok (ensure (is_valid_host ip (to_text py endpoint)) _) _ h1 in
    let (port, e3, h3) = >>=-eq-ok (require d "port") _ h2 in
    let (prefix, e4, h4) = >>=-eq-ok (require d "http_upgrade_path_prefix") _ h3 in
    let (u2, e5, h5) = >>=-eq-ok (ensure (matches_path_prefix (to_text py prefix)) _) _ h4 in
    let (n, e6, h6) = >>=-eq-ok (in_range 1 65535 _ port) _ h5 in
    let (listed, e7, h7) = >>=-eq-ok (as_items _ _) _ h6 in
    let (ports, e8, h8) = >>=-eq-ok (parse_ports n [] listed) _ h7 in
    let made = ok-injective h8 in
    rw (← made) (record {
      endpoint = ensure-true _ _ e2;
      port = in_range-bounds 1 65535 _ port e6;
      prefix = ensure-true _ _ e5;
      fallback_ports = parse_ports-AreOtherPorts n [] listed tt e8;
    })
