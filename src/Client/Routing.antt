-- ===== src/Client/Routing.antt =====
-- client/outwarp/routing.py: what must stay outside the tunnel.
pub mod Proxy
use Prim.Native.Char.{code}
use mathlib.Core.List.{◌++◌ as append}
use text.Mathlib.TextPositions.{eq_refl}
use out_warp.Prelude.{
  ℕ, zero, suc, ◌≡◌, ◌≢◌, refl, ap, ◌∙◌, String, Bool, true, false, ◌||◌, some, List, [], ◌∷◌,
  arith, str_eq, eq_iff, str_eq-false, ◌==◌, if◌then◌else◌, any, get_elem?, Bool-cases, inl, inr,
}
use out_warp.Prelude.Text.{split, has_no}
use out_warp.Client.Fallback.{ConnectionStrategy, or_text}

-- `s.rsplit(sep, 1)[-1]`
unfoldable pub after_last : ℕ → String → String
after_last sep String.[] = ""
after_last sep (String.◌∷◌ c s) =
    let later = after_last sep s in
    if has_no sep s then (if code c == sep then s else String.◌∷◌ c s) else later

abbrev first_part : List String → String
first_part [] = ""
first_part (w ∷ ws) = w

-- a host without its port, where there is exactly one colon
abbrev without_port : String → List String → String
without_port spec (host ∷ port ∷ []) = host
without_port spec parts = spec

bracketed : String → String
bracketed String.[] = ""
bracketed (String.◌∷◌ c s) =
    if code c == b'['
    then first_part (split b']' s)
    else without_port (String.◌∷◌ c s) (split b':' (String.◌∷◌ c s))

unfoldable pub proxy_host : String → String
unfolding bracketed
proxy_host proxy = bracketed (after_last b'@' proxy)

abbrev if_given : String → String → List String
if_given given value = if str_eq given "" then [] else value ∷ []

unfoldable pub rung_addresses : ConnectionStrategy → List String
rung_addresses r = append (if_given r.endpoint r.endpoint) (
    append (if_given r.connect_host r.connect_host)
      (append (if_given r.proxy (proxy_host r.proxy)) r.bypass_ips))

unfoldable pub ladder_addresses : List ConnectionStrategy → List String
ladder_addresses [] = []
ladder_addresses (r ∷ rs) = append (rung_addresses r) (ladder_addresses rs)

abbrev pub mem : String → List String → Bool
mem ip ips = any (λ x. str_eq x ip) ips

unfoldable pub dedup : List String → List String → List String
dedup seen [] = []
dedup seen (ip ∷ rest) =
    let dropped = dedup seen rest in
    let kept = dedup (ip ∷ seen) rest in if str_eq ip "" || mem ip seen then dropped else ip ∷ kept

-- `bypass_ips` and `endpoint` are the profile's.
unfoldable pub escape_set :
    (bypass_ips : List String) → (endpoint : String) → List ConnectionStrategy → List String
escape_set bypass_ips endpoint ladder =
    dedup [] (append bypass_ips (append (if_given endpoint endpoint) (ladder_addresses ladder)))

-- What wstunnel dials on a rung: its proxy, or else its own address.
abbrev pub dialled : ConnectionStrategy → String
dialled r = if str_eq r.proxy "" then or_text r.connect_host r.endpoint else proxy_host r.proxy

mem-append-left :
    (ip : String) (xs ys : List String) → mem ip xs ≡ true → mem ip (append xs ys) ≡ true
unfolding any
mem-append-left ip [] ys h = absurd (ground (arith, h))
mem-append-left ip (x ∷ xs) ys h = ground (arith, h, mem-append-left ip xs ys)

pub mem-append-right :
    (ip : String) (xs ys : List String) → mem ip ys ≡ true → mem ip (append xs ys) ≡ true
unfolding any
mem-append-right ip [] ys h = h
mem-append-right ip (x ∷ xs) ys h = ground (arith, mem-append-right ip xs ys h)

mem-dedup :
    (ip : String) (seen xs : List String)
    → ip ≢ ""
    → mem ip xs ≡ true
    → mem ip seen ≡ false
    → mem ip (dedup seen xs) ≡ true
unfolding any dedup
mem-dedup ip seen [] given h new = absurd (ground (arith, h))
mem-dedup ip seen (x ∷ xs) given h new = elim (Bool-cases (str_eq x ip)) [
  | inl same ↦
      let p : x ≡ ip = (eq_iff x ip).0 same in
      let blank : str_eq x "" ≡ false =
        ap (λ (y : String). str_eq y "") p ∙ str_eq-false ip "" given in
      let unseen : mem x seen ≡ false = ap (λ (y : String). mem y seen) p ∙ new in
      rw (blank, unseen, same) refl
  | inr other ↦
      let later : mem ip xs ≡ true = (rw other at h) in
      elim (Bool-cases (str_eq x "" || mem x seen)) [
        | inl dropped ↦ rw dropped (mem-dedup ip seen xs given later new)
        | inr kept ↦ rw (kept, other) (mem-dedup ip (x ∷ seen) xs given later (rw other new))
      ]
]

dialled-rung_addresses :
    (r : ConnectionStrategy) → dialled r ≢ "" → mem (dialled r) (rung_addresses r) ≡ true
unfolding rung_addresses any
dialled-rung_addresses r given = elim (Bool-cases (str_eq r.proxy "")) [
  | inr proxied ↦ rw proxied (
      mem-append-right (proxy_host r.proxy) (if_given r.endpoint r.endpoint) _ (
        mem-append-right (proxy_host r.proxy) (if_given r.connect_host r.connect_host) _
          (rw (eq_refl (proxy_host r.proxy)) refl)))
  | inl plain ↦ elim (Bool-cases (str_eq r.connect_host "")) [
    | inr resolved ↦
        rw (plain, resolved)
          (mem-append-right r.connect_host (if_given r.endpoint r.endpoint) _
            (rw (eq_refl r.connect_host) refl))
    | inl named ↦ elim (Bool-cases (str_eq r.endpoint "")) [
      | inl blank ↦ absurd (given (rw (plain, named) ((eq_iff r.endpoint "").0 blank)))
      | inr there ↦ rw (plain, named, there, eq_refl r.endpoint) refl
    ]
  ]
]

dialled-ladder_addresses :
    (ladder : List ConnectionStrategy) (i : ℕ) (r : ConnectionStrategy)
    → get_elem? ladder i ≡ some r
    → dialled r ≢ ""
    → mem (dialled r) (ladder_addresses ladder) ≡ true
unfolding ladder_addresses
dialled-ladder_addresses [] i r h given = absurd (ground (arith, h))
dialled-ladder_addresses (x ∷ rs) zero r h given =
    let p : x ≡ r = ground (arith, h) in
    mem-append-left (dialled r) (rung_addresses x) (ladder_addresses rs) (
      ap (λ (y : ConnectionStrategy). mem (dialled r) (rung_addresses y)) p
      ∙ dialled-rung_addresses r given)
dialled-ladder_addresses (x ∷ rs) (suc i) r h given =
    mem-append-right (dialled r) (rung_addresses x) (ladder_addresses rs)
      (dialled-ladder_addresses rs i r h given)

-- The address that wstunnel dials on any rung of the ladder, unless it is blank, is in the escape set.
pub dialled-escape_set :
    (bypass_ips : List String) (endpoint : String) (ladder : List ConnectionStrategy) (i : ℕ)
    (r : ConnectionStrategy)
    → get_elem? ladder i ≡ some r
    → dialled r ≢ ""
    → mem (dialled r) (escape_set bypass_ips endpoint ladder) ≡ true
unfolding escape_set any
dialled-escape_set bypass_ips endpoint ladder i r h given =
    mem-dedup (dialled r) [] _ given
      (mem-append-right (dialled r) bypass_ips _ (
        mem-append-right (dialled r) (if_given endpoint endpoint) _
          (dialled-ladder_addresses ladder i r h given)))
      refl
