-- ===== src/Client/AllowedIps/Laws.antt =====
-- What is left after every exclusion (`_allowed_ips_excluding` of client/outwarp/wireguard.py).
use mathlib.Core.List.{◌++◌ as append}
use native.Mathlib.Decide.{dec_lt}
use out_warp.Prelude.{
  ℕ, zero, suc, ◌+◌, ◌-◌, ◌*◌, ◌^◌, ◌≤◌, ◌<◌, ◌≡◌, refl, ap, Bool, true, false, not, ◌&&◌, ◌||◌,
  List, [], ◌∷◌, ok, >>=-eq-ok, ok-injective, arith, ltb, if◌then◌else◌, any, Bool-cases, inl, inr,
}
use out_warp.Server.IpPool.Address.{Network, block}
use out_warp.Client.AllowedIps.{
  contains, overlaps, is_subnet, low_half, high_half, split_around, address_exclude, exclude_one,
  exclude_all, allowed_ips_excluding, whole, covers,
}
use out_warp.Client.AllowedIps.Cover.{
  IsNetwork, Inside, block_pos, block_halves, block-IsMultiple, low_half-IsNetwork,
  high_half-IsNetwork, split_around-covers,
}

abbrev pub AllNetworks : List Network → Type 0
AllNetworks [] = Unit
AllNetworks (net ∷ nets) = IsNetwork net × AllNetworks nets

split_around-AllNetworks :
    (d : ℕ) (net other : Network)
    → net.prefixlen + d ≤ 32
    → IsNetwork net
    → AllNetworks (split_around d net other)
unfolding split_around
split_around-AllNetworks zero net other h n = tt
split_around-AllNetworks (suc d) net other h n =
    elim (Bool-cases (ltb other.base (high_half net).base)) [
      | inl below ↦ rw below (
        high_half-IsNetwork net (omega arith) n,
        split_around-AllNetworks d (low_half net) other (omega arith)
            (low_half-IsNetwork net (omega arith) n),
      )
      | inr above ↦ rw above (
        low_half-IsNetwork net (omega arith) n,
        split_around-AllNetworks d (high_half net) other (omega arith)
            (high_half-IsNetwork net (omega arith) n),
      )
    ]

-- A longer prefix is a smaller network.
block_lt : (p q : ℕ) → p < q → q ≤ 32 → block q < block p
block_lt p q h k =
    let (j, e) = block-IsMultiple (q - (p + 1)) (p + 1) (omega arith) in
    let same : p + 1 + (q - (p + 1)) ≡ q = omega arith in
    at_least j (block q) (block (p + 1)) (block p) (rw same at e) (block_pos (p + 1))
      (block_halves p (omega arith))
  where
    at_least : (j b c d : ℕ) → c ≡ j * b → 0 < c → d ≡ c + c → b < d
    at_least zero b c d e pos f = absurd (omega (arith, e))
    at_least (suc j) b c d e pos f = omega (arith, e, f)

subnet-Inside : (net other : Network) → is_subnet net other ≡ true → Inside net other
unfolding is_subnet
subnet-Inside net other h = record {
  from = ground (arith, h);
  to = ground (arith, h, block_pos net.prefixlen, block_pos other.prefixlen);
}

Inside-prefixlen :
    (net other : Network) → IsNetwork net → Inside net other → net.prefixlen ≤ other.prefixlen
Inside-prefixlen net other n inside = elim (dec_lt other.prefixlen net.prefixlen) [
  | yes longer ↦ absurd (
      omega
        (arith, block_lt other.prefixlen net.prefixlen longer n.prefix_le, inside.from, inside.to))
  | no fits ↦ omega arith
]

-- One exclusion, of a network that lies within.
address_exclude-covers :
    (net other : Network) (parts : List Network) (a : ℕ)
    → IsNetwork net
    → IsNetwork other
    → address_exclude net other ≡ ok parts
    → (covers parts a ≡ (contains net a && not (contains other a))) × AllNetworks parts
unfolding address_exclude
address_exclude-covers net other parts a n o h = elim (Bool-cases (is_subnet net other)) [
  | inr apart ↦ absurd (let e = (rw apart at h) in cc)
  | inl within ↦
      let inside = subnet-Inside net other within in
      let longer = Inside-prefixlen net other n inside in
      let made : split_around (other.prefixlen - net.prefixlen) net other ≡ parts =
        ok-injective (rw within at h) in
      rw (← made) (
        split_around-covers (other.prefixlen - net.prefixlen) net other a (omega arith) n o inside,
        split_around-AllNetworks (other.prefixlen - net.prefixlen) net other
            (omega (arith, o.prefix_le)) n,
      )
]

-- Networks that do not overlap share no address.
apart_lem :
    (excl net : Network) (a : ℕ)
    → overlaps excl net ≡ false
    → (contains net a && not (contains excl a)) ≡ contains net a
unfolding overlaps contains
apart_lem excl net a h = ground (arith, h, block_pos net.prefixlen, block_pos excl.prefixlen)

any-append :
    (test : Network → Bool) (xs ys : List Network)
    → any test (append xs ys) ≡ (any test xs || any test ys)
unfolding any
any-append test [] ys = refl
any-append test (x ∷ xs) ys = ground (arith, any-append test xs ys)

AllNetworks-append :
    (xs ys : List Network) → AllNetworks xs → AllNetworks ys → AllNetworks (append xs ys)
AllNetworks-append [] ys h k = k
AllNetworks-append (x ∷ xs) ys h k = (h.0, AllNetworks-append xs ys h.1 k)

part_covers :
    (excl net : Network) (parts : List Network) (a : ℕ)
    → IsNetwork net
    → IsNetwork excl
    → (if overlaps excl net then address_exclude net excl else ok (net ∷ [])) ≡ ok parts
    → (covers parts a ≡ (contains net a && not (contains excl a))) × AllNetworks parts
unfolding any
part_covers excl net parts a n o h = elim (Bool-cases (overlaps excl net)) [
  | inl meet ↦ address_exclude-covers net excl parts a n o (rw meet at h)
  | inr apart ↦
      let e : net ∷ [] ≡ parts = ok-injective (rw apart at h) in
      rw (← e) (ground (arith, apart_lem excl net a apart), (n, tt))
]

exclude_one-covers :
    (excl : Network) (nets out : List Network) (a : ℕ)
    → IsNetwork excl
    → AllNetworks nets
    → exclude_one excl nets ≡ ok out
    → (covers out a ≡ (covers nets a && not (contains excl a))) × AllNetworks out
unfolding exclude_one any
exclude_one-covers excl [] out a o all h =
    let e : ◌≡◌ {A = List Network} [] out = ok-injective h in rw (← e) (refl, tt)
exclude_one-covers excl (net ∷ nets) out a o all h =
    let (parts, made, h1) = >>=-eq-ok _ _ h in
    let (rest, more, h2) = >>=-eq-ok _ _ h1 in
    let e : append parts rest ≡ out = ok-injective h2 in
    let (here, good) = part_covers excl net parts a all.0 o made in
    let (there, fine) = exclude_one-covers excl nets rest a o all.1 more in
    rw (← e) (
      rw (any-append (λ x. contains x a) parts rest) (ground (arith, here, there)),
      AllNetworks-append parts rest good fine,
    )

exclude_all-covers :
    (excls nets out : List Network) (a : ℕ)
    → AllNetworks excls
    → AllNetworks nets
    → exclude_all excls nets ≡ ok out
    → covers out a ≡ (covers nets a && not (covers excls a))
unfolding exclude_all any
exclude_all-covers [] nets out a o all h =
    let e : nets ≡ out = ok-injective h in rw (← e) (ground arith)
exclude_all-covers (excl ∷ excls) nets out a o all h =
    let (mid, made, h1) = >>=-eq-ok _ _ h in
    let (here, good) = exclude_one-covers excl nets mid a o.0 all made in
    ground (arith, here, exclude_all-covers excls mid out a o.1 good h1)

-- Where the exclusion returns, an address is allowed exactly where no excluded network has it.
pub allowed_ips_excluding-covers :
    (bypass out : List Network) (a : ℕ)
    → AllNetworks bypass
    → allowed_ips_excluding bypass ≡ ok out
    → a < 2 ^ 32
    → covers out a ≡ not (covers bypass a)
unfolding allowed_ips_excluding any contains
allowed_ips_excluding-covers bypass out a o h k =
    ground (arith, exclude_all-covers bypass (whole ∷ []) out a o (whole_net, tt) h)
  where
    whole_net : IsNetwork whole
    whole_net = record { prefix_le = omega arith; aligned = (0, refl) }

-- Every network is a single address.
abbrev pub AllSingle : List Network → Type 0
AllSingle [] = Unit
AllSingle (net ∷ nets) = (net.prefixlen ≡ 32) × AllSingle nets

single_subnet :
    (excl net : Network)
    → excl.prefixlen ≡ 32
    → overlaps excl net ≡ true
    → is_subnet net excl ≡ true
unfolding overlaps contains is_subnet
single_subnet excl net e h =
    let one : block excl.prefixlen ≡ 1 = ap (λ (p : ℕ). block p) e in
    ground (arith, h, one, block_pos net.prefixlen)

part_returns :
    (excl net : Network)
    → excl.prefixlen ≡ 32
    → (parts : List Network) × ((if overlaps excl net
          then address_exclude net excl
          else ok (net ∷ []))
        ≡ ok parts)
unfolding address_exclude
part_returns excl net e = elim (Bool-cases (overlaps excl net)) [
  | inl meet ↦ (
    split_around (excl.prefixlen - net.prefixlen) net excl,
    rw (meet, single_subnet excl net e meet) refl,
  )
  | inr apart ↦ (net ∷ [], rw apart refl)
]

exclude_one-returns :
    (excl : Network) (nets : List Network)
    → excl.prefixlen ≡ 32
    → (out : List Network) × (exclude_one excl nets ≡ ok out)
unfolding exclude_one
exclude_one-returns excl [] e = ([], refl)
exclude_one-returns excl (net ∷ nets) e =
    let (parts, made) = part_returns excl net e in
    let (rest, more) = exclude_one-returns excl nets e in (append parts rest, rw (made, more) refl)

exclude_all-returns :
    (excls nets : List Network)
    → AllSingle excls
    → (out : List Network) × (exclude_all excls nets ≡ ok out)
unfolding exclude_all
exclude_all-returns [] nets h = (nets, refl)
exclude_all-returns (excl ∷ excls) nets h =
    let (mid, made) = exclude_one-returns excl nets h.0 in
    let (out, more) = exclude_all-returns excls mid h.1 in (out, rw made more)

-- Where every excluded network is a single address, the exclusion returns.
pub allowed_ips_excluding-returns :
    (bypass : List Network)
    → AllSingle bypass
    → (out : List Network) × (allowed_ips_excluding bypass ≡ ok out)
unfolding allowed_ips_excluding
allowed_ips_excluding-returns bypass h = exclude_all-returns bypass (whole ∷ []) h
