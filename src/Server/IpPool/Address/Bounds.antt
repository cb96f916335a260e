-- ===== src/Server/IpPool/Address/Bounds.antt =====
-- Ranges of parsed addresses and networks (the `ipaddress` part of server/outwarp_server/ip_pool.py).
use out_warp.Prelude.{
  ℕ, zero, suc, ◌+◌, ◌-◌, ◌*◌, ◌/◌, ◌%◌, ◌^◌, ◌≤◌, ◌<◌, String, ◌≡◌, refl, Bool, true, Option, none,
  some, List, [], ◌∷◌, arith, ◌==◌,
}
use out_warp.Prelude.Tables.{all_below, all_below_sound}
use out_warp.Server.IpPool.Address.{
  join_octets, parse_octet, parse_octets, parse_address, Network, block, find_prefix,
  prefix_of_mask, prefix_of_address, parse_prefix, network_of, parse_network_parts, parse_network,
  first_host, host_count,
}
use native.Mathlib.Nat.{div-add-mod}
use out_warp.Prelude.Text.{split}

parse_octet-lt : (s : String) (n : ℕ) → parse_octet s ≡ some n → n < 256
unfolding parse_octet
parse_octet-lt s n h = ground arith

abbrev BelowByte : Option ℕ → Type 0
BelowByte o = (x : ℕ) → o ≡ some x → x < 256

join_octets-lt :
    (a b c d : Option ℕ) (n : ℕ)
    → BelowByte a
    → BelowByte b
    → BelowByte c
    → BelowByte d
    → join_octets a b c d ≡ some n
    → n < 2 ^ 32
join_octets-lt (some a) (some b) (some c) (some d) n ha hb hc hd h =
    ground (arith, ha a refl, hb b refl, hc c refl, hd d refl)
join_octets-lt _ _ _ _ n ha hb hc hd h = cc

parse_octets-lt : (ws : List String) (n : ℕ) → parse_octets ws ≡ some n → n < 2 ^ 32
unfolding parse_octets
parse_octets-lt (a ∷ b ∷ c ∷ d ∷ []) n h =
    join_octets-lt _ _ _ _ n (parse_octet-lt a) (parse_octet-lt b) (parse_octet-lt c)
      (parse_octet-lt d) h
parse_octets-lt _ n h = cc

pub parse_address-lt : (s : String) (n : ℕ) → parse_address s ≡ some n → n < 2 ^ 32
unfolding parse_address
parse_address-lt s n h = parse_octets-lt (split b'.' s) n h

find_prefix-lt : (n p mask q : ℕ) → find_prefix n p mask ≡ some q → q < p + n
unfolding find_prefix
find_prefix-lt zero p mask q h = ground arith
find_prefix-lt (suc n) p mask q h = ground (arith, find_prefix-lt n (p + 1) mask q)

prefix_of_mask-le : (mask p : ℕ) → prefix_of_mask mask ≡ some p → p ≤ 32
unfolding prefix_of_mask
prefix_of_mask-le mask p h =
    ground (arith, find_prefix-lt 33 0 mask p, find_prefix-lt 33 0 (2 ^ 32 - 1 - mask) p)

prefix_of_address-le : (o : Option ℕ) (p : ℕ) → prefix_of_address o ≡ some p → p ≤ 32
prefix_of_address-le none p h = ground arith
prefix_of_address-le (some mask) p h = prefix_of_mask-le mask p h

parse_prefix-le : (s : String) (p : ℕ) → parse_prefix s ≡ some p → p ≤ 32
unfolding parse_prefix
parse_prefix-le s p h = ground (arith, prefix_of_address-le (parse_address s) p)

-- The blocks of every prefix length tile the address space.
tiles : ℕ → Bool
tiles p = block p * 2 ^ p == 2 ^ 32

tiles_table : all_below 33 tiles ≡ true
unfolding all_below tiles
tiles_table = refl

block_tiles : (p : ℕ) → p ≤ 32 → block p * 2 ^ p ≡ 2 ^ 32
unfolding tiles
block_tiles p h = ground (arith, all_below_sound 33 tiles p tiles_table (omega arith))

-- Rounding down to a multiple of `m` leaves room for `m` numbers below a multiple of `m`.
round_down_fits : (m k n a : ℕ) → m * k ≡ n → a < n → a - a % m + m ≤ n
round_down_fits m k n a e h = omega (arith, mul-div-lt, product, div-add-mod a m)
  where
    quotient : a / m < k
    quotient = grind (arith, div-add-mod a m)

    mul-div-lt : m * (a / m + 1) ≤ m * k
    mul-div-lt = grind (arith, quotient)

    product : m * (a / m + 1) ≡ m * (a / m) + m
    product = omega arith

pub record IsWithin (net : Network) : Type 0 where
  pub prefix_le : net.prefixlen ≤ 32
  pub fits : net.base + block net.prefixlen ≤ 2 ^ 32

abbrev WithinIfSome : Option Network → Type 0
WithinIfSome o = (net : Network) → o ≡ some net → IsWithin net

network_of-IsWithin :
    (a p : ℕ) → a < 2 ^ 32 → p ≤ 32 → IsWithin (record { base = a - a % block p; prefixlen = p })
network_of-IsWithin a p h k = record {
  prefix_le = k;
  fits = round_down_fits (block p) (2 ^ p) (2 ^ 32) a (block_tiles p k) h;
}

network_of-WithinIfSome :
    (a p : Option ℕ)
    → ((x : ℕ) → a ≡ some x → x < 2 ^ 32)
    → ((x : ℕ) → p ≡ some x → x ≤ 32)
    → WithinIfSome (network_of a p)
unfolding network_of
network_of-WithinIfSome (some a) (some p) ha hp net e =
    let made = network_of-IsWithin a p (ha a refl) (hp p refl) in ground (arith, made)
network_of-WithinIfSome (some a) none ha hp net e = cc
network_of-WithinIfSome none p ha hp net e = cc

-- A parsed network lies in the address space, and its prefix has at most 32 bits.
pub parse_network-IsWithin :
    (s : String) (net : Network) → parse_network s ≡ some net → IsWithin net
unfolding parse_network
parse_network-IsWithin s net e = go (split b'/' s) net e
  where
    go : (ws : List String) → WithinIfSome (parse_network_parts ws)
    go (a ∷ []) =
        network_of-WithinIfSome (parse_address a) (some 32) (parse_address-lt a)
          (λ x q. ground arith)
    go (a ∷ p ∷ []) =
        network_of-WithinIfSome (parse_address a) (parse_prefix p) (parse_address-lt a)
          (parse_prefix-le p)
    go _ = λ n q. cc

block_pos : (p : ℕ) → p ≤ 32 → 0 < block p
block_pos p h = grind (arith, block_tiles p)

-- The hosts of a network are addresses.
pub hosts_fit : (net : Network) → IsWithin net → first_host net + host_count net ≤ 2 ^ 32
unfolding first_host host_count
hosts_fit net w = ground (arith, block_pos net.prefixlen)
