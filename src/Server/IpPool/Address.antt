-- ===== src/Server/IpPool/Address.antt =====
-- What ip_pool.py uses of Python's `ipaddress`: IPv4 addresses as numbers below 2 ^ 32, and networks.
pub mod Roundtrip
pub mod Bounds
use Prim.Native.Char.{Char, code}
use Prim.Native.String.{◌++◌}
use out_warp.Prelude.{
  ℕ, zero, suc, ◌+◌, ◌-◌, ◌*◌, ◌/◌, ◌%◌, ◌^◌, String, Bool, false, not, ◌&&◌, Option, none, some,
  List, [], ◌∷◌, ltb, leb, ◌==◌, str_eq, if◌then◌else◌,
}
use out_warp.Prelude.Text.{split, show, read_digits, str_len}

abbrev starts_with_zero : String → Bool
starts_with_zero String.[] = false
starts_with_zero (String.◌∷◌ c s) = code c == b'0'

-- one to three digits, no leading zero, at most 255
parse_octet : String → Option ℕ
unfolding read_digits
parse_octet s = elim (read_digits s) [
  | none ↦ none
  | some n ↦
      if ltb 3 (str_len s)
      then none
      else if not (str_eq s "0") && starts_with_zero s
      then none
      else if ltb 255 n
      then none
      else some n
]

abbrev join_octets : Option ℕ → Option ℕ → Option ℕ → Option ℕ → Option ℕ
join_octets (some a) (some b) (some c) (some d) = some (((a * 256 + b) * 256 + c) * 256 + d)
join_octets _ _ _ _ = none

parse_octets : List String → Option ℕ
parse_octets (a ∷ b ∷ c ∷ d ∷ []) =
    join_octets (parse_octet a) (parse_octet b) (parse_octet c) (parse_octet d)
parse_octets _ = none

-- `IPv4Address(s)`
unfoldable pub parse_address : String → Option ℕ
unfolding parse_octets parse_octet
parse_address s = parse_octets (split b'.' s)

abbrev dot : Char
dot = "."

-- `str(address)`
unfoldable pub show_address : ℕ → String
show_address n =
    show (n / 2 ^ 24)
    ++ String.◌∷◌ dot (
        show (n / 2 ^ 16 % 256)
        ++ String.◌∷◌ dot (show (n / 2 ^ 8 % 256) ++ String.◌∷◌ dot (show (n % 256))))

pub record Network : Type 0 where
  pub base : ℕ
  pub prefixlen : ℕ

-- The addresses of a network are `block` numbers from its base on.
abbrev pub block : ℕ → ℕ
block prefixlen = 2 ^ (32 - prefixlen)

-- the first prefix length from `p` on, of `n`, whose netmask is `mask`
find_prefix : ℕ → ℕ → ℕ → Option ℕ
find_prefix zero p mask = none
find_prefix (suc n) p mask =
    let rest = find_prefix n (p + 1) mask in if 2 ^ 32 - block p == mask then some p else rest

-- a dotted netmask, or failing that a dotted host mask
prefix_of_mask : ℕ → Option ℕ
unfolding find_prefix
prefix_of_mask mask = elim (find_prefix 33 0 mask) [
  | some p ↦ some p
  | none ↦ find_prefix 33 0 (2 ^ 32 - 1 - mask)
]

abbrev prefix_of_address : Option ℕ → Option ℕ
prefix_of_address none = none
prefix_of_address (some mask) = prefix_of_mask mask

-- a prefix length in digits, or failing that a mask
parse_prefix : String → Option ℕ
unfolding prefix_of_mask
parse_prefix s = elim (read_digits s) [
  | none ↦ prefix_of_address (parse_address s)
  | some n ↦ if leb n 32 then some n else prefix_of_address (parse_address s)
]

-- `strict=False` drops the host bits.
network_of : Option ℕ → Option ℕ → Option Network
network_of (some a) (some p) = some (record { base = a - a % block p; prefixlen = p })
network_of _ _ = none

parse_network_parts : List String → Option Network
unfolding parse_prefix network_of
parse_network_parts (a ∷ []) = network_of (parse_address a) (some 32)
parse_network_parts (a ∷ p ∷ []) = network_of (parse_address a) (parse_prefix p)
parse_network_parts _ = none

-- `IPv4Network(s, strict=False)`
unfoldable pub parse_network : String → Option Network
unfolding parse_network_parts parse_address
parse_network s = parse_network_parts (split b'/' s)

-- `network.hosts()` leaves out the network's own address and the broadcast address, except in a
-- network of one or two addresses.
unfoldable pub first_host : Network → ℕ
first_host net = if ltb 30 net.prefixlen then net.base else net.base + 1

unfoldable pub host_count : Network → ℕ
host_count net = if ltb 30 net.prefixlen then block net.prefixlen else block net.prefixlen - 2
