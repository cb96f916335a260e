-- ===== src/Client/AllowedIps.antt =====
-- `_allowed_ips_excluding` of client/outwarp/wireguard.py: all of IPv4 without the networks that stay
-- outside the tunnel. `subnets`, `subnet_of`, `overlaps` and `address_exclude` are those of Python's
-- `ipaddress`, on networks of numbers.
pub mod Cover
pub mod Laws
mod Examples
use mathlib.Core.List.{◌++◌ as append}
use out_warp.Prelude.{
  ℕ, zero, suc, ◌+◌, ◌-◌, Bool, ◌&&◌, ◌||◌, List, [], ◌∷◌, Result, ok, err, ◌>>=◌, ltb, leb, ◌==◌,
  if◌then◌else◌, any,
}
use out_warp.Server.IpPool.Address.{Network, block}

-- `a in net`
unfoldable pub contains : Network → ℕ → Bool
contains net a = leb net.base a && ltb a (net.base + block net.prefixlen)

abbrev pub broadcast : Network → ℕ
broadcast net = net.base + block net.prefixlen - 1

unfoldable pub overlaps : Network → Network → Bool
unfolding contains
overlaps a b =
    contains a b.base || contains a (broadcast b) || contains b a.base || contains b (broadcast a)

-- `b.subnet_of(a)`
unfoldable pub is_subnet : Network → Network → Bool
is_subnet a b = leb a.base b.base && leb (broadcast b) (broadcast a)

abbrev pub low_half : Network → Network
low_half net = record { base = net.base; prefixlen = net.prefixlen + 1 }

abbrev pub high_half : Network → Network
high_half net = record {
  base = net.base + block (net.prefixlen + 1);
  prefixlen = net.prefixlen + 1;
}

-- The halving loop, `depth` halvings above the excluded network.
unfoldable pub split_around : ℕ → Network → Network → List Network
split_around zero net other = []
split_around (suc depth) net other =
    let below = split_around depth (low_half net) other in
    let above = split_around depth (high_half net) other in
    if ltb other.base (high_half net).base then high_half net ∷ below else low_half net ∷ above

pub data ExcludeError : Type 0 where
  not_contained : ExcludeError

unfoldable pub address_exclude : Network → Network → Result ExcludeError (List Network)
unfolding split_around is_subnet
address_exclude net other =
    if is_subnet net other
    then ok (split_around (other.prefixlen - net.prefixlen) net other)
    else err not_contained

-- the inner loop, over the networks that remain
unfoldable pub exclude_one : Network → List Network → Result ExcludeError (List Network)
exclude_one excl [] = ok []
exclude_one excl (net ∷ nets) = do
  parts ← if overlaps excl net then address_exclude net excl else ok (net ∷ [])
  rest ← exclude_one excl nets
  ok (append parts rest)

unfoldable pub exclude_all : List Network → List Network → Result ExcludeError (List Network)
exclude_all [] remaining = ok remaining
exclude_all (excl ∷ excls) remaining = do
  new_remaining ← exclude_one excl remaining
  exclude_all excls new_remaining

abbrev pub whole : Network
whole = record { base = 0; prefixlen = 0 }

-- The networks before they are sorted and printed.
unfoldable pub allowed_ips_excluding : List Network → Result ExcludeError (List Network)
unfolding exclude_all
allowed_ips_excluding bypass = exclude_all bypass (whole ∷ [])

abbrev pub covers : List Network → ℕ → Bool
covers nets a = any (λ net. contains net a) nets
