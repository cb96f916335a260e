-- ===== src/Client/AllowedIps/Examples.antt =====
-- Runs of the exclusion, and its theorems at them.
use out_warp.Prelude.{◌≡◌, refl, not, List, [], ◌∷◌, ok, err, arith}
use out_warp.Server.IpPool.Address.{Network}
use out_warp.Client.AllowedIps.{
  allowed_ips_excluding, exclude_all, exclude_one, address_exclude, split_around, overlaps,
  contains, is_subnet, covers, not_contained,
}
use out_warp.Client.AllowedIps.Laws.{allowed_ips_excluding-covers}

-- 192.0.2.0/24
abbrev office : Network
office = record { base = 3221225984; prefixlen = 24 }

-- 10.0.0.0/8 and 10.1.0.0/16
abbrev large : Network
large = record { base = 167772160; prefixlen = 8 }

abbrev small : Network
small = record { base = 167837696; prefixlen = 16 }

abbrev left : List Network
left = elim (allowed_ips_excluding (office ∷ [])) [ ok nets ↦ nets | err e ↦ [] ]

left_returns : allowed_ips_excluding (office ∷ []) ≡ ok left
unfolding allowed_ips_excluding exclude_all exclude_one address_exclude split_around overlaps
    contains is_subnet
left_returns = refl

-- A network that holds one excluded before is not contained in what is left of it.
nested_raises : allowed_ips_excluding (small ∷ large ∷ []) ≡ err not_contained
unfolding allowed_ips_excluding exclude_all exclude_one address_exclude split_around overlaps
    contains is_subnet
nested_raises = refl

allowed_ips_excluding-covers_example :
    covers left 3221226000 ≡ not (covers (office ∷ []) 3221226000)
allowed_ips_excluding-covers_example =
    allowed_ips_excluding-covers (office ∷ []) left 3221226000
      (record { prefix_le = omega arith; aligned = (12582914, refl) }, tt) left_returns
      (omega arith)
