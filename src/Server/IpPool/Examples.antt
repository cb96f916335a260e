-- ===== src/Server/IpPool/Examples.antt =====
-- Runs of the address pool, and its theorems at a small subnet.
use out_warp.Prelude.{any, String, ◌≡◌, refl, [], ◌∷◌, ok, err, ◌↔◌}
use out_warp.Server.IpPool.Address.{
  Network, parse_network, parse_address, show_address, first_host, host_count,
}
use out_warp.Server.IpPool.{
  next_available_ip, pool_exhausted, value_error, host_of, hosts_of, first_free,
}
use out_warp.Server.IpPool.Laws.{
  IsAllocation, next_available_ip-IsAllocation, AllUsed, exhausted_iff,
}
use out_warp.Prelude.Text.{show, split, concat, read_digits}

-- All that a run of the pool computes with.
all_open : Unit {0}
unfolding next_available_ip host_of hosts_of first_free first_host host_count parse_network
    parse_address show split concat read_digits show_address any
all_open = tt

abbrev subnet : String
subnet = "10.8.0.0/30"

abbrev server : String
server = "10.8.0.1/30"

next_free : next_available_ip subnet server [] ≡ ok "10.8.0.2/32"
unfolding all_open
next_free = refl

mask_subnet :
    next_available_ip "10.8.0.7/255.255.255.0" server ("10.8.0.2/32" ∷ []) ≡ ok "10.8.0.3/32"
unfolding all_open
mask_subnet = refl

bad_entry : next_available_ip subnet server ("10.8.0.02/32" ∷ []) ≡ err value_error
unfolding all_open
bad_entry = refl

next_available_ip-IsAllocation_example : IsAllocation subnet server [] "10.8.0.2/32"
next_available_ip-IsAllocation_example =
    next_available_ip-IsAllocation subnet server [] "10.8.0.2/32" next_free

abbrev tunnel_net : Network
tunnel_net = record { base = 168296448; prefixlen = 30 }

exhausted_iff_example :
    (next_available_ip subnet server ("10.8.0.2/32" ∷ []) ≡ err pool_exhausted)
    ↔ AllUsed (first_host tunnel_net) (host_count tunnel_net) (168296449 ∷ 168296450 ∷ [])
unfolding parse_network parse_address host_of hosts_of split read_digits
exhausted_iff_example =
    exhausted_iff subnet server ("10.8.0.2/32" ∷ []) tunnel_net 168296449 (168296450 ∷ []) refl refl
      refl
