-- ===== src/Server/IpPool.antt =====
-- server/outwarp_server/ip_pool.py: the next free address of the tunnel's subnet.
pub mod Address
pub mod Laws
mod Examples
use out_warp.Prelude.{
  ℕ, zero, suc, ◌+◌, String, Bool, true, Option, none, some, List, [], ◌∷◌, ◌==◌, any,
  if◌then◌else◌, Result, ok, err, ◌>>=◌,
}
use out_warp.Prelude.Text.{concat, split}
use Address.{parse_address, show_address, Network, parse_network, first_host, host_count}

pub data PoolError : Type 0 where
  value_error pool_exhausted : PoolError

abbrev pub required {ℓ} : {A : Type ℓ} → Option A → Result PoolError A
required none = err value_error
required (some a) = ok a

abbrev first_part : List String → String
first_part [] = ""
first_part (w ∷ ws) = w

-- `ipaddress.IPv4Address(addr.split("/")[0])`
unfoldable pub host_of : String → Result PoolError ℕ
host_of addr = required (parse_address (first_part (split b'/' addr)))

-- the loop that fills `used`
unfoldable pub hosts_of : List String → Result PoolError (List ℕ)
hosts_of [] = ok []
hosts_of (addr ∷ rest) = do host ← host_of addr; hosts ← hosts_of rest; ok (host ∷ hosts)

abbrev pub used_by : List ℕ → ℕ → Bool
used_by used host = any (λ u. u == host) used

-- `for host in network.hosts()`, over the `n` hosts from `host` on
unfoldable pub first_free : ℕ → ℕ → List ℕ → Result PoolError ℕ
first_free zero host used = err pool_exhausted
first_free (suc n) host used =
    let rest = first_free n (host + 1) used in if used_by used host then rest else ok host

unfoldable pub next_available_ip : String → String → List String → Result PoolError String
next_available_ip subnet server_address allocated = do
  network ← required (parse_network subnet)
  server_ip ← host_of server_address
  hosts ← hosts_of allocated
  host ← first_free (host_count network) (first_host network) (server_ip ∷ hosts)
  ok (concat (show_address host ∷ "/32" ∷ []))
