-- ===== src/Server/IpPool/Laws.antt =====
-- What `next_available_ip` (server/outwarp_server/ip_pool.py) hands out.
use out_warp.Prelude.{
  ◌↔◌, ℕ, zero, suc, ◌+◌, ◌≤◌, ◌<◌, ◌^◌, String, ◌≡◌, refl, true, false, Option, none, some, List,
  [], ◌∷◌, arith, Result, ok, err, ◌>>=◌, >>=-eq-ok, ok-injective, Bool-cases, inl, inr,
}
use mathlib.Core.Path.{subst}
use out_warp.Prelude.Text.{split-append, concat}
use out_warp.Server.IpPool.Address.{show_address, Network, parse_network, first_host, host_count}
use out_warp.Server.IpPool.Address.Roundtrip.{parse_address-show, has_no_slash-show_address}
use out_warp.Server.IpPool.Address.Bounds.{parse_network-IsWithin, hosts_fit}
use out_warp.Server.IpPool.{
  PoolError, pool_exhausted, required, host_of, hosts_of, used_by, first_free, next_available_ip,
}

-- The lowest of the `n` numbers from `first` on that is not used.
pub record IsLowestFree (first n : ℕ) (used : List ℕ) (host : ℕ) : Type 0 where
  pub from : first ≤ host
  pub before : host < first + n
  pub free : used_by used host ≡ false
  pub lower_used : (h : ℕ) → first ≤ h → h < host → used_by used h ≡ true

first_free-IsLowestFree :
    (n first : ℕ) (used : List ℕ) (host : ℕ)
    → first_free n first used ≡ ok host
    → IsLowestFree first n used host
unfolding first_free
first_free-IsLowestFree zero first used host e = cc
first_free-IsLowestFree (suc n) first used host e = elim (Bool-cases (used_by used first)) [
  | inl taken ↦
      let rest = first_free-IsLowestFree n (first + 1) used host (rw taken at e) in
      record {
        from = omega (arith, rest.from);
        before = omega (arith, rest.before);
        free = rest.free;
        lower_used = λ h l u. ground (arith, rest.lower_used h);
      }
  | inr free ↦ record {
    from = ground arith;
    before = ground arith;
    free = ground arith;
    lower_used = λ h l u. ground arith;
  }
]

-- An address that the pool hands out, with the parsed arguments that it was chosen from.
pub record IsAllocation (subnet server_address : String) (allocated : List String)
    (address : String) : Type 0 where
  pub network : Network
  pub server_ip : ℕ
  pub hosts : List ℕ
  pub host : ℕ
  pub network_parsed : parse_network subnet ≡ some network
  pub server_parsed : host_of server_address ≡ ok server_ip
  pub allocated_parsed : hosts_of allocated ≡ ok hosts
  pub address_reads : host_of address ≡ ok host
  pub chosen : IsLowestFree (first_host network) (host_count network) (server_ip ∷ hosts) host

host_of-show_address :
    (host : ℕ) → host < 2 ^ 32 → host_of (concat (show_address host ∷ "/32" ∷ [])) ≡ ok host
unfolding host_of concat
host_of-show_address host h =
    rw (split-append b'/' (show_address host) "/" "32" (has_no_slash-show_address host) refl)
      (rw (parse_address-show host h))

required-eq-ok {ℓ} : {A : Type ℓ} (o : Option A) {a : A} → required o ≡ ok a → o ≡ some a
required-eq-ok none e = cc
required-eq-ok (some a) e = cc

-- Every address that is handed out is the lowest host of the subnet that is neither the server's
-- nor that of an allocated entry, and reads back as that host.
pub next_available_ip-IsAllocation :
    (subnet server_address : String) (allocated : List String) (address : String)
    → next_available_ip subnet server_address allocated ≡ ok address
    → IsAllocation subnet server_address allocated address
unfolding next_available_ip
next_available_ip-IsAllocation subnet server_address allocated address e =
    let (net, p, e₁) = >>=-eq-ok (required (parse_network subnet)) _ e in
    let (server, q, e₂) = >>=-eq-ok (host_of server_address) _ e₁ in
    let (hosts, r, e₃) = >>=-eq-ok (hosts_of allocated) _ e₂ in
    let (host, s, e₄) =
      >>=-eq-ok (first_free (host_count net) (first_host net) (server ∷ hosts)) _ e₃ in
    let chosen = first_free-IsLowestFree _ _ _ host s in
    let parsed = required-eq-ok (parse_network subnet) p in
    let fits = hosts_fit net (parse_network-IsWithin subnet net parsed) in
    record {
      network = net;
      server_ip = server;
      hosts = hosts;
      host = host;
      network_parsed = parsed;
      server_parsed = q;
      allocated_parsed = r;
      address_reads =
          subst (λ a. host_of a ≡ ok host) (ok-injective e₄)
            (host_of-show_address host (omega (arith, chosen, fits)));
      chosen = chosen;
    }

abbrev pub AllUsed : ℕ → ℕ → List ℕ → Type 0
AllUsed first n used = (h : ℕ) → first ≤ h → h < first + n → used_by used h ≡ true

first_free-exhausted :
    (n first : ℕ) (used : List ℕ)
    → first_free n first used ≡ err pool_exhausted
    → AllUsed first n used
unfolding first_free
first_free-exhausted zero first used e h l u = absurd (omega arith)
first_free-exhausted (suc n) first used e h l u = elim (Bool-cases (used_by used first)) [
  | inl taken ↦ ground (arith, first_free-exhausted n (first + 1) used (rw taken at e) h)
  | inr free ↦ cc (rw free at e)
]

first_free_full :
    (n first : ℕ) (used : List ℕ)
    → AllUsed first n used
    → first_free n first used ≡ err pool_exhausted
unfolding first_free
first_free_full zero first used all = refl
first_free_full (suc n) first used all =
    rw (all first (omega arith) (omega arith))
      (first_free_full n (first + 1) used (λ h l u. all h (omega arith) (omega arith)))

-- The pool is exhausted exactly when every host of the subnet is the server's or is allocated.
pub exhausted_iff :
    (subnet server_address : String) (allocated : List String) (network : Network) (server_ip : ℕ)
    (hosts : List ℕ)
    → parse_network subnet ≡ some network
    → host_of server_address ≡ ok server_ip
    → hosts_of allocated ≡ ok hosts
    → (next_available_ip subnet server_address allocated ≡ err pool_exhausted)
      ↔ AllUsed (first_host network) (host_count network) (server_ip ∷ hosts)
unfolding next_available_ip
exhausted_iff subnet server_address allocated network server_ip hosts p q r =
    rw (p, q, r)
      (λ e. first_free-exhausted _ _ _ (unwrap _ e), λ all. rw (first_free_full _ _ _ all))
  where
    unwrap :
        (m : Result PoolError ℕ)
        → (m >>= λ host. ok (concat (show_address host ∷ "/32" ∷ []))) ≡ err pool_exhausted
        → m ≡ err pool_exhausted
    unwrap (ok a) e = cc
    unwrap (err x) e = cc
