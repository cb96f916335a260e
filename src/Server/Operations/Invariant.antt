-- ===== src/Server/Operations/Invariant.antt =====
-- Every operation of server/outwarp_server/operations.py keeps the client table well formed: a name
-- occurs once, and no two clients that are not revoked share an address.
use out_warp.Prelude.{
  ℕ, String, ◌≡◌, refl, sym, ◌∙◌, ap, Bool, false, ◌||◌, ◌==◌, some, List, [], ◌∷◌, arith, str_eq,
  eq_iff, filter, map, any, Bool-cases, Option-cases, inl, inr, ok, >>=-eq-ok,
}
use out_warp.Server.IpPool.{host_of, hosts_of, used_by}
use out_warp.Server.ClientNames.{validate_client_name}
use out_warp.Server.ClientStore.{
  is_active, revoked, ClientEntry, is_revoked, Table, list_active, get, update, mark_enrolled,
  update_keys, set_state, soft_delete,
}
use out_warp.Server.ClientStore.Laws.{IsWellFormed, taken}
use out_warp.Server.ClientStore.Updates.{update-IsWellFormed}
use out_warp.Server.Operations.{
  Outside, Server, ServerConfig, finish, save_clients, persist_wg_config, registered,
  complete_enrollment, revoke_client, set_client_enabled, switched, rotate_named, rotate_client,
  backfilled, or_blank,
}

pub ||-eq-false : (a b : Bool) → (a || b) ≡ false → (a ≡ false) × (b ≡ false)
||-eq-false a b h = ground (arith, h)

-- An address that a client has is among the hosts that its pool excludes.
pub taken-used :
    (address : String) (t : Table) (hosts : List ℕ) (host : ℕ)
    → hosts_of (map (λ e. e.address) (list_active t)) ≡ ok hosts
    → host_of address ≡ ok host
    → used_by hosts host ≡ false
    → taken address t ≡ false
unfolding taken list_active hosts_of filter any
taken-used address [] hosts host h at free = refl
taken-used address (x ∷ t) hosts host h at free = elim (Bool-cases (is_revoked x.state)) [
  | inl gone ↦ rw gone (taken-used address t hosts host (rw gone at h) at free)
  | inr live ↦
      let (own, p, e₁) = >>=-eq-ok (host_of x.address) _ (rw live at h) in
      let (rest, q, e₂) = >>=-eq-ok (hosts_of (map (λ e. e.address) (list_active t))) _ e₁ in
      let split : own ∷ rest ≡ hosts = ground (arith, e₂) in
      let (apart, free_rest) =
        ||-eq-false (own == host) (used_by rest host) (rw (← split) at free) in
      elim (Bool-cases (str_eq x.address address)) [
        | inl same ↦
            let one : ok own ≡ ok host =
              sym p ∙ (ap host_of ((eq_iff x.address address).0 same) ∙ at) in
            absurd (ground (arith, one, apart))
        | inr other ↦ rw (live, other) (taken-used address t rest host q at free_rest)
      ]
]

pub finish-table :
    (o : Outside) (config : ServerConfig) (s : Server) → (finish o config s).table ≡ s.table
unfolding finish persist_wg_config save_clients
finish-table o config s = ground arith

pub finish-IsWellFormed :
    (o : Outside) (config : ServerConfig) (s : Server)
    → IsWellFormed s.table
    → IsWellFormed (finish o config s).table
finish-IsWellFormed o config s w = rw (finish-table o config s) w

pub registered-IsLive :
    (name : String) (t : Table) (target : ClientEntry)
    → registered name t ≡ some target
    → (get name t ≡ some target) × (is_revoked target.state ≡ false)
unfolding registered
registered-IsLive name t target h = elim (Option-cases (get name t)) [
  | inl absent ↦ absurd (ground (arith, h, absent))
  | inr (e, there) ↦ elim (Bool-cases (is_revoked e.state)) [
    | inl gone ↦ absurd (ground (arith, h, there, gone))
    | inr live ↦
        let same : some e ≡ some target = (rw (registered, there, live) at h) in
        (rw there same, ground (arith, same, live))
  ]
]

-- A change of the row of a registered client that keeps its name and address.
registered-update-IsWellFormed :
    (name : String) (change : ClientEntry → ClientEntry) (t : Table) (target : ClientEntry)
    → ((e : ClientEntry) → (change e).name ≡ e.name)
    → ((e : ClientEntry) → (change e).address ≡ e.address)
    → IsWellFormed t
    → registered name t ≡ some target
    → IsWellFormed (update name change t)
registered-update-IsWellFormed name change t target names addresses w h =
    let (there, live) = registered-IsLive name t target h in
    update-IsWellFormed name change names t target w there (record {
      name_same = names target;
      address_same = addresses target;
      stays_revoked = λ gone. ground (arith, gone, live);
    })

pub complete_enrollment-IsWellFormed :
    (o : Outside) (config : ServerConfig) (name public_key : String) (s : Server)
    → IsWellFormed s.table
    → IsWellFormed (complete_enrollment o config name public_key s).1.table
unfolding complete_enrollment mark_enrolled
complete_enrollment-IsWellFormed o config name public_key s w =
    elim (Option-cases (registered name s.table)) [
      | inl absent ↦ rw (complete_enrollment, absent) w
      | inr (target, there) ↦
          let marked =
            registered-update-IsWellFormed name
              (λ e. record e { public_key = public_key; enrolled_at = o.today }) s.table target
              (λ e. refl) (λ e. refl) w there in
          rw (complete_enrollment, there)
            (elim (Bool-cases (str_eq target.public_key "")) [
              | inl blank ↦ rw blank (elim (Bool-cases (is_active target.state)) [
                | inl on ↦ rw on (finish-IsWellFormed o config _ marked)
                | inr off ↦ rw off (finish-IsWellFormed o config _ marked)
              ])
              | inr keyed ↦ rw keyed w
            ])
    ]

pub revoke_client-IsWellFormed :
    (o : Outside) (name : String) (s : Server)
    → IsWellFormed s.table
    → IsWellFormed (revoke_client o name s).1.table
unfolding revoke_client soft_delete set_state
revoke_client-IsWellFormed o name s w = elim (Option-cases (registered name s.table)) [
  | inl absent ↦ rw (revoke_client, absent) w
  | inr (target, there) ↦
      rw (revoke_client, there)
        (finish-IsWellFormed o s.config _ (
          registered-update-IsWellFormed name (λ e. record e { state = revoked }) s.table target
            (λ e. refl) (λ e. refl) w there))
]

pub set_client_enabled-IsWellFormed :
    (o : Outside) (name : String) (enabled : Bool) (s : Server)
    → IsWellFormed s.table
    → IsWellFormed (set_client_enabled o name enabled s).1.table
unfolding set_client_enabled set_state
set_client_enabled-IsWellFormed o name enabled s w = elim (Option-cases (registered name s.table)) [
  | inl absent ↦ rw (set_client_enabled, absent) w
  | inr (target, there) ↦
      rw (set_client_enabled, there)
        (finish-IsWellFormed o s.config _ (
          registered-update-IsWellFormed name (λ e. record e { state = switched enabled }) s.table
            target (λ e. refl) (λ e. refl) w there))
]

pub rotate_client-IsWellFormed :
    (o : Outside) (name : String) (s : Server)
    → IsWellFormed s.table
    → IsWellFormed (rotate_client o name s).1.table
unfolding rotate_client rotate_named update_keys
rotate_client-IsWellFormed o name s w = elim (Option-cases (validate_client_name name)) [
  | inl bad ↦ rw (rotate_client, bad) w
  | inr (cleaned, good) ↦
      rw (rotate_client, good)
        (elim (Option-cases (registered cleaned s.table)) [
          | inl absent ↦ rw (rotate_named, absent) w
          | inr (target, there) ↦
              rw (rotate_named, there)
                (finish-IsWellFormed o (backfilled o s) _ (
                  registered-update-IsWellFormed cleaned
                    (λ e. record e { public_key = o.keypair.1; psk = or_blank o.psk }) s.table
                    target (λ e. refl) (λ e. refl) w there))
        ])
]
