-- ===== src/Server/Operations.antt =====
-- server/outwarp_server/operations.py: adding, enrolling, revoking, switching and rotating clients.
pub mod Invariant
pub mod Runs
pub mod Laws
mod Examples
mod State
unfoldable pub use State.*
use out_warp.Prelude.{
  ℕ, ◌+◌, String, Bool, true, false, not, ◌&&◌, Option, none, some, List, [], ◌∷◌, ◌++◌, str_eq,
  ◌==◌, if◌then◌else◌, filter, map, Result, ok, err, ◌>>=◌,
}
use out_warp.Server.AdminToken.{Scrypt}
use out_warp.Server.IpPool.{PoolError, pool_exhausted, value_error, next_available_ip}
use out_warp.Server.Enrollment as Enrollment
use out_warp.Server.Enrollment.{EnrollmentToken}
use out_warp.Server.ClientNames.{validate_client_name}
use out_warp.Server.ClientStore.{
  ClientState, active, disabled, revoked, ClientEntry, is_revoked, is_active, Table, list_active,
  get, insert, mark_enrolled, update_keys, set_state, soft_delete,
}
use out_warp.Server.Wireguard.{is_live_peer}

module _ (scrypt : Scrypt) where
  -- a slot's interface peer, or its one-time token
  admit : Outside → (enroll : Bool) → ℕ → String → String → Server → Option (Bool × Server)
  admit o true ttl name address s =
      elim (Enrollment.issue scrypt o.now o.random o.salt name
        (if ttl == 0 then Enrollment.default_ttl_seconds else ttl) s.tokens) [
          | none ↦ none
          | some (token, tokens) ↦ some (false, record s { tokens = tokens })
        ]
  admit o false ttl name address s =
      some (o.wg_ok, call (add_peer o.keypair.1 address (or_blank o.psk)) s)

  new_entry : Outside → Bool → String → String → String → ClientEntry
  new_entry o enroll name address expires_at = record {
    name = name;
    public_key = if enroll then "" else o.keypair.1;
    address = address;
    psk = or_blank o.psk;
    expires_at = expires_at;
    state = active;
    enrolled_at = if enroll then "" else (if str_eq o.keypair.1 "" then "" else o.today);
  }

  -- `INSERT`, and what follows the transaction
  register : Outside → ClientEntry → Bool → Bool → ServerConfig → Server → Reply × Server
  register o e replace_revoked hot config s = elim (insert e replace_revoked s.table) [
    | none ↦ (err duplicate_row, s)
    | some t ↦ (ok (e, hot), finish o config (record s { table = t }))
  ]

  -- the slot at an address
  reserve :
      Outside
      → (enroll : Bool) → (ttl : ℕ) → (name expires_at : String) → (replace_revoked : Bool) → String
      → Server
      → Reply × Server
  unfolding admit new_entry register
  reserve o enroll ttl name expires_at replace_revoked address s =
      elim (admit o enroll ttl name address s) [
        | none ↦ (err token_failed, s)
        | some (hot, u) ↦
            register o (new_entry o enroll name address expires_at) replace_revoked hot
              (backfilled o s) u
      ]

  allocate :
      Outside
      → (enroll : Bool) → (ttl : ℕ) → (name expires_at : String) → (replace_revoked : Bool) → Server
      → Reply × Server
  unfolding reserve
  allocate o enroll ttl name expires_at replace_revoked s =
      elim (next_available_ip s.config.subnet s.config.server_address
        (map (λ e. e.address) (list_active s.table))) [
          | err e ↦ (err pool_failed, s)
          | ok address ↦ reserve o enroll ttl name expires_at replace_revoked address s
        ]

  add_named :
      Outside → (enroll : Bool) → (ttl : ℕ) → (name expires_at : String) → Server → Reply × Server
  unfolding allocate
  add_named o enroll ttl name expires_at s = elim (get name s.table) [
    | none ↦ allocate o enroll ttl name expires_at false s
    | some e ↦
        if is_revoked e.state
        then allocate o enroll ttl name expires_at true s
        else (err already_exists, s)
  ]

  unfoldable pub add_client :
      Outside → (enroll : Bool) → (ttl : ℕ) → (name expires_at : String) → Server → Reply × Server
  unfolding add_named
  add_client o enroll ttl name expires_at s = elim (validate_client_name name) [
    | none ↦ (err invalid_name, s)
    | some cleaned ↦ add_named o enroll ttl cleaned expires_at s
  ]

-- the row of a client that is not revoked
unfoldable pub registered : String → Table → Option ClientEntry
registered name t = elim (get name t) [
  | none ↦ none
  | some e ↦ if is_revoked e.state then none else some e
]

-- Here `config` is the caller's copy, not a fresh load.
unfoldable pub complete_enrollment :
    Outside → ServerConfig → (name public_key : String) → Server → Reply × Server
complete_enrollment o config name public_key s = elim (registered name s.table) [
  | none ↦ (err not_found, s)
  | some target ↦
      if not (str_eq target.public_key "")
      then (err has_key, s)
      else let t = mark_enrolled name public_key o.today s.table in
        let enrolled = record target { public_key = public_key; enrolled_at = o.today } in
        if is_active target.state
        then (
          ok (enrolled, o.wg_ok),
          finish o config
              (record (call (add_peer public_key target.address target.psk) s) { table = t }),
        )
        else (ok (enrolled, false), finish o config (record s { table = t }))
]

unfoldable pub revoke_client : Outside → String → Server → Reply × Server
revoke_client o name s = elim (registered name s.table) [
  | none ↦ (err not_found, s)
  | some target ↦
      let keyed = not (str_eq target.public_key "") in
      let u = record s {
        tokens = (Enrollment.revoke name s.tokens).1;
        calls = if keyed then s.calls ++ remove_peer target.public_key ∷ [] else s.calls;
        table = soft_delete name s.table;
      } in
      (ok (target, if keyed then o.wg_ok else true), finish o s.config u)
]

abbrev pub switched : Bool → ClientState
switched enabled = if enabled then active else disabled

-- what switching a client does to the interface
abbrev pub switch_calls : Outside → Bool → ClientEntry → List WgCall
switch_calls o enabled target =
    if enabled && is_live_peer (record target { state = switched enabled }) o.today
    then add_peer target.public_key target.address target.psk ∷ []
    else if not enabled && not (str_eq target.public_key "")
    then remove_peer target.public_key ∷ []
    else []

abbrev is_nil {ℓ} : {A : Type ℓ} → List A → Bool
is_nil [] = true
is_nil (x ∷ xs) = false

unfoldable pub set_client_enabled : Outside → String → Bool → Server → Reply × Server
set_client_enabled o name enabled s = elim (registered name s.table) [
  | none ↦ (err not_found, s)
  | some target ↦
      let cs = switch_calls o enabled target in
      (
        ok (record target { state = switched enabled }, if is_nil cs then true else o.wg_ok),
        finish o s.config
            (record s { calls = s.calls ++ cs; table = set_state name (switched enabled) s.table }),
      )
]

rotate_named : Outside → String → Server → Reply × Server
rotate_named o name s = elim (registered name s.table) [
  | none ↦ (err not_found, s)
  | some target ↦
      let psk = or_blank o.psk in
      let swapped = is_active target.state in
      let cs = remove_peer target.public_key ∷ add_peer o.keypair.1 target.address psk ∷ [] in
      (
        ok (
          record target { public_key = o.keypair.1; psk = psk },
          if swapped then o.wg_ok else true,
        ),
        finish o (backfilled o s) (record s {
          calls = if swapped then s.calls ++ cs else s.calls;
          table = update_keys name o.keypair.1 psk s.table;
        }),
      )
]

unfoldable pub rotate_client : Outside → String → Server → Reply × Server
unfolding rotate_named
rotate_client o name s = elim (validate_client_name name) [
  | none ↦ (err invalid_name, s)
  | some cleaned ↦ rotate_named o cleaned s
]
