-- ===== src/Server/Operations/Runs.antt =====
-- Runs of the operations of server/outwarp_server/operations.py, and what holds of the client table
-- throughout: a name occurs once, and no two clients that are not revoked share an address.
use out_warp.Prelude.{
  ℕ, String, ◌≡◌, Bool, true, false, ◌==◌, some, List, [], ◌∷◌, arith, if◌then◌else◌, map, any,
  Bool-cases, Option-cases, inl, inr, Result-cases,
}
use out_warp.Server.AdminToken.{Scrypt}
use out_warp.Server.IpPool.{next_available_ip, used_by}
use out_warp.Server.IpPool.Laws.{next_available_ip-IsAllocation}
use out_warp.Server.Enrollment as Enrollment
use out_warp.Server.ClientNames.{validate_client_name}
use out_warp.Server.ClientStore.{ClientEntry, is_revoked, list_active, get, insert}
use out_warp.Server.ClientStore.Laws.{IsWellFormed, taken, insert-IsWellFormed}
use out_warp.Server.Operations.Invariant.{
  ||-eq-false, taken-used, finish-IsWellFormed, complete_enrollment-IsWellFormed,
  revoke_client-IsWellFormed, set_client_enabled-IsWellFormed, rotate_client-IsWellFormed,
}
use out_warp.Server.Operations.{
  Outside, Server, ServerConfig, admit, new_entry, register, reserve, allocate, add_named,
  add_client, complete_enrollment, revoke_client, set_client_enabled, rotate_client,
}

module _ (scrypt : Scrypt) where
  register-IsWellFormed :
      (o : Outside) (e : ClientEntry) (replace_revoked hot : Bool) (config : ServerConfig)
      (s : Server)
      → IsWellFormed s.table
      → taken e.address s.table ≡ false
      → IsWellFormed (register scrypt o e replace_revoked hot config s).1.table
  unfolding register
  register-IsWellFormed o e replace_revoked hot config s w free =
      elim (Option-cases (insert e replace_revoked s.table)) [
        | inl clash ↦ rw (register, clash) w
        | inr (t, done) ↦
            rw (register, done)
              (finish-IsWellFormed o config _
                (insert-IsWellFormed e replace_revoked s.table t w free done))
      ]

  admit-table :
      (o : Outside) (enroll : Bool) (ttl : ℕ) (name address : String) (s : Server) (hot : Bool)
      (u : Server)
      → admit scrypt o enroll ttl name address s ≡ some (hot, u)
      → u.table ≡ s.table
  unfolding admit
  admit-table o true ttl name address s hot u h =
      elim (Option-cases (
        Enrollment.issue scrypt o.now o.random o.salt name
          (if ttl == 0 then Enrollment.default_ttl_seconds else ttl) s.tokens)) [
            | inl failed ↦ absurd (ground (arith, h, failed))
            | inr ((token, tokens), issued) ↦ ground (arith, h, issued)
          ]
  admit-table o false ttl name address s hot u h = ground (arith, h)

  reserve-IsWellFormed :
      (o : Outside) (enroll : Bool) (ttl : ℕ) (name expires_at : String) (replace_revoked : Bool)
      (address : String) (s : Server)
      → IsWellFormed s.table
      → taken address s.table ≡ false
      → IsWellFormed (reserve scrypt o enroll ttl name expires_at replace_revoked address s).1.table
  unfolding new_entry reserve
  reserve-IsWellFormed o enroll ttl name expires_at replace_revoked address s w free =
      elim (Option-cases (admit scrypt o enroll ttl name address s)) [
        | inl failed ↦ rw (reserve, failed) w
        | inr ((hot, u), admitted) ↦
            let kept = admit-table o enroll ttl name address s hot u admitted in
            rw (reserve, admitted)
              (register-IsWellFormed o (new_entry scrypt o enroll name address expires_at)
                replace_revoked hot _ u (rw kept w) (rw kept free))
      ]

  allocate-IsWellFormed :
      (o : Outside) (enroll : Bool) (ttl : ℕ) (name expires_at : String) (replace_revoked : Bool)
      (s : Server)
      → IsWellFormed s.table
      → IsWellFormed (allocate scrypt o enroll ttl name expires_at replace_revoked s).1.table
  unfolding allocate any
  allocate-IsWellFormed o enroll ttl name expires_at replace_revoked s w =
      elim (Result-cases (
        next_available_ip s.config.subnet s.config.server_address
          (map (λ e. e.address) (list_active s.table)))) [
            | inl (e, failed) ↦ rw (allocate, failed) w
            | inr (address, allotted) ↦
                let a = next_available_ip-IsAllocation _ _ _ address allotted in
                let (server_apart, apart) =
                  ||-eq-false (a.server_ip == a.host) (used_by a.hosts a.host) a.chosen.free in
                rw (allocate, allotted)
                  (reserve-IsWellFormed o enroll ttl name expires_at replace_revoked address s w (
                    taken-used address s.table a.hosts a.host a.allocated_parsed a.address_reads
                      apart))
          ]

  add_named-IsWellFormed :
      (o : Outside) (enroll : Bool) (ttl : ℕ) (name expires_at : String) (s : Server)
      → IsWellFormed s.table
      → IsWellFormed (add_named scrypt o enroll ttl name expires_at s).1.table
  unfolding add_named
  add_named-IsWellFormed o enroll ttl name expires_at s w = elim (Option-cases (get name s.table)) [
    | inl absent ↦
        rw (add_named, absent) (allocate-IsWellFormed o enroll ttl name expires_at false s w)
    | inr (e, there) ↦ elim (Bool-cases (is_revoked e.state)) [
      | inl gone ↦
          rw (add_named, there, gone) (allocate-IsWellFormed o enroll ttl name expires_at true s w)
      | inr live ↦ rw (add_named, there, live) w
    ]
  ]

  add_client-IsWellFormed :
      (o : Outside) (enroll : Bool) (ttl : ℕ) (name expires_at : String) (s : Server)
      → IsWellFormed s.table
      → IsWellFormed (add_client scrypt o enroll ttl name expires_at s).1.table
  unfolding add_client
  add_client-IsWellFormed o enroll ttl name expires_at s w =
      elim (Option-cases (validate_client_name name)) [
        | inl bad ↦ rw (add_client, bad) w
        | inr (cleaned, good) ↦
            rw (add_client, good) (add_named-IsWellFormed o enroll ttl cleaned expires_at s w)
      ]

-- A call of one operation, with what it takes from outside.
pub data Request : Type 0 where
  add : Outside → (enroll : Bool) → (ttl : ℕ) → (name expires_at : String) → Request
  complete : Outside → ServerConfig → (name public_key : String) → Request
  revoke : Outside → (name : String) → Request
  switch : Outside → (name : String) → (enabled : Bool) → Request
  rotate : Outside → (name : String) → Request

module _ (scrypt : Scrypt) where
  unfoldable pub serve : Request → Server → Server
  serve (add o enroll ttl name expires_at) s = (add_client scrypt o enroll ttl name expires_at s).1
  serve (complete o config name public_key) s = (complete_enrollment o config name public_key s).1
  serve (revoke o name) s = (revoke_client o name s).1
  serve (switch o name enabled) s = (set_client_enabled o name enabled s).1
  serve (rotate o name) s = (rotate_client o name s).1

  unfoldable pub serve_all : List Request → Server → Server
  serve_all [] s = s
  serve_all (r ∷ rs) s = serve_all rs (serve r s)

  serve-IsWellFormed :
      (r : Request) (s : Server) → IsWellFormed s.table → IsWellFormed (serve r s).table
  unfolding serve
  serve-IsWellFormed (add o enroll ttl name expires_at) s w =
      add_client-IsWellFormed scrypt o enroll ttl name expires_at s w
  serve-IsWellFormed (complete o config name public_key) s w =
      complete_enrollment-IsWellFormed o config name public_key s w
  serve-IsWellFormed (revoke o name) s w = revoke_client-IsWellFormed o name s w
  serve-IsWellFormed (switch o name enabled) s w =
      set_client_enabled-IsWellFormed o name enabled s w
  serve-IsWellFormed (rotate o name) s w = rotate_client-IsWellFormed o name s w

  -- Whatever operations are called, in whatever order and with whatever outcome, a client table in
  -- which names are unique and no two clients that are not revoked share an address stays so.
  pub serve_all-IsWellFormed :
      (rs : List Request) (s : Server) → IsWellFormed s.table → IsWellFormed (serve_all rs s).table
  unfolding serve_all
  serve_all-IsWellFormed [] s w = w
  serve_all-IsWellFormed (r ∷ rs) s w =
      serve_all-IsWellFormed rs (serve r s) (serve-IsWellFormed r s w)
