-- ===== src/Server/Operations/Laws.antt =====
-- What one operation of server/outwarp_server/operations.py does that another one meets.
use out_warp.Prelude.{
  String, ◌≡◌, ◌≢◌, refl, sym, ◌∙◌, ap, Bool, true, false, none, some, [], ◌∷◌, arith, str_eq,
  eq_iff, if◌then◌else◌, filter, Bool-cases, inl, inr, err, str_eq-false,
}
use mathlib.Core.Path.{subst}
use text.Mathlib.TextPositions.{eq_refl}
use out_warp.Server.ClientStore.{
  ClientState, active, disabled, revoked, ClientEntry, is_revoked, is_active, Table, list_active,
  get, update, mark_enrolled, set_state, soft_delete,
}
use out_warp.Server.ClientStore.Laws.{UniqueNames}
use out_warp.Server.ClientStore.Updates.{get-update, update-none}
use out_warp.Server.Wireguard.{is_live_peer}
use out_warp.Server.Operations.{
  call, add_peer, Outside, Server, ServerConfig, not_found, has_key, finish, save_clients,
  persist_wg_config, registered, complete_enrollment, revoke_client, set_client_enabled, switched,
}
use out_warp.Server.Operations.Invariant.{finish-table, registered-IsLive}

-- The files agree with the table: the config's clients are those not revoked, and the configuration
-- for the system holds those that belong on the interface.
pub record IsPublished (o : Outside) (s : Server) : Type 0 where
  pub clients_saved : s.config.clients ≡ list_active s.table
  pub peers_written : s.wg_peers ≡ filter (λ e. is_live_peer e o.today) (list_active s.table)

finish-IsPublished :
    (o : Outside) (config : ServerConfig) (s : Server)
    → o.install_ok ≡ true
    → IsPublished o (finish o config s)
unfolding finish save_clients persist_wg_config
finish-IsPublished o config s written = record {
  clients_saved = rw written refl;
  peers_written = rw written refl;
}

update-update :
    (name : String) (f g : ClientEntry → ClientEntry) (t : Table)
    → ((e : ClientEntry) → (f e).name ≡ e.name)
    → update name g (update name f t) ≡ update name (λ e. g (f e)) t
unfolding update
update-update name f g [] same = refl
update-update name f g (e ∷ t) same = ground (arith, same e, update-update name f g t same)

update-same :
    (name : String) (f : ClientEntry → ClientEntry) (t : Table) (target : ClientEntry)
    → ((e : ClientEntry) → (f e).name ≡ e.name)
    → UniqueNames t
    → get name t ≡ some target
    → f target ≡ target
    → update name f t ≡ t
unfolding update get
update-same name f [] target names u h same = refl
update-same name f (e ∷ t) target names u h same = elim (Bool-cases (str_eq e.name name)) [
  | inl hit ↦
      let here : some e ≡ some target = (rw hit at h) in
      let rest : update name f t ≡ t =
        update-none name f names t (ground (arith, u.0, eq_iff e.name name, hit)) in
      rw (hit, rest) (ground (arith, here, same))
  | inr miss ↦ rw (miss, update-same name f t target names u.1 (rw miss at h) same) refl
]

module _ (name : String) where
  registered-set_state :
      (state : ClientState) (t : Table) (target : ClientEntry)
      → registered name t ≡ some target
      → registered name (set_state name state t)
        ≡ (if is_revoked state then none else some (record target { state = state }))
  unfolding registered set_state
  registered-set_state state t target h =
      let (found, live) = registered-IsLive name t target h in
      rw
        (
          registered,
          get-update name name (λ e. record e { state = state }) t (λ e. refl),
          found,
          eq_refl name,
        )
        refl

  switch-table :
      (o : Outside) (enabled : Bool) (s : Server) (target : ClientEntry)
      → registered name s.table ≡ some target
      → (set_client_enabled o name enabled s).1.table ≡ set_state name (switched enabled) s.table
  unfolding set_client_enabled
  switch-table o enabled s target h = rw (set_client_enabled, h) (finish-table o s.config _)

  revoke-table :
      (o : Outside) (s : Server) (target : ClientEntry)
      → registered name s.table ≡ some target
      → (revoke_client o name s).1.table ≡ set_state name revoked s.table
  unfolding revoke_client soft_delete
  revoke-table o s target h = rw (revoke_client, h) (finish-table o s.config _)

  complete-not_found :
      (o : Outside) (config : ServerConfig) (public_key : String) (s : Server)
      → registered name s.table ≡ none
      → (complete_enrollment o config name public_key s).0 ≡ err not_found
  unfolding complete_enrollment
  complete-not_found o config public_key s h = rw (complete_enrollment, h) refl

  -- After the revocation of a registered client, an enrolment under its name is refused.
  pub revoke_then_complete :
      (o p : Outside) (s : Server) (target : ClientEntry) (config : ServerConfig)
      (public_key : String)
      → registered name s.table ≡ some target
      → (complete_enrollment p config name public_key (revoke_client o name s).1).0 ≡ err not_found
  revoke_then_complete o p s target config public_key h =
      complete-not_found p config public_key (revoke_client o name s).1 (
        ap (registered name) (revoke-table o s target h)
        ∙ registered-set_state revoked s.table target h)

  -- Disabling an active client and enabling it again restores the table, in which names are unique.
  pub disable_then_enable :
      (o p : Outside) (s : Server) (target : ClientEntry)
      → UniqueNames s.table
      → registered name s.table ≡ some target
      → target.state ≡ active
      → (set_client_enabled p name true (set_client_enabled o name false s).1).1.table ≡ s.table
  unfolding set_state
  disable_then_enable o p s target u h on =
      let off : (set_client_enabled o name false s).1.table ≡ set_state name disabled s.table =
        switch-table o false s target h in
      let still : registered name (set_client_enabled o name false s).1.table
          ≡ some (record target { state = disabled }) =
        ap (registered name) off ∙ registered-set_state disabled s.table target h in
      switch-table p true (set_client_enabled o name false s).1 _ still
      ∙ (ap (set_state name active) off
          ∙ (update-update name (λ e. record e { state = disabled })
                (λ e. record e { state = active }) s.table (λ e. refl)
              ∙ update-same name (λ e. record e { state = active }) s.table target (λ e. refl) u
                  (registered-IsLive name s.table target h).0 (ground (arith, on))))

module _ (o : Outside) (config : ServerConfig) (name public_key : String) (s : Server)
    (target : ClientEntry) where
  complete-finish :
      registered name s.table ≡ some target
      → target.public_key ≡ ""
      → (u : Server) × ((complete_enrollment o config name public_key s).1 ≡ finish o config u)
        × (u.table ≡ mark_enrolled name public_key o.today s.table)
  unfolding complete_enrollment
  complete-finish h blank = elim (Bool-cases (is_active target.state)) [
    | inl on ↦ (
      record (call (add_peer public_key target.address target.psk) s) {
        table = mark_enrolled name public_key o.today s.table;
      },
      rw (complete_enrollment, h, blank, on) refl,
      refl,
    )
    | inr off ↦ (
      record s { table = mark_enrolled name public_key o.today s.table },
      rw (complete_enrollment, h, blank, off) refl,
      refl,
    )
  ]

  registered-mark_enrolled :
      registered name s.table ≡ some target
      → registered name (mark_enrolled name public_key o.today s.table)
        ≡ some (record target { public_key = public_key; enrolled_at = o.today })
  unfolding registered mark_enrolled
  registered-mark_enrolled h =
      let (found, live) = registered-IsLive name s.table target h in
      rw
        (
          registered,
          get-update name name (λ e. record e { public_key = public_key; enrolled_at = o.today })
              s.table (λ e. refl),
          found,
          eq_refl name,
          live,
        )
        refl

  complete-has_key :
      (p : Outside) (other : String) (t : Server) (e : ClientEntry)
      → registered name t.table ≡ some e
      → e.public_key ≢ ""
      → (complete_enrollment p config name other t).0 ≡ err has_key
  unfolding complete_enrollment
  complete-has_key p other t e h keyed =
      rw (complete_enrollment, h, str_eq-false e.public_key "" keyed) refl

  -- After an enrolment into a slot without a key, the client has the key that was posted and keeps its
  -- address, a second enrolment into the slot is refused, and the files agree with the table, provided
  -- that the system's configuration could be written.
  pub complete_enrollment-laws :
      (p : Outside) (other : String)
      → registered name s.table ≡ some target
      → target.public_key ≡ ""
      → public_key ≢ ""
      → o.install_ok ≡ true
      → let t = (complete_enrollment o config name public_key s).1 in
        (registered name t.table
          ≡ some (record target { public_key = public_key; enrolled_at = o.today }))
        × ((complete_enrollment p config name other t).0 ≡ err has_key)
        × IsPublished o t
  complete_enrollment-laws p other h blank keyed written =
      let t = (complete_enrollment o config name public_key s).1 in
      let (u, finished, marked) = complete-finish h blank in
      let table : t.table ≡ mark_enrolled name public_key o.today s.table =
        ap (λ (x : Server). x.table) finished ∙ (finish-table o config u ∙ marked) in
      let now = ap (registered name) table ∙ registered-mark_enrolled h in
      (
        now,
        complete-has_key p other t _ now keyed,
        subst (λ (x : Server). IsPublished o x) (sym finished)
            (finish-IsPublished o config u written),
      )
