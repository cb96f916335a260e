-- ===== src/Server/Restart.antt =====
-- `restart_services` of server/outwarp_server/operations.py, by what it reports. `Platform` says what
-- the platform has and which of the calls made on it succeed.
use out_warp.Prelude.{
  ◌≡◌, refl, String, Bool, true, false, not, ◌&&◌, ◌||◌, Option, none, some, List, [], ◌∷◌,
  if◌then◌else◌, Bool-cases, Option-cases, inl, inr,
}

pub record Platform : Type 0 where
  pub reconcile_ok : Bool
  pub transport_owner_note : Option String
  pub manages_enroll_service : Bool
  pub wstunnel_found : Bool
  pub install_wstunnel_ok : Bool
  pub restart_wstunnel_ok : Bool
  pub install_enroll_ok : Bool
  pub restart_enroll_ok : Bool

pub data Error : Type 0 where
  wireguard_config wstunnel_restart enroll_restart : Error

pub record RestartResult : Type 0 where
  pub wg_conf_written : Bool
  pub wg_restarted : Bool
  pub wstunnel_restarted : Bool
  pub enroll_restarted : Bool
  pub errors : List Error
  pub transport_note : Option String

-- installing the unit, where the platform manages it, and restarting the service
abbrev pub wstunnel_ok : Platform → Bool
wstunnel_ok p =
    (if p.manages_enroll_service then p.wstunnel_found && p.install_wstunnel_ok else true)
    && p.restart_wstunnel_ok

abbrev pub enroll_ok : Platform → Bool
enroll_ok p =
    (if p.manages_enroll_service then p.install_enroll_ok else true) && p.restart_enroll_ok

abbrev pub report : Bool → Bool → Bool → List Error → Option String → RestartResult
report wg wstunnel enroll errors note = record {
  wg_conf_written = wg;
  wg_restarted = wg;
  wstunnel_restarted = wstunnel;
  enroll_restarted = enroll;
  errors = errors;
  transport_note = note;
}

restart_transport : Platform → Option String → RestartResult
restart_transport p (some note) = report true false false [] (some note)
restart_transport p none =
    if not (wstunnel_ok p)
    then report true false false (wstunnel_restart ∷ []) none
    else if enroll_ok p
    then report true true true [] none
    else report true true false (enroll_restart ∷ []) none

unfoldable pub restart_services : Platform → RestartResult
unfolding restart_transport
restart_services p =
    if p.reconcile_ok
    then restart_transport p p.transport_owner_note
    else report false false false (wireguard_config ∷ []) none

abbrev pub is_noted : Option String → Bool
is_noted none = false
is_noted (some note) = true

abbrev pub is_clean : List Error → Bool
is_clean [] = true
is_clean (e ∷ es) = false

-- wstunnel is restarted only if WireGuard was, the enrolment listener only if wstunnel was, and there
-- is no error exactly when all three were restarted or, WireGuard being up, another process owns the
-- transport.
pub restart_services-ordered :
    (p : Platform)
    → let r = restart_services p in
      ((r.wstunnel_restarted && not r.wg_restarted) ≡ false)
      × ((r.enroll_restarted && not r.wstunnel_restarted) ≡ false)
      × (is_clean r.errors ≡ (r.enroll_restarted || r.wg_restarted && is_noted r.transport_note))
unfolding restart_services restart_transport
restart_services-ordered p = elim (Bool-cases p.reconcile_ok) [
  | inr failed ↦ simp failed (refl, refl, refl)
  | inl up ↦ elim (Option-cases p.transport_owner_note) [
    | inr (note, owned) ↦ simp (up, owned) (refl, refl, refl)
    | inl free ↦ elim (Bool-cases (wstunnel_ok p)) [
      | inr failed ↦ simp (up, free, failed) (refl, refl, refl)
      | inl running ↦ elim (Bool-cases (enroll_ok p)) [
        | inr failed ↦ simp (up, free, running, failed) (refl, refl, refl)
        | inl done ↦ simp (up, free, running, done) (refl, refl, refl)
      ]
    ]
  ]
]
