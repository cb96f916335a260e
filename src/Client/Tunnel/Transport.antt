-- ===== src/Client/Tunnel/Transport.antt =====
-- Where the wstunnel binary is (`find_wstunnel` of client/outwarp/tunnel.py). A path is a text; what
-- the disk and the environment show at one moment is a record.
use out_warp.Prelude.{
  String, Bool, Option, none, some, List, [], ◌∷◌, Result, ok, err, str_eq, if◌then◌else◌,
}

-- `frozen_candidates` are the paths beside the executable of a frozen build, and empty in any other.
pub record Disk : Type 0 where
  pub override : String
  pub frozen_candidates : List String
  pub standard : String
  pub on_path : Option String
  pub path_exists : String → Bool

pub data NotFound : Type 0 where
  override_missing : String → NotFound
  nowhere : String → NotFound

-- the standard place, and then $PATH
abbrev installed : Disk → Result NotFound String
installed d =
    if d.path_exists d.standard
    then ok d.standard
    else elim d.on_path [ none ↦ err (nowhere d.standard) | some p ↦ ok p ]

unfoldable pub first_existing : Disk → List String → Result NotFound String
first_existing d [] = installed d
first_existing d (p ∷ ps) =
    let later = first_existing d ps in if d.path_exists p then ok p else later

unfoldable pub find_wstunnel : Disk → Result NotFound String
unfolding first_existing
find_wstunnel d =
    if str_eq d.override ""
    then first_existing d d.frozen_candidates
    else if d.path_exists d.override
    then ok d.override
    else err (override_missing d.override)
