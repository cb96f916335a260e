-- ===== src/Server/Sessions.antt =====
-- `SessionStore` of server/outwarp_server/web_auth.py: the panel's sessions in memory and in their
-- file. Times are whole clock ticks. `sha256` is the hash of a session id and `token_digest` that of
-- the admin token's salt, cut to 32 digits.
pub mod Fingerprint
pub mod Kept
pub mod Access
pub mod Restart
mod Examples
use out_warp.Prelude.{
  ℕ, ◌+◌, ◌*◌, String, Bool, true, false, not, ◌||◌, Option, none, some, List, [], ◌∷◌, ltb, leb,
  ◌==◌, str_eq, if◌then◌else◌,
}
use out_warp.Prelude.Dict
use out_warp.Prelude.Dict.{Dict}
use out_warp.Server.AdminToken.{TokenFile}

pub record Session : Type 0 where
  pub exp : ℕ
  pub token : String

-- panel_sessions.json; an entry that does not read as a session is `none`
pub data SessionFile : Type 0 where
  missing corrupt : SessionFile
  entries : Dict (Option Session) → SessionFile

-- `persistent` is whether a config directory was given, `writable` whether a write to it succeeds.
pub record SessionStore : Type 0 where
  pub sessions : Dict Session
  pub persistent : Bool
  pub writable : Bool
  pub file : SessionFile
  pub token_file : Option TokenFile
  pub fp_cache : Option (ℕ × String)

abbrev pub default_ttl : ℕ
default_ttl = 12 * 3600

abbrev pub remember_ttl : ℕ
remember_ttl = 30 * 86400

abbrev pub ttl : Bool → ℕ
ttl remember = if remember then remember_ttl else default_ttl

abbrev pub wrap_all : Dict Session → Dict (Option Session)
wrap_all [] = []
wrap_all ((k, e) ∷ d) = (k, some e) ∷ wrap_all d

-- A write that fails leaves the file as it was.
unfoldable pub save_locked : SessionStore → SessionStore
save_locked s =
    if s.persistent
    then (if s.writable then record s { file = entries (wrap_all s.sessions) } else s)
    else s

-- `if exp > now: self._sessions[str(key)] = …`, entry by entry
unfoldable pub load_entries : ℕ → Dict (Option Session) → Dict Session → Dict Session
load_entries now [] acc = acc
load_entries now ((k, none) ∷ d) acc = load_entries now d acc
load_entries now ((k, some e) ∷ d) acc =
    load_entries now d (if ltb now e.exp then Dict.insert k e acc else acc)

load_file : ℕ → SessionFile → Dict Session → Dict Session
load_file now missing acc = acc
load_file now corrupt acc = acc
load_file now (entries d) acc = load_entries now d acc

unfoldable pub load : ℕ → SessionStore → SessionStore
unfolding load_file
load now s = if s.persistent then record s { sessions = load_file now s.file s.sessions } else s

-- SessionStore(config_dir) over what is on the disk
unfoldable pub open_store : ℕ → SessionStore → SessionStore
open_store now s = load now (record s { sessions = []; fp_cache = none })

module _ (token_digest : String → String) where
  -- the fingerprint of a token file that reads, and the cache entry for it
  read_fingerprint : SessionStore → TokenFile → Option String → String × SessionStore
  read_fingerprint s file none = ("", s)
  read_fingerprint s file (some salt) =
      (token_digest salt, record s { fp_cache = some (file.stamp, token_digest salt) })

  cached_fingerprint : SessionStore → TokenFile → Option (ℕ × String) → String × SessionStore
  unfolding read_fingerprint
  cached_fingerprint s file none = read_fingerprint s file file.salt
  cached_fingerprint s file (some (stamp, fp)) =
      if stamp == file.stamp then (fp, s) else read_fingerprint s file file.salt

  file_fingerprint : SessionStore → Option TokenFile → String × SessionStore
  unfolding cached_fingerprint
  file_fingerprint s none = ("", s)
  file_fingerprint s (some file) = cached_fingerprint s file s.fp_cache

  unfoldable pub token_fingerprint : SessionStore → String × SessionStore
  unfolding file_fingerprint
  token_fingerprint s = if s.persistent then file_fingerprint s s.token_file else ("", s)

-- `entry["exp"] < now or entry["token"] != current`
unfoldable pub is_dead : ℕ → String → Session → Bool
is_dead now current e = ltb e.exp now || not (str_eq e.token current)

any_dead : ℕ → String → Dict Session → Bool
any_dead now current [] = false
any_dead now current ((k, e) ∷ d) =
    let rest = any_dead now current d in is_dead now current e || rest

module _ (sha256 token_digest : String → String) where
  -- `sid` is `secrets.token_urlsafe(32)`.
  unfoldable pub create : ℕ → String → Bool → SessionStore → SessionStore
  create now sid remember s =
      let (fp, t) = token_fingerprint token_digest s in
      save_locked (record t {
        sessions =
            Dict.insert (sha256 sid) (record { exp = now + ttl remember; token = fp }) t.sessions;
      })

  validate_entry : ℕ → String → String → SessionStore → Option Session → Bool × SessionStore
  validate_entry now key current s none = (false, s)
  validate_entry now key current s (some e) =
      if is_dead now current e
      then (false, save_locked (record s { sessions = Dict.remove key s.sessions }))
      else (true, s)

  unfoldable pub validate : ℕ → Option String → SessionStore → Bool × SessionStore
  unfolding validate_entry
  validate now none s = (false, s)
  validate now (some sid) s =
      if str_eq sid ""
      then (false, s)
      else let (current, t) = token_fingerprint token_digest s in
        validate_entry now (sha256 sid) current t (Dict.lookup (sha256 sid) t.sessions)

  destroy_entry : String → SessionStore → Option Session → SessionStore
  destroy_entry key s none = s
  destroy_entry key s (some e) = save_locked (record s { sessions = Dict.remove key s.sessions })

  unfoldable pub destroy : Option String → SessionStore → SessionStore
  unfolding destroy_entry
  destroy none s = s
  destroy (some sid) s =
      if str_eq sid ""
      then s
      else destroy_entry (sha256 sid) s (Dict.lookup (sha256 sid) s.sessions)

  unfoldable pub purge_expired : ℕ → SessionStore → SessionStore
  unfolding any_dead
  purge_expired now s =
      let (current, t) = token_fingerprint token_digest s in
      let purged = record t { sessions = Dict.drop_if (is_dead now current) t.sessions } in
      if any_dead now current t.sessions then save_locked purged else purged
