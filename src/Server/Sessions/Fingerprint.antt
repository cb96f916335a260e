-- ===== src/Server/Sessions/Fingerprint.antt =====
-- The cached fingerprint of the admin token (`_token_fingerprint` of server/outwarp_server/web_auth.py).
use out_warp.Prelude.{
  ℕ, ◌≡◌, refl, String, Bool, true, false, not, Option, none, some, arith, ◌==◌, Bool-cases,
  Option-cases, inl, inr, if◌then◌else◌,
}
use out_warp.Server.AdminToken.{TokenFile}
use out_warp.Server.Sessions.{
  Session, SessionStore, read_fingerprint, cached_fingerprint, token_fingerprint, is_dead,
}

module _ (token_digest : String → String) where
  abbrev pub salt_digest : Option String → String
  salt_digest none = ""
  salt_digest (some salt) = token_digest salt

  abbrev pub file_digest : Option TokenFile → String
  file_digest none = ""
  file_digest (some file) = salt_digest file.salt

  -- The fingerprint of the admin token that is on the disk.
  abbrev pub current : SessionStore → String
  current s = if s.persistent then file_digest s.token_file else ""

  -- What the cache holds for the stamp of the file on the disk is that file's fingerprint.
  abbrev pub CacheMatches : Option (ℕ × String) → Option TokenFile → Type 0
  CacheMatches (some (stamp, fp)) (some file) =
      stamp ≡ file.stamp → (salt : String) × (file.salt ≡ some salt) × (fp ≡ token_digest salt)
  CacheMatches _ _ = Unit

  abbrev pub IsCoherent : SessionStore → Type 0
  IsCoherent s = CacheMatches s.fp_cache s.token_file

  -- The fingerprint is that of the disk, and reading it changes only the cache, coherently.
  pub record IsRead (s t : SessionStore) (fp : String) : Type 0 where
    pub fp_current : fp ≡ current s
    pub sessions_same : t.sessions ≡ s.sessions
    pub persistent_same : t.persistent ≡ s.persistent
    pub writable_same : t.writable ≡ s.writable
    pub file_same : t.file ≡ s.file
    pub token_file_same : t.token_file ≡ s.token_file

  read_fingerprint-IsRead :
      (s : SessionStore) (file : TokenFile)
      → s.persistent ≡ true
      → s.token_file ≡ some file
      → let (fp, t) = read_fingerprint token_digest s file file.salt in IsRead s t fp
  unfolding read_fingerprint
  read_fingerprint-IsRead s file p e = ground arith

  cached_fingerprint-IsRead :
      (s : SessionStore) (file : TokenFile) (cache : Option (ℕ × String))
      → s.persistent ≡ true
      → s.token_file ≡ some file
      → CacheMatches cache (some file)
      → let (fp, t) = cached_fingerprint token_digest s file cache in IsRead s t fp
  unfolding cached_fingerprint
  cached_fingerprint-IsRead s file none p e c = read_fingerprint-IsRead s file p e
  cached_fingerprint-IsRead s file (some (stamp, fp)) p e c =
      elim (Bool-cases (stamp == file.stamp)) [
        | inl same ↦ ground (arith, c (ground arith))
        | inr other ↦ rw other (read_fingerprint-IsRead s file p e)
      ]

  pub token_fingerprint-IsRead :
      (s : SessionStore)
      → IsCoherent s
      → IsRead s (token_fingerprint token_digest s).1 (token_fingerprint token_digest s).0
  unfolding token_fingerprint
  token_fingerprint-IsRead s c = elim (Bool-cases s.persistent) [
    | inl p ↦ elim (Option-cases s.token_file) [
      | inl none_there ↦ ground arith
      | inr (file, e) ↦ simp (p, e) (cached_fingerprint-IsRead s file s.fp_cache p e (rw e at c))
    ]
    | inr p ↦ ground arith
  ]

  read_fingerprint-IsCoherent :
      (s : SessionStore) (file : TokenFile)
      → s.token_file ≡ some file
      → IsCoherent s
      → IsCoherent (read_fingerprint token_digest s file file.salt).1
  unfolding read_fingerprint
  read_fingerprint-IsCoherent s file e c = elim (Option-cases file.salt) [
    | inl unread ↦ rw unread c
    | inr (salt, read) ↦ simp (read, e) (λ _. (salt, refl, refl))
  ]

  cached_fingerprint-IsCoherent :
      (s : SessionStore) (file : TokenFile) (cache : Option (ℕ × String))
      → s.token_file ≡ some file
      → IsCoherent s
      → IsCoherent (cached_fingerprint token_digest s file cache).1
  unfolding cached_fingerprint
  cached_fingerprint-IsCoherent s file none e c = read_fingerprint-IsCoherent s file e c
  cached_fingerprint-IsCoherent s file (some (stamp, fp)) e c =
      elim (Bool-cases (stamp == file.stamp)) [
        | inl same ↦ rw same c
        | inr other ↦ rw other (read_fingerprint-IsCoherent s file e c)
      ]

  pub token_fingerprint-IsCoherent :
      (s : SessionStore) → IsCoherent s → IsCoherent (token_fingerprint token_digest s).1
  unfolding token_fingerprint
  token_fingerprint-IsCoherent s c = elim (Bool-cases s.persistent) [
    | inl p ↦ elim (Option-cases s.token_file) [
      | inl e ↦ simp (p, e) (simp e at c)
      | inr (file, e) ↦ simp (p, e) (cached_fingerprint-IsCoherent s file s.fp_cache e c)
    ]
    | inr p ↦ simp p c
  ]

  -- A session that is open at `t`.
  abbrev pub open_entry : ℕ → String → Option Session → Bool
  open_entry t fp none = false
  open_entry t fp (some e) = not (is_dead t fp e)
