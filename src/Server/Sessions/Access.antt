-- ===== src/Server/Sessions/Access.antt =====
-- Which session ids `SessionStore` (server/outwarp_server/web_auth.py) accepts after each operation.
use text.Mathlib.TextPositions.{eq_refl}
use out_warp.Prelude.{
  ℕ, ◌+◌, ◌≤◌, ◌≡◌, ◌≢◌, String, Bool, true, false, Option, none, some, List, arith, leb, str_eq,
  eq_iff, Option-cases, inl, inr, if◌then◌else◌,
}
use out_warp.Prelude.Dict.{UniqueKeys}
use out_warp.Prelude.Hex.{hex}
use out_warp.Server.AdminToken.{Scrypt, TokenFile, generate_and_store_token}
use out_warp.Server.AdminToken.Laws.{generate-IsStored}
use out_warp.Server.Sessions.{
  Session, SessionStore, ttl, create, is_dead, validate, destroy, purge_expired,
}
use out_warp.Server.Sessions.Fingerprint.{current, IsCoherent}
use out_warp.Server.Sessions.Kept.{
  sessions_of, create-IsKept, destroy-IsKept, purge_expired-IsKept, validate-IsKept,
  validate-eq-open_entry,
}

module _ (sha256 token_digest : String → String) where
  abbrev accepts : ℕ → String → SessionStore → Bool
  accepts t sid s = (validate sha256 token_digest t (some sid) s).0

  -- While the cached fingerprint agrees with the token file, after `create` the new session's id is
  -- accepted exactly until its time to live has passed, and an id that hashes otherwise is accepted
  -- as before.
  pub create_then_validate :
      (now : ℕ) (sid : String) (remember : Bool) (s : SessionStore) (t : ℕ) (other : String)
      → IsCoherent token_digest s
      → other ≢ ""
      → accepts t other (create sha256 token_digest now sid remember s) ≡ (
          if str_eq (sha256 sid) (sha256 other)
          then leb t (now + ttl remember)
          else accepts t other s)
  unfolding is_dead
  create_then_validate now sid remember s t other c ne =
      rw
        (
          validate-IsKept _ _ s _ _ t other (create-IsKept _ _ now sid remember s c) ne,
          validate-eq-open_entry _ _ t other s c ne,
        )
        (ground (arith, eq_refl (current token_digest s)))

  -- While the cached fingerprint agrees with the token file, after `destroy` the session's id is
  -- refused, and an id that hashes otherwise is accepted as before.
  pub destroy_then_validate :
      (sid : String) (s : SessionStore) (t : ℕ) (other : String)
      → IsCoherent token_digest s
      → sid ≢ ""
      → other ≢ ""
      → accepts t other (destroy sha256 token_digest (some sid) s)
        ≡ (if str_eq (sha256 sid) (sha256 other) then false else accepts t other s)
  destroy_then_validate sid s t other c ne ne' =
      rw
        (
          validate-IsKept _ _ s _ _ t other (destroy-IsKept _ _ sid s c ne) ne',
          validate-eq-open_entry _ _ t other s c ne',
        )
        (ground arith)

  -- While the cached fingerprint agrees with the token file, and no key occurs twice, purging at
  -- one time changes no answer at that time or later.
  pub purge_then_validate :
      (now : ℕ) (s : SessionStore) (t : ℕ) (other : String)
      → IsCoherent token_digest s
      → UniqueKeys s.sessions
      → now ≤ t
      → other ≢ ""
      → accepts t other (purge_expired sha256 token_digest now s) ≡ accepts t other s
  unfolding is_dead
  purge_then_validate now s t other c u le ne =
      rw
        (
          validate-IsKept _ _ s _ _ t other (purge_expired-IsKept _ _ now s c u) ne,
          validate-eq-open_entry _ _ t other s c ne,
        )
        (ground arith)

  -- A token file that is written over one with another stamp.
  abbrev pub IsNewStamp : ℕ → Option (ℕ × String) → Type 0
  IsNewStamp stamp none = Unit
  IsNewStamp stamp (some (cached, fp)) = cached ≢ stamp

  -- Every session was opened with the token that `fp` is the fingerprint of.
  abbrev pub OpenedWith : String → SessionStore → Type 0
  OpenedWith fp s = (key : String) (e : Session) → sessions_of s key ≡ some e → e.token ≡ fp

  new_file-IsCoherent :
      (s : SessionStore) (file : TokenFile)
      → IsNewStamp file.stamp s.fp_cache
      → IsCoherent token_digest (record s { token_file = some file })
  new_file-IsCoherent s file new = elim (Option-cases s.fp_cache) [
    | inl e ↦ simp e tt
    | inr ((cached, fp), e) ↦ simp e (λ same. absurd ((simp e at new) same))
  ]

  -- Once `generate_and_store_token` has replaced the admin token of a persistent store by one whose
  -- salt has another digest, in a file with a new stamp, every session that was opened with the old
  -- one is refused, at all times.
  pub rotate_then_validate :
      (s : SessionStore) (fp : String) (scrypt : Scrypt) (stamp : ℕ) (random : String)
      (salt : List ℕ) (token : String) (file : TokenFile) (t : ℕ) (sid : String)
      → s.persistent ≡ true
      → OpenedWith fp s
      → generate_and_store_token scrypt stamp random salt ≡ some (token, file)
      → IsNewStamp stamp s.fp_cache
      → token_digest (hex salt) ≢ fp
      → sid ≢ ""
      → accepts t sid (record s { token_file = some file }) ≡ false
  unfolding is_dead
  rotate_then_validate s fp scrypt stamp random salt token file t sid p opened generated new ne
        ne' =
      let stored = generate-IsStored scrypt stamp random salt token file generated in
      let coherent = new_file-IsCoherent s file (rw stored.stamp_stored new) in
      rw (validate-eq-open_entry _ _ t sid (record s { token_file = some file }) coherent ne')
        (elim (Option-cases (sessions_of s (sha256 sid))) [
          | inl e ↦ rw e
          | inr (x, e) ↦
              simp (e, p, stored.salt_stored, opened (sha256 sid) x e)
                (ground (arith, eq_iff fp (token_digest (hex salt))))
        ])
