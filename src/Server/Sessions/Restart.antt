-- ===== src/Server/Sessions/Restart.antt =====
-- A panel that is restarted over its session file (`_load`, `_save_locked` of
-- server/outwarp_server/web_auth.py).
use mathlib.Core.Path.{subst}
use out_warp.Prelude.{
  ℕ, ◌<◌, ◌≡◌, ◌≢◌, refl, ap, String, true, Option, none, some, [], ◌∷◌, arith, ltb, str_eq, eq_iff,
  Bool-cases, inl, inr, if◌then◌else◌,
}
use out_warp.Prelude.Dict
use out_warp.Prelude.Dict.{Dict, UniqueKeys, lookup-insert}
use out_warp.Server.Sessions.{
  Session, entries, SessionStore, wrap_all, load_entries, load, open_store, is_dead, validate,
}
use out_warp.Server.Sessions.Fingerprint.{IsCoherent}
use out_warp.Server.Sessions.Kept.{validate-eq-open_entry}

-- What loading one entry over `old` gives.
abbrev loaded : ℕ → Option Session → Option Session → Option Session
loaded now none old = old
loaded now (some e) old = if ltb now e.exp then some e else old

lookup-load_entries :
    (now : ℕ) (d acc : Dict Session) (key : String)
    → UniqueKeys d
    → Dict.lookup key (load_entries now (wrap_all d) acc)
      ≡ loaded now (Dict.lookup key d) (Dict.lookup key acc)
unfolding load_entries Dict.lookup
lookup-load_entries now [] acc key u = refl
lookup-load_entries now ((k, e) ∷ d) acc key u =
    rw (lookup-load_entries now d (if ltb now e.exp then Dict.insert k e acc else acc) key u.1)
      (elim (Bool-cases (str_eq k key)) [
        | inl same ↦
            let gone : Dict.lookup key d ≡ none =
              subst (λ (j : String). Dict.lookup j d ≡ none) ((eq_iff k key).0 same) u.0 in
            rw gone (ground (arith, lookup-insert k key e acc))
        | inr other ↦ ground (arith, lookup-insert k key e acc)
      ])

-- The file holds the sessions of the memory.
pub record IsSaved (s : SessionStore) : Type 0 where
  pub persistent : s.persistent ≡ true
  pub file_saved : s.file ≡ entries (wrap_all s.sessions)
  pub unique : UniqueKeys s.sessions

record IsReopened (now : ℕ) (s u : SessionStore) : Type 0 where
  sessions_loaded : u.sessions ≡ load_entries now (wrap_all s.sessions) []
  persistent_same : u.persistent ≡ s.persistent
  token_file_same : u.token_file ≡ s.token_file
  cache_empty : u.fp_cache ≡ none

open_store-IsReopened :
    (now : ℕ) (s : SessionStore) → IsSaved s → IsReopened now s (open_store now s)
unfolding open_store load
open_store-IsReopened now s saved = ground arith

module _ (sha256 token_digest : String → String) where
  -- A panel restarted at `now` over a saved store, whose cached fingerprint agrees with the token
  -- file, answers after `now` as the old one would have.
  pub restart_then_validate :
      (now : ℕ) (s : SessionStore) (t : ℕ) (sid : String)
      → IsSaved s
      → IsCoherent token_digest s
      → now < t
      → sid ≢ ""
      → (validate sha256 token_digest t (some sid) (open_store now s)).0
        ≡ (validate sha256 token_digest t (some sid) s).0
  unfolding is_dead Dict.lookup
  restart_then_validate now s t sid saved c le ne =
      let u = open_store now s in
      let opened = open_store-IsReopened now s saved in
      let coherent : IsCoherent token_digest u = simp opened.cache_empty tt in
      rw (validate-eq-open_entry _ _ t sid u coherent ne, validate-eq-open_entry _ _ t sid s c ne)
        (ground (
          arith,
          opened,
          ap (λ (d : Dict Session). Dict.lookup (sha256 sid) d) opened.sessions_loaded,
          lookup-load_entries now s.sessions [] (sha256 sid) saved.unique,
        ))
