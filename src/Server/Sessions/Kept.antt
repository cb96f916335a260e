-- ===== src/Server/Sessions/Kept.antt =====
-- What each method of `SessionStore` (server/outwarp_server/web_auth.py) leaves of the sessions.
use out_warp.Prelude.{
  ℕ, ◌+◌, ◌≡◌, ◌≢◌, refl, String, Bool, Option, none, some, arith, str_eq, str_eq-false, Bool-cases,
  inl, inr, eq_iff, if◌then◌else◌,
}
use out_warp.Prelude.Dict
use out_warp.Prelude.Dict.{Dict, UniqueKeys, lookup-insert, lookup-remove, lookup-drop_if}
use out_warp.Server.Sessions.{
  Session, SessionStore, ttl, save_locked, token_fingerprint, create, is_dead, validate, any_dead,
  destroy_entry, destroy, purge_expired,
}
use out_warp.Server.Sessions.Fingerprint.{
  current, IsCoherent, token_fingerprint-IsRead, token_fingerprint-IsCoherent, open_entry,
}

abbrev pub put : String → Session → (String → Option Session) → String → Option Session
put key e find k = if str_eq key k then some e else find k

abbrev pub without : String → (String → Option Session) → String → Option Session
without key find k = if str_eq key k then none else find k

abbrev pub sessions_of : SessionStore → String → Option Session
sessions_of s key = Dict.lookup key s.sessions

module _ (sha256 token_digest : String → String) where
  -- The answer of `validate` in terms of the disk's token and the session under the id's hash.
  pub validate-eq-open_entry :
      (t : ℕ) (sid : String) (s : SessionStore)
      → IsCoherent token_digest s
      → sid ≢ ""
      → (validate sha256 token_digest t (some sid) s).0
        ≡ open_entry token_digest t (current token_digest s) (Dict.lookup (sha256 sid) s.sessions)
  unfolding validate
  validate-eq-open_entry t sid s c ne =
      rw (str_eq-false sid "" ne) (ground (arith, token_fingerprint-IsRead token_digest s c))

  -- A store over the disk of `s`, whose session under each key is as `find` says.
  pub record IsKept (s t : SessionStore) (find : String → Option Session) : Type 0 where
    pub found : (key : String) → Dict.lookup key t.sessions ≡ find key
    pub current_same : current token_digest t ≡ current token_digest s
    pub coherent : IsCoherent token_digest t

  -- `save_locked` writes the file and nothing else.
  record SameButFile (s t : SessionStore) : Type 0 where
    sessions_same : t.sessions ≡ s.sessions
    persistent_same : t.persistent ≡ s.persistent
    token_file_same : t.token_file ≡ s.token_file
    fp_cache_same : t.fp_cache ≡ s.fp_cache

  save_locked-SameButFile : (s : SessionStore) → SameButFile s (save_locked s)
  unfolding save_locked
  save_locked-SameButFile s = ground arith

  save_locked-IsKept :
      (s t : SessionStore) (find : String → Option Session)
      → IsKept s t find
      → IsKept s (save_locked t) find
  save_locked-IsKept s t find kept =
      let saved = save_locked-SameButFile t in
      record {
        found = λ key. rw saved.sessions_same (kept.found key);
        current_same = ground (arith, kept.current_same, saved);
        coherent = rw (saved.fp_cache_same, saved.token_file_same) kept.coherent;
      }

  -- Reading the fingerprint, and putting other sessions in place.
  read-IsKept :
      (s : SessionStore) (sessions : Dict Session)
      → IsCoherent token_digest s
      → IsKept s
          (record (token_fingerprint token_digest s).1 { sessions = sessions })
          (λ key. Dict.lookup key sessions)
  read-IsKept s sessions c = record {
    found = λ key. refl;
    current_same = ground (arith, token_fingerprint-IsRead token_digest s c);
    coherent = token_fingerprint-IsCoherent token_digest s c;
  }

  pub create-IsKept :
      (now : ℕ) (sid : String) (remember : Bool) (s : SessionStore)
      → IsCoherent token_digest s
      → IsKept s (create sha256 token_digest now sid remember s) (
          put
            (sha256 sid)
            (record { exp = now + ttl remember; token = current token_digest s })
            (sessions_of s))
  unfolding create
  create-IsKept now sid remember s c =
      let read = token_fingerprint-IsRead token_digest s c in
      let entry : Session = record {
        exp = now + ttl remember;
        token = (token_fingerprint token_digest s).0;
      } in
      let sessions = Dict.insert (sha256 sid) entry (token_fingerprint token_digest s).1.sessions in
      let kept = save_locked-IsKept s _ _ (read-IsKept s sessions c) in
      record {
        found = λ key. ground (
          arith,
          kept.found key,
          read,
          lookup-insert (sha256 sid) key entry (token_fingerprint token_digest s).1.sessions,
        );
        current_same = kept.current_same;
        coherent = kept.coherent;
      }

  destroyed-IsKept :
      (key : String) (s : SessionStore) (entry : Option Session)
      → IsCoherent token_digest s
      → sessions_of s key ≡ entry
      → IsKept s (destroy_entry sha256 token_digest key s entry) (without key (sessions_of s))
  unfolding destroy_entry
  destroyed-IsKept key s none c e = record {
    found = λ k. ground (arith, eq_iff key k, e);
    current_same = refl;
    coherent = c;
  }
  destroyed-IsKept key s (some x) c e =
      save_locked-IsKept s (record s { sessions = Dict.remove key s.sessions }) _
        (record { found = λ k. lookup-remove key k s.sessions; current_same = refl; coherent = c })

  pub destroy-IsKept :
      (sid : String) (s : SessionStore)
      → IsCoherent token_digest s
      → sid ≢ ""
      → IsKept s (destroy sha256 token_digest (some sid) s) (without (sha256 sid) (sessions_of s))
  unfolding destroy
  destroy-IsKept sid s c ne = rw (str_eq-false sid "" ne) (destroyed-IsKept (sha256 sid) s _ c refl)

  -- What is left of the sessions once the dead ones are dropped.
  abbrev pub live_at : ℕ → SessionStore → String → Option Session
  live_at now s key = Dict.live_entry (is_dead now (current token_digest s)) (sessions_of s key)

  pub purge_expired-IsKept :
      (now : ℕ) (s : SessionStore)
      → IsCoherent token_digest s
      → UniqueKeys s.sessions
      → IsKept s (purge_expired sha256 token_digest now s) (live_at now s)
  unfolding purge_expired
  purge_expired-IsKept now s c u = elim (Bool-cases (any_dead now fp t.sessions)) [
    | inl some_dead ↦ rw some_dead (save_locked-IsKept s purged _ dropped)
    | inr none_dead ↦ rw none_dead dropped
  ]
    where
      fp : String
      fp = (token_fingerprint token_digest s).0

      t : SessionStore
      t = (token_fingerprint token_digest s).1

      purged : SessionStore
      purged = record t { sessions = Dict.drop_if (is_dead now fp) t.sessions }

      dropped : IsKept s purged (live_at now s)
      dropped =
          let read = token_fingerprint-IsRead token_digest s c in
          let kept = read-IsKept s (Dict.drop_if (is_dead now fp) t.sessions) c in
          record {
            found = λ key.
                rw (read.fp_current, read.sessions_same)
                  (lookup-drop_if (is_dead now (current token_digest s)) key s.sessions u);
            current_same = kept.current_same;
            coherent = kept.coherent;
          }

  -- `validate` accepts what the kept sessions allow.
  pub validate-IsKept :
      (s t : SessionStore) (find : String → Option Session) (now : ℕ) (sid : String)
      → IsKept s t find
      → sid ≢ ""
      → (validate sha256 token_digest now (some sid) t).0
        ≡ open_entry token_digest now (current token_digest s) (find (sha256 sid))
  validate-IsKept s t find now sid kept ne =
      rw (validate-eq-open_entry now sid t kept.coherent ne, kept.found, kept.current_same)
