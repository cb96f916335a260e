-- ===== src/Server/Enrollment/Laws.antt =====
-- What each operation of server/outwarp_server/enrollment.py does to the tokens that can be redeemed.
use out_warp.Prelude.{
  ℕ, zero, suc, ◌+◌, ◌<◌, ◌≡◌, ◌≢◌, ◌∙◌, refl, String, Bool, true, not, none, some, List, [], ◌∷◌,
  ◌++◌, arith, ltb, str_eq, str-ne, if◌then◌else◌, filter, get_elem?, set, Bool-cases, Option-cases,
  inl, inr, ok, err, eq_iff,
}
use out_warp.Prelude.Text.{concat}
use out_warp.Prelude.Dict
use out_warp.Prelude.Hex.{hex, from_hex-hex, bytes_eq_iff, AllBytes}
use out_warp.Server.AdminToken.{Scrypt, default_params, scrypt_params, hash_secret}
use out_warp.Server.AdminToken.Laws.{DigestsAreBytes}
use out_warp.Server.Enrollment.{
  EnrollmentToken, token_expired, token_already_used, is_stale, is_outstanding, params_of,
  required_params, digests_of, matches, find, mint, issue, consume, redeem, revoke, prune,
  drop_outstanding,
}
use out_warp.Server.Enrollment.Live.{first_match, find-IsFirstMatch}
use out_warp.Server.Enrollment.First.{
  redeem-eq-verdict, first_match-append, first_match-filter-none, first_match-spent,
}

abbrev pub with_params : EnrollmentToken → EnrollmentToken
with_params e = record e { scrypt = params_of e.scrypt }

get_elem?-filter :
    (keep : EnrollmentToken → Bool) (es : List EnrollmentToken) (i : ℕ) (e : EnrollmentToken)
    → get_elem? (filter keep es) i ≡ some e
    → keep e ≡ true
unfolding filter
get_elem?-filter keep [] i e h = absurd (ground (arith, h))
get_elem?-filter keep (x ∷ es) zero e h = elim (Bool-cases (keep x)) [
  | inl kept ↦ let here : some x ≡ some e = (rw kept at h) in ground (arith, here, kept)
  | inr dropped ↦ get_elem?-filter keep es zero e (rw dropped at h)
]
get_elem?-filter keep (x ∷ es) (suc i) e h = elim (Bool-cases (keep x)) [
  | inl kept ↦ get_elem?-filter keep es i e (rw kept at h)
  | inr dropped ↦ get_elem?-filter keep es (suc i) e (rw dropped at h)
]

module _ (scrypt : Scrypt) where
  -- What `mint` makes is not used, lasts for its time to live, and is matched by its token.
  record IsMinted (now : ℕ) (salt : List ℕ) (client_name : String) (ttl : ℕ) (token : String)
      (e : EnrollmentToken) : Type 0 where
    digest : List ℕ
    hashed : scrypt token salt default_params ≡ some digest
    made : e ≡ record {
      client_name = client_name;
      salt = hex salt;
      token_hash = hex digest;
      created_at = now;
      expires_at = now + ttl;
      used_at = 0;
      scrypt = scrypt_params;
    }

  mint-IsMinted :
      (now : ℕ) (random : String) (salt : List ℕ) (client_name : String) (ttl : ℕ) (token : String)
      (e : EnrollmentToken)
      → mint scrypt now random salt client_name ttl ≡ some (token, e)
      → IsMinted now salt client_name ttl token e
  unfolding mint hash_secret
  mint-IsMinted now random salt client_name ttl token e h = elim (Bool-cases (ltb ttl 1)) [
    | inl short ↦ absurd (ground (arith, h, short))
    | inr long ↦
        elim (Option-cases (scrypt (concat ("ow_enroll_" ∷ random ∷ [])) salt default_params)) [
          | inl failed ↦ absurd (ground (arith, h, long, failed))
          | inr (digest, hashed) ↦ record {
            digest = digest;
            hashed = ground (arith, h, long, hashed);
            made = ground (arith, h, long, hashed);
          }
        ]
  ]

  minted-matches :
      (now : ℕ) (salt : List ℕ) (client_name : String) (ttl : ℕ) (token : String)
      (e : EnrollmentToken)
      → DigestsAreBytes scrypt
      → AllBytes salt
      → IsMinted now salt client_name ttl token e
      → matches scrypt token e ≡ true
  unfolding matches digests_of required_params Dict.lookup
  minted-matches now salt client_name ttl token e digests bytes m = rw m.made (
      simp
        (
          matches,
          digests_of,
          from_hex-hex salt bytes,
          from_hex-hex m.digest (digests token salt m.digest m.hashed),
          m.hashed,
        )
        ((bytes_eq_iff m.digest m.digest).1 refl))

  -- Where digests are bytes, a token that was issued, is not empty and matches no older entry
  -- redeems for the client it was issued to until its time to live has passed, and is refused as
  -- expired from then on.
  pub issue_then_redeem :
      (now : ℕ) (random : String) (salt : List ℕ) (client_name : String) (ttl : ℕ)
      (s t : List EnrollmentToken) (token : String) (later : ℕ)
      → DigestsAreBytes scrypt
      → AllBytes salt
      → first_match scrypt token s ≡ none
      → token ≢ ""
      → issue scrypt now random salt client_name ttl s ≡ some (token, t)
      → (e : EnrollmentToken) × (e.client_name ≡ client_name)
        × (redeem scrypt later token t).0
          ≡ (if ltb later (now + ttl) then ok (record e { used_at = later }) else err token_expired)
  unfolding issue prune drop_outstanding first_match
  issue_then_redeem now random salt client_name ttl s t token later digests bytes fresh given h =
      elim (Option-cases (mint scrypt now random salt client_name ttl)) [
        | inl failed ↦ absurd (ground (arith, h, failed))
        | inr ((drawn, e), made) ↦
            let same : some (drawn, prune (drop_outstanding client_name s) now ++ e ∷ [])
                ≡ some (token, t) =
              (rw made at h) in
            let at : drawn ≡ token = ground (arith, same) in
            let m : IsMinted now salt client_name ttl token e =
              mint-IsMinted now random salt client_name ttl token e (ground (arith, made, at)) in
            let old : first_match scrypt token (prune (drop_outstanding client_name s) now) ≡ none =
              first_match-filter-none scrypt token _ _
                (first_match-filter-none scrypt token _ s fresh) in
            let found : first_match scrypt token
                  (prune (drop_outstanding client_name s) now ++ e ∷ [])
                ≡ some e =
              rw
                (
                  first_match-append scrypt token _ (e ∷ []) old,
                  minted-matches now salt client_name ttl token e digests bytes m,
                )
                refl in
            (
              e,
              ground (arith, m.made),
              rw (redeem-eq-verdict scrypt later token t given)
                  (ground (arith, m.made, found, same)),
            )
      ]

  matches-used :
      (token : String) (e : EnrollmentToken) (now : ℕ)
      → matches scrypt token (record e { used_at = now }) ≡ matches scrypt token e
  unfolding matches digests_of
  matches-used token e now = refl

  -- Once a token is redeemed, under a clock that reads a positive number, it is refused as already
  -- used by the store that results, at whatever time it comes.
  pub redeem_then_redeem :
      (now : ℕ) (token : String) (s t : List EnrollmentToken) (e : EnrollmentToken) (later : ℕ)
      → 0 < now
      → redeem scrypt now token s ≡ (ok e, t)
      → (redeem scrypt later token t).0 ≡ err token_already_used
  unfolding redeem consume prune
  redeem_then_redeem now token s t e later pos h = elim (Bool-cases (str_eq token "")) [
    | inl empty ↦ absurd (ground (arith, h, empty))
    | inr given ↦ elim (Option-cases (find scrypt token 0 none s)) [
      | inl missing ↦ absurd (ground (arith, h, given, missing))
      | inr (i, at) ↦
          let m = find-IsFirstMatch scrypt token i s at in
          let new : EnrollmentToken = record m.entry { used_at = now } in
          let stored : t ≡ prune (set s i new) now = ground (arith, h, given, at, m.found) in
          let spent : first_match scrypt token (prune (set s i new) now) ≡ some new =
            first_match-spent scrypt token (λ x. not (is_stale now x)) new i s
              (matches-used token m.entry now ∙ m.hit) (ground arith) at in
          rw (redeem-eq-verdict scrypt later token t (str-ne token "" given), stored, spent)
            (ground arith)
    ]
  ]

  -- A token that is redeemed after a revocation belongs to another client.
  pub revoke_then_redeem :
      (client_name : String) (s t : List EnrollmentToken) (now : ℕ) (token : String)
      (e : EnrollmentToken)
      → redeem scrypt now token (revoke client_name s).1 ≡ (ok e, t)
      → e.client_name ≢ client_name
  unfolding redeem consume revoke drop_outstanding
  revoke_then_redeem client_name s t now token e h same = elim (Bool-cases (str_eq token "")) [
    | inl empty ↦ ground (arith, h, empty)
    | inr given ↦
        elim (Option-cases
          (find scrypt token 0 none (filter (λ e. not (is_outstanding client_name e)) s))) [
            | inl missing ↦ ground (arith, h, given, missing)
            | inr (i, at) ↦
                let m = find-IsFirstMatch scrypt token i _ at in
                let kept =
                  get_elem?-filter (λ e. not (is_outstanding client_name e)) s i m.entry m.found in
                ground (arith, h, given, at, m.found, kept, eq_iff m.entry.client_name client_name)
          ]
  ]
