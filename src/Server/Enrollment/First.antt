-- ===== src/Server/Enrollment/First.antt =====
-- What `redeem` of server/outwarp_server/enrollment.py answers, from the first entry that the token
-- matches.
use out_warp.Prelude.{
  ℕ, suc, ◌+◌, ◌≡◌, ◌≢◌, refl, String, Bool, true, Option, none, some, List, [], ◌∷◌, ◌++◌, arith,
  str_eq-false, if◌then◌else◌, filter, set, Bool-cases, Option-cases, inl, inr, Result, ok, err,
}
use out_warp.Server.AdminToken.{Scrypt}
use out_warp.Server.Enrollment.{
  EnrollmentToken, EnrollmentError, token_unknown, token_expired, token_already_used, used, expired,
  matches, find, consume, redeem,
}
use out_warp.Server.Enrollment.Live.{find-some, first_match, find-IsFirstMatch, find-none}

module _ (scrypt : Scrypt) where
  abbrev pub verdict : ℕ → Option EnrollmentToken → Result EnrollmentError EnrollmentToken
  verdict now none = err token_unknown
  verdict now (some e) =
      if used e
      then err token_already_used
      else if expired now e
      then err token_expired
      else ok (record e { used_at = now })

  pub redeem-eq-verdict :
      (now : ℕ) (token : String) (s : List EnrollmentToken)
      → token ≢ ""
      → (redeem scrypt now token s).0 ≡ verdict now (first_match scrypt token s)
  unfolding redeem consume
  redeem-eq-verdict now token s given =
      rw (str_eq-false token "" given) (elim (Option-cases (find scrypt token 0 none s)) [
        | inl missing ↦ rw (missing, find-none scrypt token 0 s missing)
        | inr (i, at) ↦
            let m = find-IsFirstMatch scrypt token i s at in
            rw (at, m.found, m.first) (ground arith)
      ])

  pub first_match-append :
      (token : String) (es fs : List EnrollmentToken)
      → first_match scrypt token es ≡ none
      → first_match scrypt token (es ++ fs) ≡ first_match scrypt token fs
  unfolding first_match
  first_match-append token [] fs h = refl
  first_match-append token (e ∷ es) fs h = elim (Bool-cases (matches scrypt token e)) [
    | inl hit ↦ absurd (ground (arith, h, hit))
    | inr miss ↦ rw miss (first_match-append token es fs (rw miss at h))
  ]

  pub first_match-filter-none :
      (token : String) (keep : EnrollmentToken → Bool) (es : List EnrollmentToken)
      → first_match scrypt token es ≡ none
      → first_match scrypt token (filter keep es) ≡ none
  unfolding first_match filter
  first_match-filter-none token keep [] h = refl
  first_match-filter-none token keep (e ∷ es) h = elim (Bool-cases (matches scrypt token e)) [
    | inl hit ↦ absurd (ground (arith, h, hit))
    | inr miss ↦
        let rest = first_match-filter-none token keep es (rw miss at h) in
        ground (arith, miss, rest)
  ]

  -- A kept entry that replaces the first match is the first match.
  first_match-replaced :
      (token : String) (keep : EnrollmentToken → Bool) (new : EnrollmentToken) (i k : ℕ)
      (es : List EnrollmentToken)
      → matches scrypt token new ≡ true
      → keep new ≡ true
      → find scrypt token i none es ≡ some k
      → (n : ℕ) × (k ≡ i + n) × (first_match scrypt token (filter keep (set es n new)) ≡ some new)
  unfolding find first_match filter
  first_match-replaced token keep new i k [] hit kept h = absurd (ground (arith, h))
  first_match-replaced token keep new i k (e ∷ es) hit kept h =
      elim (Bool-cases (matches scrypt token e)) [
        | inl here ↦
            let same : some i ≡ some k = (rw (here, find-some scrypt token (suc i) i es) at h) in
            (0, ground (arith, same), ground (arith, hit, kept))
        | inr miss ↦
            let (n, at, later) =
              first_match-replaced token keep new (suc i) k es hit kept (rw miss at h) in
            (suc n, omega (arith, at), ground (arith, miss, later))
      ]

  pub first_match-spent :
      (token : String) (keep : EnrollmentToken → Bool) (new : EnrollmentToken) (k : ℕ)
      (es : List EnrollmentToken)
      → matches scrypt token new ≡ true
      → keep new ≡ true
      → find scrypt token 0 none es ≡ some k
      → first_match scrypt token (filter keep (set es k new)) ≡ some new
  first_match-spent token keep new k es hit kept h =
      let (n, at, spent) = first_match-replaced token keep new 0 k es hit kept h in
      ground (arith, at, spent)
