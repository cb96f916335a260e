-- ===== src/Server/Enrollment/Live.antt =====
-- Counting the unspent entries that a token would redeem, through the list operations of
-- server/outwarp_server/enrollment.py.
use out_warp.Prelude.{
  ℕ, zero, suc, ◌+◌, ◌≤◌, ◌≡◌, refl, String, Bool, true, not, ◌&&◌, Option, none, some, List, [],
  ◌∷◌, ◌++◌, arith, if◌then◌else◌, filter, get_elem?, set, Bool-cases, inl, inr,
}
use out_warp.Server.AdminToken.{Scrypt}
use out_warp.Server.Enrollment.{EnrollmentToken, used, matches, find}

module _ (scrypt : Scrypt) where
  abbrev pub live_entry : String → EnrollmentToken → ℕ
  live_entry token e = if matches scrypt token e && not (used e) then 1 else 0

  unfoldable pub live : String → List EnrollmentToken → ℕ
  live token [] = 0
  live token (e ∷ rest) = live_entry token e + live token rest

  pub live-append :
      (token : String) (es fs : List EnrollmentToken)
      → live token (es ++ fs) ≡ live token es + live token fs
  unfolding live
  live-append token [] fs = omega arith
  live-append token (e ∷ es) fs = omega (arith, live-append token es fs)

  pub live-filter :
      (token : String) (keep : EnrollmentToken → Bool) (es : List EnrollmentToken)
      → live token (filter keep es) ≤ live token es
  unfolding live filter
  live-filter token keep [] = omega arith
  live-filter token keep (e ∷ es) = ground (arith, live-filter token keep es)

  pub live-set :
      (token : String) (es : List EnrollmentToken) (i : ℕ) (e new : EnrollmentToken)
      → get_elem? es i ≡ some e
      → live token (set es i new) + live_entry token e ≡ live token es + live_entry token new
  unfolding live
  live-set token [] i e new h = absurd (ground (arith, h))
  live-set token (x ∷ es) zero e new h = ground (arith, h)
  live-set token (x ∷ es) (suc i) e new h = omega (arith, live-set token es i e new h)

  unfoldable pub first_match : String → List EnrollmentToken → Option EnrollmentToken
  first_match token [] = none
  first_match token (e ∷ es) =
      let later = first_match token es in if matches scrypt token e then some e else later

  -- The entry that the loop of `_find` stops at.
  pub record IsFirstMatch (token : String) (es : List EnrollmentToken) (n : ℕ) : Type 0 where
    pub entry : EnrollmentToken
    pub found : get_elem? es n ≡ some entry
    pub hit : matches scrypt token entry ≡ true
    pub first : first_match token es ≡ some entry

  pub find-some :
      (token : String) (i j : ℕ) (es : List EnrollmentToken)
      → find scrypt token i (some j) es ≡ some j
  unfolding find
  find-some token i j [] = refl
  find-some token i j (e ∷ es) = find-some token (suc i) j es

  find_from-IsFirstMatch :
      (token : String) (i k : ℕ) (es : List EnrollmentToken)
      → find scrypt token i none es ≡ some k
      → (n : ℕ) × (k ≡ i + n) × IsFirstMatch token es n
  unfolding find first_match
  find_from-IsFirstMatch token i k [] h = absurd (ground (arith, h))
  find_from-IsFirstMatch token i k (e ∷ es) h = elim (Bool-cases (matches scrypt token e)) [
    | inl hit ↦
        let same : some i ≡ some k = (rw (hit, find-some token (suc i) i es) at h) in
        (
          0,
          ground (arith, same),
          record { entry = e; found = refl; hit = hit; first = rw hit refl },
        )
    | inr miss ↦
        let (n, at, m) = find_from-IsFirstMatch token (suc i) k es (rw miss at h) in
        (
          suc n,
          omega (arith, at),
          record { entry = m.entry; found = m.found; hit = m.hit; first = rw miss m.first },
        )
  ]

  pub find-IsFirstMatch :
      (token : String) (k : ℕ) (es : List EnrollmentToken)
      → find scrypt token 0 none es ≡ some k
      → IsFirstMatch token es k
  find-IsFirstMatch token k es h =
      let (n, at, m) = find_from-IsFirstMatch token 0 k es h in
      record { entry = m.entry; found = ground (arith, at, m.found); hit = m.hit; first = m.first }

  pub find-none :
      (token : String) (i : ℕ) (es : List EnrollmentToken)
      → find scrypt token i none es ≡ none
      → first_match token es ≡ none
  unfolding find first_match
  find-none token i [] h = refl
  find-none token i (e ∷ es) h = elim (Bool-cases (matches scrypt token e)) [
    | inl hit ↦
        let never : some i ≡ none = (rw (hit, find-some token (suc i) i es) at h) in
        absurd (ground (arith, never))
    | inr miss ↦ rw miss (find-none token (suc i) es (rw miss at h))
  ]
