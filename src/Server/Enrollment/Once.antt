-- ===== src/Server/Enrollment/Once.antt =====
-- No run of server/outwarp_server/enrollment.py redeems a token twice.
use out_warp.Prelude.{
  ℕ, ◌+◌, ◌≤◌, ◌<◌, ◌≡◌, String, Bool, true, false, not, ◌&&◌, Option, none, some, List, [], ◌∷◌,
  arith, str_eq, eq_iff, if◌then◌else◌, get_elem?, set, Bool-cases, Option-cases, inl, inr, Result,
  ok, err,
}
use mathlib.Core.Path.{subst}
use out_warp.Server.AdminToken.{Scrypt}
use out_warp.Server.Enrollment.{
  EnrollmentToken, is_stale, matches, find, prune, drop_outstanding, mint, issue, consume, redeem,
  revoke,
}
use out_warp.Server.Enrollment.Live.{live, live-append, live-filter, live-set, find-IsFirstMatch}

-- One call of the module.
pub data Operation : Type 0 where
  issued :
      (now : ℕ) (random : String) (salt : List ℕ) (client_name : String) (ttl_seconds : ℕ)
      → Operation
  redeemed : (now : ℕ) (token : String) → Operation
  revoked : (client_name : String) → Operation

abbrev pub is_ok {ℓ κ} : {E : Type ℓ} {A : Type κ} → Result E A → Bool
is_ok (ok a) = true
is_ok (err e) = false

abbrev stored_or :
    Option (String × List EnrollmentToken) → List EnrollmentToken → List EnrollmentToken
stored_or none s = s
stored_or (some (token, t)) s = t

-- The clock reads a positive number.
abbrev pub AllPositive : List Operation → Type 0
AllPositive [] = Unit
AllPositive (issued now random salt name ttl ∷ os) = AllPositive os
AllPositive (redeemed now token ∷ os) = (0 < now) × AllPositive os
AllPositive (revoked name ∷ os) = AllPositive os

module _ (scrypt : Scrypt) where
  unfoldable pub step : Operation → List EnrollmentToken → List EnrollmentToken
  step (issued now random salt name ttl) s = stored_or (issue scrypt now random salt name ttl s) s
  step (redeemed now token) s = (redeem scrypt now token s).1
  step (revoked name) s = (revoke name s).1

  -- whether the call redeems `token`
  abbrev pub wins : String → Operation → List EnrollmentToken → ℕ
  wins token (redeemed now other) s =
      if str_eq other token && is_ok (redeem scrypt now other s).0 then 1 else 0
  wins token _ s = 0

  abbrev minted_live : String → Option (String × EnrollmentToken) → ℕ
  minted_live token none = 0
  minted_live token (some (fresh, entry)) = live scrypt token (entry ∷ [])

  -- whether the call stores an entry that `token` redeems
  abbrev pub mints : String → Operation → List EnrollmentToken → ℕ
  mints token (issued now random salt name ttl) s =
      minted_live token (mint scrypt now random salt name ttl)
  mints token _ s = 0

  unfoldable pub redemptions : String → List Operation → List EnrollmentToken → ℕ
  redemptions token [] s = 0
  redemptions token (o ∷ os) s = wins token o s + redemptions token os (step o s)

  unfoldable pub minted : String → List Operation → List EnrollmentToken → ℕ
  minted token [] s = 0
  minted token (o ∷ os) s = mints token o s + minted token os (step o s)

  live-issue :
      (token : String) (now : ℕ) (random : String) (salt : List ℕ) (name : String) (ttl : ℕ)
      (s : List EnrollmentToken)
      → live scrypt token (step (issued now random salt name ttl) s)
        ≤ live scrypt token s + mints token (issued now random salt name ttl) s
  unfolding step issue prune drop_outstanding
  live-issue token now random salt name ttl s =
      elim (Option-cases (mint scrypt now random salt name ttl)) [
        | inl failed ↦ rw failed (omega arith)
        | inr ((fresh, entry), made) ↦ rw made (
            omega (
              arith,
              live-append scrypt token (prune (drop_outstanding name s) now) (entry ∷ []),
              live-filter scrypt token _ (drop_outstanding name s),
              live-filter scrypt token _ s,
            ))
      ]

  live-consume :
      (token : String) (now i : ℕ) (e : EnrollmentToken) (s : List EnrollmentToken)
      → 0 < now
      → get_elem? s i ≡ some e
      → (if is_ok (consume scrypt now i (some e) s).0 && matches scrypt token e then 1 else 0)
          + live scrypt token (consume scrypt now i (some e) s).1
        ≤ live scrypt token s
  unfolding consume prune
  live-consume token now i e s pos at = ground (
    arith,
    live-set scrypt token s i e (record e { used_at = now }) at,
    live-filter scrypt token (λ x. not (is_stale now x)) (set s i (record e { used_at = now })),
  )

  live-redeem :
      (token : String) (now : ℕ) (other : String) (s : List EnrollmentToken)
      → 0 < now
      → wins token (redeemed now other) s + live scrypt token (redeem scrypt now other s).1
        ≤ live scrypt token s
  unfolding redeem consume
  live-redeem token now other s pos = elim (Bool-cases (str_eq other "")) [
    | inl empty ↦ rw empty (ground arith)
    | inr given ↦ rw given (elim (Option-cases (find scrypt other 0 none s)) [
      | inl missing ↦ rw missing (ground arith)
      | inr (i, at) ↦
          let first = find-IsFirstMatch scrypt other i s at in
          rw (at, first.found)
            (elim (Bool-cases (str_eq other token)) [
              | inl same ↦
                  let hit : matches scrypt token first.entry ≡ true =
                    subst (λ (t : String). matches scrypt t first.entry ≡ true)
                      ((eq_iff other token).0 same) first.hit in
                  ground (arith, hit, live-consume token now i first.entry s pos first.found)
              | inr differs ↦ ground (arith, live-consume token now i first.entry s pos first.found)
            ])
    ])
  ]

  live-step :
      (token : String) (o : Operation) (s : List EnrollmentToken)
      → AllPositive (o ∷ [])
      → wins token o s + live scrypt token (step o s) ≤ live scrypt token s + mints token o s
  unfolding step revoke drop_outstanding
  live-step token (issued now random salt name ttl) s pos =
      omega (arith, live-issue token now random salt name ttl s)
  live-step token (redeemed now other) s pos = omega (arith, live-redeem token now other s pos.0)
  live-step token (revoked name) s pos = omega (arith, live-filter scrypt token _ s)

  AllPositive-uncons :
      (o : Operation) (os : List Operation)
      → AllPositive (o ∷ os)
      → AllPositive (o ∷ []) × AllPositive os
  AllPositive-uncons (issued now random salt name ttl) os pos = (tt, pos)
  AllPositive-uncons (redeemed now other) os pos = ((pos.0, tt), pos.1)
  AllPositive-uncons (revoked name) os pos = (tt, pos)

  -- In any run of issues, redemptions and revocations under a clock that reads positive numbers, a
  -- token is redeemed at most as often as the unspent entries that match it at the start and the
  -- entries issued in the run that match it.
  pub redemptions-le :
      (token : String) (os : List Operation) (s : List EnrollmentToken)
      → AllPositive os
      → redemptions token os s ≤ live scrypt token s + minted token os s
  unfolding redemptions minted
  redemptions-le token [] s pos = omega arith
  redemptions-le token (o ∷ os) s pos =
      let (first, rest) = AllPositive-uncons o os pos in
      omega (arith, live-step token o s first, redemptions-le token os (step o s) rest)
