-- ===== src/Server/Enrollment/Examples.antt =====
-- A run of the enrolment tokens, and their theorems at it. The stand-in for scrypt gives one byte, the
-- secret's length.
use out_warp.Prelude.{
  ◌+◌, ◌%◌, ◌≤◌, ◌≡◌, ◌≢◌, refl, some, List, [], ◌∷◌, arith, ltb, if◌then◌else◌, str-ne, filter, ok,
  err,
}
use out_warp.Prelude.Text.{concat, str_len}
use out_warp.Prelude.Dict
use out_warp.Prelude.Hex.{hex, from_hex, bytes_eq}
use out_warp.Server.AdminToken.{Scrypt, scrypt_params, hash_secret}
use out_warp.Server.Enrollment.{
  EnrollmentToken, token_expired, matches, find, mint, issue, redeem, revoke, prune,
  drop_outstanding, required_params,
}
use out_warp.Server.Enrollment.Live.{first_match, live}
use out_warp.Server.Enrollment.Once.{
  Operation, issued, redeemed, redemptions, minted, step, redemptions-le,
}
use out_warp.Server.Enrollment.Laws.{issue_then_redeem, revoke_then_redeem}

abbrev scrypt : Scrypt
scrypt secret salt params = some (str_len secret % 256 ∷ [])

all_open : Unit {0}
unfolding matches find mint issue redeem revoke prune drop_outstanding required_params hash_secret
    concat hex from_hex bytes_eq Dict.lookup filter first_match live redemptions minted step
all_open = tt

abbrev entry : EnrollmentToken
entry = record {
  client_name = "laptop";
  salt = "01";
  token_hash = "0c";
  created_at = 100;
  expires_at = 160;
  used_at = 0;
  scrypt = scrypt_params;
}

abbrev store : List EnrollmentToken
store = entry ∷ []

issue_laptop : issue scrypt 100 "ab" (1 ∷ []) "laptop" 60 [] ≡ some ("ow_enroll_ab", store)
unfolding all_open
issue_laptop = refl

redeem_laptop :
    redeem scrypt 120 "ow_enroll_ab" store
    ≡ (ok (record entry { used_at = 120 }), record entry { used_at = 120 } ∷ [])
unfolding all_open
redeem_laptop = refl

issue_then_redeem_example :
    (e : EnrollmentToken) × (e.client_name ≡ "laptop")
    × (redeem scrypt 120 "ow_enroll_ab" store).0
      ≡ (if ltb 120 (100 + 60) then ok (record e { used_at = 120 }) else err token_expired)
unfolding first_match
issue_then_redeem_example =
    issue_then_redeem scrypt 100 "ab" (1 ∷ []) "laptop" 60 [] store "ow_enroll_ab" 120
      (λ secret salt digest e. ground arith) (omega arith, tt) refl (str-ne "ow_enroll_ab" "" refl)
      issue_laptop

redeem_after_revocation :
    redeem scrypt 120 "ow_enroll_ab" (revoke "phone" store).1
    ≡ (ok (record entry { used_at = 120 }), record entry { used_at = 120 } ∷ [])
unfolding all_open
redeem_after_revocation = refl

revoke_then_redeem_example : entry.client_name ≢ "phone"
revoke_then_redeem_example =
    revoke_then_redeem scrypt "phone" store (record entry { used_at = 120 } ∷ []) 120 "ow_enroll_ab"
      (record entry { used_at = 120 }) redeem_after_revocation

abbrev run : List Operation
run =
    issued 100 "ab" (1 ∷ []) "laptop" 60
    ∷ redeemed 120 "ow_enroll_ab"
    ∷ redeemed 121 "ow_enroll_ab"
    ∷ []

counts : (redemptions scrypt "ow_enroll_ab" run [] ≡ 1) × (minted scrypt "ow_enroll_ab" run [] ≡ 1)
unfolding all_open
counts = (refl, refl)

redemptions-le_example :
    redemptions scrypt "ow_enroll_ab" run []
    ≤ live scrypt "ow_enroll_ab" [] + minted scrypt "ow_enroll_ab" run []
redemptions-le_example =
    redemptions-le scrypt "ow_enroll_ab" run [] (omega arith, (omega arith, tt))
