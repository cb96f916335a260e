-- ===== src/Server/Panel/Access.antt =====
-- From sign-in to sign-out (`_handle_auth`, `_handle_api`, `_handle_logout` of
-- server/outwarp_server/web_server.py).
use text.Mathlib.TextPositions.{eq_refl}
use out_warp.Prelude.{ℕ, ◌+◌, ◌≡◌, ◌≢◌, ap, String, Bool, true, some, arith, leb, if◌then◌else◌}
use out_warp.Server.AdminToken.{Scrypt, verify_token}
use out_warp.Server.RateLimit.{retry_after}
use out_warp.Server.Sessions.{ttl, create, validate}
use out_warp.Server.Sessions.Fingerprint.{IsCoherent}
use out_warp.Server.Sessions.Kept.{create-IsKept}
use out_warp.Server.Sessions.Access.{create_then_validate, destroy_then_validate}
use out_warp.Server.Panel.{
  Panel, credentials, signed_in, unauthenticated, dispatched, handle_auth, handle_logout, guard_api,
}

module _ (scrypt : Scrypt) (sha256 token_digest : String → String) where
  -- A sign-in that succeeds found its address not locked out and its token right, and left the
  -- session created.
  pub record IsSignIn (now : ℕ) (ip token : String) (remember : Bool) (sid : String) (p q : Panel)
      : Type 0 where
    pub not_locked : retry_after now ip p.limiter ≡ 0
    pub right : verify_token scrypt p.sessions.token_file token ≡ true
    pub created : q.sessions ≡ create sha256 token_digest now sid remember p.sessions

  pub signed_in-IsSignIn :
      (now : ℕ) (ip token : String) (remember : Bool) (sid drawn : String) (p q : Panel)
      → handle_auth scrypt sha256 token_digest now ip (credentials token remember) drawn p
        ≡ (signed_in sid, q)
      → IsSignIn now ip token remember sid p q
  unfolding handle_auth
  signed_in-IsSignIn now ip token remember sid drawn p q e = ground arith

  -- While the cached fingerprint agrees with the token file, after a sign-in the drawn id reaches
  -- the panel's methods until its time to live has passed, and after a sign-out with it no more.
  pub sign_in_life :
      (now : ℕ) (ip token : String) (remember : Bool) (sid : String) (p q : Panel) (t : ℕ)
      → IsCoherent token_digest p.sessions
      → sid ≢ ""
      → handle_auth scrypt sha256 token_digest now ip (credentials token remember) sid p
        ≡ (signed_in sid, q)
      → ((guard_api sha256 token_digest t (some sid) true true q).0
          ≡ (if leb t (now + ttl remember) then dispatched else unauthenticated))
        × ((guard_api sha256 token_digest t
              (some sid)
              true
              true
              (handle_logout sha256 token_digest (some sid) q)).0
            ≡ unauthenticated)
  unfolding guard_api handle_logout
  sign_in_life now ip token remember sid p q t c ne e =
      let signed = signed_in-IsSignIn now ip token remember sid sid p q e in
      let s = create sha256 token_digest now sid remember p.sessions in
      let kept = create-IsKept sha256 token_digest now sid remember p.sessions c in
      (
        ground (
          arith,
          signed,
          ap (λ s. (validate sha256 token_digest t (some sid) s).0) signed.created,
          create_then_validate sha256 token_digest now sid remember p.sessions t sid c ne,
          eq_refl (sha256 sid),
        ),
        simp signed.created (
            ground (
              arith,
              destroy_then_validate sha256 token_digest sid s t sid kept.coherent ne ne,
              eq_refl (sha256 sid),
            )),
      )
