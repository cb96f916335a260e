-- ===== src/Server/EnrollServer/Laws.antt =====
-- What a request to the enrolment listener (server/outwarp_server/enroll_server.py) can change.
use out_warp.Prelude.{
  ℕ, ◌<◌, ◌≡◌, refl, ap, sym, ◌∙◌, String, Bool, true, arith, ltb, str_eq, ok, err, Bool-cases,
  Option-cases, Result-cases, inl, inr,
}
use out_warp.Server.AdminToken.{Scrypt}
use out_warp.Server.RateLimit.{retry_after}
use out_warp.Server.Enrollment as Enrollment
use out_warp.Server.Enrollment.{EnrollmentToken, token_already_used}
use out_warp.Server.Enrollment.Laws.{redeem_then_redeem}
use out_warp.Server.ClientStore.{is_active}
use out_warp.Server.Operations.{
  Outside, Server, ServerConfig, finish, save_clients, persist_wg_config, registered,
  complete_enrollment,
}
use out_warp.Server.EnrollServer.{
  Listener, fields, Reply, enrolled, token_bucket, admit_client, redeem, answer, do_post, is_wg_key,
}

finish-tokens :
    (o : Outside) (config : ServerConfig) (s : Server) → (finish o config s).tokens ≡ s.tokens
unfolding finish persist_wg_config save_clients
finish-tokens o config s = ground arith

complete_enrollment-tokens :
    (o : Outside) (config : ServerConfig) (name public_key : String) (s : Server)
    → (complete_enrollment o config name public_key s).1.tokens ≡ s.tokens
unfolding complete_enrollment
complete_enrollment-tokens o config name public_key s =
    elim (Option-cases (registered name s.table)) [
      | inl absent ↦ rw (complete_enrollment, absent) refl
      | inr (target, there) ↦ elim (Bool-cases (str_eq target.public_key "")) [
        | inr keyed ↦ rw (complete_enrollment, there, keyed) refl
        | inl blank ↦ elim (Bool-cases (is_active target.state)) [
          | inl on ↦ rw (complete_enrollment, there, blank, on) (finish-tokens o config _)
          | inr off ↦ rw (complete_enrollment, there, blank, off) (finish-tokens o config _)
        ]
      ]
    ]

module _ (scrypt : Scrypt) (sha256 : String → String) where
  admit_client-tokens :
      (o : Outside) (ip public_key token_key : String) (e : EnrollmentToken) (l : Listener)
      → (admit_client scrypt sha256 o ip public_key token_key e l).1.server.tokens ≡ l.server.tokens
  unfolding admit_client
  admit_client-tokens o ip public_key token_key e l =
      elim (Result-cases
        (complete_enrollment o l.server.config e.client_name public_key l.server).0) [
          | inl (failure, failed) ↦
              rw (admit_client, failed)
                (complete_enrollment-tokens o l.server.config e.client_name public_key l.server)
          | inr ((client, hot), done) ↦
              rw (admit_client, done)
                (complete_enrollment-tokens o l.server.config e.client_name public_key l.server)
        ]

  -- A client that was enrolled presented a token that it redeemed.
  record IsRedemption (now : ℕ) (token : String) (l m : Listener) : Type 0 where
    entry : EnrollmentToken
    redeemed : Enrollment.redeem scrypt now token l.server.tokens ≡ (ok entry, m.server.tokens)

  redeem-IsRedemption :
      (o : Outside) (ip token public_key token_key name address : String) (hot : Bool)
      (l m : Listener)
      → redeem scrypt sha256 o ip token public_key token_key l ≡ (enrolled name address hot, m)
      → IsRedemption o.now token l m
  unfolding redeem
  redeem-IsRedemption o ip token public_key token_key name address hot l m h =
      elim (Result-cases (Enrollment.redeem scrypt o.now token l.server.tokens).0) [
        | inl (e, failed) ↦ absurd (ground (arith, h, failed))
        | inr (e, redeemed) ↦
            let tokens = (Enrollment.redeem scrypt o.now token l.server.tokens).1 in
            let stored : Listener = record l { server = record l.server { tokens = tokens } } in
            let admitted : admit_client scrypt sha256 o ip public_key token_key e stored
                ≡ (enrolled name address hot, m) =
              (rw (redeem, redeemed) at h) in
            let kept : m.server.tokens ≡ tokens =
              ap (λ (r : Reply × Listener). r.1.server.tokens) (sym admitted)
              ∙ admit_client-tokens o ip public_key token_key e stored in
            record { entry = e; redeemed = ground (arith, redeemed, kept) }
      ]

  do_post-IsRedemption :
      (o : Outside) (ip token public_key name address : String) (hot : Bool) (l m : Listener)
      → do_post scrypt sha256 o true ip (fields token public_key) l ≡ (enrolled name address hot, m)
      → IsRedemption o.now token l m
  unfolding do_post answer
  do_post-IsRedemption o ip token public_key name address hot l m h =
      elim (Bool-cases (ltb 0 (retry_after o.now ip l.rate_limiter))) [
        | inl locked ↦ absurd (ground (arith, h, locked))
        | inr free ↦ elim (Bool-cases (is_wg_key public_key)) [
          | inr bad ↦ absurd (ground (arith, h, free, bad))
          | inl key ↦
              elim (Bool-cases
                (ltb 0 (retry_after o.now (token_bucket scrypt sha256 token) l.token_limiter))) [
                  | inl locked ↦ absurd (ground (arith, h, free, key, locked))
                  | inr open_bucket ↦
                      redeem-IsRedemption o ip token public_key (token_bucket scrypt sha256 token)
                        name address hot l m (ground (arith, h, free, key, open_bucket))
                ]
        ]
      ]

  -- A request that enrols a client, under a clock that reads a positive number, spends its token:
  -- the store that results refuses it as already used, at whatever time it comes.
  pub enrolled_then_redeem :
      (o : Outside) (ip token public_key name address : String) (hot : Bool) (l m : Listener)
      (later : ℕ)
      → 0 < o.now
      → do_post scrypt sha256 o true ip (fields token public_key) l ≡ (enrolled name address hot, m)
      → (Enrollment.redeem scrypt later token m.server.tokens).0 ≡ err token_already_used
  enrolled_then_redeem o ip token public_key name address hot l m later pos h =
      let r = do_post-IsRedemption o ip token public_key name address hot l m h in
      redeem_then_redeem scrypt o.now token l.server.tokens m.server.tokens r.entry later pos
        r.redeemed
