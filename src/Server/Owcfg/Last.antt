-- ===== src/Server/Owcfg/Last.antt =====
-- The client reads what is written only for some issued profiles (server/outwarp_server/owcfg.py and
-- client/outwarp/config.py).
use out_warp.Prelude.{
  ◌≡◌, refl, sym, ap, ◌∙◌, String, false, not, none, ok, arith, str_eq, Bool-cases, inl, inr,
  eq_iff, ◌==◌,
}
use out_warp.Client.Config.Json.{
  Value, number, text, object, Fields, end, field, get, get_default, ensure, as_object, Python,
  to_text,
}
use out_warp.Client.Config.Checks.{Addresses}
use out_warp.Client.Config.Optional.{parse_enrollment, fields_of}
use out_warp.Client.Config.Parse.{expiry}
use out_warp.Client.Config.Dict.{given}
use out_warp.Client.Config.Dict.Roundtrip.{in_range-number}
use out_warp.Server.Config.{ServerConfig}
use out_warp.Client.Config.Dict.Given.{get-given_ne, get_default-get}
use out_warp.Server.Owcfg.{Issue, last_sections}
use out_warp.Server.Owcfg.Issued.{issued_enrollment, IsIssuable}

module _ (cfg : ServerConfig) (i : Issue) where
  abbrev signing : Fields
  signing =
      given (not (str_eq cfg.owcfg_signing_private_key "")) "signing"
        (object (
          field "public_key" (text cfg.owcfg_signing_public_key)
            (field "signature" (text i.signature) end)))
        end

  abbrev meta : Fields
  meta =
      given (not (str_eq i.expires_at "")) "meta"
        (object (field "expires_at" (text i.expires_at) end)) signing

  abbrev enrollment : Value
  enrollment =
      object
        (field "token" (text i.enrollment_token) (field "remote_port" (number cfg.enroll_port) end))

  pub get-signing : (key : String) → str_eq "signing" key ≡ false → get key signing ≡ none
  unfolding get
  get-signing key other = get-given_ne _ "signing" key _ end other

  pub get-meta :
      (key : String)
      → str_eq "signing" key ≡ false
      → str_eq "meta" key ≡ false
      → get key meta ≡ none
  get-meta key other another = get-given_ne _ "meta" key _ signing another ∙ get-signing key other

  pub get-last_sections :
      (key : String)
      → str_eq "signing" key ≡ false
      → str_eq "meta" key ≡ false
      → str_eq "enrollment" key ≡ false
      → get key (last_sections cfg i) ≡ none
  unfolding last_sections
  get-last_sections key other another third =
      get-given_ne _ "enrollment" key enrollment meta third ∙ get-meta key other another

pub parse_enrollment-last_sections :
    (py : Python) (ip : Addresses) (cfg : ServerConfig) (i : Issue)
    → IsIssuable ip cfg i
    → parse_enrollment py (get_default (last_sections cfg i) "enrollment" (object end))
      ≡ ok (issued_enrollment cfg i)
unfolding last_sections parse_enrollment as_object get_default get given to_text ensure
parse_enrollment-last_sections py ip cfg i valid =
    elim (Bool-cases (str_eq i.enrollment_token "")) [
      | inl blank ↦
          let absent : get_default (meta cfg i) "enrollment" (object end) ≡ object end =
            get_default-get "enrollment" (object end) (meta cfg i) end
              (get-meta cfg i "enrollment" refl refl) in
          let same = sym ((eq_iff i.enrollment_token "").0 blank) in
          rw
            (
              blank,
              absent,
              in_range-number 0 65535 "enrollment.remote_port" 0 (omega arith) (omega arith),
            )
            (ap (λ t. ok (record { token = t; url = ""; remote_port = 0 })) same)
      | inr present ↦
          let some_port : (cfg.enroll_port == 0) ≡ false = ground (arith, valid.enroll_port) in
          rw
            (
              present,
              in_range-number 0 65535 "enrollment.remote_port" cfg.enroll_port (omega arith)
                  valid.enroll_port.1,
              present,
              some_port,
            )
            refl
    ]

pub expiry-last_sections :
    (py : Python) (ip : Addresses) (lower : String → String) (cfg : ServerConfig) (i : Issue)
    → expiry py ip lower (fields_of (get_default (last_sections cfg i) "meta" (object end)))
      ≡ i.expires_at
unfolding last_sections expiry get_default get given to_text
expiry-last_sections py ip lower cfg i =
    let skip = get_default-get "meta" (object end) (last_sections cfg i) (meta cfg i) (
      get-given_ne (not (str_eq i.enrollment_token "")) "enrollment" "meta" (enrollment cfg i)
        (meta cfg i) refl) in
    ap (λ v. expiry py ip lower (fields_of v)) skip ∙ elim (Bool-cases (str_eq i.expires_at "")) [
      | inl blank ↦
          let absent : get_default (signing cfg i) "meta" (object end) ≡ object end =
            get_default-get "meta" (object end) (signing cfg i) end
              (get-signing cfg i "meta" refl) in
          rw (blank, absent) (sym ((eq_iff i.expires_at "").0 blank))
      | inr present ↦ rw (present) refl
    ]
