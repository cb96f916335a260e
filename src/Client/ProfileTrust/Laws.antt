-- ===== src/Client/ProfileTrust/Laws.antt =====
-- What the import of a profile guarantees once the server's key is remembered
-- (client/outwarp/profile_trust.py and config.py).
use out_warp.Prelude.{
  ℕ, ◌≡◌, ◌≢◌, ◌⊎◌, sym, ap, String, false, ◌||◌, some, List, [], ◌∷◌, Result, ok, err, >>=-eq-ok,
  ok-injective, str_eq, Bool-cases, Option-cases, Result-cases, inl, inr, eq_iff, str-ne,
}
use out_warp.Client.Config.Json.{
  Value, null, text, object, Fields, get, get_default, Python, to_text, to_bool,
}
use out_warp.Client.Config.Checks.{Addresses}
use out_warp.Client.Config.Optional.{fields_of}
use out_warp.Client.Config.Parse.{ProfileConfig}
use out_warp.Client.Minisign.{Library, verify}
use out_warp.Client.ProfileTrust.{
  Disk, Status, verified, key_rotated, TrustError, compare_key, endpoint_of, accept_unsigned,
  accept_signed, accept_for, accept_named, verify_and_pin, verify_fields, verify_value, without,
  parsed, with_verdict, import_owcfg,
}
use out_warp.Client.ProfileTrust.Keys.{IsWhole, verify_value-pinned}

-- The key made a signature over all of the profile but its `signing` block.
abbrev pub SignedBy : Library → (Fields → List ℕ) → Fields → String → Type 0
SignedBy lib canonical raw key =
    (signature : String) × (verify lib (canonical (without "signing" raw)) signature key ≡ ok tt)

-- The verdict tells whether the remembered key made the signature, or another one.
abbrev pub IsVouched : Library → (Fields → List ℕ) → Fields → (k : String) → Status → Type 0
IsVouched lib canonical raw k status =
    ((status ≡ verified) × SignedBy lib canonical raw k)
    ⊎ ((status ≡ key_rotated) × ((k' : String) × (k ≢ k') × SignedBy lib canonical raw k'))

module _ (py : Python) (lib : Library) (canonical : Fields → List ℕ) (disk : Disk) (e k : String)
    (known : Fields) (named : str_eq e "" ≡ false) (pinned : get e known ≡ some (text k)) where
  compare_key-IsVouched :
      (raw : Fields) (public_key : String) {status : Status}
      → SignedBy lib canonical raw public_key
      → (compare_key disk e public_key (some (text k)) known).0 ≡ ok status
      → IsVouched lib canonical raw k status
  unfolding compare_key
  compare_key-IsVouched raw public_key {status} signed h = elim (Bool-cases (str_eq k public_key)) [
    | inl same ↦
        let at = (eq_iff k public_key).0 same in
        let s : verified ≡ status = ok-injective (rw same at h) in inl (sym s, rw at signed)
    | inr other ↦
        let s : key_rotated ≡ status = ok-injective (rw other at h) in
        inr (sym s, (public_key, str-ne k public_key other, signed))
  ]

  accept_signed-IsVouched :
      (raw signing : Fields) {status : Status}
      → (accept_signed py lib canonical disk e raw signing known).0 ≡ ok status
      → IsVouched lib canonical raw k status
  unfolding accept_signed
  accept_signed-IsVouched raw signing h =
      let public_key = to_text py (get_default signing "public_key" (text "")) in
      let signature = to_text py (get_default signing "signature" (text "")) in
      elim (Bool-cases (str_eq public_key "" || str_eq signature "")) [
        | inl blank ↦ let bad = rw blank at h in cc
        | inr given ↦
            elim (Result-cases
              (verify lib (canonical (without "signing" raw)) signature public_key)) [
                | inl (error, bad) ↦ let refused = rw (given, bad) at h in cc
                | inr (u, good) ↦
                    compare_key-IsVouched raw public_key (signature, good)
                      (rw (given, good, named, pinned) at h)
              ]
      ]

  accept_for-IsVouched :
      (raw : Fields) (signing : Value) {status : Status}
      → (accept_for py lib canonical disk e raw signing known).0 ≡ ok status
      → IsVouched lib canonical raw k status
  unfolding accept_for accept_unsigned
  accept_for-IsVouched raw signing h = elim (Bool-cases (to_bool py signing)) [
    | inl given ↦ elim (Option-cases (fields_of signing)) [
      | inl other ↦ let refused = rw (given, other) at h in cc
      | inr (d, fields) ↦ accept_signed-IsVouched raw d (rw (given, fields) at h)
    ]
    | inr absent ↦ let refused = rw (absent, named, pinned) at h in cc
  ]

-- One import, with what it finds.
pub record Import : Type 0 where
  pub disk : Disk
  pub today : String
  pub raw : Value

abbrev pub AreWhole : List Import → Type 0
AreWhole [] = Unit
AreWhole (i ∷ is) = IsWhole i.disk × AreWhole is

module _ (py : Python) (lib : Library) (canonical : Fields → List ℕ) (ip : Addresses)
    (lower : String → String) where
  -- What is known after a run of imports, each of which may fail.
  unfoldable pub after : List Import → Fields → Fields
  after [] known = known
  after (i ∷ is) known =
      after is (import_owcfg py lib canonical ip lower i.disk i.today i.raw known).1

  after-pinned :
      (e k : String) (is : List Import) (known : Fields)
      → AreWhole is
      → get e known ≡ some (text k)
      → get e (after is known) ≡ some (text k)
  unfolding after import_owcfg
  after-pinned e k [] known whole pinned = pinned
  after-pinned e k (i ∷ is) known whole pinned =
      after-pinned e k is (verify_value py lib canonical i.disk i.raw known).1 whole.1
        (verify_value-pinned e k known pinned i.disk whole.0 py lib canonical i.raw)

  with_verdict-ok :
      (today : String) (raw : Value) (verdict : Result TrustError Status) {p : ProfileConfig}
      {status : Status}
      → with_verdict py lib canonical ip lower today raw verdict ≡ ok (p, status)
      → verdict ≡ ok status
  unfolding with_verdict
  with_verdict-ok today raw (err error) h = cc
  with_verdict-ok today raw (ok s) h =
      let (q, parses, e) = >>=-eq-ok (parsed py lib canonical ip lower today raw) _ h in
      ap (λ r. ok r.1) (ok-injective e)

-- Once a key is remembered for a server, then after any run of imports, with whatever outcome, none of
-- which tore the file of known servers, a profile that names this server and is imported carries a
-- signature over all of it but the signature's own block: by the remembered key where the verdict is
-- `verified`, and otherwise by another key, where the verdict is `key_rotated`. An unsigned profile is
-- never imported for it.
pub import_owcfg-IsVouched :
    (py : Python) (lib : Library) (canonical : Fields → List ℕ) (ip : Addresses)
    (lower : String → String) (e k : String) (known : Fields) (before : List Import) (disk : Disk)
    (today : String) (raw : Fields) (p : ProfileConfig) (status : Status)
    → str_eq e "" ≡ false
    → get e known ≡ some (text k)
    → AreWhole before
    → endpoint_of py lib canonical raw ≡ some e
    → (import_owcfg py lib canonical ip lower disk today
        (object raw)
        (after py lib canonical ip lower before known)).0
      ≡ ok (p, status)
    → IsVouched lib canonical raw k status
unfolding import_owcfg verify_value verify_fields verify_and_pin accept_named
import_owcfg-IsVouched py lib canonical ip lower e k known before disk today raw p status named
      pinned whole names h =
    let known' = after py lib canonical ip lower before known in
    let found = verify_value py lib canonical disk (object raw) known' in
    let verdict = with_verdict-ok py lib canonical ip lower today (object raw) found.0 h in
    accept_for-IsVouched py lib canonical disk e k known' named
      (after-pinned py lib canonical ip lower e k before known whole pinned) raw
      (get_default raw "signing" null) (rw names at verdict)
