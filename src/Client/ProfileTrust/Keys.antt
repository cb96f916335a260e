-- ===== src/Client/ProfileTrust/Keys.antt =====
-- A key that is remembered for a server stays remembered (client/outwarp/profile_trust.py).
use out_warp.Prelude.{
  ℕ, ◌≡◌, refl, ap, ◌∙◌, String, Bool, true, false, ◌||◌, Option, none, some, List, str_eq,
  if◌then◌else◌, Bool-cases, Option-cases, Result-cases, inl, inr, eq_iff,
}
use out_warp.Client.Config.Json.{
  Value, null, boolean, number, minus, real, text, array, object, Fields, end, field, get,
  get_default, Python, to_text, to_bool,
}
use out_warp.Client.Config.Optional.{fields_of}
use out_warp.Client.Minisign.{Library, verify}
use out_warp.Client.ProfileTrust.{
  Disk, Write, written, kept, torn, set, pin, compare_key, after_write, endpoint_of, accept_signed,
  accept_for, accept_named, verify_and_pin, verify_fields, verify_value, without,
}

-- The write of the call, where it makes one, leaves a file that reads.
abbrev pub is_torn : Write → Bool
is_torn torn = true
is_torn written = false
is_torn kept = false

abbrev pub IsWhole : Disk → Type 0
IsWhole disk = is_torn disk.write ≡ false

get-set_ne :
    (k e : String) (v : Value) (d : Fields) → str_eq k e ≡ false → get e (set k v d) ≡ get e d
unfolding get set
get-set_ne k e v end other = rw other refl
get-set_ne k e v (field k' w rest) other = elim (Bool-cases (str_eq k' k)) [
  | inl same ↦
      let at = (eq_iff k' k).0 same in
      let other' : str_eq k' e ≡ false = rw at other in rw (same, other') refl
  | inr new ↦ rw new (ap (λ o. if str_eq k' e then some w else o) (get-set_ne k e v rest other))
]

-- `known` is `known'` where the key of `e` is concerned.
module _ (e : String) where
  after_write-kept :
      (w : Write) (k : String) (v : Value) (known : Fields)
      → is_torn w ≡ false
      → str_eq k e ≡ false
      → get e (after_write w (set k v known) known) ≡ get e known
  after_write-kept written k v known whole other = get-set_ne k e v known other
  after_write-kept kept k v known whole other = refl
  after_write-kept torn k v known whole other = cc

  compare_key-kept :
      (disk : Disk) (endpoint public_key : String) (previous : Option Value) (known : Fields)
      → IsWhole disk
      → str_eq endpoint e ≡ false
      → get e (compare_key disk endpoint public_key previous known).1 ≡ get e known
  unfolding compare_key pin
  compare_key-kept disk endpoint public_key none known whole other =
      elim (Bool-cases disk.can_make) [
        | inl made ↦
            rw made (after_write-kept disk.write endpoint (text public_key) known whole other)
        | inr not_made ↦ rw not_made refl
      ]
  compare_key-kept disk endpoint public_key (some null) known whole other =
      elim (Bool-cases disk.can_make) [
        | inl made ↦
            rw made (after_write-kept disk.write endpoint (text public_key) known whole other)
        | inr not_made ↦ rw not_made refl
      ]
  compare_key-kept disk endpoint public_key (some (text s)) known whole other = refl
  compare_key-kept disk endpoint public_key (some (boolean b)) known whole other = refl
  compare_key-kept disk endpoint public_key (some (number n)) known whole other = refl
  compare_key-kept disk endpoint public_key (some (minus n)) known whole other = refl
  compare_key-kept disk endpoint public_key (some (real s)) known whole other = refl
  compare_key-kept disk endpoint public_key (some (array xs)) known whole other = refl
  compare_key-kept disk endpoint public_key (some (object d)) known whole other = refl

-- The call leaves a key that is remembered for `e`.
module _ (e k : String) (known : Fields) (pinned : get e known ≡ some (text k)) (disk : Disk)
    (whole : IsWhole disk) where
  compare_key-pinned :
      (endpoint public_key : String)
      → get e (compare_key disk endpoint public_key (get endpoint known) known).1 ≡ some (text k)
  compare_key-pinned endpoint public_key = elim (Bool-cases (str_eq endpoint e)) [
    | inl same ↦
        let at = (eq_iff endpoint e).0 same in rw (at, pinned) (unfold compare_key in pinned)
    | inr other ↦
        compare_key-kept e disk endpoint public_key (get endpoint known) known whole other ∙ pinned
  ]

  module _ (py : Python) (lib : Library) (canonical : Fields → List ℕ) where
    accept_signed-pinned :
        (endpoint : String) (raw signing : Fields)
        → get e (accept_signed py lib canonical disk endpoint raw signing known).1 ≡ some (text k)
    unfolding accept_signed
    accept_signed-pinned endpoint raw signing =
        let public_key = to_text py (get_default signing "public_key" (text "")) in
        let signature = to_text py (get_default signing "signature" (text "")) in
        elim (Bool-cases (str_eq public_key "" || str_eq signature "")) [
          | inl blank ↦ rw blank pinned
          | inr given ↦
              elim (Result-cases
                (verify lib (canonical (without "signing" raw)) signature public_key)) [
                  | inl (error, bad) ↦ rw (given, bad) pinned
                  | inr (u, good) ↦ elim (Bool-cases (str_eq endpoint "")) [
                    | inl nameless ↦ rw (given, good, nameless) pinned
                    | inr named ↦ rw (given, good, named) (compare_key-pinned endpoint public_key)
                  ]
                ]
        ]

    accept_for-pinned :
        (endpoint : String) (raw : Fields) (signing : Value)
        → get e (accept_for py lib canonical disk endpoint raw signing known).1 ≡ some (text k)
    unfolding accept_for
    accept_for-pinned endpoint raw signing = elim (Bool-cases (to_bool py signing)) [
      | inl given ↦ elim (Option-cases (fields_of signing)) [
        | inl other ↦ rw (given, other) pinned
        | inr (d, fields) ↦ rw (given, fields) (accept_signed-pinned endpoint raw d)
      ]
      | inr absent ↦ rw absent pinned
    ]

    accept_named-pinned :
        (raw : Fields) (named : Option String)
        → get e (accept_named py lib canonical disk raw named known).1 ≡ some (text k)
    unfolding accept_named
    accept_named-pinned raw none = pinned
    accept_named-pinned raw (some endpoint) =
        accept_for-pinned endpoint raw (get_default raw "signing" null)

    verify_fields-pinned :
        (o : Option Fields) → get e (verify_fields py lib canonical disk o known).1 ≡ some (text k)
    unfolding verify_fields verify_and_pin
    verify_fields-pinned none = pinned
    verify_fields-pinned (some raw) = accept_named-pinned raw (endpoint_of py lib canonical raw)

    -- The call leaves the key.
    pub verify_value-pinned :
        (v : Value) → get e (verify_value py lib canonical disk v known).1 ≡ some (text k)
    unfolding verify_value
    verify_value-pinned v = verify_fields-pinned (fields_of v)
