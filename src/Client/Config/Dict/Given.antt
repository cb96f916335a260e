-- ===== src/Client/Config/Dict/Given.antt =====
-- What is read of a field that is written only sometimes (`_to_dict` of client/outwarp/config.py).
use out_warp.Prelude.{
  ◌≡◌, refl, sym, ◌∙◌, String, Bool, true, false, not, none, some, str_eq, Bool-cases, inl, inr,
  eq_iff, if◌then◌else◌,
}
use out_warp.Client.Config.Json.{Value, text, Fields, get, get_default, Python, to_text}
use out_warp.Client.Config.Dict.{given}

-- Reading past a field with another key.
pub get-given_ne :
    (b : Bool) (k key : String) (v : Value) (rest : Fields)
    → str_eq k key ≡ false
    → get key (given b k v rest) ≡ get key rest
unfolding get given
get-given_ne true k key v rest other = rw other refl
get-given_ne false k key v rest other = refl

pub get-given :
    (b : Bool) (key : String) (v : Value) (rest : Fields)
    → str_eq key key ≡ true
    → get key (given b key v rest) ≡ (if b then some v else get key rest)
unfolding get given
get-given true key v rest same = rw same refl
get-given false key v rest same = refl

pub get_default-get :
    (key : String) (v : Value) (d e : Fields)
    → get key d ≡ get key e
    → get_default d key v ≡ get_default e key v
unfolding get_default
get_default-get key v d e same = rw (same, get_default) refl

-- A text that is written only where it is not blank, read with a blank default.
pub text-given :
    (py : Python) (key s : String) (rest : Fields)
    → str_eq key key ≡ true
    → get key rest ≡ none
    → to_text py (get_default (given (not (str_eq s "")) key (text s) rest) key (text "")) ≡ s
unfolding get_default to_text
text-given py key s rest same absent =
    let read = get-given (not (str_eq s "")) key (text s) rest same in
    elim (Bool-cases (str_eq s "")) [
      | inl blank ↦
          let e : get key (given (not (str_eq s "")) key (text s) rest) ≡ none =
            read ∙ rw (blank, absent) refl in
          rw (e, get_default) (sym ((eq_iff s "").0 blank))
      | inr present ↦
          let e : get key (given (not (str_eq s "")) key (text s) rest) ≡ some (text s) =
            read ∙ rw present refl in
          rw (e, get_default) refl
    ]
