-- ===== src/Client/Config/Json.antt =====
-- JSON values as client/outwarp/config.py sees them.
use out_warp.Prelude.{
  ℕ, zero, suc, String, Bool, true, false, not, ◌&&◌, Option, none, some, Result, ok, err, leb,
  str_eq, if◌then◌else◌,
}

-- `minus n` is -(n + 1); a number that is no integer is its text.
mutual
  pub data Value : Type 0 where
    null : Value
    boolean : Bool → Value
    number : ℕ → Value
    minus : ℕ → Value
    real : String → Value
    text : String → Value
    array : Items → Value
    object : Fields → Value

  pub data Items : Type 0 where
    nil : Items
    cons : Value → Items → Items

  pub data Fields : Type 0 where
    end : Fields
    field : String → Value → Fields → Fields

-- `fields.get(key)`
unfoldable pub get : String → Fields → Option Value
get key end = none
get key (field k v rest) = if str_eq k key then some v else get key rest

pub data ConfigError : Type 0 where
  missing : String → ConfigError
  invalid : String → ConfigError

-- `_require`
unfoldable pub require : Fields → String → Result ConfigError Value
unfolding get
require d key = elim (get key d) [ none ↦ err (missing key) | some v ↦ ok v ]

-- `fields.get(key, default)`
unfoldable pub get_default : Fields → String → Value → Value
unfolding get
get_default d key default = elim (get key d) [ none ↦ default | some v ↦ v ]

-- `if not condition: raise ConfigError`
unfoldable pub ensure : Bool → String → Result ConfigError (Unit {0})
ensure condition label = if condition then ok tt else err (invalid label)

-- `isinstance(d, dict)`
unfoldable pub as_object : String → Value → Result ConfigError Fields
as_object label (object d) = ok d
as_object label null = err (invalid label)
as_object label (boolean b) = err (invalid label)
as_object label (number n) = err (invalid label)
as_object label (minus n) = err (invalid label)
as_object label (real s) = err (invalid label)
as_object label (text s) = err (invalid label)
as_object label (array xs) = err (invalid label)

-- `isinstance(x, int)` holds of a Boolean, which counts as 0 or 1. A negative one is in no range that
-- the program asks for.
unfoldable pub as_nat : Value → Option ℕ
as_nat (number n) = some n
as_nat (boolean true) = some 1
as_nat (boolean false) = some 0
as_nat null = none
as_nat (minus n) = none
as_nat (real s) = none
as_nat (text s) = none
as_nat (array xs) = none
as_nat (object d) = none

-- `isinstance(x, int) and low <= x <= high`
unfoldable pub in_range : ℕ → ℕ → String → Value → Result ConfigError ℕ
unfolding as_nat
in_range low high label v = elim (as_nat v) [
  | none ↦ err (invalid label)
  | some n ↦ if leb low n && leb n high then ok n else err (invalid label)
]

-- What Python makes of a value: `str` of one that is no text, and `int` of a text or of a number that
-- is no integer, `none` where it raises or is negative; `is_zero` and `is_one` compare a number that
-- is no integer.
pub record Python : Type 0 where
  pub str_of : Value → String
  pub int_of : Value → Option ℕ
  pub is_zero : String → Bool
  pub is_one : String → Bool

module _ (py : Python) where
  -- `str(v)`
  unfoldable pub to_text : Value → String
  to_text (text s) = s
  to_text null = py.str_of null
  to_text (boolean b) = py.str_of (boolean b)
  to_text (number n) = py.str_of (number n)
  to_text (minus n) = py.str_of (minus n)
  to_text (real s) = py.str_of (real s)
  to_text (array xs) = py.str_of (array xs)
  to_text (object d) = py.str_of (object d)

  -- `int(v)`
  unfoldable pub to_int : Value → Option ℕ
  to_int (number n) = some n
  to_int (boolean true) = some 1
  to_int (boolean false) = some 0
  to_int (minus n) = none
  to_int null = none
  to_int (real s) = py.int_of (real s)
  to_int (text s) = py.int_of (text s)
  to_int (array xs) = none
  to_int (object d) = none

  -- `bool(v)`
  unfoldable pub to_bool : Value → Bool
  to_bool null = false
  to_bool (boolean b) = b
  to_bool (number zero) = false
  to_bool (number (suc n)) = true
  to_bool (minus n) = true
  to_bool (real s) = not (py.is_zero s)
  to_bool (text s) = not (str_eq s "")
  to_bool (array nil) = false
  to_bool (array (cons v xs)) = true
  to_bool (object end) = false
  to_bool (object (field k v rest)) = true
