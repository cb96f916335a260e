-- ===== src/Prelude/Text.antt =====
-- Python's `str` operations that the program calls, over the characters of a text.
use Prim.Native.Char.{Char, code}
use Prim.Native.String.{◌++◌}
use mathlib.Core.List.{◌++◌ as append}
use text.Mathlib.TextLemmas.{nil-append, cons-append}
use out_warp.Prelude.{
  ℕ, zero, suc, ◌+◌, ◌-◌, ◌*◌, ◌/◌, ◌%◌, ◌<◌, String, ◌≡◌, refl, Bool, true, false, ◌&&◌, Option,
  none, some, List, [], ◌∷◌, arith, leb, ◌==◌, if◌then◌else◌, Bool-cases, inl, inr,
}

-- `s.split(sep)` for a separator of one character, given by its code.
push_char : Char → List String → List String
push_char c [] = (String.◌∷◌ c "") ∷ []
push_char c (w ∷ ws) = String.◌∷◌ c w ∷ ws

unfoldable pub split : ℕ → String → List String
unfolding push_char
split sep String.[] = "" ∷ []
split sep (String.◌∷◌ c s) =
    let rest = split sep s in if code c == sep then "" ∷ rest else push_char c rest

-- The character `sep` does not occur.
unfoldable pub has_no : ℕ → String → Bool
has_no sep String.[] = true
has_no sep (String.◌∷◌ c s) = if code c == sep then false else has_no sep s

unfoldable pub digit : ℕ → Char
digit zero = "0"
digit (suc zero) = "1"
digit (suc (suc zero)) = "2"
digit (suc (suc (suc zero))) = "3"
digit (suc (suc (suc (suc zero)))) = "4"
digit (suc (suc (suc (suc (suc zero))))) = "5"
digit (suc (suc (suc (suc (suc (suc zero)))))) = "6"
digit (suc (suc (suc (suc (suc (suc (suc zero))))))) = "7"
digit (suc (suc (suc (suc (suc (suc (suc (suc zero)))))))) = "8"
digit n = "9"

-- `str(n)`, last digit first; a number has at most `n + 1` digits.
show_loop : ℕ → ℕ → String → String
unfolding digit
show_loop zero n acc = acc
show_loop (suc fuel) n acc =
    let acc' = String.◌∷◌ (digit (n % 10)) acc in
    let rest = show_loop fuel (n / 10) acc' in if n / 10 == 0 then acc' else rest

unfoldable pub show : ℕ → String
unfolding show_loop
show n = show_loop (suc n) n ""

is_digit : ℕ → Bool
is_digit c = leb b'0' c && leb c b'9'

-- `int(s)` of a text of ASCII digits; `none` for any other.
digits_from : ℕ → String → Option ℕ
unfolding is_digit
digits_from n String.[] = some n
digits_from n (String.◌∷◌ c s) =
    let rest = digits_from (n * 10 + (code c - 48)) s in if is_digit (code c) then rest else none

unfoldable pub read_digits : String → Option ℕ
unfolding digits_from
read_digits String.[] = none
read_digits s = digits_from 0 s

show_test : (show 0 ≡ "0") × (show 65535 ≡ "65535") × (read_digits "0042" ≡ some 42)
unfolding show read_digits
show_test = (refl, refl, refl)

split_test : split b'/' "10.0.0.2/32" ≡ "10.0.0.2" ∷ "32" ∷ []
unfolding split
split_test = refl

pub split-append :
    (sep : ℕ) (s : String) (c : Char) (t : String)
    → has_no sep s ≡ true
    → code c ≡ sep
    → split sep (s ++ String.◌∷◌ c t) ≡ s ∷ split sep t
unfolding split has_no
split-append sep String.[] c t h e = ground (arith, nil-append (String.◌∷◌ c t))
split-append sep (String.◌∷◌ d s) c t h e =
    ground (arith, cons-append d s (String.◌∷◌ c t), split-append sep s c t)

pub split-has_no : (sep : ℕ) (s : String) → has_no sep s ≡ true → split sep s ≡ s ∷ []
unfolding split has_no
split-has_no sep String.[] h = refl
split-has_no sep (String.◌∷◌ d s) h = ground (arith, split-has_no sep s)

pub code-digit : (n : ℕ) → n < 10 → code (digit n) ≡ 48 + n
unfolding digit
code-digit zero h = refl
code-digit (suc zero) h = refl
code-digit (suc (suc zero)) h = refl
code-digit (suc (suc (suc zero))) h = refl
code-digit (suc (suc (suc (suc zero)))) h = refl
code-digit (suc (suc (suc (suc (suc zero))))) h = refl
code-digit (suc (suc (suc (suc (suc (suc zero)))))) h = refl
code-digit (suc (suc (suc (suc (suc (suc (suc zero))))))) h = refl
code-digit (suc (suc (suc (suc (suc (suc (suc (suc zero)))))))) h = refl
code-digit (suc (suc (suc (suc (suc (suc (suc (suc (suc zero))))))))) h = refl
code-digit (suc (suc (suc (suc (suc (suc (suc (suc (suc (suc n)))))))))) h = absurd (omega arith)

-- What `show` puts before `acc` reads as `n`.
read_digits-show_loop :
    (fuel n : ℕ) (acc : String) → n < fuel → read_digits (show_loop fuel n acc) ≡ digits_from n acc
unfolding read_digits digits_from show_loop
read_digits-show_loop zero n acc h = absurd (omega arith)
read_digits-show_loop (suc fuel) n acc h = ground (
  arith,
  code-digit (n % 10),
  read_digits-show_loop fuel (n / 10) (String.◌∷◌ (digit (n % 10)) acc),
)

-- `int(str(n))` is `n`.
pub read_digits-show : (n : ℕ) → read_digits (show n) ≡ some n
unfolding show digits_from
read_digits-show n = read_digits-show_loop (suc n) n "" (omega arith)

has_no-show_loop :
    (sep fuel n : ℕ) (acc : String)
    → sep < 48
    → has_no sep acc ≡ true
    → has_no sep (show_loop fuel n acc) ≡ true
unfolding has_no show_loop
has_no-show_loop sep zero n acc h k = k
has_no-show_loop sep (suc fuel) n acc h k = ground (
  arith,
  code-digit (n % 10),
  has_no-show_loop sep fuel (n / 10) (String.◌∷◌ (digit (n % 10)) acc) h,
)

-- A decimal holds no `.`, no `/` and no other character below the digits.
pub has_no-show : (sep n : ℕ) → sep < 48 → has_no sep (show n) ≡ true
unfolding show has_no
has_no-show sep n h = has_no-show_loop sep (suc n) n "" h refl

-- "".join(parts)
unfoldable pub concat : List String → String
concat [] = ""
concat (s ∷ ss) = s ++ concat ss

-- len(s)
abbrev pub str_len : String → ℕ
str_len String.[] = 0
str_len (String.◌∷◌ c s) = suc (str_len s)

pub has_no-append :
    (sep : ℕ) (s t : String)
    → has_no sep s ≡ true
    → has_no sep t ≡ true
    → has_no sep (s ++ t) ≡ true
unfolding has_no
has_no-append sep String.[] t h k = ground (arith, nil-append t)
has_no-append sep (String.◌∷◌ d s) t h k = ground (arith, cons-append d s t, has_no-append sep s t)

-- A separator ends a part: what follows it splits on its own.
pub split-append-tail :
    (sep : ℕ) (s : String) (c : Char) (t : String)
    → code c ≡ sep
    → (w : String) × (ws : List String) × (split sep (s ++ String.◌∷◌ c t)
        ≡ w ∷ append ws (split sep t))
unfolding split push_char
split-append-tail sep String.[] c t e = ("", [], ground (arith, nil-append (String.◌∷◌ c t), e))
split-append-tail sep (String.◌∷◌ d s) c t e =
    let (w, ws, parts) = split-append-tail sep s c t e in
    elim (Bool-cases (code d == sep)) [
      | inl here ↦ ("", w ∷ ws, rw (cons-append d s (String.◌∷◌ c t), here, parts) refl)
      | inr other ↦ (String.◌∷◌ d w, ws, rw (cons-append d s (String.◌∷◌ c t), other, parts) refl)
    ]
