-- ===== src/Prelude/Hex.antt =====
-- `bytes.hex` and `bytes.fromhex`. Bytes are numbers below 256.
use Prim.Native.Char.{Char, code}
use out_warp.Prelude.{
  ℕ, ◌+◌, ◌-◌, ◌*◌, ◌/◌, ◌%◌, ◌<◌, ◌≡◌, refl, ◌↔◌, String, Bool, true, false, ◌&&◌, ◌||◌, Option,
  none, some, List, [], ◌∷◌, arith, leb, ltb, ◌==◌, if◌then◌else◌,
}
use out_warp.Prelude.Text.{digit}
use out_warp.Prelude.Tables.{all_below, all_below_sound}

hex_digit : ℕ → Char
unfolding digit
hex_digit n =
    if ltb n 10
    then digit n
    else if n == 10
    then "a"
    else if n == 11
    then "b"
    else if n == 12
    then "c"
    else if n == 13
    then "d"
    else if n == 14
    then "e"
    else "f"

hex_value : ℕ → Option ℕ
hex_value c =
    if leb b'0' c && leb c b'9'
    then some (c - b'0')
    else if leb b'a' c && leb c b'f'
    then some (c - 87)
    else if leb b'A' c && leb c b'F'
    then some (c - 55)
    else none

unfoldable pub hex : List ℕ → String
unfolding hex_digit
hex [] = ""
hex (b ∷ bs) = String.◌∷◌ (hex_digit (b / 16)) (String.◌∷◌ (hex_digit (b % 16)) (hex bs))

is_space : ℕ → Bool
is_space c = c == 32 || leb 9 c && leb c 13

push_byte : Option ℕ → Option ℕ → Option (List ℕ) → Option (List ℕ)
push_byte (some h) (some l) (some bs) = some ((h * 16 + l) ∷ bs)
push_byte _ _ _ = none

-- White space may stand between two bytes.
unfoldable pub from_hex : String → Option (List ℕ)
unfolding hex_value is_space push_byte
from_hex String.[] = some []
from_hex (String.◌∷◌ c String.[]) = if is_space (code c) then some [] else none
from_hex (String.◌∷◌ c (String.◌∷◌ d s)) =
    let after_space = from_hex (String.◌∷◌ d s) in
    let after_byte = from_hex s in
    if is_space (code c)
    then after_space
    else push_byte (hex_value (code c)) (hex_value (code d)) after_byte

abbrev pub AllBytes : List ℕ → Type 0
AllBytes [] = Unit
AllBytes (b ∷ bs) = (b < 256) × AllBytes bs

-- Each half of a byte prints as a digit that reads back, and is no space.
digit_reads : ℕ → Bool
digit_reads n =
    if is_space (code (hex_digit n))
    then false
    else elim (hex_value (code (hex_digit n))) [ none ↦ false | some m ↦ m == n ]

digit_table : all_below 16 digit_reads ≡ true
unfolding all_below digit_reads is_space hex_digit hex_value
digit_table = refl

digit_reads_lem :
    (n : ℕ)
    → n < 16
    → (is_space (code (hex_digit n)) ≡ false) × (hex_value (code (hex_digit n)) ≡ some n)
unfolding digit_reads
digit_reads_lem n h =
    let e = all_below_sound 16 digit_reads n digit_table h in (ground arith, ground arith)

-- What `hex` writes, `from_hex` reads.
pub from_hex-hex : (bs : List ℕ) → AllBytes bs → from_hex (hex bs) ≡ some bs
unfolding hex from_hex
from_hex-hex [] h = refl
from_hex-hex (b ∷ bs) h = ground (
  arith,
  digit_reads_lem (b / 16) (omega arith),
  digit_reads_lem (b % 16) (omega arith),
  from_hex-hex bs h.1,
)

-- Equality of bytes: `compare_digest`.
unfoldable pub bytes_eq : List ℕ → List ℕ → Bool
bytes_eq [] [] = true
bytes_eq [] (c ∷ cs) = false
bytes_eq (b ∷ bs) [] = false
bytes_eq (b ∷ bs) (c ∷ cs) = b == c && bytes_eq bs cs

pub bytes_eq_iff : (bs cs : List ℕ) → (bytes_eq bs cs ≡ true) ↔ (bs ≡ cs)
unfolding bytes_eq
bytes_eq_iff [] [] = ground arith
bytes_eq_iff [] (c ∷ cs) = ground arith
bytes_eq_iff (b ∷ bs) [] = ground arith
bytes_eq_iff (b ∷ bs) (c ∷ cs) = ground (arith, bytes_eq_iff bs cs)
