-- ===== src/Server/ClientNames.antt =====
-- `validate_client_name` of server/outwarp_server/config.py.
use Prim.Native.Char.{Char, code}
use out_warp.Prelude.{
  ℕ, ◌≡◌, ◌≢◌, ◌≤◌, refl, String, Bool, true, false, ◌&&◌, ◌||◌, Option, none, some, arith, leb,
  ◌==◌, str_eq, if◌then◌else◌, Bool-cases, inl, inr, &&-eq-true, ==_iff, sym, ap, ◌∙◌, str-ne,
}
use out_warp.Prelude.Text.{has_no, str_len}

-- what `str.strip` takes off
unfoldable pub is_space : ℕ → Bool
is_space c =
    leb 9 c && leb c 13
    || leb 28 c && leb c 32
    || c == 133
    || c == 160
    || c == 5760
    || leb 8192 c && leb c 8202
    || c == 8232
    || c == 8233
    || c == 8239
    || c == 8287
    || c == 12288

unfoldable pub strip_start : String → String
strip_start String.[] = ""
strip_start (String.◌∷◌ c s) =
    let rest = strip_start s in if is_space (code c) then rest else String.◌∷◌ c s

push_back : Char → String → String
push_back c String.[] = if is_space (code c) then "" else String.◌∷◌ c ""
push_back c (String.◌∷◌ d s) = String.◌∷◌ c (String.◌∷◌ d s)

strip_end : String → String
strip_end String.[] = ""
strip_end (String.◌∷◌ c s) = push_back c (strip_end s)

unfoldable pub strip : String → String
unfolding strip_start strip_end push_back is_space
strip s = strip_end (strip_start s)

-- [A-Za-z0-9]
abbrev is_alphanumeric : ℕ → Bool
is_alphanumeric c = leb b'A' c && leb c b'Z' || leb b'a' c && leb c b'z' || leb b'0' c && leb c b'9'

-- [A-Za-z0-9 _.\-]
abbrev is_name_char : ℕ → Bool
is_name_char c = is_alphanumeric c || c == b' ' || c == b'_' || c == b'.' || c == b'-'

all_name_chars : String → Bool
all_name_chars String.[] = true
all_name_chars (String.◌∷◌ c s) = is_name_char (code c) && all_name_chars s

-- the pattern _CLIENT_NAME_RE on a stripped text
matches_name : String → Bool
unfolding all_name_chars
matches_name String.[] = false
matches_name (String.◌∷◌ c s) = is_alphanumeric (code c) && all_name_chars s && leb (str_len s) 63

unfoldable pub validate_client_name : String → Option String
unfolding matches_name
validate_client_name name =
    let cleaned = strip name in
    if str_eq cleaned ""
    then none
    else if str_eq cleaned "." || str_eq cleaned ".."
    then none
    else if matches_name cleaned
    then some cleaned
    else none

true-ne-false : true ≢ false
true-ne-false e = ground (arith, e)

all_name_chars-has_no :
    (sep : ℕ) (s : String)
    → is_name_char sep ≡ false
    → all_name_chars s ≡ true
    → has_no sep s ≡ true
unfolding all_name_chars has_no
all_name_chars-has_no sep String.[] out h = refl
all_name_chars-has_no sep (String.◌∷◌ c s) out h =
    let (first, rest) = &&-eq-true (is_name_char (code c)) (all_name_chars s) h in
    elim (Bool-cases (code c == sep)) [
      | inl same ↦
          let at : code c ≡ sep = (==_iff (code c) sep).0 same in
          absurd (true-ne-false (sym first ∙ (ap is_name_char at ∙ out)))
      | inr other ↦ rw other (all_name_chars-has_no sep s out rest)
    ]

-- A name that can be a file's: a character outside the pattern's set does not occur.
pub record IsSafeName (name : String) : Type 0 where
  pub nonempty : name ≢ ""
  pub not_current : name ≢ "."
  pub not_parent : name ≢ ".."
  pub charset : (c : ℕ) → is_name_char c ≡ false → has_no c name ≡ true
  pub short : str_len name ≤ 64

matches_name-charset :
    (name : String)
    → matches_name name ≡ true
    → ((c : ℕ) → is_name_char c ≡ false → has_no c name ≡ true) × (str_len name ≤ 64)
unfolding matches_name all_name_chars
matches_name-charset String.[] h = absurd (true-ne-false (sym h))
matches_name-charset (String.◌∷◌ c s) h =
    let (both, short) =
      &&-eq-true (is_alphanumeric (code c) && all_name_chars s) (leb (str_len s) 63) h in
    let (first, chars) = &&-eq-true (is_alphanumeric (code c)) (all_name_chars s) both in
    (λ d out. all_name_chars-has_no d (String.◌∷◌ c s) out (rw (first, chars) refl), ground arith)

-- A client name that passes is not empty, at most 64 characters long, not a directory's own name or
-- its parent's, and holds only letters, digits, spaces, `.`, `_` and `-`: no path separator.
pub validate_client_name-IsSafeName :
    (name cleaned : String) → validate_client_name name ≡ some cleaned → IsSafeName cleaned
unfolding validate_client_name
validate_client_name-IsSafeName name cleaned h = elim (Bool-cases (str_eq (strip name) "")) [
  | inl e ↦ absurd (ground (arith, h, e))
  | inr filled ↦ elim (Bool-cases (str_eq (strip name) "." || str_eq (strip name) "..")) [
    | inl e ↦ absurd (ground (arith, h, filled, e))
    | inr plain ↦ elim (Bool-cases (matches_name (strip name))) [
      | inr e ↦ absurd (ground (arith, h, filled, plain, e))
      | inl matched ↦
          let same : strip name ≡ cleaned = ground (arith, h, filled, plain, matched) in
          rw (← same) (record {
            nonempty = str-ne (strip name) "" filled;
            not_current = str-ne (strip name) "." (ground (arith, plain));
            not_parent = str-ne (strip name) ".." (ground (arith, plain));
            charset = (matches_name-charset (strip name) matched).0;
            short = (matches_name-charset (strip name) matched).1;
          })
    ]
  ]
]
