-- ===== src/Client/Minisign.antt =====
-- client/outwarp/minisign.py: a signature in minisign's format, checked against a public key. Ed25519
-- holds the verifier. base64, the hashes and UTF-8 are the standard library's.
pub mod Ed25519
pub mod Laws
pub mod Examples
use Prim.Native.Char.{Char, code}
use mathlib.Core.List.{reverse}
use out_warp.Prelude.{
  ℕ, zero, suc, String, Bool, true, false, not, ◌&&◌, ◌||◌, Option, none, some, List, [], ◌∷◌, ◌++◌,
  Result, ok, err, ◌>>=◌, leb, ◌==◌, str_eq, if◌then◌else◌, filter, length,
}
use out_warp.Prelude.Hex.{bytes_eq}
use out_warp.Server.ClientNames.{strip, strip_start}
use out_warp.Client.Config.Optional.{starts_with}
use out_warp.Client.Minisign.Ed25519.{ed25519_verify, take, drop}

pub record Library : Type 0 where
  pub b64decode : String → Option (List ℕ)
  pub sha512 : List ℕ → List ℕ
  pub blake2b : List ℕ → List ℕ
  pub utf8 : String → List ℕ

pub data MinisignError : Type 0 where
  no_key bad_key wrong_key_type empty_signature bad_signature wrong_length : MinisignError
  wrong_algorithm other_key no_match no_comment bad_global no_comment_match untrusted :
      MinisignError

-- where `splitlines` ends a line
is_break : ℕ → Bool
is_break c = leb 10 c && leb c 13 || leb 28 c && leb c 30 || c == 133 || c == 8232 || c == 8233

starts_with_feed : String → Bool
starts_with_feed String.[] = false
starts_with_feed (String.◌∷◌ c s) = code c == 10

push_char : Char → List String → List String
push_char c [] = String.◌∷◌ c "" ∷ []
push_char c (w ∷ ws) = String.◌∷◌ c w ∷ ws

-- `splitlines`, in which a carriage return and a line feed are one break
unfoldable pub split_lines : String → List String
unfolding is_break starts_with_feed push_char
split_lines String.[] = []
split_lines (String.◌∷◌ c s) =
    let rest = split_lines s in
    if code c == 13 && starts_with_feed s
    then rest
    else if is_break (code c)
    then "" ∷ rest
    else push_char c rest

-- `rstrip("\r")`
unfoldable pub strip_returns : String → String
strip_returns String.[] = ""
strip_returns (String.◌∷◌ c s) =
    let rest = strip_returns s in if code c == 13 && str_eq rest "" then "" else String.◌∷◌ c rest

abbrev is_untrusted : String → Bool
is_untrusted line = starts_with "untrusted comment:" line

abbrev pub is_trusted : String → Bool
is_trusted line = starts_with "trusted comment:" line

stripped_lines : List String → List String
unfolding strip_returns
stripped_lines [] = []
stripped_lines (l ∷ ls) = strip_returns l ∷ stripped_lines ls

-- the lines that are neither blank nor the untrusted comment
unfoldable pub body_of : String → List String
unfolding split_lines stripped_lines starts_with filter
body_of text =
    filter (λ l. not (str_eq l "") && not (is_untrusted l)) (stripped_lines (split_lines text))

-- the first line that passes
unfoldable pub first_line : (String → Bool) → List String → Option String
first_line test [] = none
first_line test (l ∷ ls) = let later = first_line test ls in if test l then some l else later

key_line : String → Bool
unfolding starts_with
key_line line =
    not (str_eq (strip line) "") && not (is_untrusted (strip line) || is_trusted (strip line))

-- `_last_base64_line`
unfoldable pub last_base64_line : String → Option String
unfolding first_line key_line split_lines
last_base64_line text = elim (first_line key_line (reverse (split_lines text))) [
  | none ↦ none
  | some l ↦ some (strip l)
]

-- `alg in (_ALG_LEGACY, _ALG_PREHASHED)`
abbrev pub is_prehashed : List ℕ → Bool
is_prehashed alg = bytes_eq alg (b'E' ∷ b'D' ∷ [])

abbrev pub is_algorithm : List ℕ → Bool
is_algorithm alg = bytes_eq alg (b'E' ∷ b'd' ∷ []) || is_prehashed alg

abbrev pub found {ℓ} : {A : Type ℓ} → MinisignError → Option A → Result MinisignError A
found e none = err e
found e (some a) = ok a

abbrev pub check : Bool → MinisignError → Result MinisignError (Unit {0})
check true e = ok tt
check false e = err e

-- the text behind the first `n` characters
unfoldable pub behind : ℕ → String → String
behind zero s = s
behind (suc n) String.[] = ""
behind (suc n) (String.◌∷◌ c s) = behind n s

-- the comment, `split("trusted comment:", 1)[1].lstrip()`
unfoldable pub comment_of : String → String
unfolding behind
comment_of line = strip_start (behind 16 line)

abbrev rest_of : List String → List String
rest_of [] = []
rest_of (l ∷ ls) = ls

module _ (lib : Library) where
  -- `parse_public_key`: the key's ID and the key
  unfoldable pub parse_public_key : String → Result MinisignError (List ℕ × List ℕ)
  unfolding last_base64_line take drop
  parse_public_key text = do
    line ← found no_key (last_base64_line text)
    blob ← found bad_key (lib.b64decode line)
    _ ← check (length blob == 42 && is_algorithm (take 2 blob)) wrong_key_type
    ok (take 8 (drop 2 blob), drop 10 blob)

  -- what the file's signature is over
  unfoldable pub signed_bytes : List ℕ → List ℕ → List ℕ
  signed_bytes alg message = if is_prehashed alg then lib.blake2b message else message

  -- the signature of the trusted comment
  unfoldable pub verify_comment : List ℕ → List ℕ → List String → Result MinisignError (Unit {0})
  unfolding first_line comment_of starts_with
  verify_comment key sig lines = do
    trusted ← found no_comment (first_line (λ l. is_trusted l) lines)
    global_line ← found no_comment (first_line (λ l. not (is_trusted l)) lines)
    global ← found bad_global (lib.b64decode global_line)
    check (ed25519_verify lib.sha512 key (sig ++ lib.utf8 (comment_of trusted)) global)
        no_comment_match

  -- `verify`
  unfoldable pub verify : List ℕ → String → String → Result MinisignError (Unit {0})
  unfolding parse_public_key signed_bytes verify_comment first_line body_of take drop
  verify message signature_text public_key_text = do
    (key_id, key) ← parse_public_key public_key_text
    first ← found empty_signature (first_line (λ l. true) (body_of signature_text))
    blob ← found bad_signature (lib.b64decode first)
    _ ← check (length blob == 74) wrong_length
    _ ← check (is_algorithm (take 2 blob)) wrong_algorithm
    _ ← check (bytes_eq (take 8 (drop 2 blob)) key_id) other_key
    _ ←
        check (ed25519_verify lib.sha512 key (signed_bytes (take 2 blob) message) (drop 10 blob))
          no_match
    verify_comment key (drop 10 blob) (rest_of (body_of signature_text))

  -- `signature_key_id`, where a text with no line decodes to nothing
  unfoldable pub signature_key_id : String → Result MinisignError (List ℕ)
  unfolding first_line body_of take drop
  signature_key_id signature_text = do
    blob ← elim (first_line (λ l. true) (body_of signature_text)) [
      | none ↦ ok []
      | some first ↦ found bad_signature (lib.b64decode first)
    ]
    _ ← check (length blob == 74) wrong_length
    ok (take 8 (drop 2 blob))

  -- the loop of `verify_any`
  unfoldable pub verify_with :
      List ℕ → List ℕ → String → List String → Result MinisignError (List ℕ)
  unfolding verify parse_public_key
  verify_with wanted message signature_text [] = err untrusted
  verify_with wanted message signature_text (key_text ∷ keys) =
      let later = verify_with wanted message signature_text keys in
      do
        (key_id, key) ← parse_public_key key_text
        if bytes_eq key_id wanted
            then (do _ ← verify message signature_text key_text; ok key_id)
            else later

  -- `verify_any`: the ID of the key that made the signature
  unfoldable pub verify_any : List ℕ → String → List String → Result MinisignError (List ℕ)
  unfolding signature_key_id verify_with
  verify_any message signature_text public_keys = do
    wanted ← signature_key_id signature_text
    verify_with wanted message signature_text public_keys
