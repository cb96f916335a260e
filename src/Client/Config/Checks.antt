-- ===== src/Client/Config/Checks.antt =====
-- The checks on texts of client/outwarp/config.py. A pattern that ends in `$` also matches before a
-- line feed that ends the text.
use Prim.Native.Char.{Char, code}
use Prim.Native.String.{◌++◌}
use out_warp.Prelude.{
  ℕ, zero, suc, String, Bool, true, false, not, ◌&&◌, ◌||◌, List, [], ◌∷◌, Result, ok, err, ◌>>=◌,
  leb, ◌==◌, str_eq, if◌then◌else◌, filter,
}
use out_warp.Prelude.Text.{split, str_len}
use out_warp.Server.ClientNames.{strip}
use out_warp.Client.Config.Json.{
  Value, null, boolean, number, minus, real, text, array, object, Items, nil, cons, ConfigError,
  invalid, ensure, Python, to_text,
}

-- the text without one line feed at its end
unfoldable pub chomp : String → String
chomp String.[] = ""
chomp (String.◌∷◌ c s) = if code c == 10 && str_eq s "" then "" else String.◌∷◌ c (chomp s)

abbrev pub is_alphanumeric : ℕ → Bool
is_alphanumeric c = leb b'A' c && leb c b'Z' || leb b'a' c && leb c b'z' || leb b'0' c && leb c b'9'

unfoldable pub all_chars : (ℕ → Bool) → String → Bool
all_chars test String.[] = true
all_chars test (String.◌∷◌ c s) = test (code c) && all_chars test s

abbrev pub between : ℕ → ℕ → ℕ → Bool
between low high n = leb low n && leb n high

abbrev pub is_path_char : ℕ → Bool
is_path_char c = is_alphanumeric c || c == b'.' || c == b'_' || c == b'-'

-- _PATH_PREFIX_RE
unfoldable pub matches_path_prefix : String → Bool
unfolding chomp all_chars
matches_path_prefix s = between 1 128 (str_len (chomp s)) && all_chars is_path_char (chomp s)

abbrev pub is_tunnel_char : ℕ → Bool
is_tunnel_char c = is_alphanumeric c || c == b'_' || c == b'-'

-- _TUNNEL_NAME_RE
unfoldable pub matches_tunnel_name : String → Bool
unfolding chomp all_chars
matches_tunnel_name s = between 1 15 (str_len (chomp s)) && all_chars is_tunnel_char (chomp s)

abbrev pub is_hex_char : ℕ → Bool
is_hex_char c = leb b'0' c && leb c b'9' || leb b'A' c && leb c b'F' || leb b'a' c && leb c b'f'

-- `pairs` pairs with a colon before each, and then the end
colon_pairs : ℕ → String → Bool
colon_pairs zero s = str_eq s ""
colon_pairs (suc pairs) (String.◌∷◌ a (String.◌∷◌ b (String.◌∷◌ c s))) =
    code a == b':' && is_hex_char (code b) && is_hex_char (code c) && colon_pairs pairs s
colon_pairs (suc pairs) _ = false

-- _FINGERPRINT_RE: 32 pairs of hexadecimal digits between colons
unfoldable pub matches_fingerprint : String → Bool
unfolding colon_pairs chomp
matches_fingerprint s = colon_pairs 32 (":" ++ chomp s)

-- `_has_control_chars`
unfoldable pub has_control_chars : String → Bool
unfolding all_chars
has_control_chars s = not (all_chars (λ c. leb 32 c) s)

abbrev pub is_label_char : ℕ → Bool
is_label_char c = is_alphanumeric c || c == b'-'

abbrev pub first_char : String → ℕ
first_char String.[] = 0
first_char (String.◌∷◌ c s) = code c

unfoldable pub last_char : String → ℕ
last_char String.[] = 0
last_char (String.◌∷◌ c s) = if str_eq s "" then code c else last_char s

-- _HOSTNAME_LABEL_RE. Its look-ahead bounds the line, so a line feed at the end is passed over too.
matches_label : String → Bool
unfolding last_char all_chars chomp
matches_label s =
    between 1 63 (str_len (chomp s))
    && is_alphanumeric (first_char (chomp s))
    && is_alphanumeric (last_char (chomp s))
    && all_chars is_label_char (chomp s)

all_labels : List String → Bool
unfolding matches_label
all_labels [] = true
all_labels (l ∷ ls) = matches_label l && all_labels ls

-- `_is_hostname`
unfoldable pub is_hostname : String → Bool
unfolding all_labels last_char
is_hostname s =
    not (str_eq s "")
    && leb (str_len s) 253
    && not (last_char s == b'.')
    && all_labels (split b'.' s)

-- `ipaddress`: whether `ip_address`, `ip_network(…, strict=False)` and `ip_interface` return.
pub record Addresses : Type 0 where
  pub is_ip_address : String → Bool
  pub is_ip_network : String → Bool
  pub is_ip_interface : String → Bool

unfoldable pub has_slash : String → Bool
unfolding all_chars
has_slash s = not (all_chars (λ c. not (c == b'/')) s)

module _ (ip : Addresses) where
  -- `_is_valid_host`
  unfoldable pub is_valid_host : String → Bool
  is_valid_host s = ip.is_ip_address s || is_hostname s

  -- an item of `_parse_ip_list` without CIDRs
  unfoldable pub is_plain_address : String → Bool
  unfolding has_slash
  is_plain_address s = not (has_slash s) && ip.is_ip_address s

  -- an item of `_parse_endpoint_list`
  unfoldable pub is_endpoint : String → Bool
  unfolding has_slash
  is_endpoint s = (if has_slash s then ip.is_ip_network s else ip.is_ip_address s) || is_hostname s

-- `[,\s]`
is_separator : ℕ → Bool
is_separator c =
    c == b','
    || leb 9 c && leb c 13
    || leb 28 c && leb c 32
    || c == 133
    || c == 160
    || c == 5760
    || leb 8192 c && leb c 8202
    || c == 8232
    || c == 8233
    || c == 8239
    || c == 8287
    || c == 12288

push_char : Char → List String → List String
push_char c [] = String.◌∷◌ c "" ∷ []
push_char c (w ∷ ws) = String.◌∷◌ c w ∷ ws

words : String → List String
unfolding is_separator push_char
words String.[] = "" ∷ []
words (String.◌∷◌ c s) =
    let rest = words s in if is_separator (code c) then "" ∷ rest else push_char c rest

abbrev non_empty : List String → List String
non_empty = filter (λ w. not (str_eq w ""))

module _ (py : Python) where
  stripped : Items → List String
  stripped nil = []
  stripped (cons v xs) = strip (to_text py v) ∷ stripped xs

  -- `_split_list`
  unfoldable pub split_list : Value → Result ConfigError (List String)
  unfolding words stripped
  split_list (text s) = ok (non_empty (words (strip s)))
  split_list (array xs) = ok (non_empty (stripped xs))
  split_list null = err (invalid "list")
  split_list (boolean b) = err (invalid "list")
  split_list (number n) = err (invalid "list")
  split_list (minus n) = err (invalid "list")
  split_list (real s) = err (invalid "list")
  split_list (object d) = err (invalid "list")

-- `for item in items: …; out.append(item)`, where the first item that fails raises
unfoldable pub all_pass : String → (String → Bool) → List String → Result ConfigError (List String)
all_pass label test [] = ok []
all_pass label test (s ∷ ss) = do
  _ ← ensure (test s) label
  rest ← all_pass label test ss
  ok (s ∷ rest)

module _ (py : Python) (ip : Addresses) where
  -- `_parse_ip_list(…, allow_cidr=False)`
  unfoldable pub parse_ip_list : String → Value → Result ConfigError (List String)
  unfolding split_list
  parse_ip_list label v = do items ← split_list py v; all_pass label (is_plain_address ip) items

  -- `_parse_endpoint_list`
  unfoldable pub parse_endpoint_list : String → Value → Result ConfigError (List String)
  unfolding split_list
  parse_endpoint_list label v = do items ← split_list py v; all_pass label (is_endpoint ip) items
