-- ===== src/Client/Fallback/Redact.antt =====
-- `redact_command` of client/outwarp/fallback.py, and what its line shows of a wstunnel command.
use Prim.Native.Char.{Char, code}
use Prim.Native.String.{◌++◌}
use text.Mathlib.TextLemmas.{nil-append, cons-append}
use mathlib.Core.List.{◌++◌ as append}
use out_warp.Prelude.{
  ℕ, ◌≡◌, refl, sym, ap, ◌∙◌, String, Bool, true, false, ◌&&◌, ◌||◌, Option, none, some, List, [],
  ◌∷◌, arith, leb, ◌==◌, str_eq, eq_iff, if◌then◌else◌, Bool-cases, inl, inr,
}
use out_warp.Prelude.Text.{has_no}
use out_warp.Client.Fallback.{
  ConnectionStrategy, path_flag, command_front, command_tail, url, strategy_to_command,
}

-- `arg.partition(sep)`, with `none` where the separator does not occur
unfoldable pub partition : ℕ → String → String × Option String
partition sep String.[] = ("", none)
partition sep (String.◌∷◌ c s) =
    let (before, after) = partition sep s in
    if code c == sep then ("", some s) else (String.◌∷◌ c before, after)

is_space : ℕ → Bool
is_space c = c == 32 || leb 9 c && leb c 13 || leb 28 c && leb c 31 || c == 133 || c == 160

is_scheme_char : ℕ → Bool
is_scheme_char c =
    leb b'a' c && leb c b'z' || leb b'0' c && leb c b'9' || c == b'+' || c == b'.' || c == b'-'

-- what follows the `@` of a user part, `some` character of which came before
after_userinfo : (nonempty : Bool) → String → Option String
unfolding is_space
after_userinfo nonempty String.[] = none
after_userinfo nonempty (String.◌∷◌ c s) =
    let rest = after_userinfo true s in
    if code c == b'@'
    then (if nonempty then some s else none)
    else if code c == b'/' || is_space (code c)
    then none
    else rest

mask_userinfo : String → Option String
unfolding after_userinfo
mask_userinfo s = elim (after_userinfo false s) [
  | none ↦ none
  | some rest ↦ some ("://<redacted>@" ++ rest)
]

strip_slashes : String → Option String
strip_slashes (String.◌∷◌ a (String.◌∷◌ b s)) =
    if code a == b'/' && code b == b'/' then some s else none
strip_slashes _ = none

mask_after_scheme : Option String → Option String
unfolding mask_userinfo
mask_after_scheme none = none
mask_after_scheme (some s) = mask_userinfo s

push_option : Char → Option String → Option String
push_option c none = none
push_option c (some s) = some (String.◌∷◌ c s)

-- `first` is whether the scheme has no character yet.
mask_scheme : (first : Bool) → String → Option String
unfolding mask_after_scheme strip_slashes is_scheme_char push_option
mask_scheme first String.[] = none
mask_scheme first (String.◌∷◌ c s) =
    let rest = mask_scheme false s in
    if first
    then (if leb b'a' (code c) && leb (code c) b'z' then push_option c rest else none)
    else if code c == b':'
    then mask_after_scheme (strip_slashes s)
    else if is_scheme_char (code c)
    then push_option c rest
    else none

-- _URL_USERINFO_RE.sub(r"\1<redacted>@", arg)
unfoldable pub mask_url : String → String
unfolding mask_scheme
mask_url arg = elim (mask_scheme true arg) [ none ↦ arg | some masked ↦ masked ]

abbrev is_secret : String → Bool
is_secret flag = str_eq flag path_flag

mask_flag : String → String × Option String → String
mask_flag arg (flag, none) = mask_url arg
mask_flag arg (flag, some value) = if is_secret flag then flag ++ "=<redacted>" else mask_url arg

-- the loop of `redact_command`, with `mask_next`
unfoldable pub redact_args : Bool → List String → List String
unfolding mask_flag
redact_args mask_next [] = []
redact_args mask_next (arg ∷ rest) =
    let masked = redact_args true rest in
    let shown = redact_args false rest in
    if mask_next
    then "<redacted>" ∷ shown
    else if is_secret arg
    then arg ∷ masked
    else mask_flag arg (partition b'=' arg) ∷ shown

-- " ".join(out)
unfoldable pub join_words : List String → String
join_words [] = ""
join_words (w ∷ []) = w
join_words (w ∷ v ∷ rest) = w ++ " " ++ join_words (v ∷ rest)

unfoldable pub redact_command : List String → String
redact_command cmd = join_words (redact_args false cmd)

partition-append :
    (sep : ℕ) (s : String) (c : Char) (t : String)
    → has_no sep s ≡ true
    → code c ≡ sep
    → partition sep (s ++ String.◌∷◌ c t) ≡ (s, some t)
unfolding partition has_no
partition-append sep String.[] c t h e = ground (arith, nil-append (String.◌∷◌ c t))
partition-append sep (String.◌∷◌ d s) c t h e =
    ground (arith, cons-append d s (String.◌∷◌ c t), partition-append sep s c t)

prefix_arg : String → String
prefix_arg p = path_flag ++ "=" ++ p

partition-prefix_arg : (p : String) → partition b'=' (path_flag ++ "=" ++ p) ≡ (path_flag, some p)
unfolding has_no
partition-prefix_arg p =
    rw (cons-append "=" "" p, nil-append p) (partition-append b'=' path_flag "=" p refl refl)

is_secret-prefix_arg : (p : String) → is_secret (path_flag ++ "=" ++ p) ≡ false
unfolding partition
is_secret-prefix_arg p = elim (Bool-cases (is_secret (path_flag ++ "=" ++ p))) [
  | inr e ↦ e
  | inl e ↦
      let same : path_flag ++ "=" ++ p ≡ path_flag =
        (eq_iff (path_flag ++ "=" ++ p) path_flag).0 e in
      let split : (path_flag, some p) ≡ partition b'=' path_flag =
        sym (partition-prefix_arg p) ∙ ap (partition b'=') same in
      absurd (ground (arith, split))
]

-- The argument that carries the prefix shows the same whatever the prefix is.
redact_args-prefix_arg :
    (mask : Bool) (p : String) (rest : List String)
    → redact_args mask ((path_flag ++ "=" ++ p) ∷ rest)
      ≡ (if mask then "<redacted>" else path_flag ++ "=<redacted>") ∷ redact_args false rest
unfolding redact_args mask_flag
redact_args-prefix_arg true p rest = refl
redact_args-prefix_arg false p rest = rw (is_secret-prefix_arg p, partition-prefix_arg p) refl

redact_args-append :
    (mask : Bool) (front : List String) (p q : String) (rest : List String)
    → redact_args mask (append front ((path_flag ++ "=" ++ p) ∷ rest))
      ≡ redact_args mask (append front ((path_flag ++ "=" ++ q) ∷ rest))
unfolding redact_args
redact_args-append mask [] p q rest =
    redact_args-prefix_arg mask p rest ∙ sym (redact_args-prefix_arg mask q rest)
redact_args-append true (a ∷ front) p q rest =
    ap (λ (r : List String). "<redacted>" ∷ r) (redact_args-append false front p q rest)
redact_args-append false (a ∷ front) p q rest =
    ground (arith, redact_args-append true front p q rest, redact_args-append false front p q rest)

-- The line that is logged of a strategy's command does not depend on the path prefix, which is the
-- secret that gates the server.
pub redact_command-path_prefix :
    (s : ConnectionStrategy) (p q wstunnel_bin forward : String)
    → redact_command (strategy_to_command (record s { path_prefix = p }) wstunnel_bin forward)
      ≡ redact_command (strategy_to_command (record s { path_prefix = q }) wstunnel_bin forward)
unfolding redact_command strategy_to_command command_tail url
redact_command-path_prefix s p q wstunnel_bin forward = ap join_words (
    redact_args-append false (command_front wstunnel_bin forward) p q
      (command_tail (record s { path_prefix = p })))
