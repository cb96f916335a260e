-- ===== src/Server/ClientIp.antt =====
-- `client_ip` of server/outwarp_server/web_auth.py: the address that failures are counted by.
use Prim.Native.String.{◌++◌}
use mathlib.Core.List.{◌++◌ as append}
use out_warp.Prelude.{
  ◌≡◌, ◌≢◌, refl, String, Bool, true, false, Option, none, some, List, [], ◌∷◌, str_eq,
  if◌then◌else◌, str_eq-false,
}
use out_warp.Prelude.Text.{split, split-append-tail, has_no, split-has_no}
use out_warp.Server.ClientNames.{strip}

-- the last entry that is not blank
unfoldable pub last_hop : List String → Option String
last_hop [] = none
last_hop (w ∷ ws) = elim (last_hop ws) [
  | some h ↦ some h
  | none ↦ if str_eq (strip w) "" then none else some (strip w)
]

abbrev pub or_unknown : String → String
or_unknown direct_ip = if str_eq direct_ip "" then "?" else direct_ip

-- `forwarded` is the header X-Forwarded-For, empty where it is missing.
unfoldable pub client_ip : (forwarded direct_ip : String) → (behind_reverse_proxy : Bool) → String
client_ip forwarded direct_ip false = or_unknown direct_ip
client_ip forwarded direct_ip true = elim (last_hop (split b',' forwarded)) [
  | some hop ↦ hop
  | none ↦ or_unknown direct_ip
]

last_hop-append :
    (ws xs : List String) (h : String) → last_hop xs ≡ some h → last_hop (append ws xs) ≡ some h
unfolding last_hop
last_hop-append [] xs h e = e
last_hop-append (w ∷ ws) xs h e = rw (last_hop-append ws xs h e) refl

-- Behind the proxy, the entry that the proxy appends decides: whatever a client puts before it in the
-- header, and whatever its own address is, the failures count for that entry.
pub client_ip-appended :
    (claimed hop direct_ip : String)
    → has_no b',' hop ≡ true
    → strip hop ≢ ""
    → client_ip (claimed ++ String.◌∷◌ "," hop) direct_ip true ≡ strip hop
unfolding client_ip last_hop
client_ip-appended claimed hop direct_ip single filled =
    let (w, ws, parts) = split-append-tail b',' claimed "," hop refl in
    let own : last_hop (split b',' hop) ≡ some (strip hop) =
      rw (split-has_no b',' hop single, str_eq-false (strip hop) "" filled) refl in
    rw (client_ip, parts, last_hop-append (w ∷ ws) (split b',' hop) (strip hop) own) refl
