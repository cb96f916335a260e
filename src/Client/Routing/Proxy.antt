-- ===== src/Client/Routing/Proxy.antt =====
-- `proxy_with_host` of client/outwarp/routing.py: a proxy with its host replaced by an address.
use Prim.Native.Char.{code}
use Prim.Native.String.{◌++◌}
use out_warp.Prelude.{ℕ, zero, suc, ◌+◌, ◌≡◌, refl, String, ◌==◌, if◌then◌else◌}
use out_warp.Prelude.Text.{split, has_no, str_len}
use out_warp.Client.Routing.{after_last, proxy_host, bracketed}

-- `creds + at` of `creds, at, spec = s.rpartition(sep)`
unfoldable pub through_last : ℕ → String → String
through_last sep String.[] = ""
through_last sep (String.◌∷◌ c s) =
    let later = through_last sep s in
    if has_no sep s then (if code c == sep then String.◌∷◌ c "" else "") else String.◌∷◌ c later

-- s[n:]
unfoldable pub skip : ℕ → String → String
skip zero s = s
skip (suc n) String.[] = ""
skip (suc n) (String.◌∷◌ c s) = skip n s

abbrev brackets : String → ℕ
brackets String.[] = 0
brackets (String.◌∷◌ c s) = if code c == b'[' then 2 else 0

unfoldable pub proxy_with_host : String → String → String
unfolding through_last skip
proxy_with_host proxy host =
    let spec = after_last b'@' proxy in
    through_last b'@' proxy ++ host ++ skip (str_len (proxy_host proxy) + brackets spec) spec

replaced_test :
    (proxy_with_host "user:pw@proxy.local:3128" "192.0.2.7" ≡ "user:pw@192.0.2.7:3128")
    × (proxy_with_host "[2001:db8::1]:3128" "192.0.2.7" ≡ "192.0.2.7:3128")
unfolding proxy_with_host proxy_host after_last has_no split bracketed
replaced_test = (refl, refl)
