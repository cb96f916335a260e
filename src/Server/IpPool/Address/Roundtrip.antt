-- ===== src/Server/IpPool/Address/Roundtrip.antt =====
-- Reading back a printed address (the `ipaddress` part of server/outwarp_server/ip_pool.py).
use Prim.Native.String.{◌++◌}
use out_warp.Prelude.{
  ℕ, ◌/◌, ◌%◌, ◌^◌, ◌<◌, String, ◌≡◌, refl, Bool, true, false, none, some, [], ◌∷◌, arith, ◌==◌,
}
use out_warp.Prelude.Text.{
  split, split-append, split-has_no, has_no, has_no-append, has_no-show, show,
}
use out_warp.Prelude.Tables.{all_below, all_below_sound}
use out_warp.Server.IpPool.Address.{dot, parse_octet, parse_address, show_address}

reads_back : ℕ → Bool
reads_back n = elim (parse_octet (show n)) [ none ↦ false | some m ↦ m == n ]

octet_table : all_below 256 reads_back ≡ true
unfolding all_below reads_back parse_octet show
octet_table = refl

parse_octet-show : (n : ℕ) → n < 256 → parse_octet (show n) ≡ some n
unfolding reads_back
parse_octet-show n h = ground (arith, all_below_sound 256 reads_back n octet_table h)

split-show_address :
    (n : ℕ)
    → split b'.' (show_address n)
      ≡ show (n / 2 ^ 24) ∷ show (n / 2 ^ 16 % 256) ∷ show (n / 2 ^ 8 % 256) ∷ show (n % 256) ∷ []
unfolding show_address
split-show_address n = rw (
  split-append b'.' (show (n / 2 ^ 24)) dot _ (has_no-show b'.' _ (omega arith)) refl,
  split-append b'.' (show (n / 2 ^ 16 % 256)) dot _ (has_no-show b'.' _ (omega arith)) refl,
  split-append b'.' (show (n / 2 ^ 8 % 256)) dot _ (has_no-show b'.' _ (omega arith)) refl,
  split-has_no b'.' (show (n % 256)) (has_no-show b'.' _ (omega arith)),
)

pub parse_address-show : (n : ℕ) → n < 2 ^ 32 → parse_address (show_address n) ≡ some n
unfolding parse_address
parse_address-show n h = rw (split-show_address n) (
    ground (
      arith,
      parse_octet-show (n / 2 ^ 24) (omega arith),
      parse_octet-show (n / 2 ^ 16 % 256) (omega arith),
      parse_octet-show (n / 2 ^ 8 % 256) (omega arith),
      parse_octet-show (n % 256) (omega arith),
    ))

-- No slash in a printed address, so `addr.split("/")[0]` of an entry of the pool is its address.
pub has_no_slash-show_address : (n : ℕ) → has_no b'/' (show_address n) ≡ true
unfolding show_address has_no
has_no_slash-show_address n = octet_then (n / 2 ^ 24) _ (
    octet_then (n / 2 ^ 16 % 256) _
      (octet_then (n / 2 ^ 8 % 256) _ (has_no-show b'/' (n % 256) (omega arith))))
  where
    octet_then :
        (a : ℕ) (s : String)
        → has_no b'/' s ≡ true
        → has_no b'/' (show a ++ String.◌∷◌ dot s) ≡ true
    octet_then a s h = has_no-append b'/' (show a) _ (has_no-show b'/' a (omega arith)) h
