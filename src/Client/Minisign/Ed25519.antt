-- ===== src/Client/Minisign/Ed25519.antt =====
-- The Ed25519 verifier of client/outwarp/minisign.py. A difference that may be negative in the source
-- is `minus`, the same residue. `pow` and the loop of `_point_mul` recur on fuel 256, one unit for each
-- bit of their exponents, which are below 2 ^ 256.
use out_warp.Prelude.{
  ℕ, zero, suc, ◌+◌, ◌-◌, ◌*◌, ◌/◌, ◌%◌, ◌^◌, ◌<◌, ◌≡◌, refl, ap, Bool, false, not, ◌&&◌, Option,
  none, some, List, [], ◌∷◌, ◌++◌, arith, ltb, leb, ◌==◌, if◌then◌else◌, length, Bool-cases, inl,
  inr,
}
use out_warp.Prelude.Options.{◌>>=◌}

-- _P and _Q
unfoldable pub field_prime : ℕ
field_prime = 2 ^ 255 - 19

unfoldable pub group_order : ℕ
group_order = 2 ^ 252 + 27742317777372353535851937790883648493

-- (a - b) % _P
unfoldable pub minus : ℕ → ℕ → ℕ
unfolding field_prime
minus a b = (a + (field_prime - b % field_prime)) % field_prime

unfoldable pub times : ℕ → ℕ → ℕ
unfolding field_prime
times a b = a * b % field_prime

-- pow(b, e, _P)
unfoldable pub pow : ℕ → ℕ → ℕ → ℕ
unfolding times
pow zero b e = 1
pow (suc f) b e =
    let rest = pow f (times b b) (e / 2) in
    if e == 0 then 1 else if e % 2 == 1 then times b rest else rest

-- Fuel for each bit of the exponent is enough: more changes nothing.
pub pow-suc : (f b e : ℕ) → e < 2 ^ f → pow (suc f) b e ≡ pow f b e
unfolding pow
pow-suc zero b e h = ground arith
pow-suc (suc f) b e h = elim (Bool-cases (e == 0)) [
  | inl done ↦ rw done refl
  | inr more ↦
      rw more (
        ap (λ r. if e % 2 == 1 then times b r else r) (pow-suc f (times b b) (e / 2) (omega arith)))
]

-- `_modp_inv`
unfoldable pub modp_inv : ℕ → ℕ
unfolding pow field_prime
modp_inv x = pow 256 x (field_prime - 2)

-- _D and _SQRT_M1
unfoldable pub curve_d : ℕ
unfolding modp_inv times minus
curve_d = times (minus 0 121665) (modp_inv 121666)

unfoldable pub sqrt_m1 : ℕ
unfolding pow field_prime
sqrt_m1 = pow 256 2 ((field_prime - 1) / 4)

pub record Point : Type 0 where
  pub x : ℕ
  pub y : ℕ
  pub z : ℕ
  pub t : ℕ

unfoldable pub point_add : Point → Point → Point
unfolding times minus field_prime curve_d
point_add p q =
    let a = times (minus p.y p.x) (minus q.y q.x) in
    let b = times (p.y + p.x) (q.y + q.x) in
    let c = 2 * p.t * q.t * curve_d % field_prime in
    let d = 2 * p.z * q.z % field_prime in
    let e = minus b a in
    let f = minus d c in
    record { x = times e f; y = times (d + c) (b + a); z = times f (d + c); t = times e (b + a) }

-- the loop of `_point_mul`
unfoldable pub point_mul_onto : ℕ → ℕ → Point → Point → Point
unfolding point_add
point_mul_onto zero s p q = q
point_mul_onto (suc f) s p q =
    let rest = point_mul_onto f (s / 2) (point_add p p) (if s % 2 == 1 then point_add q p else q) in
    if s == 0 then q else rest

unfoldable pub point_mul : ℕ → Point → Point
unfolding point_mul_onto
point_mul s p = point_mul_onto 256 s p (record { x = 0; y = 1; z = 1; t = 0 })

-- Fuel for each bit of the factor is enough: more changes nothing.
pub point_mul_onto-suc :
    (f s : ℕ) (p q : Point) → s < 2 ^ f → point_mul_onto (suc f) s p q ≡ point_mul_onto f s p q
unfolding point_mul_onto
point_mul_onto-suc zero s p q h = ground arith
point_mul_onto-suc (suc f) s p q h = elim (Bool-cases (s == 0)) [
  | inl done ↦ rw done refl
  | inr more ↦ rw more (
      point_mul_onto-suc f (s / 2) (point_add p p) (if s % 2 == 1 then point_add q p else q)
        (omega arith))
]

unfoldable pub point_equal : Point → Point → Bool
unfolding times minus
point_equal p q =
    minus (times p.x q.z) (times q.x p.z) == 0 && minus (times p.y q.z) (times q.y p.z) == 0

-- `_recover_x`, the last step of which makes the parity right
unfoldable pub with_sign : ℕ → ℕ → ℕ
unfolding field_prime
with_sign x sign = if x % 2 == sign then x else field_prime - x

unfoldable pub square_root : ℕ → ℕ → Option ℕ
unfolding pow times minus field_prime sqrt_m1 with_sign
square_root x2 sign =
    let x = pow 256 x2 ((field_prime + 3) / 8) in
    let x' = if times x x == x2 then x else times x sqrt_m1 in
    if times x' x' == x2 then some (with_sign x' sign) else none

unfoldable pub recover_x : ℕ → ℕ → Option ℕ
unfolding field_prime times minus modp_inv curve_d square_root
recover_x y sign =
    if leb field_prime y
    then none
    else let x2 = times (minus (y * y) 1) (modp_inv (curve_d * y * y + 1)) in
      if x2 == 0 then (if sign == 0 then some 0 else none) else square_root x2 sign

-- int.from_bytes(s, "little")
unfoldable pub from_bytes : List ℕ → ℕ
from_bytes [] = 0
from_bytes (b ∷ bs) = b + 256 * from_bytes bs

unfoldable pub base_y : ℕ
unfolding modp_inv times
base_y = times 4 (modp_inv 5)

abbrev on_curve : ℕ → ℕ → Point
on_curve x y = record { x = x; y = y; z = 1; t = times x y }

-- _G
unfoldable pub base_point : Point
unfolding base_y recover_x times
base_point = elim (recover_x base_y 0) [ none ↦ on_curve 0 base_y | some x ↦ on_curve x base_y ]

unfoldable pub point_decompress : List ℕ → Option Point
unfolding from_bytes recover_x times
point_decompress s =
    if not (length s == 32)
    then none
    else let y = from_bytes s % 2 ^ 255 in
      do x ← recover_x y (from_bytes s / 2 ^ 255); some (on_curve x y)

unfoldable pub take {ℓ} : {A : Type ℓ} → ℕ → List A → List A
take zero xs = []
take (suc n) [] = []
take (suc n) (x ∷ xs) = x ∷ take n xs

unfoldable pub drop {ℓ} : {A : Type ℓ} → ℕ → List A → List A
drop zero xs = xs
drop (suc n) [] = []
drop (suc n) (x ∷ xs) = drop n xs

-- `ed25519_verify` with the points decompressed
unfoldable pub equation_holds :
    (List ℕ → List ℕ) → Option Point → Option Point → (message key signature : List ℕ) → Bool
unfolding from_bytes group_order point_equal point_mul point_add base_point take drop
equation_holds sha512 none r message key signature = false
equation_holds sha512 (some a) none message key signature = false
equation_holds sha512 (some a) (some r) message key signature =
    let s = from_bytes (drop 32 signature) in
    let h = from_bytes (sha512 (take 32 signature ++ (key ++ message))) % group_order in
    ltb s group_order && point_equal (point_mul s base_point) (point_add r (point_mul h a))

unfoldable pub ed25519_verify : (List ℕ → List ℕ) → (key message signature : List ℕ) → Bool
unfolding point_decompress equation_holds take
ed25519_verify sha512 key message signature =
    length key == 32
    && length signature == 64
    && equation_holds sha512 (point_decompress key) (point_decompress (take 32 signature)) message
        key signature
