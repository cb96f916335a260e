-- ===== src/Client/AllowedIps/Cover.antt =====
-- What the allowed addresses cover (`_allowed_ips_excluding` of client/outwarp/wireguard.py).
use mathlib.Core.Path.{subst}
use out_warp.Prelude.{
  ℕ, zero, suc, ◌+◌, ◌-◌, ◌*◌, ◌^◌, ◌≤◌, ◌<◌, ◌≡◌, ap, true, false, not, ◌&&◌, ◌||◌, arith, ltb,
  any, Bool-cases, inl, inr,
}
use native.Mathlib.Decide.{dec_lt}
use native.Mathlib.Nat.{mul-le-mul_right, mul_assoc, add-mul}
use out_warp.Server.IpPool.Address.{Network, block}
use out_warp.Client.AllowedIps.{contains, low_half, high_half, split_around, covers}

pub block_pos : (p : ℕ) → 0 < block p
block_pos p = pow_pos (32 - p)
  where
    pow_pos : (n : ℕ) → 0 < 2 ^ n
    pow_pos zero = omega arith
    pow_pos (suc n) = omega (arith, pow_pos n)

-- A network is two halves.
pub block_halves : (p : ℕ) → p < 32 → block p ≡ block (p + 1) + block (p + 1)
block_halves p h = let e : 32 - p ≡ suc (32 - (p + 1)) = omega arith in rw e (omega arith)

abbrev pub IsMultiple : ℕ → ℕ → Type 0
IsMultiple c x = (k : ℕ) × (x ≡ k * c)

-- The size of a network is a multiple of that of a smaller one.
pub block-IsMultiple : (d p : ℕ) → p + d ≤ 32 → IsMultiple (block (p + d)) (block p)
block-IsMultiple zero p h = (1, let e : p + 0 ≡ p = omega arith in rw e (omega arith))
block-IsMultiple (suc d) p h =
    let (k, e) = block-IsMultiple d (p + 1) (omega arith) in
    let same : p + 1 + d ≡ p + suc d = omega arith in
    (k + k, twice (block (p + suc d)) k (block_halves p (omega arith)) (rw same at e))
  where
    twice : (c k : ℕ) {x y : ℕ} → x ≡ y + y → y ≡ k * c → x ≡ (k + k) * c
    twice c k {x} {y} a b = grind arith

multiples_gap : (c x y : ℕ) → IsMultiple c x → IsMultiple c y → x < y → x + c ≤ y
multiples_gap c x y (j, e) (m, f) h = elim (dec_lt j m) [
  | yes below ↦ let room : suc j * c ≤ m * c = mul-le-mul_right c below in omega (arith, e, f, room)
  | no above ↦
      let over : m * c ≤ j * c = mul-le-mul_right c (omega arith) in
      absurd (omega (arith, e, f, over))
]

-- A network that starts at a multiple of its size, with a prefix that exists.
pub record IsNetwork (net : Network) : Type 0 where
  pub prefix_le : net.prefixlen ≤ 32
  pub aligned : IsMultiple (block net.prefixlen) net.base

-- `other` lies within `net`.
pub record Inside (net other : Network) : Type 0 where
  pub from : net.base ≤ other.base
  pub to : other.base + block other.prefixlen ≤ net.base + block net.prefixlen

IsMultiple-trans : (c b x : ℕ) → IsMultiple c b → IsMultiple b x → IsMultiple c x
IsMultiple-trans c b x (q, e) (k, f) = (k * q, grind (arith, mul_assoc k q c))

IsMultiple-add : (c x y : ℕ) → IsMultiple c x → IsMultiple c y → IsMultiple c (x + y)
IsMultiple-add c x y (j, e) (k, f) = (j + k, grind (arith, add-mul j k c))

pub low_half-IsNetwork :
    (net : Network) → net.prefixlen < 32 → IsNetwork net → IsNetwork (low_half net)
low_half-IsNetwork net h n = record {
  prefix_le = omega arith;
  aligned =
      IsMultiple-trans (block (net.prefixlen + 1)) (block net.prefixlen) net.base
        (block-IsMultiple 1 net.prefixlen (omega arith)) n.aligned;
}

IsMultiple-self : (c : ℕ) → IsMultiple c c
IsMultiple-self c = (1, omega arith)

pub high_half-IsNetwork :
    (net : Network) → net.prefixlen < 32 → IsNetwork net → IsNetwork (high_half net)
high_half-IsNetwork net h n = record {
  prefix_le = omega arith;
  aligned =
      IsMultiple-add (block (net.prefixlen + 1)) net.base (block (net.prefixlen + 1))
        (low_half-IsNetwork net h n).aligned (IsMultiple-self (block (net.prefixlen + 1)));
}

-- What lies within a network and starts below its upper half lies within the lower.
Inside-low :
    (d : ℕ) (net other : Network)
    → net.prefixlen + suc d ≡ other.prefixlen
    → IsNetwork net
    → IsNetwork other
    → Inside net other
    → other.base < (high_half net).base
    → Inside (low_half net) other
Inside-low d net other e n o inside below = record {
  from = inside.from;
  to =
      let size : IsMultiple (block other.prefixlen) (block (net.prefixlen + 1)) =
        subst (λ (p : ℕ). IsMultiple (block p) (block (net.prefixlen + 1)))
          (let same : net.prefixlen + 1 + d ≡ other.prefixlen = omega arith in same)
          (block-IsMultiple d (net.prefixlen + 1) (omega (arith, o.prefix_le))) in
      multiples_gap (block other.prefixlen) other.base (high_half net).base o.aligned
        (IsMultiple-trans (block other.prefixlen) (block (net.prefixlen + 1)) (high_half net).base
          size (high_half-IsNetwork net (omega (arith, o.prefix_le)) n).aligned)
        below;
}

Inside-high :
    (net other : Network)
    → net.prefixlen < 32
    → Inside net other
    → (high_half net).base ≤ other.base
    → Inside (high_half net) other
Inside-high net other h inside above = record {
  from = above;
  to = omega (arith, inside.to, block_halves net.prefixlen h);
}

-- The halves cover the network between them.
contains-halves :
    (net : Network) (a : ℕ)
    → net.prefixlen < 32
    → contains net a ≡ (contains (low_half net) a || contains (high_half net) a)
unfolding contains
contains-halves net a h = ground (arith, block_halves net.prefixlen h)

contains-high_apart :
    (net other : Network) (a : ℕ)
    → Inside (low_half net) other
    → contains (high_half net) a ≡ true
    → contains other a ≡ false
unfolding contains
contains-high_apart net other a inside h = ground (arith, inside.to, h)

contains-low_apart :
    (net other : Network) (a : ℕ)
    → Inside (high_half net) other
    → contains (low_half net) a ≡ true
    → contains other a ≡ false
unfolding contains
contains-low_apart net other a inside h = ground (arith, inside.from, h)

pub split_around-covers :
    (d : ℕ) (net other : Network) (a : ℕ)
    → net.prefixlen + d ≡ other.prefixlen
    → IsNetwork net
    → IsNetwork other
    → Inside net other
    → covers (split_around d net other) a ≡ (contains net a && not (contains other a))
unfolding split_around any contains
split_around-covers zero net other a e n o inside =
    let same : net.prefixlen ≡ other.prefixlen = omega arith in
    let size : block net.prefixlen ≡ block other.prefixlen = ap (λ (p : ℕ). block p) same in
    ground (arith, size, inside.from, inside.to)
split_around-covers (suc d) net other a e n o inside =
    let small : net.prefixlen < 32 = omega (arith, o.prefix_le) in
    elim (Bool-cases (ltb other.base (high_half net).base)) [
      | inl below ↦
          let part = Inside-low d net other e n o inside (ground (arith, below)) in
          rw below (
            ground (
              arith,
              contains-halves net a small,
              contains-high_apart net other a part,
              split_around-covers d (low_half net) other a (omega arith)
                  (low_half-IsNetwork net small n) o part,
            ))
      | inr above ↦
          let part = Inside-high net other small inside (ground (arith, above)) in
          rw above (
            ground (
              arith,
              contains-halves net a small,
              contains-low_apart net other a part,
              split_around-covers d (high_half net) other a (omega arith)
                  (high_half-IsNetwork net small n) o part,
            ))
    ]
