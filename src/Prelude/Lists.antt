-- ===== src/Prelude/Lists.antt =====
-- Lists measured and indexed by native numbers, membership tests and predicates by recursion.
use Prim.Native.Nat.{ℕ, zero, suc, ◌+◌}
use mathlib.Core.Path.{◌≡◌}
use mathlib.Core.Bool.{Bool, false, ◌||◌}
use mathlib.Core.List.{List, [], ◌∷◌, ◌++◌}
use mathlib.Core.Option.{Option, none, some}
use native.Mathlib.Omega.{arith}
use mathlib.Core.Logic.{inl, inr}
use out_warp.Prelude.Tests.{if◌then◌else◌, Bool-cases}

module _ {ℓ} {A : Type ℓ} where
  abbrev pub length : List A → ℕ
  length [] = 0
  length (x ∷ xs) = suc (length xs)

  abbrev pub get_elem? : List A → ℕ → Option A
  get_elem? [] i = none
  get_elem? (x ∷ xs) zero = some x
  get_elem? (x ∷ xs) (suc i) = get_elem? xs i

  -- A write out of bounds changes nothing.
  abbrev pub set : List A → ℕ → A → List A
  set [] i v = []
  set (x ∷ xs) zero v = v ∷ xs
  set (x ∷ xs) (suc i) v = x ∷ set xs i v

  pub length-append : (xs ys : List A) → length (xs ++ ys) ≡ length xs + length ys
  length-append [] ys = omega arith
  length-append (x ∷ xs) ys = omega (arith, length-append xs ys)

  -- `[x for x in xs if keep x]`
  unfoldable pub filter : (A → Bool) → List A → List A
  filter keep [] = []
  filter keep (x ∷ xs) = let rest = filter keep xs in if keep x then x ∷ rest else rest

  -- `any(test x for x in xs)`
  unfoldable pub any : (A → Bool) → List A → Bool
  any test [] = false
  any test (x ∷ xs) = test x || any test xs

  -- What a filter keeps is in the list.
  pub get_elem?-filter :
      (keep : A → Bool) (xs : List A) (i : ℕ) (x : A)
      → get_elem? (filter keep xs) i ≡ some x
      → (j : ℕ) × (get_elem? xs j ≡ some x)
  unfolding filter
  get_elem?-filter keep [] i x h = absurd (ground (arith, h))
  get_elem?-filter keep (y ∷ xs) zero x h = elim (Bool-cases (keep y)) [
    | inl kept ↦ (0, rw kept at h)
    | inr out ↦ let (j, there) = get_elem?-filter keep xs zero x (rw out at h) in (suc j, there)
  ]
  get_elem?-filter keep (y ∷ xs) (suc i) x h = elim (Bool-cases (keep y)) [
    | inl kept ↦ let (j, there) = get_elem?-filter keep xs i x (rw kept at h) in (suc j, there)
    | inr out ↦ let (j, there) = get_elem?-filter keep xs (suc i) x (rw out at h) in (suc j, there)
  ]
