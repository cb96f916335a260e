-- ===== src/Client/Fallback/Ladder.antt =====
-- The order and the distinctness of the ladder (`build_ladder`, `reorder_for_sticky` of
-- client/outwarp/fallback.py).
use mathlib.Core.List.{◌++◌ as append}
use out_warp.Prelude.{
  ℕ, ◌+◌, ◌≡◌, ◌≢◌, String, Bool, true, false, List, [], ◌∷◌, arith, str_eq, str_eq-false,
  if◌then◌else◌, Bool-cases, inl, inr, filter, any,
}
use out_warp.Client.Fallback.{ConnectionStrategy, same_key, reorder_for_sticky}

-- No later rung has the key of `r`.
abbrev pub AllDiffer : ConnectionStrategy → List ConnectionStrategy → Type 0
AllDiffer r [] = Unit
AllDiffer r (x ∷ xs) = (same_key x r ≡ false) × AllDiffer r xs

abbrev pub NoRepeat : List ConnectionStrategy → Type 0
NoRepeat [] = Unit
NoRepeat (r ∷ rs) = AllDiffer r rs × NoRepeat rs

-- What no kept rung passes, `r` does not pass.
abbrev IsSeen : ConnectionStrategy → List ConnectionStrategy → Type 0
IsSeen r seen = (test : ConnectionStrategy → Bool) → any test seen ≡ false → test r ≡ false

-- how many rungs pass a test
unfoldable pub count : (ConnectionStrategy → Bool) → List ConnectionStrategy → ℕ
count test [] = 0
count test (r ∷ rs) = (if test r then 1 else 0) + count test rs

-- The first rung, and whether it is the one that worked.
abbrev pub starts_with_id : String → List ConnectionStrategy → Bool
starts_with_id id [] = false
starts_with_id id (r ∷ rs) = str_eq r.id id

starts-filter :
    (id : String) (rs ss : List ConnectionStrategy)
    → any (λ r. str_eq r.id id) rs ≡ true
    → starts_with_id id (append (filter (λ r. str_eq r.id id) rs) ss) ≡ true
unfolding any filter
starts-filter id [] ss h = absurd (ground (arith, h))
starts-filter id (r ∷ rs) ss h = elim (Bool-cases (str_eq r.id id)) [
  | inl hit ↦ rw hit hit
  | inr miss ↦ rw miss (starts-filter id rs ss (rw miss at h))
]

-- Reordering puts the rung that last worked first where the ladder has it.
pub reorder_for_sticky-first :
    (ladder : List ConnectionStrategy) (sticky_id : String)
    → sticky_id ≢ ""
    → any (λ r. str_eq r.id sticky_id) ladder ≡ true
    → starts_with_id sticky_id (reorder_for_sticky ladder sticky_id) ≡ true
unfolding reorder_for_sticky
reorder_for_sticky-first ladder sticky_id given there =
    rw (str_eq-false sticky_id "" given) (starts-filter sticky_id ladder _ there)
