-- ===== src/Prelude/Dict.antt =====
-- Python's `dict` with text keys: an association list in insertion order, used through its laws.
use mathlib.Core.Path.{subst}
use out_warp.Prelude.{
  String, ◌≡◌, refl, Bool, Bool-cases, inl, inr, Option, none, some, List, [], ◌∷◌, arith, str_eq,
  eq_iff, if◌then◌else◌,
}

abbrev pub Dict {ℓ} : Type ℓ → Type ℓ
Dict V = List (String × V)

module _ {ℓ} {V : Type ℓ} where
  -- d.get(k)
  unfoldable pub lookup : String → Dict V → Option V
  lookup k [] = none
  lookup k ((j, v) ∷ d) = if str_eq j k then some v else lookup k d

  -- d[k] = v: a key that is there keeps its place
  unfoldable pub insert : String → V → Dict V → Dict V
  insert k v [] = (k, v) ∷ []
  insert k v ((j, w) ∷ d) = if str_eq j k then (k, v) ∷ d else (j, w) ∷ insert k v d

  -- d.pop(k, None), del d[k]
  unfoldable pub remove : String → Dict V → Dict V
  remove k [] = []
  remove k ((j, v) ∷ d) = let rest = remove k d in if str_eq j k then rest else (j, v) ∷ rest

  pub lookup-insert :
      (k j : String) (v : V) (d : Dict V)
      → lookup j (insert k v d) ≡ (if str_eq k j then some v else lookup j d)
  unfolding lookup insert
  lookup-insert k j v [] = ground arith
  lookup-insert k j v ((i, w) ∷ d) =
      ground (arith, eq_iff k j, eq_iff i k, eq_iff i j, lookup-insert k j v d)

  pub lookup-remove :
      (k j : String) (d : Dict V)
      → lookup j (remove k d) ≡ (if str_eq k j then none else lookup j d)
  unfolding lookup remove
  lookup-remove k j [] = ground arith
  lookup-remove k j ((i, w) ∷ d) =
      ground (arith, eq_iff k j, eq_iff i k, eq_iff i j, lookup-remove k j d)

  -- `for k in [k for k, v in d.items() if dead v]: del d[k]`
  unfoldable pub drop_if : (V → Bool) → Dict V → Dict V
  drop_if dead [] = []
  drop_if dead ((j, v) ∷ d) = let rest = drop_if dead d in if dead v then rest else (j, v) ∷ rest

  -- A key occurs once.
  abbrev pub UniqueKeys : Dict V → Type ℓ
  UniqueKeys [] = Unit
  UniqueKeys ((j, v) ∷ d) = (lookup j d ≡ none) × UniqueKeys d

  pub insert-UniqueKeys :
      (k : String) (v : V) (d : Dict V) → UniqueKeys d → UniqueKeys (insert k v d)
  unfolding lookup insert
  insert-UniqueKeys k v [] u = (refl, tt)
  insert-UniqueKeys k v ((j, w) ∷ d) u = elim (Bool-cases (str_eq j k)) [
    | inl e ↦ rw e (subst (λ (i : String). lookup i d ≡ none) ((eq_iff j k).0 e) u.0, u.1)
    | inr e ↦ rw e (
      ground (arith, lookup-insert k j v d, eq_iff j k, eq_iff k j, u.0),
      insert-UniqueKeys k v d u.1,
    )
  ]

  pub remove-UniqueKeys : (k : String) (d : Dict V) → UniqueKeys d → UniqueKeys (remove k d)
  unfolding remove
  remove-UniqueKeys k [] u = tt
  remove-UniqueKeys k ((j, w) ∷ d) u = elim (Bool-cases (str_eq j k)) [
    | inl e ↦ rw e (remove-UniqueKeys k d u.1)
    | inr e ↦ rw e (ground (arith, lookup-remove k j d, u.0), remove-UniqueKeys k d u.1)
  ]

  abbrev pub live_entry : (V → Bool) → Option V → Option V
  live_entry dead none = none
  live_entry dead (some v) = if dead v then none else some v

  pub lookup-drop_if :
      (dead : V → Bool) (j : String) (d : Dict V)
      → UniqueKeys d
      → lookup j (drop_if dead d) ≡ live_entry dead (lookup j d)
  unfolding lookup drop_if
  lookup-drop_if dead j [] u = refl
  lookup-drop_if dead j ((i, w) ∷ d) u = elim (Bool-cases (str_eq i j)) [
    | inl e ↦
        let gone : lookup j d ≡ none =
          subst (λ (k : String). lookup k d ≡ none) ((eq_iff i j).0 e) u.0 in
        ground (arith, gone, lookup-drop_if dead j d u.1)
    | inr e ↦ ground (arith, lookup-drop_if dead j d u.1)
  ]

  pub drop_if-UniqueKeys :
      (dead : V → Bool) (d : Dict V) → UniqueKeys d → UniqueKeys (drop_if dead d)
  unfolding drop_if
  drop_if-UniqueKeys dead [] u = tt
  drop_if-UniqueKeys dead ((j, w) ∷ d) u = elim (Bool-cases (dead w)) [
    | inl e ↦ rw e (drop_if-UniqueKeys dead d u.1)
    | inr e ↦ rw e (rw (lookup-drop_if dead j d u.1) (rw u.0), drop_if-UniqueKeys dead d u.1)
  ]

pub ruleset dict_laws = (lookup-insert, lookup-remove)
