-- ===== src/Server/ClientStore/Updates.antt =====
-- Updates of the client table (server/outwarp_server/client_store.py).
use mathlib.Core.Path.{subst}
use out_warp.Prelude.{
  String, ◌≡◌, refl, sym, true, false, none, some, [], ◌∷◌, arith, str_eq, eq_iff, if◌then◌else◌,
  Bool-cases, inl, inr,
}
use out_warp.Server.ClientStore.{ClientEntry, is_revoked, Table, get, update}
use out_warp.Server.ClientStore.Laws.{UniqueNames, taken, IsWellFormed}

-- A change of a row that keeps its name and its address, and brings no revoked client back.
pub record IsQuiet (change : ClientEntry → ClientEntry) (e : ClientEntry) : Type 0 where
  pub name_same : (change e).name ≡ e.name
  pub address_same : (change e).address ≡ e.address
  pub stays_revoked : is_revoked e.state ≡ true → is_revoked (change e).state ≡ true

pub get-update :
    (name j : String) (change : ClientEntry → ClientEntry) (t : Table)
    → ((e : ClientEntry) → (change e).name ≡ e.name)
    → get j (update name change t)
      ≡ (elim (get j t) [ none ↦ none | some e ↦ some (if str_eq name j then change e else e) ])
unfolding get update
get-update name j change [] same = refl
get-update name j change (x ∷ t) same = elim (Bool-cases (str_eq x.name j)) [
  | inl hit ↦ ground (arith, hit, same x, eq_iff x.name j, eq_iff x.name name, eq_iff name j)
  | inr miss ↦ ground (arith, miss, same x, get-update name j change t same)
]

module _ (name : String) (change : ClientEntry → ClientEntry)
    (same : (e : ClientEntry) → (change e).name ≡ e.name) where
  pub update-none : (t : Table) → get name t ≡ none → update name change t ≡ t
  unfolding get update
  update-none [] h = refl
  update-none (x ∷ t) h = elim (Bool-cases (str_eq x.name name)) [
    | inl hit ↦ absurd (ground (arith, h, hit))
    | inr miss ↦ rw (miss, update-none t (rw miss at h)) refl
  ]

  taken-update :
      (address : String) (t : Table) (target : ClientEntry)
      → UniqueNames t
      → get name t ≡ some target
      → IsQuiet change target
      → taken address t ≡ false
      → taken address (update name change t) ≡ false
  unfolding get update taken
  taken-update address [] target u g q free = refl
  taken-update address (x ∷ t) target u g q free = elim (Bool-cases (str_eq x.name name)) [
    | inl hit ↦
        let here : some x ≡ some target = (rw hit at g) in
        let unchanged : update name change t ≡ t =
          update-none t (ground (arith, u.0, eq_iff x.name name, hit)) in
        rw (hit, unchanged) (ground (arith, here, q, free))
    | inr miss ↦ rw miss (ground (arith, free, taken-update address t target u.1 (rw miss at g) q))
  ]

  -- Such a change of the row of one client keeps the table well formed.
  pub update-IsWellFormed :
      (t : Table) (target : ClientEntry)
      → IsWellFormed t
      → get name t ≡ some target
      → IsQuiet change target
      → IsWellFormed (update name change t)
  unfolding get update
  update-IsWellFormed [] target w g q = w
  update-IsWellFormed (x ∷ t) target w g q = elim (Bool-cases (str_eq x.name name)) [
    | inl hit ↦
        let here : some x ≡ some target = (rw hit at g) in
        let unchanged : update name change t ≡ t =
          update-none t (ground (arith, w.names.0, eq_iff x.name name, hit)) in
        let it : x ≡ target = ground (arith, here) in
        let quiet : IsQuiet change x = subst (λ (y : ClientEntry). IsQuiet change y) (sym it) q in
        rw (hit, unchanged)
          (record {
            names = (rw (same x) w.names.0, w.names.1);
            addresses = (
              λ live.
                  rw quiet.address_same (w.addresses.0 (ground (arith, live, quiet.stays_revoked))),
              w.addresses.1,
            );
          })
    | inr miss ↦
        let later : get name t ≡ some target = (rw miss at g) in
        let rest =
          update-IsWellFormed t target (record { names = w.names.1; addresses = w.addresses.1 })
            later q in
        rw miss (record {
          names = (rw (get-update name x.name change t same, w.names.0) refl, rest.names);
          addresses = (
            λ live. taken-update x.address t target w.names.1 later q (w.addresses.0 live),
            rest.addresses,
          );
        })
  ]
