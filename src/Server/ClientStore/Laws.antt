-- ===== src/Server/ClientStore/Laws.antt =====
-- The client table (server/outwarp_server/client_store.py): its well-formedness and what each statement
-- does to it.
use out_warp.Prelude.{
  String, ◌≡◌, refl, Bool, true, false, not, ◌&&◌, ◌||◌, none, some, [], ◌∷◌, arith, str_eq, eq_iff,
  if◌then◌else◌, filter, Bool-cases, Option-cases, inl, inr,
}
use out_warp.Server.ClientStore.{
  ClientEntry, is_revoked, Table, before, get, place, delete_revoked, insert_row, insert,
}

-- A name occurs once.
abbrev pub UniqueNames : Table → Type 0
UniqueNames [] = Unit
UniqueNames (e ∷ t) = (get e.name t ≡ none) × UniqueNames t

-- whether a client that is not revoked has the address
unfoldable pub taken : String → Table → Bool
taken address [] = false
taken address (e ∷ t) = not (is_revoked e.state) && str_eq e.address address || taken address t

-- No two clients that are not revoked share an address.
abbrev pub DistinctAddresses : Table → Type 0
DistinctAddresses [] = Unit
DistinctAddresses (e ∷ t) =
    (is_revoked e.state ≡ false → taken e.address t ≡ false) × DistinctAddresses t

pub record IsWellFormed (t : Table) : Type 0 where
  pub names : UniqueNames t
  pub addresses : DistinctAddresses t

pub get-name : (name : String) (t : Table) (e : ClientEntry) → get name t ≡ some e → e.name ≡ name
unfolding get
get-name name [] e h = absurd (ground (arith, h))
get-name name (x ∷ t) e h = elim (Bool-cases (str_eq x.name name)) [
  | inl same ↦
      let here : some x ≡ some e = (rw same at h) in ground (arith, here, eq_iff x.name name)
  | inr other ↦ get-name name t e (rw other at h)
]

get-place :
    (e : ClientEntry) (name : String) (t : Table)
    → get e.name t ≡ none
    → get name (place e t) ≡ (if str_eq e.name name then some e else get name t)
unfolding get place
get-place e name [] h = refl
get-place e name (x ∷ t) h =
    ground (arith, get-place e name t, eq_iff e.name name, eq_iff x.name name, eq_iff x.name e.name)

taken-place :
    (e : ClientEntry) (address : String) (t : Table)
    → taken address (place e t)
      ≡ (not (is_revoked e.state) && str_eq e.address address || taken address t)
unfolding taken place
taken-place e address [] = refl
taken-place e address (x ∷ t) = ground (arith, taken-place e address t)

place-UniqueNames :
    (e : ClientEntry) (t : Table) → get e.name t ≡ none → UniqueNames t → UniqueNames (place e t)
unfolding get place
place-UniqueNames e [] h u = (refl, tt)
place-UniqueNames e (x ∷ t) h u = elim (Bool-cases (str_eq x.name e.name)) [
  | inl same ↦ absurd (ground (arith, h, same))
  | inr other ↦
      let rest : get e.name t ≡ none = (rw other at h) in
      elim (Bool-cases (before e.name x.name)) [
        | inl first ↦ rw first (rw other rest, u)
        | inr later ↦ rw later (
          ground (
            arith,
            get-place e x.name t rest,
            u.0,
            eq_iff e.name x.name,
            eq_iff x.name e.name,
            other,
          ),
          place-UniqueNames e t rest u.1,
        )
      ]
]

place-DistinctAddresses :
    (e : ClientEntry) (t : Table)
    → (is_revoked e.state ≡ false → taken e.address t ≡ false)
    → DistinctAddresses t
    → DistinctAddresses (place e t)
unfolding taken place
place-DistinctAddresses e [] free d = (λ live. refl, tt)
place-DistinctAddresses e (x ∷ t) free d = elim (Bool-cases (before e.name x.name)) [
  | inl first ↦ rw first (free, d)
  | inr later ↦ rw later (
    (λ live. ground (
      arith,
      taken-place e x.address t,
      d.0 live,
      free,
      eq_iff e.address x.address,
      eq_iff x.address e.address,
    )),
    place-DistinctAddresses e t (λ live. ground (arith, free live)) d.1,
  )
]

module _ (keep : ClientEntry → Bool) where
  get-filter : (name : String) (t : Table) → get name t ≡ none → get name (filter keep t) ≡ none
  unfolding get filter
  get-filter name [] h = refl
  get-filter name (x ∷ t) h = ground (arith, h, get-filter name t)

  taken-filter :
      (address : String) (t : Table)
      → taken address t ≡ false
      → taken address (filter keep t) ≡ false
  unfolding taken filter
  taken-filter address [] h = refl
  taken-filter address (x ∷ t) h = ground (arith, h, taken-filter address t)

  pub filter-IsWellFormed : (t : Table) → IsWellFormed t → IsWellFormed (filter keep t)
  unfolding filter
  filter-IsWellFormed [] w = w
  filter-IsWellFormed (x ∷ t) w =
      let rest = filter-IsWellFormed t (record { names = w.names.1; addresses = w.addresses.1 }) in
      elim (Bool-cases (keep x)) [
        | inl kept ↦ rw kept (record {
          names = (get-filter x.name t w.names.0, rest.names);
          addresses = (λ live. taken-filter x.address t (w.addresses.0 live), rest.addresses);
        })
        | inr dropped ↦ rw dropped rest
      ]

insert_row-IsWellFormed :
    (e : ClientEntry) (t u : Table)
    → IsWellFormed t
    → taken e.address t ≡ false
    → insert_row e t ≡ some u
    → IsWellFormed u
unfolding insert_row
insert_row-IsWellFormed e t u w free h = elim (Option-cases (get e.name t)) [
  | inr (x, there) ↦ absurd (ground (arith, h, there))
  | inl absent ↦
      let same : some (place e t) ≡ some u = (rw (insert_row, absent) at h) in
      let at : place e t ≡ u = ground (arith, same) in
      rw (← at) (record {
        names = place-UniqueNames e t absent w.names;
        addresses = place-DistinctAddresses e t (λ live. free) w.addresses;
      })
]

-- An insertion that succeeds at an address that no other client has keeps the table well formed.
pub insert-IsWellFormed :
    (e : ClientEntry) (replace_revoked : Bool) (t u : Table)
    → IsWellFormed t
    → taken e.address t ≡ false
    → insert e replace_revoked t ≡ some u
    → IsWellFormed u
unfolding insert delete_revoked
insert-IsWellFormed e true t u w free h =
    let keep = λ (x : ClientEntry). not (str_eq x.name e.name && is_revoked x.state) in
    insert_row-IsWellFormed e _ u (filter-IsWellFormed keep t w)
      (taken-filter keep e.address t free) h
insert-IsWellFormed e false t u w free h = insert_row-IsWellFormed e t u w free h
