-- ===== src/Client/Sticky.antt =====
-- `StickyStore` of client/outwarp/fallback.py: which strategy last worked on which network. `file` is
-- the JSON object on the disk, `none` where there is none that reads.
use out_warp.Prelude.{
  ◌≡◌, ◌≢◌, refl, String, Bool, true, false, ◌||◌, Option, none, some, [], arith, str_eq, eq_iff,
  if◌then◌else◌, str_eq-false, Bool-cases, Option-cases, inl, inr,
}
use out_warp.Prelude.Dict
use out_warp.Prelude.Dict.{Dict, lookup-insert}

pub record StickyStore : Type 0 where
  pub entries : Dict String
  pub loaded : Bool
  pub file : Option (Dict String)
  pub writable : Bool

abbrev or_no_entries : Option (Dict String) → Dict String
or_no_entries none = []
or_no_entries (some d) = d

unfoldable pub load : StickyStore → StickyStore
load s = if s.loaded then s else record s { entries = or_no_entries s.file; loaded = true }

abbrev or_none_text : Option String → String
or_none_text none = ""
or_none_text (some id) = id

unfoldable pub get : String → StickyStore → String × StickyStore
get signature s =
    if str_eq signature ""
    then ("", s)
    else (or_none_text (Dict.lookup signature (load s).entries), load s)

-- whether the store has the entry already
abbrev has_entry : String → String → StickyStore → Bool
has_entry signature strategy_id s = elim (Dict.lookup signature s.entries) [
  | none ↦ false
  | some id ↦ str_eq id strategy_id
]

abbrev write : StickyStore → StickyStore
write s = if s.writable then record s { file = some s.entries } else s

unfoldable pub set : String → String → StickyStore → StickyStore
set signature strategy_id s =
    if str_eq signature "" || str_eq strategy_id ""
    then s
    else if has_entry signature strategy_id (load s)
    then load s
    else write (record (load s) { entries = Dict.insert signature strategy_id (load s).entries })

load-loaded : (s : StickyStore) → (load s).loaded ≡ true
unfolding load
load-loaded s = ground arith

entries-load : (s : StickyStore) → s.loaded ≡ true → (load s).entries ≡ s.entries
unfolding load
entries-load s h = ground (arith, h)

get-eq :
    (signature : String) (s : StickyStore)
    → signature ≢ ""
    → (get signature s).0 ≡ or_none_text (Dict.lookup signature (load s).entries)
unfolding get
get-eq signature s given = rw (str_eq-false signature "" given) refl

has_entry-lookup :
    (signature strategy_id : String) (s : StickyStore)
    → has_entry signature strategy_id s ≡ true
    → Dict.lookup signature s.entries ≡ some strategy_id
has_entry-lookup signature strategy_id s h = elim (Option-cases (Dict.lookup signature s.entries)) [
  | inl absent ↦ absurd (ground (arith, h, absent))
  | inr (id, there) ↦ ground (arith, h, there, eq_iff id strategy_id)
]

-- What `set` leaves: a loaded store, with the entry.
record IsRemembered (signature strategy_id : String) (s t : StickyStore) : Type 0 where
  loaded : t.loaded ≡ true
  found :
      (other : String)
      → Dict.lookup other t.entries
        ≡ (if str_eq signature other then some strategy_id else Dict.lookup other (load s).entries)

set-IsRemembered :
    (signature strategy_id : String) (s : StickyStore)
    → signature ≢ ""
    → strategy_id ≢ ""
    → IsRemembered signature strategy_id s (set signature strategy_id s)
unfolding set
set-IsRemembered signature strategy_id s given named =
    rw (str_eq-false signature "" given, str_eq-false strategy_id "" named)
      (elim (Bool-cases (has_entry signature strategy_id (load s))) [
        | inl there ↦ rw there (record {
          loaded = load-loaded s;
          found = λ other. ground (
            arith,
            has_entry-lookup signature strategy_id (load s) there,
            eq_iff signature other,
          );
        })
        | inr absent ↦ rw absent (elim (Bool-cases (load s).writable) [
          | inl w ↦ rw w (record {
            loaded = load-loaded s;
            found = λ other. lookup-insert signature other strategy_id (load s).entries;
          })
          | inr w ↦ rw w (record {
            loaded = load-loaded s;
            found = λ other. lookup-insert signature other strategy_id (load s).entries;
          })
        ])
      ])

-- After a strategy is remembered for a network, neither of them blank, it is the one that is found
-- there, and every other network keeps its own.
pub set_then_get :
    (signature strategy_id other : String) (s : StickyStore)
    → signature ≢ ""
    → strategy_id ≢ ""
    → other ≢ ""
    → (get other (set signature strategy_id s)).0
      ≡ (if str_eq signature other then strategy_id else (get other s).0)
set_then_get signature strategy_id other s given named asked =
    let is_set = set-IsRemembered signature strategy_id s given named in
    rw
      (
        get-eq other (set signature strategy_id s) asked,
        get-eq other s asked,
        entries-load (set signature strategy_id s) is_set.loaded,
        is_set.found other,
      )
      (ground arith)
