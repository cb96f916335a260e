-- ===== src/Server/ClientStore.antt =====
-- The client registry: `ClientEntry` of server/outwarp_server/config.py and the table of
-- server/outwarp_server/client_store.py. The table is kept in the order of its queries, by name; the
-- column created_at, which nothing reads, is left out. A transaction that raises keeps the old table.
pub mod Laws
pub mod Updates
use Prim.Native.String.{compare}
use Prim.Native.Nat.{Ordering}
use out_warp.Prelude.{
  String, Bool, true, false, not, ◌&&◌, Option, none, some, List, [], ◌∷◌, str_eq, if◌then◌else◌,
  filter, map, ◌≡◌,
}
use out_warp.Prelude.Options.{◌>>=◌}

pub data ClientState : Type 0 where
  active disabled revoked : ClientState

pub record ClientEntry : Type 0 where
  pub name : String
  pub public_key : String
  pub address : String
  pub psk : String
  pub expires_at : String
  pub state : ClientState
  pub enrolled_at : String

abbrev pub is_revoked : ClientState → Bool
is_revoked revoked = true
is_revoked _ = false

abbrev pub is_active : ClientState → Bool
is_active active = true
is_active _ = false

abbrev pub Table : Type 0
Table = List ClientEntry

-- the order of texts by their characters
unfoldable pub before : String → String → Bool
before a b = elim (compare a b) [ Ordering.lt ↦ true | _ ↦ false ]

-- WHERE state != 'revoked'
unfoldable pub list_active : Table → List ClientEntry
list_active t = filter (λ e. not (is_revoked e.state)) t

abbrev pub list_all : Table → List ClientEntry
list_all t = t

-- WHERE name = ?
unfoldable pub get : String → Table → Option ClientEntry
get name [] = none
get name (e ∷ t) = let later = get name t in if str_eq e.name name then some e else later

place : ClientEntry → Table → Table
place e [] = e ∷ []
place e (x ∷ t) = let later = place e t in if before e.name x.name then e ∷ x ∷ t else x ∷ later

-- DELETE … WHERE name = ? AND state = 'revoked'
unfoldable pub delete_revoked : String → Table → Table
delete_revoked name t = filter (λ e. not (str_eq e.name name && is_revoked e.state)) t

-- INSERT: `none` where the primary key is taken.
unfoldable pub insert_row : ClientEntry → Table → Option Table
unfolding place
insert_row e t = elim (get e.name t) [ none ↦ some (place e t) | some x ↦ none ]

unfoldable pub insert : ClientEntry → (replace_revoked : Bool) → Table → Option Table
insert e replace_revoked t = insert_row e (if replace_revoked then delete_revoked e.name t else t)

-- UPDATE … WHERE name = ?
unfoldable pub update : String → (ClientEntry → ClientEntry) → Table → Table
update name change [] = []
update name change (e ∷ t) = (if str_eq e.name name then change e else e) ∷ update name change t

unfoldable pub mark_enrolled : String → String → String → Table → Table
mark_enrolled name public_key enrolled_at t =
    update name (λ e. record e { public_key = public_key; enrolled_at = enrolled_at }) t

unfoldable pub update_keys : String → String → String → Table → Table
update_keys name public_key psk t =
    update name (λ e. record e { public_key = public_key; psk = psk }) t

unfoldable pub set_state : String → ClientState → Table → Table
set_state name state t = update name (λ e. record e { state = state }) t

unfoldable pub soft_delete : String → Table → Table
soft_delete name t = set_state name revoked t

insert_all : List ClientEntry → Table → Option Table
insert_all [] t = some t
insert_all (e ∷ rest) t = do u ← insert e false t; insert_all rest u

-- `none` where an insertion raises, and the transaction is rolled back.
unfoldable pub migrate_from_json : List ClientEntry → Table → Option Table
unfolding insert_all
migrate_from_json [] t = some t
migrate_from_json (e ∷ rest) (x ∷ t) = some (x ∷ t)
migrate_from_json (e ∷ rest) [] = insert_all (e ∷ rest) []
