-- ===== src/Common/Connections/Selection.antt =====
-- common/config_store.py: the objects of a connection that are selected for syncing. The rows of the
-- table stand in the order of their insertion; the order of texts that the database sorts by is an
-- argument.
pub mod Enabled
use Prim.Native.String.{◌++◌ as append}
use text.Mathlib.Text.{◌==◌ as str_eq}
use postgres_s3_warehouse_sy.Prelude.{
  ◌≡◌, refl, ap, sym, ◌∙◌, String, Bool, true, false, not, ◌&&◌, Option, none, some, List, [], ◌∷◌,
  ◌++◌, map, any, filter, arith, if◌then◌else◌,
}
use postgres_s3_warehouse_sy.Prelude.Int.{ℤ, eqb_ℤ, eqb_ℤ_iff}
use postgres_s3_warehouse_sy.Prelude.Result.{
  Result, ok, constraint_violation, ◌>>=◌, require, >>=-eq-ok, ok-injective,
}
use postgres_s3_warehouse_sy.Common.Connections.{SelectionItem, SelectionRow, Store, exists}

abbrev pub or_table : Option String → String
or_table none = "TABLE"
or_table (some kind) = kind

abbrev pub or_true : Option Bool → Bool
or_true none = true
or_true (some b) = b

abbrev pub selection_row : ℤ → SelectionItem → SelectionRow
selection_row connection_id it = record {
  connection_id = connection_id;
  schema = it.schema;
  name = it.name;
  kind = or_table it.kind;
  enabled = or_true it.enabled;
}

abbrev pub of_connection : ℤ → SelectionRow → Bool
of_connection connection_id r = eqb_ℤ r.connection_id connection_id

-- The primary key of a row.
abbrev same_key : SelectionRow → SelectionRow → Bool
same_key a b =
    eqb_ℤ a.connection_id b.connection_id && str_eq a.schema b.schema && str_eq a.name b.name

-- INSERT, whose foreign key wants the connection to exist.
insert_row : Bool → SelectionRow → List SelectionRow → Result (List SelectionRow)
insert_row connected r rows = do
  _ ← require connected constraint_violation
  _ ← require (not (any (same_key r) rows)) constraint_violation
  ok (rows ++ (r ∷ []))

insert_items : Bool → ℤ → List SelectionItem → List SelectionRow → Result (List SelectionRow)
unfolding insert_row
insert_items connected connection_id [] rows = ok rows
insert_items connected connection_id (it ∷ items) rows = do
  rows' ← insert_row connected (selection_row connection_id it) rows
  insert_items connected connection_id items rows'

abbrev pub without : ℤ → List SelectionRow → List SelectionRow
without connection_id rows = filter (λ r. not (of_connection connection_id r)) rows

unfoldable pub replace_selection :
    Bool → ℤ → List SelectionItem → List SelectionRow → Result (List SelectionRow)
unfolding insert_items
replace_selection connected connection_id items rows =
    insert_items connected connection_id items (without connection_id rows)

unfoldable pub set_selection : ℤ → List SelectionItem → Store → Result Store
unfolding replace_selection
set_selection connection_id items s = do
  selection ← replace_selection (exists connection_id s.rows) connection_id items s.selection
  ok (record s { selection = selection })

-- ORDER BY schema_name, object_name, where `le` compares two texts.
abbrev pub before : (String → String → Bool) → SelectionRow → SelectionRow → Bool
before le a b = if str_eq a.schema b.schema then le a.name b.name else le a.schema b.schema

pub insert_sorted : (String → String → Bool) → SelectionRow → List SelectionRow → List SelectionRow
insert_sorted le r [] = r ∷ []
insert_sorted le r (x ∷ rows) =
    let rest = insert_sorted le r rows in if before le r x then r ∷ x ∷ rows else x ∷ rest

pub order_by : (String → String → Bool) → List SelectionRow → List SelectionRow
unfolding insert_sorted
order_by le [] = []
order_by le (r ∷ rows) = insert_sorted le r (order_by le rows)

pub get_selection : (String → String → Bool) → ℤ → List SelectionRow → List SelectionRow
unfolding order_by
get_selection le connection_id rows = order_by le (filter (of_connection connection_id) rows)

abbrev pub fqn_text : String → String → String
fqn_text schema name = append schema (append "." name)

-- The set of the names of the enabled rows, by the test that a text is in it.
pub enabled_names : List SelectionRow → Option (String → Bool)
enabled_names [] = none
enabled_names (r ∷ rows) =
    some
      (λ fqn. any (λ x. str_eq (fqn_text x.schema x.name) fqn) (filter (λ x. x.enabled) (r ∷ rows)))

unfoldable pub enabled_fqns :
    (String → String → Bool) → ℤ → List SelectionRow → Option (String → Bool)
unfolding get_selection enabled_names
enabled_fqns le connection_id rows = enabled_names (get_selection le connection_id rows)
