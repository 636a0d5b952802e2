-- ===== src/Catalog/Report.antt =====
-- internal/catalog/sync.go: what a sync reports, and what it says of a column.
use pivot.Common.{
  ℕ, ◌+◌, Bool, true, false, not, List, [], ◌∷◌, ◌++◌, Text, codes, text_lt, text_eq, ◌==◌,
  if◌then◌else◌,
}
use pivot.Authz.Model.{is_empty}
use pivot.Catalog.Rows.{CatalogColumn}

pub data ChangeKind : Type 0 where
  added removed changed : ChangeKind

pub record Change : Type 0 where
  pub kind : ChangeKind
  pub schema : Text
  pub table : Text
  pub column : Text
  pub constraint : Text
  pub detail : Text

unfoldable pub kind_string : ChangeKind → Text
kind_string added = codes "added"
kind_string removed = codes "removed"
kind_string changed = codes "changed"

unfoldable pub change_string : Change → Text
change_string c =
    let table = c.schema ++ (codes "." ++ c.table) in
    let place =
      if not (is_empty c.constraint)
      then table ++ (codes " (" ++ (c.constraint ++ codes ")"))
      else if not (is_empty c.column)
      then table ++ (codes "." ++ c.column)
      else table in
    if is_empty c.detail
    then kind_string c.kind ++ (codes " " ++ place)
    else kind_string c.kind ++ (codes " " ++ (place ++ (codes ": " ++ c.detail)))

-- The times that it started and finished at only show in its summary.
pub record Report : Type 0 where
  pub tables_seen : ℕ
  pub columns_seen : ℕ
  pub relationships_seen : ℕ
  pub foreign_keys_unavailable : Bool
  pub changes : List Change

abbrev pub kind_is : ChangeKind → ChangeKind → Bool
kind_is added added = true
kind_is removed removed = true
kind_is changed changed = true
kind_is _ _ = false

unfoldable pub count_kind : List Change → ChangeKind → ℕ
count_kind [] kind = 0
count_kind (c ∷ changes) kind = (if kind_is c.kind kind then 1 else 0) + count_kind changes kind

unfoldable pub unchanged : Report → Bool
unchanged r = elim r.changes [ [] ↦ true | c ∷ cs ↦ false ]

-- A column as a source reports it; its canonical type is the name of its kind.
pub record SourceColumn : Type 0 where
  pub name : Text
  pub source_type : Text
  pub kind : Text
  pub nullable : Bool
  pub position : ℕ
  pub comment : Text

pub record SourceTable : Type 0 where
  pub schema : Text
  pub name : Text
  pub table_type : Text
  pub comment : Text
  pub columns : List SourceColumn

-- `detail += "; "` where there is detail already.
abbrev pub further : Text → Text
further detail = if is_empty detail then [] else detail ++ codes "; "

abbrev bool_beq : Bool → Bool → Bool
bool_beq true b = b
bool_beq false b = not b

-- What moved about a column, empty if nothing did.
unfoldable pub describe_column_change : CatalogColumn → SourceColumn → Text
describe_column_change before now =
    let source =
      if before.source_type == now.source_type
      then []
      else codes "type " ++ (before.source_type ++ (codes " became " ++ now.source_type)) in
    let canonical =
      if before.canonical_type == now.kind
      then source
      else further source
        ++ (codes "Pivot reads it as "
            ++ (now.kind ++ (codes " where it read " ++ before.canonical_type))) in
    if bool_beq before.is_nullable now.nullable
    then canonical
    else further canonical
      ++ (if now.nullable then codes "became nullable" else codes "became NOT NULL")

-- Insertion by an order, for `sort.Slice`.
unfoldable pub insert_change : (Change → Change → Bool) → Change → List Change → List Change
insert_change lt c [] = c ∷ []
insert_change lt c (d ∷ ds) =
    let rest = insert_change lt c ds in if lt d c then d ∷ rest else c ∷ d ∷ ds

unfoldable pub sort_changes : (Change → Change → Bool) → List Change → List Change
sort_changes lt [] = []
sort_changes lt (c ∷ cs) = insert_change lt c (sort_changes lt cs)

-- The two orders: schema and table, and then the column or the constraint.
unfoldable pub column_lt : Change → Change → Bool
column_lt a b =
    if not (a.schema == b.schema)
    then text_lt a.schema b.schema
    else if not (a.table == b.table)
    then text_lt a.table b.table
    else text_lt a.column b.column

unfoldable pub constraint_lt : Change → Change → Bool
constraint_lt a b =
    if not (a.schema == b.schema)
    then text_lt a.schema b.schema
    else if not (a.table == b.table)
    then text_lt a.table b.table
    else text_lt a.constraint b.constraint
