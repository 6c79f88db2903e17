-- ===== src/Clickhouse/Ddl.antt =====
-- clickhouse/clickhouse.go: `ParserMysqlSQL` and the specifications of ALTER TABLE.
pub mod Alter
pub mod Drop
pub mod NoKey
use kit_go.Common.{
  ℕ, zero, suc, ◌+◌, Bool, true, false, Option, none, some, List, [], ◌∷◌, ◌++◌, map, if◌then◌else◌,
  is_empty, set, Str, codes,
}
use kit_go.Common.Maps.{insert}
use kit_go.Clickhouse.Dml.{Flags}
use kit_go.Clickhouse.Schema.{
  FieldKind, ColumnDef, Column, Table, empty_table, AlterType, no_action, add_columns,
  modify_column, drop_index, drop_column, rename_column, get_columns, add_version_column,
  find_column,
}
use kit_go.Clickhouse.Policy.{
  Result, ok, err, panicked, ◌>>=◌, Constraint, TableOption, get_constraint, get_storage,
  get_order_by_policy, get_partition_policy,
}
use kit_go.Clickhouse.Restore
use kit_go.Clickhouse.Restore.{Restore, cat, separated}

pub data Position : Type 0 where
  first : Position
  after : Str → Position
  unplaced : Position

-- The specifications that the code names. One that adds only an index has no new column.
pub data AlterSpec : Type 0 where
  add_spec : List ColumnDef → Option Position → AlterSpec
  modify_spec : List ColumnDef → Option Position → AlterSpec
  change_spec : AlterSpec
  drop_column_spec : Str → AlterSpec
  rename_column_spec : Str → Str → AlterSpec
  drop_index_spec : Str → AlterSpec
  other_spec : AlterSpec

pub record TableName : Type 0 where
  pub schema : Str
  pub name : Str

pub data Statement : Type 0 where
  create_database : Str → Statement
  drop_database : Str → Statement
  create_table : TableName → Bool → List ColumnDef → List Constraint → List TableOption → Statement
  -- Whether it is temporary, and whether it is a view.
  drop_table : Bool → Bool → List TableName → Statement
  truncate_table : TableName → Statement
  alter_table : TableName → List AlterSpec → Statement
  other_statement : Statement

abbrev pub relative_text : Position → Str
relative_text (after c) = codes "AFTER " ++ c
relative_text first = codes "FIRST"
relative_text unplaced = []

-- Every caller passes a column of the table, so the pointer is not nil.
unfoldable pub get_relative_position : Str → Option Position → Table → Table
unfolding find_column
get_relative_position name none t = t
get_relative_position name (some p) t = elim (find_column t name) [
  | none ↦ t
  | some (i, col) ↦ record t {
    columns = set t.columns i (record col { relative_column = relative_text p });
  }
]

abbrev pub bare_column : Str → ColumnDef
bare_column name = record { name = name; tp = none; options = [] }

-- `getName`.
abbrev pub get_name : TableName → Table → Table
get_name n t = record t { schema = n.schema; name = n.name }

abbrev pub note_position : Option Str → ℕ → List (Str × ℕ) → List (Str × ℕ)
note_position none i m = m
note_position (some name) i m = insert name i m

-- The table after one specification, the `i`th.
abbrev pub with_spec : Table → ℕ → List Column × AlterType × Option Str → Table
with_spec t i (cols, action, name) = record t {
  columns = t.columns ++ cols;
  ddl_action = action;
  colpos = note_position name i t.colpos;
}

module _ (type_to_str : FieldKind → Str → Str) where
  -- The columns that one specification adds to the list, its action, and its entry in `colpos`.
  unfoldable pub spec_of : AlterSpec → Result (List Column × AlterType × Option Str)
  unfolding get_columns get_relative_position
  spec_of (add_spec [] p) = panicked
  spec_of (add_spec (c ∷ cs) p) =
      let t = get_columns type_to_str empty_table (c ∷ cs) in
      ok ((get_relative_position c.name p t).columns, add_columns, some c.name)
  spec_of (modify_spec [] p) = panicked
  spec_of (modify_spec (c ∷ cs) p) =
      let t = get_columns type_to_str empty_table (c ∷ cs) in
      ok ((get_relative_position c.name p t).columns, modify_column, some c.name)
  spec_of change_spec = err (codes "[CHANGE COLUMN] not supported")
  spec_of (drop_column_spec old) =
      ok ((get_columns type_to_str empty_table (bare_column old ∷ [])).columns, drop_column, none)
  spec_of (rename_column_spec old new) =
      let t = get_columns type_to_str empty_table (bare_column old ∷ bare_column new ∷ []) in
      ok (t.columns, rename_column, none)
  spec_of (drop_index_spec name) =
      ok (
        (get_columns type_to_str empty_table (bare_column name ∷ [])).columns,
        drop_index,
        some name,
      )
  spec_of other_spec = err (codes "ddl action unknown ast.AlterTableType")

  unfoldable pub spec_loop : ℕ → List AlterSpec → Table → Result Table
  spec_loop i [] t = ok t
  spec_loop i (s ∷ ss) t = elim (spec_of s) [
    | err e ↦ err e
    | panicked ↦ panicked
    | ok x ↦ spec_loop (i + 1) ss (with_spec t i x)
  ]

  unfoldable pub get_alter_table_spec : List AlterSpec → Table → Result Table
  unfolding spec_loop spec_of
  get_alter_table_spec specs t = spec_loop 0 specs (record t { colpos = [] })

  -- The calls of the case `CreateTableStmt`, up to the writer.
  unfoldable pub create_table_of :
      Flags → TableName → List ColumnDef → List Constraint → List TableOption → Result Table
  unfolding get_columns
  create_table_of fl n cols constraints options = do
    let t = get_columns type_to_str (get_name n empty_table) cols
    t' ← get_constraint constraints (add_version_column fl t)
    t″ ← get_order_by_policy (get_storage options t')
    ok (get_partition_policy t″)

abbrev written_or_panic : Option Str → Result Str
written_or_panic none = panicked
written_or_panic (some s) = ok s

module _ (w : Restore) where
  abbrev named : TableName → Str
  named n =
      if is_empty n.schema
      then w.write_name n.name
      else cat (w.write_name n.schema ∷ codes "." ∷ w.write_name n.name ∷ [])

  -- The `switch` on `t.ddlAction`.
  unfoldable pub write_alter : AlterType → Table → Result Str
  write_alter add_columns t = ok (Restore.add_columns w t)
  write_alter modify_column t = written_or_panic (Restore.modify_column w t)
  write_alter drop_index t = ok (Restore.drop_index w t)
  write_alter drop_column t = ok (Restore.drop_column w t)
  write_alter rename_column t = ok []
  write_alter no_action t = ok []

module _ (type_to_str : FieldKind → Str → Str) (w : Restore) (fl : Flags) where
  unfoldable pub restore_statement : Statement → Result Str
  unfolding write_alter create_table_of get_alter_table_spec
  restore_statement (create_database name) =
      ok (w.write_key_word (codes "CREATE DATABASE ") ++ w.write_name name)
  restore_statement (drop_database name) =
      ok (w.write_key_word (codes "DROP DATABASE ") ++ w.write_name name)
  restore_statement (create_table n if_not_exists cols constraints options) = do
    t ← create_table_of type_to_str fl n cols constraints options
    ok (Restore.build_create_table w fl if_not_exists t)
  restore_statement (drop_table temporary is_view tables) =
      let drop = if is_view then codes "DROP VIEW " else codes "DROP TABLE " in
      let text = w.write_key_word drop ++ separated (codes ",") (map (named w) tables) in
      if temporary then ok [] else ok text
  restore_statement (truncate_table n) =
      ok (w.write_key_word (codes "TRUNCATE TABLE ") ++ named w n)
  restore_statement (alter_table n specs) = do
    t ← get_alter_table_spec type_to_str specs (get_name n empty_table)
    text ← write_alter w t.ddl_action t
    ok (w.write_key_word (codes "ALTER TABLE ") ++ text)
  restore_statement other_statement = err (codes "ddl action unknown")

  -- `parse` is the parser's `ParseOneStmt`.
  unfoldable pub parser_mysql_sql : (Str → Result Statement) → Str → Result Str
  unfolding restore_statement
  parser_mysql_sql parse sql = do statement ← parse sql; restore_statement statement
