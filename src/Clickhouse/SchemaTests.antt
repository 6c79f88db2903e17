-- ===== src/Clickhouse/SchemaTests.antt =====
-- Runs of clickhouse/clickhouse.go, and its theorems at concrete inputs.
use kit_go.Common.{ℕ, ◌≡◌, refl, true, false, none, some, List, [], ◌∷◌, Str, codes}
use kit_go.Clickhouse.Schema.{
  FieldKind, auto_increment, primary_key_option, ColumnDef, Table, empty_table, new_column,
  drop_column, rename_column, column_of, get_columns, find_column,
}
use kit_go.Clickhouse.Schema.Columns.{flags_of, column_of_flags}
use kit_go.Clickhouse.Unique.{is_unique, get_unique_column_name}
use kit_go.Clickhouse.Unique.Search.{get_unique_column_name_lem}
use kit_go.Clickhouse.Policy.{
  Result, index_constraint, err, ok, panicked, ◌>>=◌, get_order_by_policy,
}
use kit_go.Clickhouse.Policy.Order.{get_order_by_policy_lem}
use kit_go.Clickhouse.Restore.{Restore, cat, separated, qualified}
use kit_go.Clickhouse.Dml.{default_flags}
use kit_go.Clickhouse.Ddl.NoKey.{create_table_needs_key}
use kit_go.Clickhouse.Ddl.{
  Statement, create_table, parser_mysql_sql, AlterSpec, add_spec, drop_column_spec,
  rename_column_spec, get_alter_table_spec, write_alter, bare_column,
}
use kit_go.Clickhouse.Ddl.Alter.{get_alter_table_spec_lem}
use kit_go.Clickhouse.Ddl.Drop.{alter_drops_columns, alter_rename_empty}

abbrev no_types : FieldKind → Str → Str
no_types k s = []

abbrev key_def : ColumnDef
key_def = record {
  name = codes "id";
  tp = none;
  options = auto_increment ∷ primary_key_option ∷ [];
}

abbrev logs : Table
logs = record empty_table {
  columns =
      record (new_column (codes "id")) { primary_key = true; increment = true }
      ∷ record (new_column (codes "at")) { primary_key = true; nullable = false }
      ∷ [];
}

abbrev taken : List (Str × ℕ)
taken = (codes "at", 0) ∷ (codes "at_0", 1) ∷ []

abbrev people_table : Table
people_table = record empty_table {
  colpos = (codes "id", 0) ∷ [];
  columns = new_column (codes "id") ∷ [];
}

column_of_flags_run : flags_of (column_of no_types key_def) ≡ (true, true, true)
column_of_flags_run = column_of_flags no_types key_def

get_order_by_policy_lem_example :
    get_order_by_policy logs
    ≡ ok (record logs { orders = codes "at" ∷ codes "assumeNotNull(id)" ∷ [] })
get_order_by_policy_lem_example = get_order_by_policy_lem logs (refl, (refl, tt))

get_unique_column_name_lem_example :
    (name : Str) × (get_unique_column_name taken (codes "at") ≡ some name)
    × (is_unique taken name ≡ true)
get_unique_column_name_lem_example = get_unique_column_name_lem taken (codes "at")

id_found : find_column people_table (codes "id") ≡ some (0, new_column (codes "id"))
unfolding find_column
id_found = refl

abbrev add_and_drop : List AlterSpec
add_and_drop = add_spec (bare_column (codes "a") ∷ []) none ∷ drop_column_spec (codes "b") ∷ []

abbrev a_and_b : Table
a_and_b = record empty_table {
  columns = new_column (codes "a") ∷ new_column (codes "b") ∷ [];
  ddl_action = drop_column;
  colpos = (codes "a", 0) ∷ [];
}

add_and_drop_run : get_alter_table_spec no_types add_and_drop empty_table ≡ ok a_and_b
unfolding get_alter_table_spec get_columns column_of
add_and_drop_run = refl

get_alter_table_spec_lem_example :
    get_alter_table_spec no_types add_and_drop empty_table
    ≡ ok (record empty_table {
      columns =
          column_of no_types (bare_column (codes "a"))
          ∷ column_of no_types (bare_column (codes "b"))
          ∷ [];
      ddl_action = drop_column;
      colpos = (codes "a", 0) ∷ [];
    })
get_alter_table_spec_lem_example =
    get_alter_table_spec_lem no_types add_and_drop empty_table (refl, (tt, tt))

-- A part that adds an index only.
index_panics : get_alter_table_spec no_types (add_spec [] none ∷ []) empty_table ≡ panicked
unfolding get_alter_table_spec
index_panics = refl

-- A writer that adds nothing of its own to the text.
abbrev plain_writer : Restore
plain_writer = record {
  write_key_word = λ s. s;
  write_name = λ s. s;
  write_string = λ s. s;
  without_schema_name = false;
}

alter_drops_columns_run :
    (get_alter_table_spec no_types add_and_drop empty_table >>= λ r.
    write_alter plain_writer r.ddl_action r)
    ≡ ok (
        cat (
          qualified plain_writer a_and_b
          ∷ codes " "
          ∷ separated (codes ", ") (codes "DROP COLUMN a" ∷ codes "DROP COLUMN b" ∷ [])
          ∷ []))
unfolding qualified column_of
alter_drops_columns_run =
    alter_drops_columns plain_writer no_types (add_spec (bare_column (codes "a") ∷ []) none ∷ [])
      (codes "b") empty_table refl (refl, (tt, tt))

abbrev renamed : Table
renamed = record empty_table {
  columns = new_column (codes "a") ∷ new_column (codes "b") ∷ [];
  ddl_action = rename_column;
}

rename_run :
    get_alter_table_spec no_types (rename_column_spec (codes "a") (codes "b") ∷ []) empty_table
    ≡ ok renamed
unfolding get_alter_table_spec get_columns column_of
rename_run = refl

alter_rename_empty_run :
    (get_alter_table_spec no_types (rename_column_spec (codes "a") (codes "b") ∷ []) empty_table
      >>= λ r. write_alter plain_writer r.ddl_action r)
    ≡ ok []
alter_rename_empty_run =
    alter_rename_empty plain_writer no_types [] (codes "a") (codes "b") empty_table (tt, tt)

abbrev keyless_table : Statement
keyless_table =
    create_table (record { schema = []; name = codes "t" }) false (bare_column (codes "a") ∷ [])
      (record { tp = index_constraint; keys = some (codes "a") ∷ [] } ∷ []) []

abbrev parse_keyless : Str → Result Statement
parse_keyless sql = ok keyless_table

create_table_needs_key_example :
    (message : Str) × (parser_mysql_sql no_types plain_writer default_flags parse_keyless
        (codes "create")
      ≡ err message)
create_table_needs_key_example =
    create_table_needs_key no_types plain_writer default_flags parse_keyless (codes "create")
      (record { schema = []; name = codes "t" }) false (bare_column (codes "a") ∷ [])
      (record { tp = index_constraint; keys = some (codes "a") ∷ [] } ∷ []) [] refl (refl, tt)
      (refl, tt)
