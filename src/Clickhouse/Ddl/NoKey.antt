-- ===== src/Clickhouse/Ddl/NoKey.antt =====
-- CREATE TABLE without a primary key, through all calls of `ParserMysqlSQL` in
-- clickhouse/clickhouse.go.
use kit_go.Common.{
  ◌≡◌, refl, ap, ◌∙◌, Bool, true, false, if◌then◌else◌, List, [], ◌∷◌, map, All, Str,
}
use kit_go.Clickhouse.Dml.{Flags}
use kit_go.Clickhouse.Schema.{
  FieldKind, ColumnDef, Table, empty_table, column_of, get_columns, add_version_column,
}
use kit_go.Clickhouse.Schema.Columns.{says_primary, column_of_flags}
use kit_go.Clickhouse.Policy.{
  Result, ok, err, panicked, ◌>>=◌, Constraint, TableOption, get_constraint, get_storage,
  get_order_by_policy, get_partition_policy,
}
use kit_go.Clickhouse.Restore.{Restore}
use kit_go.Clickhouse.Ddl.{
  TableName, Statement, create_table, parser_mysql_sql, get_name, create_table_of,
  restore_statement,
}
use kit_go.Clickhouse.Policy.Order.{order_error}
use kit_go.Clickhouse.Policy.NoKeys.{
  NotKey, NoKeys, NoKeyConstraints, append-NoKeys, Marked, column_keys, get_constraint-Marked,
  columns-get_storage, get_order_by_policy_fails,
}

-- No column says that it is the primary key.
abbrev pub NoKeyOptions : List ColumnDef → Type 0
NoKeyOptions = All (λ c. says_primary c.options ≡ false)

module _ (type_to_str : FieldKind → Str → Str) where
  column_of-NotKey :
      (c : ColumnDef) → says_primary c.options ≡ false → NotKey (column_of type_to_str c)
  column_of-NotKey c h = ap (λ f. f.1) (column_of_flags type_to_str c) ∙ h

  columns-NoKeys : (cs : List ColumnDef) → NoKeyOptions cs → NoKeys (map (column_of type_to_str) cs)
  columns-NoKeys [] h = tt
  columns-NoKeys (c ∷ cs) (n, h) = (column_of-NotKey c n, columns-NoKeys cs h)

  made-NoKeys :
      (fl : Flags) (n : TableName) (cols : List ColumnDef)
      → NoKeyOptions cols
      → NoKeys
          (add_version_column fl (get_columns type_to_str (get_name n empty_table) cols)).columns
  unfolding add_version_column get_columns
  made-NoKeys fl n cols h =
      append-NoKeys (map (column_of type_to_str) cols) _ (columns-NoKeys cols h) (refl, (refl, tt))

  -- What becomes of a table without keys, or of the panic.
  finish_fails :
      (b : Bool) (options : List TableOption) (r : Result Table)
      → Marked b r
      → (message : Str) × ((r >>= λ t.
            (get_order_by_policy (get_storage options t) >>= λ t'. ok (get_partition_policy t')))
          ≡ (if b then err message else panicked))
  finish_fails true options (ok t) h =
      let keyless : NoKeys (get_storage options t).columns = rw (columns-get_storage options t) h in
      (
        order_error (get_storage options t),
        rw (get_order_by_policy_fails (get_storage options t) keyless) refl,
      )
  finish_fails true options (err e) h = absurd h
  finish_fails true options panicked h = absurd h
  finish_fails false options (ok t) h = absurd h
  finish_fails false options (err e) h = absurd h
  finish_fails false options panicked h = ([], refl)

  create_table_of_fails :
      (fl : Flags) (n : TableName) (cols : List ColumnDef) (constraints : List Constraint)
      (options : List TableOption)
      → NoKeyOptions cols
      → NoKeyConstraints constraints
      → (message : Str) × (create_table_of type_to_str fl n cols constraints options
          ≡ (if column_keys constraints then err message else panicked))
  unfolding create_table_of
  create_table_of_fails fl n cols constraints options h k =
      let made = add_version_column fl (get_columns type_to_str (get_name n empty_table) cols) in
      finish_fails (column_keys constraints) options (get_constraint constraints made)
        (get_constraint-Marked constraints made k (made-NoKeys fl n cols h))

  failed_stays :
      (b : Bool) (message : Str) (next : Table → Result Str) (r : Result Table)
      → r ≡ (if b then err message else panicked)
      → (r >>= next) ≡ (if b then err message else panicked)
  failed_stays true message next r h = rw h refl
  failed_stays false message next r h = rw h refl

  -- A CREATE TABLE in which no column option and no constraint is a primary key is refused with
  -- an error where every key part of its constraints is a column, and panics where one is an
  -- expression: in no case is anything written for it.
  pub create_table_needs_key :
      (w : Restore) (fl : Flags) (parse : Str → Result Statement) (sql : Str) (n : TableName)
      (if_not_exists : Bool) (cols : List ColumnDef) (constraints : List Constraint)
      (options : List TableOption)
      → parse sql ≡ ok (create_table n if_not_exists cols constraints options)
      → NoKeyOptions cols
      → NoKeyConstraints constraints
      → (message : Str) × (parser_mysql_sql type_to_str w fl parse sql
          ≡ (if column_keys constraints then err message else panicked))
  unfolding parser_mysql_sql restore_statement
  create_table_needs_key w fl parse sql n if_not_exists cols constraints options p h k =
      let (message, e) = create_table_of_fails fl n cols constraints options h k in
      (
        message,
        rw p (
            failed_stays (column_keys constraints) message _
              (create_table_of type_to_str fl n cols constraints options) e),
      )
