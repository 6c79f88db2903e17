-- ===== src/Clickhouse/Restore.antt =====
-- clickhouse/clickhouse.go: the functions that write a statement. Each returns what it writes.
use kit_go.Common.{
  Bool, true, false, ℤ, Option, none, some, List, [], ◌∷◌, ◌++◌, map, if◌then◌else◌, is_empty, Str,
  codes, int_eq, show_ℤ,
}
use kit_go.Clickhouse.Dml.{Flags}
use kit_go.Clickhouse.Schema.{Column, Table, unspecified_length}

-- What the parser package's `RestoreCtx` writes for a keyword, a name and a string literal, and
-- its flag; `WritePlain` writes its text as it is.
pub record Restore : Type 0 where
  pub write_key_word : Str → Str
  pub write_name : Str → Str
  pub write_string : Str → Str
  pub without_schema_name : Bool

-- Writes one after the other.
abbrev pub cat : List Str → Str
cat [] = []
cat (s ∷ ss) = s ++ cat ss

-- `for i, col := range ... { if i > 0 { write sep }; write }`.
abbrev pub separated : Str → List Str → Str
separated sep [] = []
separated sep (s ∷ []) = s
separated sep (s ∷ r ∷ rs) = s ++ (sep ++ separated sep (r ∷ rs))

abbrev nullable_type : Column → Str → Str
nullable_type col t = if col.nullable then codes "Nullable(" ++ (t ++ codes ")") else t

-- The type with its precision and scale.
abbrev pub sized_type : Column → Str
sized_type col =
    if int_eq col.precision unspecified_length
    then col.data_type
    else cat (
        col.data_type
        ∷ codes "("
        ∷ show_ℤ col.precision
        ∷ (if int_eq col.scale unspecified_length then [] else codes "," ++ show_ℤ col.scale)
        ∷ codes ")"
        ∷ [])

module _ (w : Restore) where
  -- "schema.name", or the name alone.
  unfoldable pub qualified : Table → Str
  qualified t =
      if is_empty t.schema
      then w.write_name t.name
      else cat (w.write_name t.schema ∷ codes "." ∷ w.write_name t.name ∷ [])

  comment_clause : Column → Str
  comment_clause col =
      if is_empty col.comment
      then []
      else cat (codes " " ∷ w.write_key_word (codes "COMMENT ") ∷ w.write_string col.comment ∷ [])

  relative_clause : Column → Str
  relative_clause col =
      if is_empty col.relative_column then [] else codes " " ++ col.relative_column

  unfoldable pub col_build : Column → Str
  unfolding comment_clause relative_clause
  col_build col = cat (
      w.write_name col.name
      ∷ codes " "
      ∷ (if is_empty col.data_type then [] else nullable_type col (sized_type col))
      ∷ comment_clause col
      ∷ relative_clause col
      ∷ [])

  abbrev pub add_column : Column → Str
  unfolding comment_clause relative_clause
  add_column col = cat (
      w.write_key_word (codes "ADD COLUMN ")
      ∷ w.write_name col.name
      ∷ codes " "
      ∷ nullable_type col col.data_type
      ∷ comment_clause col
      ∷ relative_clause col
      ∷ [])

  unfoldable pub add_columns : Table → Str
  unfolding qualified comment_clause relative_clause
  add_columns t =
      cat (qualified t ∷ codes " " ∷ separated (codes ", ") (map add_column t.columns) ∷ [])

  abbrev pub drop_one : Column → Str
  drop_one col = w.write_key_word (codes "DROP COLUMN ") ++ w.write_name col.name

  unfoldable pub drop_column : Table → Str
  unfolding qualified
  drop_column t =
      cat (qualified t ∷ codes " " ∷ separated (codes ", ") (map drop_one t.columns) ∷ [])

  abbrev pub drop_one_index : Column → Str
  drop_one_index col = w.write_key_word (codes "DROP INDEX ") ++ w.write_name col.name

  unfoldable pub drop_index : Table → Str
  unfolding qualified
  drop_index t =
      cat (qualified t ∷ codes " " ∷ separated (codes ", ") (map drop_one_index t.columns) ∷ [])

  -- `t.columns[0]` of no columns is a Go panic, `none`.
  unfoldable pub modify_column : Table → Option Str
  unfolding qualified col_build
  modify_column t = elim t.columns [
    | [] ↦ none
    | col ∷ _ ↦ some (
        cat (
          qualified t ∷ codes " " ∷ w.write_key_word (codes "MODIFY COLUMN ") ∷ col_build col ∷ []))
  ]

  -- `changeColumn`, of two columns; fewer are a Go panic.
  unfoldable pub change_column : Table → Option Str
  unfolding qualified col_build
  change_column t = elim t.columns [
    | [] ↦ none
    | old ∷ rest ↦ elim rest [
      | [] ↦ none
      | new ∷ _ ↦ some (
          cat (
            qualified t
            ∷ codes " "
            ∷ w.write_key_word (codes "CHANGE COLUMN ")
            ∷ w.write_name old.name
            ∷ codes " "
            ∷ col_build new
            ∷ []))
    ]
  ]

  sorting_clause : List Str → Str
  sorting_clause [] = codes "tuple()"
  sorting_clause (o ∷ []) = o
  sorting_clause (o ∷ p ∷ os) =
      cat (codes "(" ∷ separated (codes "," ++ (10 ∷ [])) (o ∷ p ∷ os) ∷ codes ")" ∷ [])

  partition_clause : Str → Str
  partition_clause p =
      if is_empty p then [] else cat (w.write_key_word (codes "PARTITION BY ") ∷ p ∷ (10 ∷ []) ∷ [])

  unfoldable pub build_create_table : Flags → Bool → Table → Str
  unfolding col_build sorting_clause partition_clause
  build_create_table fl if_not_exists t = cat (
      w.write_key_word (codes "CREATE TABLE ")
      ∷ (if if_not_exists then w.write_key_word (codes "IF NOT EXISTS ") else [])
      ∷ (if w.without_schema_name
          then []
          else (if is_empty t.schema then [] else w.write_name t.schema ++ codes "."))
      ∷ w.write_name t.name
      ∷ codes " ("
      ∷ (10 ∷ [])
      ∷ separated (codes "," ++ (10 ∷ [])) (map col_build t.columns)
      ∷ (codes "," ++ (10 ∷ []))
      ∷ codes "  INDEX "
      ∷ fl.version_key
      ∷ codes " "
      ∷ fl.version_key
      ∷ codes " TYPE minmax GRANULARITY 1"
      ∷ (10 ∷ codes ")")
      ∷ (10 ∷ [])
      ∷ w.write_key_word (codes "ENGINE ")
      ∷ t.storage
      ∷ codes "("
      ∷ fl.version_key
      ∷ codes ","
      ∷ fl.del_key
      ∷ codes ")"
      ∷ (10 ∷ [])
      ∷ partition_clause t.partition
      ∷ w.write_key_word (codes "ORDER BY ")
      ∷ sorting_clause t.orders
      ∷ codes "SETTINGS allow_experimental_replacing_merge_with_cleanup=1"
      ∷ [])

-- `InErrCode`: `code` is that of a server exception; another error is `none`.
unfoldable pub in_err_code : Option ℤ → List ℤ → Bool
in_err_code none cs = false
in_err_code (some code) [] = false
in_err_code (some code) (c ∷ cs) =
    let rest = in_err_code (some code) cs in if int_eq c code then true else rest
