-- ===== src/Clickhouse/Dml.antt =====
-- clickhouse/dml.go: `DmlClickhouse`, which writes every row event as an insert with a deletion
-- flag and a version. The package variables are the record `Flags`; `now` is
-- `time.Now().UnixMicro()`. An index out of range is a Go panic: the result is `none`.
pub mod Statements
pub mod Tombstones
use kit_go.Common.{
  ℕ, ◌+◌, Bool, true, false, not, ◌&&◌, Option, none, some, ◌>>=◌, List, [], ◌∷◌, ◌++◌, map,
  if◌then◌else◌, length, replicate, join, Str, codes, itoa, ℤ, pos, negsuc, show_ℤ,
}
use kit_go.Mysql.Value.{
  TableColumn, TableInfo, Value, nil, str, int64, other, is_nil, Formats, value_to_string,
}
use kit_go.Mysql.Dml.{Cell, blank, del_nil_i, del_nil_s, insert_text, field_of, pos_of, value_of}

pub record Flags : Type 0 where
  pub del_key : Str
  pub version_key : Str
  pub data_delete : ℤ
  pub data_insert : ℤ

abbrev pub default_flags : Flags
default_flags = record {
  del_key = codes "_del";
  version_key = codes "_version";
  data_delete = pos 1;
  data_insert = pos 0;
}

unfoldable pub use_old_ver_flag : Flags → Flags
use_old_ver_flag fl = record {
  del_key = codes "_sign";
  version_key = codes "_version";
  data_delete = negsuc 0;
  data_insert = pos 1;
}

-- An `int` and a `uint64` as interface values.
abbrev pub go_int : ℤ → Value
go_int v = other (codes "int") (show_ℤ v)

abbrev pub go_uint64 : ℕ → Value
go_uint64 v = other (codes "uint64") (itoa v)

-- The optional last argument, or the clock.
abbrev pub version_of : ℕ → List ℕ → ℕ
version_of now (dv ∷ []) = dv
version_of now _ = now

unfoldable pub parse_insert_value : List Value → ℕ → List ℕ → List Value
parse_insert_value row now data_version =
    replicate (length row) nil ++ (go_int (pos 0) ∷ go_uint64 (version_of now data_version) ∷ [])

module _ (f : Formats) where
  ck_cell : Bool → TableColumn → Value → Cell
  ck_cell add_null c v =
      let text = value_to_string f c v in
      if is_nil v && not add_null
      then blank
      else (if is_nil v && add_null
          then record { field = c.name; pos = codes "NULL"; value = nil }
          else record { field = c.name; pos = codes "?"; value = str text })

  ck_cells : Bool → List TableColumn → List Value → Option (List Cell)
  unfolding ck_cell
  ck_cells add_null [] row = some (map (λ _. blank) row)
  ck_cells add_null (c ∷ cols) [] = none
  ck_cells add_null (c ∷ cols) (v ∷ vs) = do
    rest ← ck_cells add_null cols vs
    some (ck_cell add_null c v ∷ rest)

module _ (f : Formats) (fl : Flags) where
  unfoldable pub on_ck_insert : TableInfo → List Value → Bool → ℤ → ℕ → Option (Str × List Value)
  unfolding ck_cells
  on_ck_insert t row add_null isdel version = do
    cells ← ck_cells f add_null t.columns row
    let field = del_nil_s (map field_of cells) ++ (fl.del_key ∷ fl.version_key ∷ [])
    let marks = del_nil_s (map pos_of cells) ++ (codes "?" ∷ codes "?" ∷ [])
    let value = del_nil_i (map value_of cells) ++ (go_int isdel ∷ go_uint64 version ∷ [])
    some (insert_text t.schema t.name field marks, value)

  unfoldable pub insert : TableInfo → List Value → ℕ → List ℕ → Option (Str × List Value)
  unfolding on_ck_insert
  insert t row now data_version = on_ck_insert t row false (pos 0) (version_of now data_version)

  -- The old row marked as deleted, then the new row.
  unfoldable pub update :
      TableInfo → List Value → List Value → ℕ → List ℕ → Option (List (Str × List Value))
  unfolding on_ck_insert
  update t befores afters now data_version = do
    let dv = version_of now data_version
    del ← on_ck_insert t befores false fl.data_delete dv
    ins ← on_ck_insert t afters true fl.data_insert dv
    some (del ∷ ins ∷ [])

  unfoldable pub delete : TableInfo → List Value → ℕ → List ℕ → Option (Str × List Value)
  unfolding on_ck_insert
  delete t row now data_version =
      on_ck_insert t row false fl.data_delete (version_of now data_version)

  -- `update2`: both rows in one statement, with the clock in seconds as the version.
  unfoldable pub update2 : TableInfo → List Value → List Value → ℕ → Option (Str × List Value)
  unfolding ck_cells
  update2 t befores afters now = do
    bs ← ck_cells f true t.columns befores
    as' ← ck_cells f true t.columns afters
    let field = del_nil_s (map field_of bs) ++ (fl.del_key ∷ fl.version_key ∷ [])
    let bpos = del_nil_s (map pos_of bs) ++ (codes "?" ∷ codes "?" ∷ [])
    let apos = del_nil_s (map pos_of as') ++ (codes "?" ∷ codes "?" ∷ [])
    let bvalue = del_nil_i (map value_of bs) ++ (go_int fl.data_delete ∷ int64 (pos now) ∷ [])
    let avalue = del_nil_i (map value_of as') ++ (go_int fl.data_insert ∷ int64 (pos now) ∷ [])
    some (
      insert_text t.schema t.name field bpos
          ++ (codes ",(" ++ (join (codes ",") apos ++ codes ")")),
      bvalue ++ avalue,
    )

unfoldable pub get_optimize_table : Str → Str → Str
get_optimize_table db table =
    codes "OPTIMIZE TABLE " ++ (db ++ (codes "." ++ (table ++ codes " FINAL CLEANUP")))
