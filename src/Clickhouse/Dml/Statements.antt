-- ===== src/Clickhouse/Dml/Statements.antt =====
-- The statements of clickhouse/dml.go, described by the cells that they carry.
use kit_go.Common.{
  ℕ, ◌≤◌, ◌≡◌, refl, Bool, true, some, List, [], ◌∷◌, ◌++◌, map, arith, if◌then◌else◌, length, join,
  pos, Str, codes, ℤ,
}
use kit_go.Mysql.Value.{TableColumn, TableInfo, Value, int64, is_nil, Formats}
use kit_go.Mysql.Dml.{Cell, blank, del_nil_i, del_nil_s, insert_text, field_of, pos_of, value_of}
use kit_go.Mysql.Dml.Statements.{Named, name_of, written}
use kit_go.Mysql.Dml.Changes.{not_null}
use kit_go.Clickhouse.Dml.{Flags, go_int, go_uint64, ck_cell, ck_cells, on_ck_insert, update2}

-- The cells that are written: with `add_null` all of them, else those that are not NULL.
abbrev pub kept : Bool → List TableColumn → List Value → List (TableColumn × Value)
kept add_null [] vs = []
kept add_null (c ∷ cols) [] = []
kept add_null (c ∷ cols) (v ∷ vs) =
    let rest = kept add_null cols vs in
    if is_nil v then (if add_null then (c, v) ∷ rest else rest) else (c, v) ∷ rest

abbrev pub mark_of : TableColumn × Value → Str
mark_of (c, v) = if is_nil v then codes "NULL" else codes "?"

blank_fields : (vs : List Value) → del_nil_s (map field_of (map (λ _. blank) vs)) ≡ []
unfolding del_nil_s
blank_fields [] = refl
blank_fields (v ∷ vs) = blank_fields vs

blank_pos : (vs : List Value) → del_nil_s (map pos_of (map (λ _. blank) vs)) ≡ []
unfolding del_nil_s
blank_pos [] = refl
blank_pos (v ∷ vs) = blank_pos vs

blank_values : (vs : List Value) → del_nil_i (map value_of (map (λ _. blank) vs)) ≡ []
unfolding del_nil_i
blank_values [] = refl
blank_values (v ∷ vs) = blank_values vs

module _ (f : Formats) where
  abbrev ck_cells_of : Bool → List TableColumn → List Value → List Cell
  ck_cells_of add_null [] vs = map (λ _. blank) vs
  ck_cells_of add_null (c ∷ cols) [] = []
  ck_cells_of add_null (c ∷ cols) (v ∷ vs) = ck_cell f add_null c v ∷ ck_cells_of add_null cols vs

  ck_cells-ck_cells_of :
      (add_null : Bool) (cols : List TableColumn) (row : List Value)
      → length cols ≤ length row
      → ck_cells f add_null cols row ≡ some (ck_cells_of add_null cols row)
  unfolding ck_cells
  ck_cells-ck_cells_of add_null [] row h = refl
  ck_cells-ck_cells_of add_null (c ∷ cols) [] h = absurd (omega arith)
  ck_cells-ck_cells_of add_null (c ∷ cols) (v ∷ vs) h =
      rw (ck_cells-ck_cells_of add_null cols vs (omega arith))

  kept_fields :
      (add_null : Bool) (cols : List TableColumn) (row : List Value)
      → Named cols
      → del_nil_s (map field_of (ck_cells_of add_null cols row))
        ≡ map name_of (kept add_null cols row)
  unfolding del_nil_s ck_cell
  kept_fields add_null [] row n = blank_fields row
  kept_fields add_null (c ∷ cols) [] n = refl
  kept_fields add_null (c ∷ cols) (v ∷ vs) n = ground (arith, n.0, kept_fields add_null cols vs n.1)

  kept_marks :
      (add_null : Bool) (cols : List TableColumn) (row : List Value)
      → del_nil_s (map pos_of (ck_cells_of add_null cols row))
        ≡ map mark_of (kept add_null cols row)
  unfolding del_nil_s ck_cell
  kept_marks add_null [] row = blank_pos row
  kept_marks add_null (c ∷ cols) [] = refl
  kept_marks add_null (c ∷ cols) (v ∷ vs) = ground (arith, kept_marks add_null cols vs)

  kept_values :
      (add_null : Bool) (cols : List TableColumn) (row : List Value)
      → del_nil_i (map value_of (ck_cells_of add_null cols row))
        ≡ map (written f) (not_null (kept add_null cols row))
  unfolding del_nil_i ck_cell
  kept_values add_null [] row = blank_values row
  kept_values add_null (c ∷ cols) [] = refl
  kept_values add_null (c ∷ cols) (v ∷ vs) = ground (arith, kept_values add_null cols vs)

module _ (f : Formats) (fl : Flags) where
  -- For a row at least as long as the table, whose columns have names, `onCkInsert` does not
  -- panic: it names the kept columns and then the deletion and version columns, writes NULL for a
  -- kept nil cell and a question mark for each other column, and passes the texts of the kept
  -- cells that are not nil, then the flag and the version.
  pub on_ck_insert_lem :
      (t : TableInfo) (row : List Value) (add_null : Bool) (isdel : ℤ) (version : ℕ)
      → length t.columns ≤ length row
      → Named t.columns
      → let cells = kept add_null t.columns row in
        on_ck_insert f fl t row add_null isdel version
        ≡ some (
          insert_text t.schema t.name
              (map name_of cells ++ (fl.del_key ∷ fl.version_key ∷ []))
              (map mark_of cells ++ (codes "?" ∷ codes "?" ∷ [])),
          map (written f) (not_null cells) ++ (go_int isdel ∷ go_uint64 version ∷ []),
        )
  unfolding on_ck_insert
  on_ck_insert_lem t row add_null isdel version h n = rw (
    ck_cells-ck_cells_of f add_null t.columns row h,
    kept_fields f add_null t.columns row n,
    kept_marks f add_null t.columns row,
    kept_values f add_null t.columns row,
  )

  -- For rows at least as long as the table, whose columns have names, `update2` writes one
  -- statement: the names of all columns and of the flag and the version, the marks of the old row
  -- and those of the new, NULL in the place of a nil cell, and the texts of the other cells of the
  -- old row with the delete flag, then those of the new with the insert flag.
  pub update2_lem :
      (t : TableInfo) (befores afters : List Value) (now : ℕ)
      → length t.columns ≤ length befores
      → length t.columns ≤ length afters
      → Named t.columns
      → let bs = kept true t.columns befores in
        let as' = kept true t.columns afters in
        update2 f fl t befores afters now
        ≡ some (
          insert_text t.schema t.name
                (map name_of bs ++ (fl.del_key ∷ fl.version_key ∷ []))
                (map mark_of bs ++ (codes "?" ∷ codes "?" ∷ []))
              ++ (codes ",("
                  ++ (join (codes ",") (map mark_of as' ++ (codes "?" ∷ codes "?" ∷ []))
                      ++ codes ")")),
          (map (written f) (not_null bs) ++ (go_int fl.data_delete ∷ int64 (pos now) ∷ []))
              ++ (map (written f) (not_null as') ++ (go_int fl.data_insert ∷ int64 (pos now) ∷ [])),
        )
  unfolding update2
  update2_lem t befores afters now h k n = rw (
    ck_cells-ck_cells_of f true t.columns befores h,
    ck_cells-ck_cells_of f true t.columns afters k,
    kept_fields f true t.columns befores n,
    kept_marks f true t.columns befores,
    kept_marks f true t.columns afters,
    kept_values f true t.columns befores,
    kept_values f true t.columns afters,
  )
