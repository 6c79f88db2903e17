-- ===== src/Mysql/Dml/Statements.antt =====
-- The statements of mysql/dml.go, described by the cells that they carry.
use kit_go.Common.{
  ◌≤◌, ◌≡◌, refl, false, some, List, [], ◌∷◌, map, arith, if◌then◌else◌, is_empty, length,
  replicate, All, Str, codes,
}
use kit_go.Mysql.Value.{TableColumn, TableInfo, Value, str, is_nil, Formats, value_to_string}
use kit_go.Mysql.Dml.{
  Cell, blank, del_nil_i, del_nil_s, insert_text, field_of, pos_of, value_of, insert_cells, insert,
}

abbrev pub Named : List TableColumn → Type 0
Named = All (λ c. is_empty c.name ≡ false)

-- The cells of a row that are not NULL, each with its column.
abbrev pub present : List TableColumn → List Value → List (TableColumn × Value)
present [] vs = []
present (c ∷ cols) [] = []
present (c ∷ cols) (v ∷ vs) = let rest = present cols vs in if is_nil v then rest else (c, v) ∷ rest

abbrev pub name_of : TableColumn × Value → Str
name_of (c, v) = c.name

abbrev pub written : Formats → TableColumn × Value → Value
written f (c, v) = str (value_to_string f c v)

abbrev cell_of : Formats → TableColumn → Value → Cell
cell_of f c v =
    if is_nil v
    then blank
    else record { field = c.name; pos = codes "?"; value = str (value_to_string f c v) }

abbrev cells_of : Formats → List TableColumn → List Value → List Cell
cells_of f [] vs = []
cells_of f (c ∷ cols) [] = []
cells_of f (c ∷ cols) (v ∷ vs) = cell_of f c v ∷ cells_of f cols vs

module _ (f : Formats) where
  insert_cells-cells_of :
      (cols : List TableColumn) (row : List Value)
      → length row ≤ length cols
      → insert_cells f cols row ≡ some (cells_of f cols row)
  unfolding insert_cells
  insert_cells-cells_of [] [] h = refl
  insert_cells-cells_of (c ∷ cols) [] h = refl
  insert_cells-cells_of [] (v ∷ vs) h = absurd (omega arith)
  insert_cells-cells_of (c ∷ cols) (v ∷ vs) h = rw (insert_cells-cells_of cols vs (omega arith))

  fields-cells_of :
      (cols : List TableColumn) (row : List Value)
      → Named cols
      → del_nil_s (map field_of (cells_of f cols row)) ≡ map name_of (present cols row)
  unfolding del_nil_s
  fields-cells_of [] row n = refl
  fields-cells_of (c ∷ cols) [] n = refl
  fields-cells_of (c ∷ cols) (v ∷ vs) n = ground (arith, n.0, fields-cells_of cols vs n.1)

  pos-cells_of :
      (cols : List TableColumn) (row : List Value)
      → del_nil_s (map pos_of (cells_of f cols row))
        ≡ replicate (length (present cols row)) (codes "?")
  unfolding del_nil_s
  pos-cells_of [] row = refl
  pos-cells_of (c ∷ cols) [] = refl
  pos-cells_of (c ∷ cols) (v ∷ vs) = ground (arith, pos-cells_of cols vs)

  values-cells_of :
      (cols : List TableColumn) (row : List Value)
      → del_nil_i (map value_of (cells_of f cols row)) ≡ map (written f) (present cols row)
  unfolding del_nil_i
  values-cells_of [] row = refl
  values-cells_of (c ∷ cols) [] = refl
  values-cells_of (c ∷ cols) (v ∷ vs) = ground (arith, values-cells_of cols vs)

  -- For a row no longer than the table, whose columns have names, `insert` does not panic: it
  -- names the columns whose cell is not NULL, in order, writes one question mark for each, and
  -- passes their texts in the same order.
  pub insert_lem :
      (t : TableInfo) (row : List Value)
      → length row ≤ length t.columns
      → Named t.columns
      → let cells = present t.columns row in
        insert f t row
        ≡ some (
          insert_text t.schema t.name (map name_of cells) (replicate (length cells) (codes "?")),
          map (written f) cells,
        )
  unfolding insert
  insert_lem t row h n = rw (
    insert_cells-cells_of t.columns row h,
    fields-cells_of t.columns row n,
    pos-cells_of t.columns row,
    values-cells_of t.columns row,
  )
