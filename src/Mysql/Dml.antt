-- ===== src/Mysql/Dml.antt =====
-- mysql/dml.go: `DmlDefault`, which turns a row event into an SQL statement and its arguments.
-- An index out of range is a Go panic: the result is `none`.
pub mod Marks
pub mod Placeholders
pub mod Statements
pub mod Changes
use kit_go.Common.{
  ℕ, ◌+◌, ◌==◌, Bool, true, false, Option, none, some, ◌>>=◌, List, [], ◌∷◌, ◌++◌, map,
  if◌then◌else◌, is_empty, drop, Str, codes, join,
}
use kit_go.Mysql.Value.{
  TableColumn, TableInfo, Value, nil, str, is_nil, deep_equal, Formats, value_to_string,
}

-- One index of the parallel slices that `make` fills with "" and nil.
pub record Cell : Type 0 where
  pub field : Str
  pub pos : Str
  pub value : Value

abbrev pub blank : Cell
blank = record { field = []; pos = []; value = nil }

unfoldable pub del_nil_i : List Value → List Value
del_nil_i [] = []
del_nil_i (v ∷ vs) = let rest = del_nil_i vs in if is_nil v then rest else v ∷ rest

unfoldable pub del_nil_s : List Str → List Str
del_nil_s [] = []
del_nil_s (s ∷ ss) = let rest = del_nil_s ss in if is_empty s then rest else s ∷ rest

abbrev pub at_head : List Value → Option Value
at_head [] = none
at_head (v ∷ _) = some v

-- "insert into db.table (fields) values (placeholders)"
unfoldable pub insert_text : Str → Str → List Str → List Str → Str
insert_text db table field pos =
    codes "insert into "
    ++ (db
        ++ (codes "."
            ++ (table
                ++ (codes " ("
                    ++ (join (codes ",") field
                        ++ (codes ") values (" ++ (join (codes ",") pos ++ codes ")")))))))

abbrev pub field_of : Cell → Str
field_of c = c.field

abbrev pub pos_of : Cell → Str
pos_of c = c.pos

abbrev pub value_of : Cell → Value
value_of c = c.value

-- `slices.Contains(tableInfo.PKColumns, idx)`.
abbrev pub contains_idx : List ℕ → ℕ → Bool
contains_idx [] i = false
contains_idx (j ∷ js) i = let rest = contains_idx js i in if j == i then true else rest

pub data Action : Type 0 where
  update_row delete_row : Action

-- One index of the four slices of `updateAndDelete`.
pub record Clause : Type 0 where
  pub pk : Cell
  pub change : Cell

abbrev pub assign : Str → Str
assign name = name ++ codes " = ?"

abbrev pub assign_null : Str → Str
assign_null name = name ++ codes " = NULL"

abbrev pub pk_pos : Clause → Str
pk_pos c = c.pk.pos

abbrev pub pk_value : Clause → Value
pk_value c = c.pk.value

abbrev pub change_pos : Clause → Str
change_pos c = c.change.pos

abbrev pub change_value : Clause → Value
change_value c = c.change.value

pub update_text : Str → Str → List Str → List Str → Str
update_text db table pos pkpos =
    codes "update "
    ++ (db
        ++ (codes "."
            ++ (table
                ++ (codes " set "
                    ++ (join (codes ",") pos ++ (codes " where " ++ join (codes " AND ") pkpos))))))

pub delete_text : Str → Str → List Str → Str
delete_text db table pkpos =
    codes "DELETE FROM "
    ++ (db ++ (codes "." ++ (table ++ (codes " WHERE " ++ join (codes " AND ") pkpos))))

-- The `return`s of `updateAndDelete`.
pub statement : Action → TableInfo → List Clause → Str × List Value
unfolding update_text delete_text del_nil_i del_nil_s
statement update_row t cs = (
  update_text t.schema t.name (del_nil_s (map change_pos cs)) (del_nil_s (map pk_pos cs)),
  del_nil_i (map change_value cs) ++ del_nil_i (map pk_value cs),
)
statement delete_row t cs =
    (delete_text t.schema t.name (del_nil_s (map pk_pos cs)), del_nil_i (map pk_value cs))

module _ (f : Formats) where
  pub insert_cells : List TableColumn → List Value → Option (List Cell)
  insert_cells cols [] = some []
  insert_cells [] (v ∷ vs) =
      let rest = insert_cells [] vs in if is_nil v then rest >>= (λ cs. some (blank ∷ cs)) else none
  insert_cells (c ∷ cols) (v ∷ vs) = do
    let cell : Cell = record {
      field = c.name;
      pos = codes "?";
      value = str (value_to_string f c v);
    }
    rest ← insert_cells cols vs
    some ((if is_nil v then blank else cell) ∷ rest)

  unfoldable pub insert : TableInfo → List Value → Option (Str × List Value)
  unfolding insert_cells insert_text del_nil_i del_nil_s
  insert t row = do
    cells ← insert_cells t.columns row
    let sql =
        insert_text t.schema t.name (del_nil_s (map field_of cells)) (del_nil_s (map pos_of cells))
    some (sql, del_nil_i (map value_of cells))

  -- The part of a round that fills `pkpos` and `pkvalue`.
  pk_cell : List ℕ → ℕ → TableColumn → Option Value → Option Cell
  pk_cell pks i c none = if contains_idx pks i then none else some blank
  pk_cell pks i c (some b) =
      let text = value_to_string f c b in
      if contains_idx pks i
      then some (record { field = []; pos = assign c.name; value = str text })
      else some blank

  -- The part that fills `pos` and `value`.
  set_cell : TableColumn → Option Value → Option Cell
  set_cell c none = none
  set_cell c (some a) =
      let text = value_to_string f c a in
      if is_nil a
      then some (record { field = []; pos = assign_null c.name; value = nil })
      else some (record { field = []; pos = assign c.name; value = str text })

  change_cell : Action → TableColumn → Option Value → Option Value → Option Cell
  unfolding set_cell
  change_cell delete_row c before after = set_cell c after
  change_cell update_row c before after = do
    b ← before
    a ← after
    if deep_equal b a then some blank else set_cell c after

  pub clauses :
      Action → List ℕ → ℕ → List TableColumn → List Value → List Value → Option (List Clause)
  unfolding pk_cell change_cell
  clauses action pks i [] befores afters = some []
  clauses action pks i (c ∷ cols) befores afters = do
    p ← pk_cell pks i c (at_head befores)
    s ← change_cell action c (at_head befores) (at_head afters)
    rest ← clauses action pks (i + 1) cols (drop 1 befores) (drop 1 afters)
    some (record { pk = p; change = s } ∷ rest)

  unfoldable pub update_and_delete :
      Action → TableInfo → List Value → List Value → Option (Str × List Value)
  unfolding clauses statement
  update_and_delete action t befores afters = do
    cs ← clauses action t.pk_columns 0 t.columns befores afters
    some (statement action t cs)

  unfoldable pub update : TableInfo → List Value → List Value → Option (Str × List Value)
  unfolding update_and_delete
  update t befores afters = update_and_delete update_row t befores afters

  unfoldable pub delete : TableInfo → List Value → Option (Str × List Value)
  unfolding update_and_delete
  delete t row = update_and_delete delete_row t row row
