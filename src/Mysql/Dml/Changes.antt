-- ===== src/Mysql/Dml/Changes.antt =====
-- Update and delete of mysql/dml.go, described by the columns that change and by the key columns.
use kit_go.Common.{
  ℕ, ◌+◌, ◌≤◌, ◌≡◌, refl, false, some, List, [], ◌∷◌, ◌++◌, map, arith, if◌then◌else◌, is_empty,
  length, Str, codes,
}
use kit_go.Mysql.Value.{
  TableColumn, TableInfo, Value, nil, str, is_nil, deep_equal, Formats, value_to_string,
}
use kit_go.Mysql.Dml.{
  Cell, blank, Clause, del_nil_i, del_nil_s, Action, update_row, delete_row, set_cell, change_cell,
  pk_cell, clauses, pk_pos, pk_value, change_pos, change_value, update_text, delete_text, statement,
  update, delete, contains_idx, assign, assign_null,
}
use kit_go.Mysql.Dml.Statements.{written}

-- The columns whose value differs, with the new value.
abbrev pub changed : List TableColumn → List Value → List Value → List (TableColumn × Value)
changed [] bs as' = []
changed (c ∷ cols) [] as' = []
changed (c ∷ cols) (b ∷ bs) [] = []
changed (c ∷ cols) (b ∷ bs) (a ∷ as') =
    let rest = changed cols bs as' in if deep_equal b a then rest else (c, a) ∷ rest

-- The columns of the primary key, with the old value; `i` is the index of the first column.
abbrev pub keys : List ℕ → ℕ → List TableColumn → List Value → List (TableColumn × Value)
keys pks i [] bs = []
keys pks i (c ∷ cols) [] = []
keys pks i (c ∷ cols) (b ∷ bs) =
    let rest = keys pks (i + 1) cols bs in if contains_idx pks i then (c, b) ∷ rest else rest

abbrev pub not_null : List (TableColumn × Value) → List (TableColumn × Value)
not_null [] = []
not_null ((c, a) ∷ cs) = let rest = not_null cs in if is_nil a then rest else (c, a) ∷ rest

abbrev pub assignment : TableColumn × Value → Str
assignment (c, a) = if is_nil a then assign_null c.name else assign c.name

abbrev pub key_test : TableColumn × Value → Str
key_test (c, b) = assign c.name

abbrev key_cell : Formats → List ℕ → ℕ → TableColumn → Value → Cell
key_cell f pks i c b =
    if contains_idx pks i
    then record { field = []; pos = assign c.name; value = str (value_to_string f c b) }
    else blank

abbrev new_cell : Formats → TableColumn → Value → Cell
new_cell f c a =
    if is_nil a
    then record { field = []; pos = assign_null c.name; value = nil }
    else record { field = []; pos = assign c.name; value = str (value_to_string f c a) }

abbrev change_of : Formats → Action → TableColumn → Value → Value → Cell
change_of f update_row c b a = if deep_equal b a then blank else new_cell f c a
change_of f delete_row c b a = new_cell f c a

abbrev clauses_of :
    Formats → Action → List ℕ → ℕ → List TableColumn → List Value → List Value → List Clause
clauses_of f action pks i [] bs as' = []
clauses_of f action pks i (c ∷ cols) [] as' = []
clauses_of f action pks i (c ∷ cols) (b ∷ bs) [] = []
clauses_of f action pks i (c ∷ cols) (b ∷ bs) (a ∷ as') =
    record { pk = key_cell f pks i c b; change = change_of f action c b a }
    ∷ clauses_of f action pks (i + 1) cols bs as'

is_empty-append : (s : Str) (x : ℕ) (t : Str) → is_empty (s ++ x ∷ t) ≡ false
is_empty-append [] x t = refl
is_empty-append (_ ∷ _) x t = refl

module _ (f : Formats) where
  pk_cell-key_cell :
      (pks : List ℕ) (i : ℕ) (c : TableColumn) (b : Value)
      → pk_cell f pks i c (some b) ≡ some (key_cell f pks i c b)
  unfolding pk_cell
  pk_cell-key_cell pks i c b = ground arith

  change_cell-change_of :
      (action : Action) (c : TableColumn) (b a : Value)
      → change_cell f action c (some b) (some a) ≡ some (change_of f action c b a)
  unfolding change_cell set_cell
  change_cell-change_of update_row c b a = ground arith
  change_cell-change_of delete_row c b a = ground arith

  clauses-clauses_of :
      (action : Action) (pks : List ℕ) (i : ℕ) (cols : List TableColumn) (bs as' : List Value)
      → length cols ≤ length bs
      → length cols ≤ length as'
      → clauses f action pks i cols bs as' ≡ some (clauses_of f action pks i cols bs as')
  unfolding clauses
  clauses-clauses_of action pks i [] bs as' h k = refl
  clauses-clauses_of action pks i (c ∷ cols) [] as' h k = absurd (omega arith)
  clauses-clauses_of action pks i (c ∷ cols) (b ∷ bs) [] h k = absurd (omega arith)
  clauses-clauses_of action pks i (c ∷ cols) (b ∷ bs) (a ∷ as') h k = rw (
    pk_cell-key_cell pks i c b,
    change_cell-change_of action c b a,
    clauses-clauses_of action pks (i + 1) cols bs as' (omega arith) (omega arith),
  )

  key_tests :
      (action : Action) (pks : List ℕ) (i : ℕ) (cols : List TableColumn) (bs as' : List Value)
      → length cols ≤ length bs
      → length cols ≤ length as'
      → del_nil_s (map pk_pos (clauses_of f action pks i cols bs as'))
        ≡ map key_test (keys pks i cols bs)
  unfolding del_nil_s
  key_tests action pks i [] bs as' h k = refl
  key_tests action pks i (c ∷ cols) [] as' h k = absurd (omega arith)
  key_tests action pks i (c ∷ cols) (b ∷ bs) [] h k = absurd (omega arith)
  key_tests action pks i (c ∷ cols) (b ∷ bs) (a ∷ as') h k =
      ground
        (arith, is_empty-append c.name b' ' (codes "= ?"), key_tests action pks (i + 1) cols bs as')

  key_values :
      (action : Action) (pks : List ℕ) (i : ℕ) (cols : List TableColumn) (bs as' : List Value)
      → length cols ≤ length bs
      → length cols ≤ length as'
      → del_nil_i (map pk_value (clauses_of f action pks i cols bs as'))
        ≡ map (written f) (keys pks i cols bs)
  unfolding del_nil_i
  key_values action pks i [] bs as' h k = refl
  key_values action pks i (c ∷ cols) [] as' h k = absurd (omega arith)
  key_values action pks i (c ∷ cols) (b ∷ bs) [] h k = absurd (omega arith)
  key_values action pks i (c ∷ cols) (b ∷ bs) (a ∷ as') h k =
      ground (arith, key_values action pks (i + 1) cols bs as')

  change_tests :
      (pks : List ℕ) (i : ℕ) (cols : List TableColumn) (bs as' : List Value)
      → length cols ≤ length bs
      → length cols ≤ length as'
      → del_nil_s (map change_pos (clauses_of f update_row pks i cols bs as'))
        ≡ map assignment (changed cols bs as')
  unfolding del_nil_s
  change_tests pks i [] bs as' h k = refl
  change_tests pks i (c ∷ cols) [] as' h k = absurd (omega arith)
  change_tests pks i (c ∷ cols) (b ∷ bs) [] h k = absurd (omega arith)
  change_tests pks i (c ∷ cols) (b ∷ bs) (a ∷ as') h k = ground (
    arith,
    is_empty-append c.name b' ' (codes "= ?"),
    is_empty-append c.name b' ' (codes "= NULL"),
    change_tests pks (i + 1) cols bs as',
  )

  change_values :
      (pks : List ℕ) (i : ℕ) (cols : List TableColumn) (bs as' : List Value)
      → length cols ≤ length bs
      → length cols ≤ length as'
      → del_nil_i (map change_value (clauses_of f update_row pks i cols bs as'))
        ≡ map (written f) (not_null (changed cols bs as'))
  unfolding del_nil_i
  change_values pks i [] bs as' h k = refl
  change_values pks i (c ∷ cols) [] as' h k = absurd (omega arith)
  change_values pks i (c ∷ cols) (b ∷ bs) [] h k = absurd (omega arith)
  change_values pks i (c ∷ cols) (b ∷ bs) (a ∷ as') h k =
      ground (arith, change_values pks (i + 1) cols bs as')

  -- For rows at least as long as the table, `update` does not panic: it assigns the columns whose
  -- value differs, NULL where the new value is nil and a placeholder otherwise, tests the key
  -- columns, and passes the texts of the new values that are not nil, then the old key values.
  pub update_lem :
      (t : TableInfo) (bs as' : List Value)
      → length t.columns ≤ length bs
      → length t.columns ≤ length as'
      → let cells = changed t.columns bs as' in
        let key = keys t.pk_columns 0 t.columns bs in
        update f t bs as'
        ≡ some (
          update_text t.schema t.name (map assignment cells) (map key_test key),
          map (written f) (not_null cells) ++ map (written f) key,
        )
  unfolding update statement
  update_lem t bs as' h k = rw (
    clauses-clauses_of update_row t.pk_columns 0 t.columns bs as' h k,
    change_tests t.pk_columns 0 t.columns bs as' h k,
    key_tests update_row t.pk_columns 0 t.columns bs as' h k,
    change_values t.pk_columns 0 t.columns bs as' h k,
    key_values update_row t.pk_columns 0 t.columns bs as' h k,
  )

  -- For a row at least as long as the table, `delete` does not panic: it tests the key columns
  -- and passes the texts of their values.
  pub delete_lem :
      (t : TableInfo) (row : List Value)
      → length t.columns ≤ length row
      → let key = keys t.pk_columns 0 t.columns row in
        delete f t row ≡ some (delete_text t.schema t.name (map key_test key), map (written f) key)
  unfolding delete statement
  delete_lem t row h = rw (
    clauses-clauses_of delete_row t.pk_columns 0 t.columns row row h h,
    key_tests delete_row t.pk_columns 0 t.columns row row h h,
    key_values delete_row t.pk_columns 0 t.columns row row h h,
  )
