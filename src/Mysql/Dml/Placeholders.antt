-- ===== src/Mysql/Dml/Placeholders.antt =====
-- The statements of mysql/dml.go have one placeholder for each argument.
use kit_go.Common.{
  ◌+◌, ◌≡◌, Option, none, some, List, [], ◌∷◌, arith, if◌then◌else◌, length, drop, All, Str, codes,
  count, count-append, count-Free, Option-cases, Bool-cases, inl, inr, WhenSome, WhenSome-some, ℕ,
}
use kit_go.Mysql.Value.{
  TableColumn, TableInfo, Value, str, is_nil, deep_equal, Formats, value_to_string,
}
use kit_go.Mysql.Dml.{
  blank, Action, update_row, delete_row, insert_cells, insert, pk_cell, set_cell, change_cell,
  clauses, update_and_delete, contains_idx, at_head,
}
use kit_go.Mysql.Dml.Marks.{
  Unmarked, UnmarkedColumns, UnmarkedTable, Aligned, blank-Aligned, AlignedClause, Balanced,
  insert_text-Balanced, statement-Balanced,
}

module _ (f : Formats) where
  insert_cell-Aligned :
      (c : TableColumn) (v : Value)
      → Unmarked c.name
      → Aligned (
          if is_nil v
          then blank
          else record { field = c.name; pos = codes "?"; value = str (value_to_string f c v) })
  insert_cell-Aligned c v h = ground (arith, count-Free b'?' c.name h)

  insert_cells-Aligned :
      (cols : List TableColumn) (row : List Value)
      → UnmarkedColumns cols
      → WhenSome (All Aligned) (insert_cells f cols row)
  unfolding insert_cells
  insert_cells-Aligned [] [] h = tt
  insert_cells-Aligned (c ∷ cols) [] h = tt
  insert_cells-Aligned [] (v ∷ vs) h =
      let ih = insert_cells-Aligned [] vs h in
      elim (Bool-cases (is_nil v)) [
        | inl n ↦ elim (Option-cases (insert_cells f [] vs)) [
          | inl e ↦ rw (n, e) tt
          | inr (cs, e) ↦ rw (n, e) (blank-Aligned, rw e at ih)
        ]
        | inr p ↦ rw p tt
      ]
  insert_cells-Aligned (c ∷ cols) (v ∷ vs) h =
      let ih = insert_cells-Aligned cols vs h.1 in
      elim (Option-cases (insert_cells f cols vs)) [
        | inl e ↦ rw e tt
        | inr (cs, e) ↦ rw e (insert_cell-Aligned c v h.0, rw e at ih)
      ]

  pk_cell-Aligned :
      (pks : List ℕ) (i : ℕ) (c : TableColumn) (before : Option Value)
      → Unmarked c.name
      → WhenSome Aligned (pk_cell f pks i c before)
  unfolding pk_cell
  pk_cell-Aligned pks i c none h = elim (Bool-cases (contains_idx pks i)) [
    | inl e ↦ rw e tt
    | inr e ↦ rw e blank-Aligned
  ]
  pk_cell-Aligned pks i c (some b) h = elim (Bool-cases (contains_idx pks i)) [
    | inl e ↦
        rw e (omega (arith, count-Free b'?' c.name h, count-append b'?' c.name (codes " = ?")))
    | inr e ↦ rw e blank-Aligned
  ]

  set_cell-Aligned :
      (c : TableColumn) (after : Option Value)
      → Unmarked c.name
      → WhenSome Aligned (set_cell f c after)
  unfolding set_cell
  set_cell-Aligned c none h = tt
  set_cell-Aligned c (some a) h = elim (Bool-cases (is_nil a)) [
    | inl e ↦
        rw e (omega (arith, count-Free b'?' c.name h, count-append b'?' c.name (codes " = NULL")))
    | inr e ↦
        rw e (omega (arith, count-Free b'?' c.name h, count-append b'?' c.name (codes " = ?")))
  ]

  change_cell-Aligned :
      (action : Action) (c : TableColumn) (before after : Option Value)
      → Unmarked c.name
      → WhenSome Aligned (change_cell f action c before after)
  unfolding change_cell
  change_cell-Aligned delete_row c before after h = set_cell-Aligned c after h
  change_cell-Aligned update_row c none after h = tt
  change_cell-Aligned update_row c (some b) none h = tt
  change_cell-Aligned update_row c (some b) (some a) h = elim (Bool-cases (deep_equal b a)) [
    | inl e ↦ rw e blank-Aligned
    | inr e ↦ rw e (set_cell-Aligned c (some a) h)
  ]

  clauses-Aligned :
      (action : Action) (pks : List ℕ) (i : ℕ) (cols : List TableColumn) (bs as' : List Value)
      → UnmarkedColumns cols
      → WhenSome (All AlignedClause) (clauses f action pks i cols bs as')
  unfolding clauses
  clauses-Aligned action pks i [] bs as' h = tt
  clauses-Aligned action pks i (c ∷ cols) bs as' h =
      let p = pk_cell-Aligned pks i c (at_head bs) h.0 in
      let s = change_cell-Aligned action c (at_head bs) (at_head as') h.0 in
      let ih = clauses-Aligned action pks (i + 1) cols (drop 1 bs) (drop 1 as') h.1 in
      elim (Option-cases (pk_cell f pks i c (at_head bs))) [
        | inl e ↦ rw e tt
        | inr (x, e) ↦ elim (Option-cases (change_cell f action c (at_head bs) (at_head as'))) [
          | inl e' ↦ rw (e, e') tt
          | inr (y, e') ↦
              elim (Option-cases (clauses f action pks (i + 1) cols (drop 1 bs) (drop 1 as'))) [
                | inl e″ ↦ rw (e, e', e″) tt
                | inr (cs, e″) ↦ rw (e, e', e″) (((rw e at p), (rw e' at s)), rw e″ at ih)
              ]
        ]
      ]

  insert-Balanced :
      (t : TableInfo) (row : List Value) → UnmarkedTable t → WhenSome Balanced (insert f t row)
  unfolding insert
  insert-Balanced t row u =
      let ok = insert_cells-Aligned t.columns row u.columns in
      elim (Option-cases (insert_cells f t.columns row)) [
        | inl n ↦ rw n tt
        | inr (cs, n) ↦ rw n (insert_text-Balanced t u cs (rw n at ok))
      ]

  update_and_delete-Balanced :
      (action : Action) (t : TableInfo) (befores afters : List Value)
      → UnmarkedTable t
      → WhenSome Balanced (update_and_delete f action t befores afters)
  unfolding update_and_delete
  update_and_delete-Balanced action t bs as' u =
      let ok = clauses-Aligned action t.pk_columns 0 t.columns bs as' u.columns in
      elim (Option-cases (clauses f action t.pk_columns 0 t.columns bs as')) [
        | inl n ↦ rw n tt
        | inr (cs, n) ↦ rw n (statement-Balanced action t u cs (rw n at ok))
      ]

  -- An `insert` that does not panic returns as many arguments as its text has question marks,
  -- where no name of the table holds one.
  pub insert-count :
      (t : TableInfo) (row : List Value) (sql : Str) (args : List Value)
      → UnmarkedTable t
      → insert f t row ≡ some (sql, args)
      → count b'?' sql ≡ length args
  insert-count t row sql args u e = WhenSome-some Balanced _ (sql, args) e (insert-Balanced t row u)

  -- An update or a delete that does not panic returns as many arguments as its text has question
  -- marks, where no name of the table holds one.
  pub update_and_delete-count :
      (action : Action) (t : TableInfo) (befores afters : List Value) (sql : Str)
      (args : List Value)
      → UnmarkedTable t
      → update_and_delete f action t befores afters ≡ some (sql, args)
      → count b'?' sql ≡ length args
  update_and_delete-count action t bs as' sql args u e =
      WhenSome-some Balanced _ (sql, args) e (update_and_delete-Balanced action t bs as' u)
