-- ===== src/Clickhouse/Dml/Tombstones.antt =====
-- The deletion flag, the version and the placeholders in the statements of clickhouse/dml.go.
use kit_go.Common.{
  ℕ, ◌+◌, ◌≤◌, ◌≡◌, ◌≢◌, refl, ap, sym, ◌∙◌, Bool, true, false, Option, some, List, [], ◌∷◌, ◌++◌,
  map, arith, length, length-append, length-map, Str, codes, ℤ, pos, WhenSome-some, show_ℤ, itoa,
  count, count-Free,
}
use kit_go.Mysql.Value.{TableColumn, TableInfo, Value, other, Formats}
use kit_go.Mysql.Dml.{insert_text}
use kit_go.Mysql.Dml.Statements.{Named, name_of, written}
use kit_go.Mysql.Dml.Changes.{not_null}
use kit_go.Mysql.Dml.Marks.{Unmarked, UnmarkedColumns, UnmarkedTable, marks_in, count-insert_text}
use kit_go.Clickhouse.Dml.{
  Flags, use_old_ver_flag, go_int, go_uint64, version_of, on_ck_insert, insert, update, delete,
}
use kit_go.Clickhouse.Dml.Statements.{kept, mark_of, on_ck_insert_lem}

marks-kept :
    (cells : List (TableColumn × Value)) → marks_in (map mark_of cells) ≡ length (not_null cells)
marks-kept [] = refl
marks-kept ((c, v) ∷ cells) = ground (arith, marks-kept cells)

names-kept :
    (add_null : Bool) (cols : List TableColumn) (row : List Value)
    → UnmarkedColumns cols
    → marks_in (map name_of (kept add_null cols row)) ≡ 0
names-kept add_null [] row u = refl
names-kept add_null (c ∷ cols) [] u = refl
names-kept add_null (c ∷ cols) (v ∷ vs) u =
    ground (arith, count-Free b'?' c.name u.0, names-kept add_null cols vs u.1)

marks_in-append : (xs ys : List Str) → marks_in (xs ++ ys) ≡ marks_in xs + marks_in ys
marks_in-append [] ys = omega arith
marks_in-append (x ∷ xs) ys = omega (arith, marks_in-append xs ys)

append_cancel {ℓ} : {A : Type ℓ} (xs : List A) {ys zs : List A} → xs ++ ys ≡ xs ++ zs → ys ≡ zs
append_cancel [] e = e
append_cancel (x ∷ xs) e = append_cancel xs (cc)

abbrev Balanced : Str × List Value → Type 0
Balanced (sql, args) = count b'?' sql ≡ length args

abbrev ones_in : Value → ℕ
ones_in (other name text) = count b'1' text
ones_in _ = 0

go_int_differ : go_int (pos 0) ≢ go_int (pos 1)
unfolding show_ℤ itoa
go_int_differ e = absurd (omega (arith, ap ones_in e))

flags_differ :
    (sql : Str) (xs : List Value) (v : Value)
    → ◌≢◌ {A = Option (Str × List Value)}
        (some (sql, xs ++ (go_int (pos 0) ∷ v ∷ [])))
        (some (sql, xs ++ (go_int (pos 1) ∷ v ∷ [])))
flags_differ sql xs v e = go_int_differ (head_eq (append_cancel xs (pair_eq e)))
  where
    pair_eq :
        ◌≡◌ {A = Option (Str × List Value)}
          (some (sql, xs ++ (go_int (pos 0) ∷ v ∷ [])))
          (some (sql, xs ++ (go_int (pos 1) ∷ v ∷ [])))
        → xs ++ (go_int (pos 0) ∷ v ∷ []) ≡ xs ++ (go_int (pos 1) ∷ v ∷ [])
    pair_eq e = ground arith

    head_eq : go_int (pos 0) ∷ v ∷ [] ≡ go_int (pos 1) ∷ v ∷ [] → go_int (pos 0) ≡ go_int (pos 1)
    head_eq e = ground arith

module _ (f : Formats) (fl : Flags) where
  -- For a row at least as long as the table, whose columns have names, and where no name holds a
  -- question mark, `onCkInsert` returns as many arguments as its text has question marks.
  pub on_ck_insert-count :
      (t : TableInfo) (row : List Value) (add_null : Bool) (isdel : ℤ) (version : ℕ)
      → length t.columns ≤ length row
      → Named t.columns
      → UnmarkedTable t
      → Unmarked fl.del_key
      → Unmarked fl.version_key
      → (sql : Str) (args : List Value)
      → on_ck_insert f fl t row add_null isdel version ≡ some (sql, args)
      → count b'?' sql ≡ length args
  on_ck_insert-count t row add_null isdel version h n u d v sql args e =
      let cells = kept add_null t.columns row in
      WhenSome-some Balanced _ (sql, args) e
        (rw (on_ck_insert_lem f fl t row add_null isdel version h n) (
          omega (
            arith,
            count-insert_text t.schema t.name
                (map name_of cells ++ (fl.del_key ∷ fl.version_key ∷ []))
                (map mark_of cells ++ (codes "?" ∷ codes "?" ∷ [])) u.schema u.name,
            marks_in-append (map name_of cells) (fl.del_key ∷ fl.version_key ∷ []),
            marks_in-append (map mark_of cells) (codes "?" ∷ codes "?" ∷ []),
            marks-kept cells,
            names-kept add_null t.columns row u.columns,
            count-Free b'?' fl.del_key d,
            count-Free b'?' fl.version_key v,
            length-append (map (written f) (not_null cells))
                (go_int isdel ∷ go_uint64 version ∷ []),
            length-map (not_null cells) (written f),
          )))

  -- The statement for a row: the names and marks of its cells that are kept and of the two columns
  -- of the table engine, and the arguments of the cells that are not NULL.
  abbrev pub row_statement : TableInfo → List Value → Bool → ℤ → ℕ → Str × List Value
  row_statement t row add_null isdel version =
      let cells = kept add_null t.columns row in
      (
        insert_text t.schema t.name (map name_of cells ++ (fl.del_key ∷ fl.version_key ∷ []))
            (map mark_of cells ++ (codes "?" ∷ codes "?" ∷ [])),
        map (written f) (not_null cells) ++ (go_int isdel ∷ go_uint64 version ∷ []),
      )

  -- For rows at least as long as the table, whose columns have names: what an update sends first is
  -- what a delete of the old row sends at that version. The second statement inserts the new row,
  -- with the names of all its cells, NULL for those that are NULL, and the insert flag and that
  -- version.
  pub update-delete :
      (t : TableInfo) (befores afters : List Value) (now : ℕ) (dv : List ℕ)
      → length t.columns ≤ length befores
      → length t.columns ≤ length afters
      → Named t.columns
      → (del : Str × List Value) × (ins : Str × List Value) × (update f fl t befores afters now dv
          ≡ some (del ∷ ins ∷ []))
        × (delete f fl t befores now dv ≡ some del)
        × (ins ≡ row_statement t afters true fl.data_insert (version_of now dv))
  unfolding update delete
  update-delete t befores afters now dv h k n =
      let version = version_of now dv in
      let first = on_ck_insert_lem f fl t befores false fl.data_delete version h n in
      let second = on_ck_insert_lem f fl t afters true fl.data_insert version k n in
      (
        row_statement t befores false fl.data_delete version,
        row_statement t afters true fl.data_insert version,
        rw (first, second),
        first,
        refl,
      )

  -- With the flags of the old version, `Insert` writes the flag 0 and not `dataInsert`, for every
  -- row at least as long as the table whose columns have names.
  pub insert-use_old_ver_flag :
      (t : TableInfo) (row : List Value) (now : ℕ) (dv : List ℕ)
      → length t.columns ≤ length row
      → Named t.columns
      → let old = use_old_ver_flag fl in
        insert f old t row now dv
        ≢ on_ck_insert f old t row false old.data_insert (version_of now dv)
  unfolding insert use_old_ver_flag
  insert-use_old_ver_flag t row now dv h n e =
      let old = use_old_ver_flag fl in
      let version = version_of now dv in
      let zero_flag = on_ck_insert_lem f old t row false (pos 0) version h n in
      let one_flag = on_ck_insert_lem f old t row false (pos 1) version h n in
      flags_differ _ _ _ (sym zero_flag ∙ e ∙ one_flag)
