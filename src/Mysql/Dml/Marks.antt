-- ===== src/Mysql/Dml/Marks.antt =====
-- The question marks in the texts of mysql/dml.go, and the placeholders of its cells.
use kit_go.Common.{
  ◌+◌, ◌≡◌, refl, List, [], ◌∷◌, ◌++◌, map, arith, if◌then◌else◌, length, length-append, All, Str,
  codes, join, Free, count, total, count-append, count-Free, count-join, ℕ,
}
use kit_go.Mysql.Value.{TableColumn, TableInfo, Value, is_nil}
use kit_go.Mysql.Dml.{
  Cell, blank, Clause, del_nil_i, del_nil_s, insert_text, field_of, pos_of, value_of, Action,
  update_row, delete_row, pk_pos, pk_value, change_pos, change_value, update_text, delete_text,
  statement,
}

-- A name without a question mark.
abbrev pub Unmarked : Str → Type 0
Unmarked = Free b'?'

abbrev pub UnmarkedColumns : List TableColumn → Type 0
UnmarkedColumns = All (λ c. Unmarked c.name)

pub record UnmarkedTable (t : TableInfo) : Type 0 where
  pub schema : Unmarked t.schema
  pub name : Unmarked t.name
  pub columns : UnmarkedColumns t.columns

abbrev pub one_of : Value → ℕ
one_of v = if is_nil v then 0 else 1

-- A cell's placeholder is there exactly if its value is, and its field shows none.
pub record Aligned (c : Cell) : Type 0 where
  pub quiet : count b'?' c.field ≡ 0
  pub marks : count b'?' c.pos ≡ one_of c.value

abbrev pub marks_in : List Str → ℕ
marks_in ss = total (map (count b'?') ss)

pub marks-del_nil_s : (ss : List Str) → marks_in (del_nil_s ss) ≡ marks_in ss
unfolding del_nil_s
marks-del_nil_s [] = refl
marks-del_nil_s ([] ∷ ss) = omega (arith, marks-del_nil_s ss)
marks-del_nil_s ((x ∷ s) ∷ ss) = omega (arith, marks-del_nil_s ss)

pub length-del_nil_i : (vs : List Value) → length (del_nil_i vs) ≡ total (map one_of vs)
unfolding del_nil_i
length-del_nil_i [] = refl
length-del_nil_i (v ∷ vs) = ground (arith, length-del_nil_i vs)

pub marks-Aligned :
    (cs : List Cell)
    → All Aligned cs
    → marks_in (map pos_of cs) ≡ total (map one_of (map value_of cs))
marks-Aligned [] h = refl
marks-Aligned (c ∷ cs) (a, h) = omega (arith, marks-Aligned cs h, a.marks)

pub fields-Aligned : (cs : List Cell) → All Aligned cs → marks_in (map field_of cs) ≡ 0
fields-Aligned [] h = refl
fields-Aligned (c ∷ cs) (a, h) = omega (arith, fields-Aligned cs h, a.quiet)

pub count-insert_text :
    (db table : Str) (field pos : List Str)
    → Unmarked db
    → Unmarked table
    → count b'?' (insert_text db table field pos) ≡ marks_in field + marks_in pos
unfolding insert_text
count-insert_text db table field pos h k = omega (
  arith,
  count-Free b'?' db h,
  count-Free b'?' table k,
  count-join b'?' (codes ",") field refl,
  count-join b'?' (codes ",") pos refl,
  count-append b'?' db (
      codes "."
      ++ (table
          ++ (codes " ("
              ++ (join (codes ",") field
                  ++ (codes ") values (" ++ (join (codes ",") pos ++ codes ")")))))),
  count-append b'?' table (
      codes " ("
      ++ (join (codes ",") field ++ (codes ") values (" ++ (join (codes ",") pos ++ codes ")")))),
  count-append b'?' (join (codes ",") field)
      (codes ") values (" ++ (join (codes ",") pos ++ codes ")")),
  count-append b'?' (join (codes ",") pos) (codes ")"),
)

pub blank-Aligned : Aligned blank
blank-Aligned = omega arith

abbrev pub AlignedClause : Clause → Type 0
AlignedClause c = Aligned c.pk × Aligned c.change

abbrev pub Balanced : Str × List Value → Type 0
Balanced (sql, args) = count b'?' sql ≡ length args

pub insert_text-Balanced :
    (t : TableInfo)
    → UnmarkedTable t
    → (cs : List Cell) → All Aligned cs
    → count b'?'
        (insert_text t.schema t.name (del_nil_s (map field_of cs)) (del_nil_s (map pos_of cs)))
      ≡ length (del_nil_i (map value_of cs))
insert_text-Balanced t u cs a = omega (
  arith,
  count-insert_text t.schema t.name (del_nil_s (map field_of cs)) (del_nil_s (map pos_of cs))
      u.schema u.name,
  marks-del_nil_s (map field_of cs),
  marks-del_nil_s (map pos_of cs),
  fields-Aligned cs a,
  marks-Aligned cs a,
  length-del_nil_i (map value_of cs),
)

marks-pk :
    (cs : List Clause)
    → All AlignedClause cs
    → marks_in (map pk_pos cs) ≡ total (map one_of (map pk_value cs))
marks-pk [] h = refl
marks-pk (c ∷ cs) (a, h) = omega (arith, marks-pk cs h, a.0.marks)

marks-change :
    (cs : List Clause)
    → All AlignedClause cs
    → marks_in (map change_pos cs) ≡ total (map one_of (map change_value cs))
marks-change [] h = refl
marks-change (c ∷ cs) (a, h) = omega (arith, marks-change cs h, a.1.marks)

count-update_text :
    (db table : Str) (pos pkpos : List Str)
    → Unmarked db
    → Unmarked table
    → count b'?' (update_text db table pos pkpos) ≡ marks_in pos + marks_in pkpos
unfolding update_text
count-update_text db table pos pkpos h k = omega (
  arith,
  count-Free b'?' db h,
  count-Free b'?' table k,
  count-join b'?' (codes ",") pos refl,
  count-join b'?' (codes " AND ") pkpos refl,
  count-append b'?' db (
      codes "."
      ++ (table
          ++ (codes " set "
              ++ (join (codes ",") pos ++ (codes " where " ++ join (codes " AND ") pkpos))))),
  count-append b'?' table
      (codes " set " ++ (join (codes ",") pos ++ (codes " where " ++ join (codes " AND ") pkpos))),
  count-append b'?' (join (codes ",") pos) (codes " where " ++ join (codes " AND ") pkpos),
)

count-delete_text :
    (db table : Str) (pkpos : List Str)
    → Unmarked db
    → Unmarked table
    → count b'?' (delete_text db table pkpos) ≡ marks_in pkpos
unfolding delete_text
count-delete_text db table pkpos h k = omega (
  arith,
  count-Free b'?' db h,
  count-Free b'?' table k,
  count-join b'?' (codes " AND ") pkpos refl,
  count-append b'?' db (codes "." ++ (table ++ (codes " WHERE " ++ join (codes " AND ") pkpos))),
  count-append b'?' table (codes " WHERE " ++ join (codes " AND ") pkpos),
)

pub statement-Balanced :
    (action : Action) (t : TableInfo)
    → UnmarkedTable t
    → (cs : List Clause) → All AlignedClause cs
    → Balanced (statement action t cs)
unfolding statement
statement-Balanced update_row t u cs a = omega (
  arith,
  count-update_text t.schema t.name (del_nil_s (map change_pos cs)) (del_nil_s (map pk_pos cs))
      u.schema u.name,
  marks-del_nil_s (map change_pos cs),
  marks-del_nil_s (map pk_pos cs),
  marks-change cs a,
  marks-pk cs a,
  length-append (del_nil_i (map change_value cs)) (del_nil_i (map pk_value cs)),
  length-del_nil_i (map change_value cs),
  length-del_nil_i (map pk_value cs),
)
statement-Balanced delete_row t u cs a = omega (
  arith,
  count-delete_text t.schema t.name (del_nil_s (map pk_pos cs)) u.schema u.name,
  marks-del_nil_s (map pk_pos cs),
  marks-pk cs a,
  length-del_nil_i (map pk_value cs),
)
