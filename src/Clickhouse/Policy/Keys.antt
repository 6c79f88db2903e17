-- ===== src/Clickhouse/Policy/Keys.antt =====
-- What the key constraints of clickhouse/clickhouse.go do to a column.
use kit_go.Common.{
  ℕ, zero, suc, ◌≡◌, refl, true, false, some, List, [], ◌∷◌, arith, get_elem?, set, Str,
}
use kit_go.Clickhouse.Schema.{Column, Table, find_column}
use kit_go.Clickhouse.Policy.{ConstraintType, primary_key_constraint, mark_key, apply_key}

get_elem?-set_self {ℓ} :
    {A : Type ℓ} (xs : List A) (i : ℕ) (x y : A)
    → get_elem? xs i ≡ some x
    → get_elem? (set xs i y) i ≡ some y
get_elem?-set_self [] i x y h = cc
get_elem?-set_self (a ∷ xs) zero x y h = refl
get_elem?-set_self (a ∷ xs) (suc i) x y h = get_elem?-set_self xs i x y h

pub find_column_elem :
    (t : Table) (name : Str) (i : ℕ) (col : Column)
    → find_column t name ≡ some (i, col)
    → get_elem? t.columns i ≡ some col
unfolding find_column
find_column_elem t name i col h = ground arith

pub apply_key-columns :
    (tp : ConstraintType) (t : Table) (name : Str) (i : ℕ) (col : Column)
    → find_column t name ≡ some (i, col)
    → (apply_key tp name t).columns ≡ set t.columns i (mark_key tp col)
unfolding apply_key
apply_key-columns tp t name i col h = ground arith

-- A PRIMARY KEY constraint on a column of the table makes that column a primary key that is not
-- nullable, and changes nothing else in it.
pub apply_key_primary :
    (t : Table) (name : Str) (i : ℕ) (col : Column)
    → find_column t name ≡ some (i, col)
    → get_elem? (apply_key primary_key_constraint name t).columns i
      ≡ some (record col { primary_key = true; nullable = false })
unfolding mark_key
apply_key_primary t name i col h =
    let made = record col { primary_key = true; nullable = false } in
    rw (apply_key-columns primary_key_constraint t name i col h)
      (get_elem?-set_self t.columns i col made (find_column_elem t name i col h))
