-- ===== src/Clickhouse/Policy/NoKeys.antt =====
-- Tables without a primary key, in the functions of clickhouse/clickhouse.go.
use kit_go.Common.{
  ℕ, zero, suc, ◌≡◌, refl, ◌∙◌, Bool, true, false, ◌&&◌, Option, none, some, List, [], ◌∷◌, ◌++◌,
  arith, if◌then◌else◌, get_elem?, set, contains, All, Str, codes, Option-cases, inl, inr,
}
use kit_go.Clickhouse.Schema.{Column, Table, find_column}
use kit_go.Clickhouse.Policy.Order.{order_error}
use kit_go.Clickhouse.Policy.Keys.{find_column_elem, apply_key-columns}
use kit_go.Clickhouse.Policy.{
  Result, ok, err, panicked, ◌>>=◌, ConstraintType, primary_key_constraint, key_constraint,
  index_constraint, uniq_key_constraint, other_constraint, Constraint, TableOption,
  comment_table_option, other_table_option, mark_key, apply_key, apply_keys, get_constraint,
  storage_options, get_storage, OrderState, start_order, is_key, add_order, order_loop,
  get_order_by_policy,
}

abbrev pub NotKey : Column → Type 0
NotKey col = col.primary_key ≡ false

abbrev pub NoKeys : List Column → Type 0
NoKeys = All NotKey

abbrev pub is_primary : ConstraintType → Bool
is_primary primary_key_constraint = true
is_primary key_constraint = false
is_primary index_constraint = false
is_primary uniq_key_constraint = false
is_primary other_constraint = false

pub append-NoKeys : (xs ys : List Column) → NoKeys xs → NoKeys ys → NoKeys (xs ++ ys)
append-NoKeys [] ys h k = k
append-NoKeys (x ∷ xs) ys (n, h) k = (n, append-NoKeys xs ys h k)

set-NoKeys : (xs : List Column) (i : ℕ) (y : Column) → NoKeys xs → NotKey y → NoKeys (set xs i y)
set-NoKeys [] i y h k = tt
set-NoKeys (x ∷ xs) zero y h k = (k, h.1)
set-NoKeys (x ∷ xs) (suc i) y h k = (h.0, set-NoKeys xs i y h.1 k)

get_elem?-NotKey :
    (xs : List Column) (i : ℕ) (x : Column) → NoKeys xs → get_elem? xs i ≡ some x → NotKey x
get_elem?-NotKey [] i x h e = cc
get_elem?-NotKey (y ∷ xs) zero x h e = ground (arith, h.0)
get_elem?-NotKey (y ∷ xs) (suc i) x h e = get_elem?-NotKey xs i x h.1 e

find_column-NotKey :
    (t : Table) (name : Str) (i : ℕ) (col : Column)
    → NoKeys t.columns
    → find_column t name ≡ some (i, col)
    → NotKey col
find_column-NotKey t name i col h e =
    get_elem?-NotKey t.columns i col h (find_column_elem t name i col e)

apply_key_absent :
    (tp : ConstraintType) (t : Table) (name : Str)
    → find_column t name ≡ none
    → apply_key tp name t ≡ t
unfolding apply_key
apply_key_absent tp t name h = ground arith

mark_key-NotKey :
    (tp : ConstraintType) (col : Column)
    → is_primary tp ≡ false
    → NotKey col
    → NotKey (mark_key tp col)
unfolding mark_key
mark_key-NotKey primary_key_constraint col p h = cc
mark_key-NotKey key_constraint col p h = h
mark_key-NotKey index_constraint col p h = h
mark_key-NotKey uniq_key_constraint col p h = h
mark_key-NotKey other_constraint col p h = h

-- Whether all key parts are columns, and none an expression.
abbrev pub all_columns : List (Option Str) → Bool
all_columns [] = true
all_columns (none ∷ ks) = false
all_columns (some k ∷ ks) = all_columns ks

abbrev pub column_keys : List Constraint → Bool
column_keys [] = true
column_keys (c ∷ cs) = all_columns c.keys && column_keys cs

-- The table has no key where the key parts are columns, and otherwise there was a panic.
abbrev pub Marked : Bool → Result Table → Type 0
Marked true (ok t) = NoKeys t.columns
Marked true (err e) = ⊥
Marked true panicked = ⊥
Marked false (ok t) = ⊥
Marked false (err e) = ⊥
Marked false panicked = Unit

Marked-next :
    (b b' : Bool) (r : Result Table) (next : Table → Result Table)
    → Marked b r
    → ((t : Table) → NoKeys t.columns → Marked b' (next t))
    → Marked (b && b') (r >>= next)
Marked-next true b' (ok t) next h k = k t h
Marked-next true b' (err e) next h k = absurd h
Marked-next true b' panicked next h k = absurd h
Marked-next false b' (ok t) next h k = absurd h
Marked-next false b' (err e) next h k = absurd h
Marked-next false b' panicked next h k = tt

module _ (tp : ConstraintType) (p : is_primary tp ≡ false) where
  apply_key-NoKeys :
      (name : Str) (t : Table) → NoKeys t.columns → NoKeys (apply_key tp name t).columns
  apply_key-NoKeys name t h = elim (Option-cases (find_column t name)) [
    | inl e ↦ rw (apply_key_absent tp t name e) h
    | inr ((i, col), e) ↦ rw (apply_key-columns tp t name i col e) (
        set-NoKeys t.columns i (mark_key tp col) h
          (mark_key-NotKey tp col p (find_column-NotKey t name i col h e)))
  ]

  apply_keys-Marked :
      (keys : List (Option Str)) (t : Table)
      → NoKeys t.columns
      → Marked (all_columns keys) (apply_keys tp keys t)
  unfolding apply_keys
  apply_keys-Marked [] t h = h
  apply_keys-Marked (none ∷ ks) t h = tt
  apply_keys-Marked (some k ∷ ks) t h =
      apply_keys-Marked ks (apply_key tp k t) (apply_key-NoKeys k t h)

-- No constraint is a primary key.
abbrev pub NoKeyConstraints : List Constraint → Type 0
NoKeyConstraints = All (λ c. is_primary c.tp ≡ false)

pub get_constraint-Marked :
    (cs : List Constraint) (t : Table)
    → NoKeyConstraints cs
    → NoKeys t.columns
    → Marked (column_keys cs) (get_constraint cs t)
unfolding get_constraint
get_constraint-Marked [] t k h = h
get_constraint-Marked (c ∷ cs) t k h =
    Marked-next (all_columns c.keys) (column_keys cs) (apply_keys c.tp c.keys t) (get_constraint cs)
      (apply_keys-Marked c.tp k.0 c.keys t h) (λ t'. get_constraint-Marked cs t' k.1)

columns-storage_options :
    (os : List TableOption) (t : Table) → (storage_options os t).columns ≡ t.columns
unfolding storage_options
columns-storage_options [] t = refl
columns-storage_options (comment_table_option s ∷ os) t =
    columns-storage_options os (record t { comment = s })
columns-storage_options (other_table_option ∷ os) t = columns-storage_options os t

pub columns-get_storage :
    (os : List TableOption) (t : Table) → (get_storage os t).columns ≡ t.columns
unfolding get_storage
columns-get_storage os t =
    columns-storage_options os (record t { storage = codes "ReplacingMergeTree" })

pknum-add_order : (c : Column) (s : OrderState) → NotKey c → (add_order c s).pknum ≡ s.pknum
unfolding add_order
pknum-add_order c s h = rw h refl

-- The state after one round of the loop.
abbrev next_order : Column → OrderState → OrderState
next_order c s = if contains s.orders c.name then s else (if is_key c then add_order c s else s)

pknum-next_order : (c : Column) (s : OrderState) → NotKey c → (next_order c s).pknum ≡ s.pknum
pknum-next_order c s h = ground (arith, pknum-add_order c s h)

pknum-order_loop :
    (cols : List Column) (s : OrderState) → NoKeys cols → (order_loop cols s).pknum ≡ s.pknum
unfolding order_loop
pknum-order_loop [] s h = refl
pknum-order_loop (c ∷ cols) s (n, h) =
    pknum-order_loop cols (next_order c s) h ∙ pknum-next_order c s n

-- `getOrderByPolicy` fails for a table without a primary key, whatever its names are.
pub get_order_by_policy_fails :
    (t : Table) → NoKeys t.columns → get_order_by_policy t ≡ err (order_error t)
unfolding get_order_by_policy
get_order_by_policy_fails t h = rw (pknum-order_loop t.columns start_order h) refl
