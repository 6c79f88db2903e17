-- ===== src/Clickhouse/Policy.antt =====
-- clickhouse/clickhouse.go: keys, storage, the sorting key and the partition of a new table.
pub mod Order
pub mod Keys
pub mod NoKeys
use kit_go.Common.{
  ℕ, zero, suc, ◌+◌, ◌-◌, ◌/◌, ◌^◌, ◌==◌, Bool, true, false, not, ◌&&◌, ◌||◌, Option, none, some,
  List, [], ◌∷◌, ◌++◌, map, if◌then◌else◌, ltb, leb, length, get_elem?, set, contains, Str, codes,
  str_eq, itoa, ℤ,
}
use kit_go.Clickhouse.Schema.{Column, Table, find_column}

-- A value, an error with its text, or a Go panic.
pub data Result {ℓ} (A : Type ℓ) : Type ℓ where
  ok : A → Result A
  err : Str → Result A
  panicked : Result A

infixl 5 ◌>>=◌
abbrev pub ◌>>=◌ : {A B : Type 0} → Result A → (A → Result B) → Result B
ok a >>= f = f a
err e >>= f = err e
panicked >>= f = panicked

pub data ConstraintType : Type 0 where
  primary_key_constraint key_constraint index_constraint uniq_key_constraint other_constraint :
      ConstraintType

-- A constraint of the syntax tree, with the names of its key columns; a key part that is an
-- expression has no column, which is a nil pointer.
pub record Constraint : Type 0 where
  pub tp : ConstraintType
  pub keys : List (Option Str)

unfoldable pub mark_key : ConstraintType → Column → Column
mark_key primary_key_constraint col = record col { primary_key = true; nullable = false }
mark_key key_constraint col = record col { index = true }
mark_key index_constraint col = record col { index = true }
mark_key uniq_key_constraint col = record col { unique = true }
mark_key other_constraint col = col

-- The change is made through the pointer, so in the table; a column that is not there is passed.
unfoldable pub apply_key : ConstraintType → Str → Table → Table
unfolding mark_key find_column
apply_key tp name t = elim (find_column t name) [
  | none ↦ t
  | some (i, col) ↦ record t { columns = set t.columns i (mark_key tp col) }
]

unfoldable pub apply_keys : ConstraintType → List (Option Str) → Table → Result Table
unfolding apply_key
apply_keys tp [] t = ok t
apply_keys tp (none ∷ ks) t = panicked
apply_keys tp (some k ∷ ks) t = apply_keys tp ks (apply_key tp k t)

unfoldable pub get_constraint : List Constraint → Table → Result Table
unfolding apply_keys
get_constraint [] t = ok t
get_constraint (c ∷ cs) t = apply_keys c.tp c.keys t >>= get_constraint cs

pub data TableOption : Type 0 where
  comment_table_option : Str → TableOption
  other_table_option : TableOption

storage_options : List TableOption → Table → Table
storage_options [] t = t
storage_options (comment_table_option s ∷ os) t = storage_options os (record t { comment = s })
storage_options (other_table_option ∷ os) t = storage_options os t

unfoldable pub get_storage : List TableOption → Table → Table
unfolding storage_options
get_storage os t = storage_options os (record t { storage = codes "ReplacingMergeTree" })

-- The variables of `getOrderByPolicy`.
pub record OrderState : Type 0 where
  pub orders : List Str
  pub backs : List Str
  pub fronts : List Str
  pub pkname : Str
  pub pknum : ℕ

abbrev pub start_order : OrderState
start_order = record { orders = []; backs = []; fronts = []; pkname = []; pknum = 0 }

abbrev pub is_key : Column → Bool
is_key col = col.primary_key || (col.index || col.unique)

-- The name in the sorting key.
abbrev pub order_name : Column → Str
order_name col =
    if col.nullable then codes "assumeNotNull(" ++ (col.name ++ codes ")") else col.name

add_order : Column → OrderState → OrderState
add_order col s =
    let name = order_name col in
    record s {
      orders = s.orders ++ (name ∷ []);
      backs = if col.increment then s.backs ++ (name ∷ []) else s.backs;
      fronts = if col.increment then s.fronts else s.fronts ++ (name ∷ []);
      pkname = if col.primary_key then name else s.pkname;
      pknum = if col.primary_key then s.pknum + 1 else s.pknum;
    }

unfoldable pub order_loop : List Column → OrderState → OrderState
unfolding add_order
order_loop [] s = s
order_loop (col ∷ cols) s =
    order_loop cols
      (if contains s.orders col.name then s else (if is_key col then add_order col s else s))

unfoldable pub get_order_by_policy : Table → Result Table
unfolding order_loop
get_order_by_policy t =
    let s = order_loop t.columns start_order in
    if s.pknum == 0
    then err (codes "error: " ++ (t.schema ++ (codes " " ++ (t.name ++ codes " lost primary key"))))
    else ok (record t {
      orders =
          if s.pknum == 1 && length s.orders == 1
          then (codes "tuple(" ++ (s.pkname ++ codes ")")) ∷ []
          else t.orders ++ (s.fronts ++ s.backs);
    })

-- `numbers_partition`.
unfoldable pub numbers_partition : Str → ℕ → Str
numbers_partition name type_max_size =
    if leb type_max_size 1000
    then name
    else codes "intDiv(" ++ (name ++ (codes "," ++ (itoa (type_max_size / 1000) ++ codes ")")))

-- The partition that a primary key column of a type asks for; `none` leaves what was there.
unfoldable pub partition_of : Str → Str → Option Str
unfolding numbers_partition
partition_of data_type name =
    let date = codes "toYYYYMM(" ++ (name ++ codes ")") in
    let is = str_eq data_type in
    if is (codes "Date32") || is (codes "DateTime")
    then some date
    else (if is (codes "Int8") || is (codes "Uint8")
        then some (numbers_partition name (2 ^ 8 - 1))
        else (if is (codes "Int16") || is (codes "Uint16")
            then some (numbers_partition name (2 ^ 16 - 1))
            else (if is (codes "Int32") || is (codes "Uint32")
                then some (numbers_partition name (2 ^ 32 - 1))
                else (if is (codes "Int64") || is (codes "Uint64")
                    then some (numbers_partition name (2 ^ 64 - 1))
                    else none))))

abbrev replace_partition : Option Str → Str → Str
replace_partition none old = old
replace_partition (some s) old = s

unfoldable pub partition_loop : List Column → Str → Str
unfolding partition_of
partition_loop [] old = old
partition_loop (col ∷ cols) old =
    partition_loop cols
      (if col.primary_key then replace_partition (partition_of col.data_type col.name) old else old)

unfoldable pub get_partition_policy : Table → Table
unfolding partition_loop
get_partition_policy t = record t { partition = partition_loop t.columns t.partition }
