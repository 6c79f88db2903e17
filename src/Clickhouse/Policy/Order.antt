-- ===== src/Clickhouse/Policy/Order.antt =====
-- The sorting key that `getOrderByPolicy` of clickhouse/clickhouse.go chooses.
use kit_go.Common.{
  ℕ, ◌+◌, ◌≡◌, ◌==◌, refl, ◌∙◌, true, false, ◌&&◌, List, [], ◌∷◌, ◌++◌, map, length-map, arith,
  if◌then◌else◌, length, contains, Str, codes, Bool-cases, inl, inr, append_assoc, append-nil,
}
use native.Mathlib.Nat.{zero-add}
use kit_go.Clickhouse.Schema.{Column, Table}
use kit_go.Clickhouse.Policy.{
  ok, err, OrderState, start_order, is_key, order_name, add_order, order_loop, get_order_by_policy,
}

-- No column is called as an entry that the columns before it put into the sorting key.
abbrev pub Fresh : List Str → List Column → Type 0
Fresh seen [] = Unit {0}
Fresh seen (c ∷ cs) =
    (contains seen c.name ≡ false)
    × Fresh (if is_key c then seen ++ (order_name c ∷ []) else seen) cs

abbrev pub key_columns : List Column → List Column
key_columns [] = []
key_columns (c ∷ cs) = let rest = key_columns cs in if is_key c then c ∷ rest else rest

-- Those that are filled in by the server, and the others.
abbrev pub increments : List Column → List Column
increments [] = []
increments (c ∷ cs) = let rest = increments cs in if c.increment then c ∷ rest else rest

abbrev pub plain : List Column → List Column
plain [] = []
plain (c ∷ cs) = let rest = plain cs in if c.increment then rest else c ∷ rest

abbrev pub primaries : List Column → ℕ
primaries [] = 0
primaries (c ∷ cs) = (if c.primary_key then 1 else 0) + primaries cs

abbrev last_primary : Str → List Column → Str
last_primary name [] = name
last_primary name (c ∷ cs) = last_primary (if c.primary_key then order_name c else name) cs

abbrev finish : OrderState → List Column → OrderState
finish s ks = record {
  orders = s.orders ++ map order_name ks;
  backs = s.backs ++ map order_name (increments ks);
  fronts = s.fronts ++ map order_name (plain ks);
  pkname = last_primary s.pkname ks;
  pknum = s.pknum + primaries ks;
}

finish-add_order :
    (c : Column) (ks : List Column) (s : OrderState) → finish (add_order c s) ks ≡ finish s (c ∷ ks)
unfolding add_order
finish-add_order c ks s = ground (
  arith,
  append_assoc s.orders (order_name c ∷ []) (map order_name ks),
  append_assoc s.backs (order_name c ∷ []) (map order_name (increments ks)),
  append_assoc s.fronts (order_name c ∷ []) (map order_name (plain ks)),
)

finish-nil : (s : OrderState) → s ≡ finish s []
finish-nil s = ground (arith, append-nil s.orders, append-nil s.backs, append-nil s.fronts)

order_loop_key :
    (c : Column) (cs : List Column) (s : OrderState)
    → contains s.orders c.name ≡ false
    → is_key c ≡ true
    → order_loop (c ∷ cs) s ≡ order_loop cs (add_order c s)
unfolding order_loop
order_loop_key c cs s h k = rw (h, k)

order_loop_other :
    (c : Column) (cs : List Column) (s : OrderState)
    → contains s.orders c.name ≡ false
    → is_key c ≡ false
    → order_loop (c ∷ cs) s ≡ order_loop cs s
unfolding order_loop
order_loop_other c cs s h k = rw (h, k)

add_order-orders :
    (c : Column) (s : OrderState) → (add_order c s).orders ≡ s.orders ++ (order_name c ∷ [])
unfolding add_order
add_order-orders c s = refl

order_loop-finish :
    (cols : List Column) (s : OrderState)
    → Fresh s.orders cols
    → order_loop cols s ≡ finish s (key_columns cols)
order_loop-finish [] s h = unfold order_loop in finish-nil s
order_loop-finish (c ∷ cs) s (fresh, h) = elim (Bool-cases (is_key c)) [
  | inl k ↦ rw k (
      order_loop_key c cs s fresh k
      ∙ order_loop-finish cs (add_order c s) (rw (add_order-orders c s) (rw k at h))
      ∙ finish-add_order c (key_columns cs) s)
  | inr k ↦ rw k (order_loop_other c cs s fresh k ∙ order_loop-finish cs s (rw k at h))
]

-- What a list of key columns makes of the sorting key.
abbrev pub sorting_key : List Str → List Column → List Str
sorting_key old [] = old
sorting_key old (k ∷ []) = (codes "tuple(" ++ (order_name k ++ codes ")")) ∷ []
sorting_key old (k ∷ l ∷ ks) =
    old ++ (map order_name (plain (k ∷ l ∷ ks)) ++ map order_name (increments (k ∷ l ∷ ks)))

abbrev pub order_error : Table → Str
order_error t =
    codes "error: " ++ (t.schema ++ (codes " " ++ (t.name ++ codes " lost primary key")))

abbrev sorting : Str → List Column → List Str → List Str
sorting name ks old =
    if (primaries ks == 1) && (length ks == 1)
    then (codes "tuple(" ++ (name ++ codes ")")) ∷ []
    else old ++ (map order_name (plain ks) ++ map order_name (increments ks))

length-map_names : (ks : List Column) → length (map order_name ks) ≡ length ks
length-map_names ks = length-map ks order_name

policy-finish :
    (t : Table)
    → Fresh [] t.columns
    → let ks = key_columns t.columns in
      get_order_by_policy t ≡ (
        if primaries ks == 0
        then err (order_error t)
        else ok (record t { orders = sorting (last_primary [] ks) ks t.orders }))
unfolding get_order_by_policy
policy-finish t h =
    rw (
      order_loop-finish t.columns start_order h,
      length-map_names (key_columns t.columns),
      zero-add,
    )

sorting-sorting_key :
    (ks : List Column) (old : List Str)
    → (primaries ks == 0) ≡ false
    → sorting (last_primary [] ks) ks old ≡ sorting_key old ks
sorting-sorting_key [] old h = cc
sorting-sorting_key (k ∷ []) old h = ground arith
sorting-sorting_key (k ∷ l ∷ ks) old h = ground arith

-- Where no column is called as an earlier entry of the sorting key, `getOrderByPolicy` fails
-- exactly if no column is a primary key, and else the key is: for one key column `tuple(name)`,
-- for more of them those without AUTO_INCREMENT and then those with it, each in table order.
pub get_order_by_policy_lem :
    (t : Table)
    → Fresh [] t.columns
    → let ks = key_columns t.columns in
      get_order_by_policy t ≡ (
        if primaries ks == 0
        then err (order_error t)
        else ok (record t { orders = sorting_key t.orders ks }))
get_order_by_policy_lem t h =
    let ks = key_columns t.columns in
    elim (Bool-cases (primaries ks == 0)) [
      | inl none_left ↦ policy-finish t h ∙ rw none_left
      | inr some_left ↦
          policy-finish t h ∙ rw (some_left, sorting-sorting_key ks t.orders some_left)
    ]
