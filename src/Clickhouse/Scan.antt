-- ===== src/Clickhouse/Scan.antt =====
-- clickhouse/datatypes.go: a MySQL row as the values that the ClickHouse driver takes. The
-- driver's columns and package decimal are parameters; an index out of range is a Go panic. Raw
-- types are ASCII texts.
pub mod Rows
use kit_go.Common.{
  ℕ, ◌+◌, ◌-◌, ◌==◌, Bool, true, false, ◌&&◌, Option, none, some, List, [], ◌∷◌, ◌++◌, map,
  if◌then◌else◌, is_empty, contains, Str, codes, set, get_elem?, ltb, leb, length,
}
use kit_go.Mysql.Value.{
  ColumnType, number, float, enum, datetime, timestamp, date, json, string, decimal, TableColumn,
  Value, str, bytes, is_nil,
}
use kit_go.Mysql.Value as Mysql

-- A result, an error, a panic, or what `ScanRow` leaves in its destination with its error.
pub data Result (A : Type 0) : Type 0 where
  good : A → Result A
  bad : Str → Result A
  panics : Result A
  misread : A → Str → Result A

abbrev pub then_with : {A B : Type 0} → Result A → (A → Result B) → Result B
then_with (good a) k = k a
then_with (bad e) k = bad e
then_with panics k = panics
then_with (misread a e) k = bad e

-- The columns of the driver that `parseType` makes; `typed` is `Type(name).Column`.
pub data Base : Type 0 where
  string_base int32_base float64_base date_time_base date_base enum16_base json_base : Base
  typed : Str → Base

-- The number of a column type in package schema, as a text; the name of a driver's column, where
-- there is one; a value appended to a column of a type and read back, which makes the destination
-- before it reads; and package decimal.
pub record Library (D : Type 0) : Type 0 where
  pub type_text : ColumnType → Str
  pub type_name : Base → Option Str
  pub append_and_scan : Str → Str → Value → Result D
  pub new_decimal : Str → Result Value

-- `strings.ToUpper` and `strings.ToLower` of ASCII bytes.
abbrev pub upper_byte : ℕ → ℕ
upper_byte c = if leb b'a' c && leb c b'z' then c - 32 else c

abbrev pub lower_byte : ℕ → ℕ
lower_byte c = if leb b'A' c && leb c b'Z' then c + 32 else c

abbrev pub decimal_base : Str → Result Base
decimal_base [] = panics
decimal_base (c ∷ s) = good (typed (upper_byte c ∷ map lower_byte s))

module _ {D : Type 0} (lib : Library D) where
  -- The switch of `parseType`.
  unfoldable pub base_of : ColumnType → Str → Result Base
  base_of string raw = good string_base
  base_of number raw = good int32_base
  base_of float raw = good float64_base
  base_of datetime raw = good date_time_base
  base_of timestamp raw = good date_time_base
  base_of date raw = good date_base
  base_of enum raw = good enum16_base
  base_of json raw = good json_base
  base_of decimal raw = decimal_base raw
  base_of t raw = bad (codes "mysql_type no match found: " ++ lib.type_text t)

  abbrev pub named_type : Bool → Option Str → Result Str
  named_type nullable none = bad (codes "type error")
  named_type nullable (some name) =
      good (if nullable then codes "Nullable(" ++ (name ++ codes ")") else name)

  -- The type that `parseType` asks the driver for.
  unfoldable pub parse_type : TableColumn → Bool → Result Str
  unfolding base_of
  parse_type col nullable =
      then_with (base_of col.type col.raw_type) (λ b. named_type nullable (lib.type_name b))

  -- A time that is given as bytes becomes a string.
  abbrev pub time_value : ColumnType → Value → Value
  time_value datetime (bytes s) = str s
  time_value timestamp (bytes s) = str s
  time_value _ v = v

  -- The decimal of a value of `ScanIRowFromMysql`, which takes strings, and of `ScanRowFromMysql`,
  -- which takes bytes and panics on another value.
  unfoldable pub decimal_of_any : TableColumn → Value → Result Value
  decimal_of_any col (str s) = lib.new_decimal s
  decimal_of_any col v = bad (col.name ++ codes " ,")

  unfoldable pub decimal_of_field : TableColumn → Value → Result Value
  decimal_of_field col (bytes s) = lib.new_decimal s
  decimal_of_field col v = panics

  abbrev pub number_value :
      (TableColumn → Value → Result Value) → ColumnType → TableColumn → Value → Result Value
  number_value to_decimal decimal col v = to_decimal col v
  number_value to_decimal _ col v = good v

  abbrev pub is_selected : Option (List Str) → TableColumn → Bool
  is_selected none col = true
  is_selected (some fields) col = contains fields col.name

  module _ (to_decimal : TableColumn → Value → Result Value)
      (fix_value : TableColumn → Value → Value) (fields : Option (List Str)) where
    -- The value of a column in the driver's type.
    unfoldable pub convert : TableColumn → Value → Result D
    unfolding parse_type
    convert col v = then_with (parse_type col (is_nil v)) (λ type.
        then_with (number_value to_decimal col.type col (time_value col.type v))
          (λ value. lib.append_and_scan type col.name (fix_value col value)))

    abbrev pub convert_at : TableColumn → Option Value → Result D
    unfolding convert
    convert_at col none = panics
    convert_at col (some v) = convert col v

    -- `dest[idx] = d`, and what follows it.
    abbrev pub place :
        (List D → List D × Result Unit) → ℕ → List D → Result D → List D × Result Unit
    place rest i dest (bad e) = (dest, bad e)
    place rest i dest panics = (dest, panics)
    place rest i dest (misread d e) =
        if ltb i (length dest) then (set dest i d, bad e) else (dest, panics)
    place rest i dest (good d) =
        let placed = rest (set dest i d) in if ltb i (length dest) then placed else (dest, panics)

    -- The loop over the columns from the place `i`: the destination as it is at the end, with the
    -- error or the panic that ended it. Without a function to fix values, `fix_value` is the
    -- identity.
    unfoldable pub scan_loop : ℕ → List TableColumn → List Value → List D → List D × Result Unit
    unfolding convert_at
    scan_loop i [] row dest = (dest, good tt)
    scan_loop i (col ∷ cols) row dest =
        let rest = scan_loop (i + 1) cols row in
        if is_selected fields col
        then place rest i dest (convert_at col (get_elem? row i))
        else rest dest

  unfoldable pub scan_i_row_from_mysql :
      (TableColumn → Value → Value)
      → Option (List Str)
      → List TableColumn
      → List Value
      → List D
      → List D × Result Unit
  unfolding scan_loop decimal_of_any
  scan_i_row_from_mysql fix_value fields columns row dest =
      scan_loop decimal_of_any fix_value fields 0 columns row dest

  unfoldable pub scan_row_from_mysql :
      (TableColumn → Value → Value)
      → Option (List Str)
      → List TableColumn
      → List Value
      → List D
      → List D × Result Unit
  unfolding scan_loop decimal_of_field
  scan_row_from_mysql fix_value fields columns row dest =
      scan_loop decimal_of_field fix_value fields 0 columns row dest
