-- ===== src/Mysql/Value.antt =====
-- mysql/mysql.go: `valueType` and `ValueToString`, which turn a cell of a binlog or dump row into
-- the value that is written. The layouts of package time and the decoder of package
-- encoding/json are the functions of `Formats`.
pub mod Members
use kit_go.Common.{
  ℕ, zero, suc, ◌+◌, ◌/◌, ◌%◌, ◌^◌, Bool, true, false, ◌&&◌, Option, none, some, List, [], ◌∷◌,
  ◌++◌, map, ltb, ◌==◌, if◌then◌else◌, get_elem?, Str, codes, str_eq, join, itoa, ℤ, pos, negsuc,
  int_eq, word64, show_ℤ,
}

-- The column types of the schema package that the source names.
pub data ColumnType : Type 0 where
  number float enum set datetime timestamp date bit json string decimal unlisted : ColumnType

pub record TableColumn : Type 0 where
  pub name : Str
  pub type : ColumnType
  pub raw_type : Str
  pub enum_values : List Str
  pub set_values : List Str

pub record TableInfo : Type 0 where
  pub schema : Str
  pub name : Str
  pub columns : List TableColumn
  pub pk_columns : List ℕ

-- A value of Go's `interface{}`. `other` has any other dynamic type, with that type's name and
-- the text that `%v` prints.
pub data Value : Type 0 where
  nil : Value
  int64 : ℤ → Value
  str : Str → Value
  bytes : Str → Value
  other : Str → Str → Value

abbrev pub is_nil : Value → Bool
is_nil nil = true
is_nil _ = false

-- `reflect.DeepEqual`.
abbrev pub deep_equal : Value → Value → Bool
deep_equal nil nil = true
deep_equal (int64 a) (int64 b) = int_eq a b
deep_equal (str a) (str b) = str_eq a b
deep_equal (bytes a) (bytes b) = str_eq a b
deep_equal (other a s) (other b t) = str_eq a b && str_eq s t
deep_equal _ _ = false

-- `json.Unmarshal`; `time.ParseInLocation` and `time.Parse` followed by `Format`, where `none` is
-- an error or the zero time.
pub record Formats : Type 0 where
  pub parse_json : Str → Option Value
  pub parse_datetime : Str → Option Str
  pub parse_date : Str → Option Str

-- The element at `value - 1`, or "" out of range.
unfoldable pub enum_value : List Str → ℤ → Str
enum_value values (pos zero) = []
enum_value values (pos (suc n)) = elim (get_elem? values n) [ none ↦ [] | some s ↦ s ]
enum_value values (negsuc n) = []

-- `bitmask&int64(1<<uint(i)) > 0`: the int64 1<<63 is negative, and wider shifts are 0.
abbrev pub has_member : ℕ → ℕ → Bool
has_member word i = ltb i 63 && word / 2 ^ i % 2 == 1

unfoldable pub set_members : ℕ → ℕ → List Str → List Str
set_members word i [] = []
set_members word i (s ∷ rest) =
    let more = set_members word (i + 1) rest in if has_member word i then s ∷ more else more

abbrev time_value : Option Str → Value
time_value none = nil
time_value (some t) = str t

abbrev json_value : Option Value → Value → Value
json_value none v = v
json_value (some nil) v = v
json_value (some f) v = f

module _ (f : Formats) where
  typed_value : ColumnType → TableColumn → Value → Value
  unfolding enum_value set_members
  typed_value enum col (int64 v) = str (enum_value col.enum_values v)
  typed_value set col (int64 v) = str (join (codes ",") (set_members (word64 v) 0 col.set_values))
  typed_value bit col (str s) = if str_eq s (1 ∷ []) then int64 (pos 1) else int64 (pos 0)
  typed_value string col (bytes s) = str s
  typed_value json col (str s) = json_value (f.parse_json s) (str s)
  typed_value json col (bytes s) = json_value (f.parse_json s) (bytes s)
  typed_value datetime col (str s) = time_value (f.parse_datetime s)
  typed_value timestamp col (str s) = time_value (f.parse_datetime s)
  typed_value date col (str s) = time_value (f.parse_date s)
  typed_value _ col v = v

  unfoldable pub value_type : TableColumn → Value → Value
  unfolding typed_value
  value_type col v = typed_value col.type col v

-- `fmt.Sprintf("%v", v)`.
pub sprint : Value → Str
sprint nil = codes "<nil>"
sprint (int64 v) = show_ℤ v
sprint (str s) = s
sprint (bytes s) = codes "[" ++ (join (codes " ") (map itoa s) ++ codes "]")
sprint (other name text) = text

unfoldable pub value_to_string : Formats → TableColumn → Value → Str
unfolding value_type sprint
value_to_string f col v = sprint (value_type f col v)
