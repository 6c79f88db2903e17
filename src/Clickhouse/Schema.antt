-- ===== src/Clickhouse/Schema.antt =====
-- clickhouse/clickhouse.go: the table that a MySQL statement describes, and how its columns are
-- read. The statement's syntax tree is that of the parser package, as far as the code reads it.
pub mod Columns
use kit_go.Common.{
  ℕ, zero, suc, ◌+◌, Bool, true, false, Option, none, some, List, [], ◌∷◌, ◌++◌, map, if◌then◌else◌,
  ltb, length, get_elem?, set, Str, codes, itoa, ℤ, pos, negsuc,
}
use kit_go.Common.Maps.{lookup, insert}
use kit_go.Clickhouse.Dml.{Flags}

-- The column types of the parser's mysql package that the code names.
pub data FieldKind : Type 0 where
  enum timestamp datetime duration unspecified float double new_decimal other_kind : FieldKind

pub record FieldType : Type 0 where
  pub kind : FieldKind
  pub charset : Str
  pub flen : ℤ
  pub decimal : ℤ
  pub elems : List Str

pub data ColumnOption : Type 0 where
  not_null auto_increment primary_key_option other_option : ColumnOption
  comment_option : Str → ColumnOption

pub record ColumnDef : Type 0 where
  pub name : Str
  pub tp : Option FieldType
  pub options : List ColumnOption

-- The struct `column`.
pub record Column : Type 0 where
  pub name : Str
  pub data_type : Str
  pub increment : Bool
  pub comment : Str
  pub nullable : Bool
  pub primary_key : Bool
  pub index : Bool
  pub unique : Bool
  pub precision : ℤ
  pub scale : ℤ
  pub relative_column : Str

pub data AlterType : Type 0 where
  no_action add_columns modify_column drop_index drop_column rename_column : AlterType

-- The struct `table`; the map `colpos` is an association list.
pub record Table : Type 0 where
  pub schema : Str
  pub name : Str
  pub comment : Str
  pub colpos : List (Str × ℕ)
  pub columns : List Column
  pub storage : Str
  pub version_name : Str
  pub orders : List Str
  pub partition : Str
  pub ddl_action : AlterType

abbrev pub empty_table : Table
empty_table = record {
  schema = [];
  name = [];
  comment = [];
  colpos = [];
  columns = [];
  storage = [];
  version_name = [];
  orders = [];
  partition = [];
  ddl_action = no_action;
}

abbrev pub mapped_types : List (Str × Str)
mapped_types =
    (codes "tinyint", codes "Int8")
    ∷ (codes "smallint", codes "Int16")
    ∷ (codes "mediumint", codes "Int32")
    ∷ (codes "int", codes "Int32")
    ∷ (codes "integer", codes "Int32")
    ∷ (codes "bigint", codes "Int64")
    ∷ (codes "float", codes "Float32")
    ∷ (codes "double", codes "Float64")
    ∷ (codes "timestamp", codes "DateTime")
    ∷ (codes "datetime", codes "DateTime")
    ∷ (codes "boolean", codes "Bool")
    ∷ (codes "bit", codes "UInt64")
    ∷ (codes "set", codes "UInt64")
    ∷ (codes "year", codes "Uint16")
    ∷ (codes "Time", codes "Int64")
    ∷ (codes "date", codes "Date32")
    ∷ (codes "geometry", codes "String")
    ∷ (codes "varchar", codes "String")
    ∷ (codes "char", codes "String")
    ∷ (codes "text", codes "String")
    ∷ (codes "blob", codes "String")
    ∷ (codes "mediumtext", codes "String")
    ∷ (codes "mediumblob", codes "String")
    ∷ (codes "longtext", codes "String")
    ∷ (codes "decimal", codes "Decimal")
    ∷ (codes "enum", codes "Enum8")
    ∷ []

-- `types.UnspecifiedLength`.
abbrev pub unspecified_length : ℤ
unspecified_length = negsuc 0

-- A column as `getColumns` makes it.
abbrev pub new_column : Str → Column
new_column name = record {
  name = name;
  data_type = [];
  increment = false;
  comment = [];
  nullable = true;
  primary_key = false;
  index = false;
  unique = false;
  precision = pos 0;
  scale = pos 0;
  relative_column = [];
}

-- "'a'=1,'b'=2": `i` elements have been written.
enum_text : ℕ → List Str → Str
enum_text i [] = []
enum_text i (e ∷ es) =
    let one = codes "'" ++ (e ++ (codes "'=" ++ itoa (i + 1))) in
    let rest = enum_text (i + 1) es in (elim i [ zero ↦ one | suc _ ↦ codes "," ++ one ]) ++ rest

enum_type : List Str → Str
unfolding enum_text
enum_type elems =
    (if ltb 127 (length elems) then codes "Enum16" else codes "Enum8")
    ++ (codes "(" ++ (enum_text 0 elems ++ codes ")"))

-- The `switch` on the column's type.
sized : FieldKind → FieldType → Column → Column
unfolding enum_type
sized enum ft col = record col { data_type = enum_type ft.elems }
sized timestamp ft col = record col { precision = ft.decimal }
sized datetime ft col = record col { precision = ft.decimal }
sized duration ft col = record col { precision = ft.decimal }
sized unspecified ft col = record col { precision = ft.flen; scale = ft.decimal }
sized float ft col = record col { precision = ft.flen; scale = ft.decimal }
sized double ft col = record col { precision = ft.flen; scale = ft.decimal }
sized new_decimal ft col = record col { precision = ft.flen; scale = ft.decimal }
sized other_kind ft col = col

unfoldable pub apply_options : List ColumnOption → Column → Column
apply_options [] col = col
apply_options (not_null ∷ os) col = apply_options os (record col { nullable = false })
apply_options (auto_increment ∷ os) col = apply_options os (record col { increment = true })
apply_options (comment_option s ∷ os) col = apply_options os (record col { comment = s })
apply_options (primary_key_option ∷ os) col = apply_options os (record col { primary_key = true })
apply_options (other_option ∷ os) col = apply_options os col

abbrev mapped : Option Str → Str
mapped none = []
mapped (some s) = s

-- `type_to_str` is the parser's `types.TypeToStr`.
module _ (type_to_str : FieldKind → Str → Str) where
  typed : Option FieldType → Column → Column
  unfolding sized
  typed none col = col
  typed (some ft) col = sized ft.kind ft (record col {
    data_type = mapped (lookup (type_to_str ft.kind ft.charset) mapped_types);
    precision = unspecified_length;
    scale = unspecified_length;
  })

  unfoldable pub column_of : ColumnDef → Column
  unfolding typed apply_options
  column_of c = apply_options c.options (typed c.tp (new_column c.name))

  unfoldable pub positions : ℕ → List ColumnDef → List (Str × ℕ) → List (Str × ℕ)
  positions i [] m = m
  positions i (c ∷ cs) m = positions (i + 1) cs (insert c.name i m)

  unfoldable pub get_columns : Table → List ColumnDef → Table
  unfolding column_of positions
  get_columns t cols = record t { columns = map column_of cols; colpos = positions 0 cols [] }

unfoldable pub add_version_column : Flags → Table → Table
add_version_column fl t = record t {
  columns =
      t.columns
      ++ (key_column fl.del_key (codes "UInt8 MATERIALIZED 1")
          ∷ key_column fl.version_key (codes "UInt64 MATERIALIZED 1")
          ∷ []);
  version_name = fl.version_key;
}
  where
    key_column : Str → Str → Column
    key_column name data_type =
        let col = new_column name in
        record col {
          data_type = data_type;
          nullable = false;
          precision = unspecified_length;
          scale = unspecified_length;
        }

-- The place and the column that `findColumn` points to; `none` is the nil pointer. An index past
-- the end of the columns would be a Go panic; `colpos` holds none.
unfoldable pub find_column : Table → Str → Option (ℕ × Column)
find_column t name = elim (lookup name t.colpos) [
  | none ↦ none
  | some i ↦ elim (get_elem? t.columns i) [ none ↦ none | some col ↦ some (i, col) ]
]
