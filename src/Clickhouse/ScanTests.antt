-- ===== src/Clickhouse/ScanTests.antt =====
-- Runs of clickhouse/datatypes.go, and its theorem at a concrete input.
use kit_go.Common.{◌≡◌, refl, Option, none, some, List, [], ◌∷◌, Str, codes, get_elem?, true}
use kit_go.Mysql.Value.{decimal, TableColumn, Value, nil, str}
use kit_go.Mysql.Samples.{id_column}
use kit_go.Clickhouse.Scan.{
  good, panics, Base, int32_base, string_base, date_time_base, typed, Library, decimal_of_any,
  convert_at, scan_loop, scan_i_row_from_mysql, scan_row_from_mysql, parse_type,
}
use kit_go.Clickhouse.Scan.Rows.{scan, scan_loop_lem}

abbrev name_of : Base → Option Str
name_of int32_base = some (codes "Int32")
name_of string_base = some (codes "String")
name_of date_time_base = some (codes "DateTime")
name_of (typed s) = some s
name_of _ = none

-- A driver that keeps the type with the value.
abbrev driver : Library (Str × Value)
driver = record {
  type_text = λ t. codes "9";
  type_name = name_of;
  append_and_scan = λ type name v. good (type, v);
  new_decimal = λ s. good (str s);
}

abbrev price_column : TableColumn
price_column = record {
  name = codes "p";
  type = decimal;
  raw_type = codes "dECIMAL(9,2)";
  enum_values = [];
  set_values = [];
}

abbrev kept_value : TableColumn → Value → Value
kept_value col v = v

abbrev two_columns : List TableColumn
two_columns = id_column ∷ price_column ∷ []

abbrev only_price : Option (List Str)
only_price = some (codes "p" ∷ [])

abbrev price_row : List Value
price_row = nil ∷ str (codes "1.50") ∷ []

abbrev blank_row : List (Str × Value)
blank_row = ([], nil) ∷ ([], nil) ∷ []

price_scanned :
    scan_i_row_from_mysql driver kept_value only_price two_columns price_row blank_row
    ≡ (([], nil) ∷ (codes "Decimal(9,2)", str (codes "1.50")) ∷ [], good tt)
unfolding scan_i_row_from_mysql
price_scanned = refl

-- The other function takes the decimal as bytes only.
string_panics :
    scan_row_from_mysql driver kept_value only_price two_columns price_row blank_row
    ≡ (blank_row, panics)
unfolding scan_row_from_mysql
string_panics = refl

nullable_id : parse_type driver id_column true ≡ good (codes "Nullable(Int32)")
unfolding parse_type
nullable_id = refl

scan_loop_lem_example :
    ((d : Str × Value) × (convert_at driver
          (decimal_of_any driver)
          kept_value
          only_price
          price_column
          (some (str (codes "1.50")))
        ≡ good d)
      × (get_elem?
            (scan driver
              (decimal_of_any driver)
              kept_value
              only_price
              0
              two_columns
              price_row
              blank_row).0
            1
          ≡ some d))
    × (get_elem?
          (scan driver
            (decimal_of_any driver)
            kept_value
            only_price
            0
            two_columns
            price_row
            blank_row).0
          0
        ≡ some ([], nil))
scan_loop_lem_example =
    scan_loop_lem driver (decimal_of_any driver) kept_value only_price two_columns price_row
      blank_row 1 0 price_column refl refl refl price_fine
  where
    price_fine :
        (scan driver
          (decimal_of_any driver)
          kept_value
          only_price
          0
          two_columns
          price_row
          blank_row).1
        ≡ good tt
    price_fine = unfold scan_loop decimal_of_any in refl
