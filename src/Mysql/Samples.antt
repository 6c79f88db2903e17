-- ===== src/Mysql/Samples.antt =====
-- A table of two columns and a row of it, for the runs of mysql/ and clickhouse/.
use kit_go.Common.{none, List, [], ◌∷◌, codes, pos}
use kit_go.Mysql.Value.{TableColumn, TableInfo, number, string, Value, nil, int64, Formats}

abbrev pub no_formats : Formats
no_formats = record { parse_json = λ s. none; parse_datetime = λ s. none; parse_date = λ s. none }

abbrev pub id_column : TableColumn
id_column = record {
  name = codes "id";
  type = number;
  raw_type = [];
  enum_values = [];
  set_values = [];
}

abbrev pub name_column : TableColumn
name_column = record {
  name = codes "n";
  type = string;
  raw_type = [];
  enum_values = [];
  set_values = [];
}

abbrev pub people : TableInfo
people = record {
  schema = codes "d";
  name = codes "t";
  columns = id_column ∷ name_column ∷ [];
  pk_columns = 0 ∷ [];
}

abbrev pub nobody : List Value
nobody = int64 (pos 7) ∷ nil ∷ []
