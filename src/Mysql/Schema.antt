-- ===== src/Mysql/Schema.antt =====
-- mysql/mysql.go: the columns of a query that copies a table, and the statements that create
-- tables and databases. What a query answers is a parameter: its rows as pairs of texts, or `none`
-- for an error.
pub mod Queries
use kit_go.Common.{
  ℕ, ◌-◌, Option, none, some, List, [], ◌∷◌, ◌++◌, if◌then◌else◌, is_empty, length, take, Str,
  codes, ◌>>=◌, get_elem?,
}
use kit_go.Common.Maps.{insert}
use kit_go.Common.Replace.{has_prefix, replace_loop}

unfoldable pub back_quote : Str → Str
back_quote s = codes "`" ++ (s ++ codes "`")

abbrev pub query_column : Str × Str → Str
unfolding back_quote
query_column (name, type) =
    if has_prefix type (codes "set") then back_quote name ++ codes " + 0" else back_quote name

-- The loop over the columns, with a comma behind every one.
unfoldable pub column_loop : List (Str × Str) → Str
column_loop [] = []
column_loop (c ∷ cs) = query_column c ++ (codes "," ++ column_loop cs)

-- The slice without the last byte.
abbrev pub cut_last : Str → Str
cut_last s = take (length s - 1) s

abbrev pub columns_text : Option (List (Str × Str)) → Str
columns_text none = []
columns_text (some rows) = if is_empty (column_loop rows) then [] else cut_last (column_loop rows)

unfoldable pub rewrite_mysql_query_column :
    (Str → Str → Option (List (Str × Str))) → Str → Str → Str
unfolding column_loop
rewrite_mysql_query_column columns schema table = columns_text (columns schema table)

abbrev pub create_table : Str → Str
create_table quoted = codes "CREATE TABLE " ++ quoted

-- The statement with the table's name behind that of its database.
unfoldable pub with_database : Str → Str → Str → Str
unfolding replace_loop back_quote
with_database db table sql =
    replace_loop 0 (create_table (back_quote table))
      (create_table (back_quote db ++ (codes "." ++ back_quote table))) sql

-- The inner loop of `FetchTablesCreateQuery`, over the rows of an answer.
abbrev pub store_tables : Str → Str → List (Str × Str) → List (Str × Str) → List (Str × Str)
store_tables db table [] m = m
store_tables db table ((name, sql) ∷ rows) m =
    store_tables db table rows (insert name (with_database db table sql) m)

abbrev pub store_dbs : List (Str × Str) → List (Str × Str) → List (Str × Str)
store_dbs [] m = m
store_dbs ((name, sql) ∷ rows) m = store_dbs rows (insert name sql m)

-- The result is the map, and the error of the query that failed.
pub data Answer : Type 0 where
  rows : List (Str × Str) → Answer
  failed : Str → Answer

abbrev pub store_answer :
    (List (Str × Str) → List (Str × Str))
    → (List (Str × Str) → List (Str × Str) × Option Str)
    → Answer
    → List (Str × Str)
    → List (Str × Str) × Option Str
store_answer store rest (failed e) m = (m, some e)
store_answer store rest (rows rs) m = rest (store m)

abbrev pub rows_of : Answer → List (Str × Str)
rows_of (rows rs) = rs
rows_of (failed e) = []

unfoldable pub fetch_tables_create_query :
    (Str → Answer) → Str → List Str → List (Str × Str) → List (Str × Str) × Option Str
unfolding with_database back_quote
fetch_tables_create_query show db [] m = (m, none)
fetch_tables_create_query show db (t ∷ ts) m =
    let answer =
      show (codes "SHOW CREATE TABLE " ++ (back_quote db ++ (codes "." ++ back_quote t))) in
    store_answer (store_tables db t (rows_of answer)) (fetch_tables_create_query show db ts) answer
      m

unfoldable pub fetch_db_create_query :
    (Str → Answer) → List Str → List (Str × Str) → List (Str × Str) × Option Str
unfolding back_quote
fetch_db_create_query show [] m = (m, none)
fetch_db_create_query show (d ∷ ds) m =
    let answer = show (codes "SHOW CREATE DATABASE " ++ back_quote d) in
    store_answer (store_dbs (rows_of answer)) (fetch_db_create_query show ds) answer m

-- `GetTableCreateSql`; no row in the answer is a panic, `none`.
abbrev pub first_create : (Str → Str) → Answer → Option Str
first_create qualify (failed e) = some []
first_create qualify (rows []) = none
first_create qualify (rows ((name, sql) ∷ _)) = some (qualify sql)

unfoldable pub get_table_create_sql : (Str → Answer) → Str → Str → Option Str
unfolding with_database back_quote
get_table_create_sql show db table =
    first_create (with_database db table)
      (show (codes "SHOW CREATE TABLE " ++ (back_quote db ++ (codes "." ++ back_quote table))))

unfoldable pub get_db_create_sql : (Str → Answer) → Str → Option Str
unfolding back_quote
get_db_create_sql show db =
    first_create (λ sql. sql) (show (codes "SHOW CREATE DATABASE " ++ back_quote db))
