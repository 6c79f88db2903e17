-- ===== src/CanalV1/FullData.antt =====
-- canal/v1/canal.go: the full copy of the tables before the replication, and the statements that
-- create them. Rows of a query are pairs of texts; the table filter, the server's answers and
-- package regexp are parameters.
pub mod Groups
pub mod Creates
use kit_go.Common.{
  ℕ, zero, suc, ◌-◌, ◌+◌, ◌==◌, Bool, true, false, ◌||◌, Option, none, some, List, [], ◌∷◌, ◌++◌,
  map, if◌then◌else◌, is_empty, length, contains, Str, codes,
}
use kit_go.Common.Maps.{lookup, insert}
use kit_go.Common.Replace.{has_prefix, replace_loop}

abbrev pub table_key : Str × Str → Str
table_key (db, table) = db ++ (codes "." ++ table)

-- The tables of a database in the map; a missing key gives none.
abbrev pub tables_of : Str → List (Str × List Str) → List Str
tables_of db dbs = elim (lookup db dbs) [ none ↦ [] | some ts ↦ ts ]

-- The loop of `FetchFullData` that groups the tables of each database.
unfoldable pub group_tables :
    (Str → Bool) → List (Str × Str) → List (Str × List Str) → List (Str × List Str)
group_tables check [] dbs = dbs
group_tables check ((db, table) ∷ rows) dbs =
    let grouped = group_tables check rows (insert db (tables_of db dbs ++ (table ∷ [])) dbs) in
    let skipped = group_tables check rows dbs in
    if check (table_key (db, table)) then grouped else skipped

unfoldable pub back_quote : Str → Str
back_quote s = codes "`" ++ (s ++ codes "`")

abbrev pub select_column : Str × Str → Str
unfolding back_quote
select_column (name, type) =
    if has_prefix type (codes "set") then back_quote name ++ codes " + 0" else back_quote name

-- The loop over the columns, with a comma before every one but the first.
abbrev pub select_columns : ℕ → List (Str × Str) → Str
select_columns i [] = []
select_columns i (c ∷ cs) =
    let comma = if i == 0 then [] else codes "," in
    comma ++ (select_column c ++ select_columns (i + 1) cs)

abbrev concat : List Str → Str
concat [] = []
concat (s ∷ ss) = s ++ concat ss

unfoldable pub select_text : Str → Str → List (Str × Str) → List Str → Str
select_text db table columns conditions =
    codes "SELECT "
    ++ (select_columns 0 columns
        ++ (codes " FROM "
            ++ (back_quote db ++ (codes "." ++ (back_quote table ++ concat conditions)))))

abbrev pub create_table : Str → Str
create_table quoted = codes "CREATE TABLE " ++ quoted

abbrev pub qualify : Str → Str → Option Str → Str
qualify db table none = []
qualify db table (some ss) =
    replace_loop 0 (create_table (back_quote table))
      (create_table (back_quote db ++ (codes "." ++ back_quote table))) ss

-- `fetchTableCreteSql`: the server's answer to SHOW CREATE TABLE; `none` is an error.
unfoldable pub fetch_table_crete_sql : (Str → Option Str) → Str → Str → Str
unfolding replace_loop back_quote
fetch_table_crete_sql show db table =
    qualify db table (show (codes "SHOW CREATE TABLE " ++ table_key (db, table)))

abbrev text_or_empty : Option Str → Str
text_or_empty none = []
text_or_empty (some ss) = ss

unfoldable pub fetch_db_create_sql : (Str → Option Str) → Str → Str
fetch_db_create_sql show db = text_or_empty (show (codes "SHOW CREATE DATABASE " ++ db))

-- Whether one of the patterns matches: `compile` is `none` for a text that is no pattern.
abbrev pub skip_matches : (Str → Option (Str → Bool)) → Str → List Str → Bool
skip_matches compile key [] = false
skip_matches compile key (s ∷ ss) =
    elim (compile s) [ none ↦ false | some k ↦ k key ] || skip_matches compile key ss

abbrev pub is_skipped : (Str → Option (Str → Bool)) → List Str → Str × Str → Bool
is_skipped compile skip (db, table) =
    contains skip db
    || (contains skip (table_key (db, table)) || skip_matches compile (table_key (db, table)) skip)

abbrev append_sql : Str → List Str → List Str
append_sql sql creates = if is_empty sql then creates else creates ++ (sql ∷ [])

-- The loop of `GetAllCreateSql` over the rows. The map `indb` is made anew in each round, so it
-- never has the database.
unfoldable pub create_loop :
    (Str → Bool)
    → (Str → Option (Str → Bool))
    → (Str → Option Str)
    → List Str
    → List (Str × Str)
    → List Str
    → List Str
unfolding fetch_db_create_sql fetch_table_crete_sql
create_loop check compile show skip [] creates = creates
create_loop check compile show skip ((db, table) ∷ rows) creates =
    let done =
      append_sql (fetch_table_crete_sql show db table)
        (append_sql (fetch_db_create_sql show db) creates) in
    let more = create_loop check compile show skip rows done in
    let next = create_loop check compile show skip rows creates in
    if check (table_key (db, table))
    then (if is_skipped compile skip (db, table) then next else more)
    else next

-- `GetAllCreateSql`; the rows are `none` where the query fails, which gives the nil slice.
unfoldable pub get_all_create_sql :
    (Str → Bool)
    → (Str → Option (Str → Bool))
    → (Str → Option Str)
    → List Str
    → Option (List (Str × Str))
    → List Str
unfolding create_loop
get_all_create_sql check compile show skip none = []
get_all_create_sql check compile show skip (some rows) = create_loop check compile show skip rows []
