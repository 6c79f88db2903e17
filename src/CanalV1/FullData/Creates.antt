-- ===== src/CanalV1/FullData/Creates.antt =====
-- The statements that `GetAllCreateSql` of canal/v1/canal.go returns.
use kit_go.Common.{
  ◌≡◌, refl, sym, ap, ◌∙◌, Bool, Option, some, List, [], ◌∷◌, ◌++◌, if◌then◌else◌, is_empty, Str,
  codes, append-nil, append_assoc, Bool-cases, inl, inr,
}
use kit_go.Common.Replace.{replace_loop, replace_loop_first}
use kit_go.CanalV1.FullData.{
  table_key, is_skipped, append_sql, fetch_db_create_sql, fetch_table_crete_sql, create_loop,
  get_all_create_sql, qualify, create_table, back_quote,
}

abbrev filled : Str → List Str → List Str
filled sql rest = if is_empty sql then rest else sql ∷ rest

module _ (check : Str → Bool) (compile : Str → Option (Str → Bool)) (show : Str → Option Str)
    (skip : List Str) where
  -- For every row that is kept, the statement of its database and that of its table, where they
  -- are not empty.
  abbrev pub statements : List (Str × Str) → List Str
  statements [] = []
  statements ((db, table) ∷ rows) =
      let rest = statements rows in
      let both =
        filled (fetch_db_create_sql show db) (filled (fetch_table_crete_sql show db table) rest) in
      if check (table_key (db, table))
      then (if is_skipped compile skip (db, table) then rest else both)
      else rest

  append_sql-filled :
      (sql : Str) (creates rest : List Str)
      → append_sql sql creates ++ rest ≡ creates ++ filled sql rest
  append_sql-filled [] creates rest = refl
  append_sql-filled (x ∷ sql) creates rest = append_assoc creates ((x ∷ sql) ∷ []) rest

  create_loop-statements :
      (rows : List (Str × Str)) (creates : List Str)
      → create_loop check compile show skip rows creates ≡ creates ++ statements rows
  unfolding create_loop
  create_loop-statements [] creates = sym (append-nil creates)
  create_loop-statements ((db, table) ∷ rows) creates =
      let a = fetch_db_create_sql show db in
      let b = fetch_table_crete_sql show db table in
      elim (Bool-cases (check (table_key (db, table)))) [
        | inl c ↦ elim (Bool-cases (is_skipped compile skip (db, table))) [
          | inl s ↦ rw (c, s) (create_loop-statements rows creates)
          | inr s ↦
              rw (c, s)
                (create_loop-statements rows (append_sql b (append_sql a creates))
                  ∙ (append_sql-filled b (append_sql a creates) (statements rows)
                      ∙ append_sql-filled a creates (filled b (statements rows))))
        ]
        | inr c ↦ rw c (create_loop-statements rows creates)
      ]

  -- The result has, for every row that the filter lets through and that is not to be skipped, in
  -- order, the statement of its database and that of its table, as far as the server gives them:
  -- the statement of a database again for each of its tables.
  pub get_all_create_sql_lem :
      (rows : List (Str × Str))
      → get_all_create_sql check compile show skip (some rows) ≡ statements rows
  unfolding get_all_create_sql
  get_all_create_sql_lem rows = create_loop-statements rows []

-- Where the server's answer begins with CREATE TABLE and the table's name, the statement begins
-- with CREATE TABLE and the name behind that of the database.
pub fetch_table_crete_sql_lem :
    (show : Str → Option Str) (db table rest : Str)
    → show (codes "SHOW CREATE TABLE " ++ table_key (db, table))
      ≡ some (create_table (back_quote table) ++ rest)
    → let full = create_table (back_quote db ++ (codes "." ++ back_quote table)) in
      fetch_table_crete_sql show db table
      ≡ full ++ replace_loop 0 (create_table (back_quote table)) full rest
unfolding fetch_table_crete_sql
fetch_table_crete_sql_lem show db table rest h =
    ap (qualify db table) h
    ∙ replace_loop_first b'C' (codes "REATE TABLE " ++ back_quote table)
        (create_table (back_quote db ++ (codes "." ++ back_quote table))) rest
