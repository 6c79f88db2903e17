-- ===== src/CanalV1/FullData/Groups.antt =====
-- Which tables `FetchFullData` of canal/v1/canal.go copies, and the text of its queries.
use kit_go.Common.{
  ◌≡◌, refl, sym, ap, ◌==◌, ◌∙◌, Bool, false, Option, some, List, [], ◌∷◌, ◌++◌, arith,
  if◌then◌else◌, Str, str_eq, str_eq_iff, codes, join, map, ℕ, ◌+◌, ◌≤◌, append-nil, append_assoc,
  Bool-cases, inl, inr,
}
use kit_go.Common.Maps.{insert, lookup-insert}
use kit_go.Mysql.Schema.{query_column, rewrite_mysql_query_column}
use kit_go.Mysql.Schema.Queries.{rewrite_mysql_query_column_lem}
use kit_go.CanalV1.FullData.{
  table_key, tables_of, group_tables, select_column, select_columns, select_text, concat,
  back_quote,
}

-- The tables of a database that the filter lets through, in the order of the rows.
abbrev pub matching : (Str → Bool) → Str → List (Str × Str) → List Str
matching check db [] = []
matching check db ((d, table) ∷ rows) =
    let rest = matching check db rows in
    if check (table_key (d, table)) then (if str_eq d db then table ∷ rest else rest) else rest

tables_of-insert :
    (k db : Str) (ts : List Str) (dbs : List (Str × List Str))
    → tables_of db (insert k ts dbs) ≡ (if str_eq k db then ts else tables_of db dbs)
tables_of-insert k db ts dbs = ground (arith, lookup-insert k db ts dbs)

tables_of-insert_own :
    (d db table : Str) (dbs : List (Str × List Str)) (rest : List Str)
    → tables_of db (insert d (tables_of d dbs ++ (table ∷ [])) dbs) ++ rest
      ≡ tables_of db dbs ++ (if str_eq d db then table ∷ rest else rest)
tables_of-insert_own d db table dbs rest = elim (Bool-cases (str_eq d db)) [
  | inl e ↦
      rw (tables_of-insert d db (tables_of d dbs ++ (table ∷ [])) dbs, e)
        (rw ((str_eq_iff d db).0 e) (append_assoc (tables_of db dbs) (table ∷ []) rest))
  | inr e ↦ rw (tables_of-insert d db (tables_of d dbs ++ (table ∷ [])) dbs, e) refl
]

-- After the grouping each database has, behind the tables that it had, its tables of the rows
-- that the filter lets through, each once for each row, in the order of the rows.
pub tables_of-group_tables :
    (check : Str → Bool) (rows : List (Str × Str)) (dbs : List (Str × List Str)) (db : Str)
    → tables_of db (group_tables check rows dbs) ≡ tables_of db dbs ++ matching check db rows
unfolding group_tables
tables_of-group_tables check [] dbs db = sym (append-nil (tables_of db dbs))
tables_of-group_tables check ((d, table) ∷ rows) dbs db =
    elim (Bool-cases (check (table_key (d, table)))) [
      | inl e ↦ rw e (
          tables_of-group_tables check rows (insert d (tables_of d dbs ++ (table ∷ [])) dbs) db
          ∙ tables_of-insert_own d db table dbs (matching check db rows))
      | inr e ↦ rw e (tables_of-group_tables check rows dbs db)
    ]

with_commas : List (Str × Str) → Str
with_commas [] = []
with_commas (c ∷ cs) = codes "," ++ (select_column c ++ with_commas cs)

select_columns_later :
    (i : ℕ) (cs : List (Str × Str)) → 1 ≤ i → select_columns i cs ≡ with_commas cs
unfolding with_commas
select_columns_later i [] h = refl
select_columns_later i (c ∷ cs) h =
    let first : (i == 0) ≡ false = ground arith in
    rw first (
      ap (λ r. codes "," ++ (select_column c ++ r)) (select_columns_later (i + 1) cs (omega arith)))

join-with_commas :
    (c : Str × Str) (cs : List (Str × Str))
    → select_column c ++ with_commas cs ≡ join (codes ",") (map select_column (c ∷ cs))
unfolding with_commas
join-with_commas c [] = append-nil (select_column c)
join-with_commas c (d ∷ cs) = ap (λ r. select_column c ++ (codes "," ++ r)) (join-with_commas d cs)

-- The query that copies a table with at least one column has its columns joined by commas, each
-- in back quotes and a set column with ` + 0`, then the table, then the conditions as given.
pub select_text_lem :
    (db table : Str) (c : Str × Str) (cs : List (Str × Str)) (conditions : List Str)
    → select_text db table (c ∷ cs) conditions
      ≡ codes "SELECT "
        ++ (join (codes ",") (map select_column (c ∷ cs))
            ++ (codes " FROM "
                ++ (back_quote db ++ (codes "." ++ (back_quote table ++ concat conditions)))))
unfolding select_text
select_text_lem db table c cs conditions =
    ap
      (λ r.
        codes "SELECT "
        ++ (r
            ++ (codes " FROM "
                ++ (back_quote db ++ (codes "." ++ (back_quote table ++ concat conditions))))))
      (rw (select_columns_later 1 cs (omega arith)) (join-with_commas c cs))

columns_agree : (cs : List (Str × Str)) → map select_column cs ≡ map query_column cs
unfolding back_quote kit_go.Mysql.Schema.back_quote
columns_agree [] = refl
columns_agree (c ∷ cs) = ap (λ r. query_column c ∷ r) (columns_agree cs)

-- The query of `FetchFullData` has the columns that `RewriteMysqlQueryColumn` of mysql/mysql.go
-- gives for the same table, where the table has columns: one writes a comma before all columns
-- but the first, the other behind each and cuts off the last.
pub select_text-rewrite_mysql_query_column :
    (columns : Str → Str → Option (List (Str × Str))) (db table : Str) (c : Str × Str)
    (cs : List (Str × Str)) (conditions : List Str)
    → columns db table ≡ some (c ∷ cs)
    → select_text db table (c ∷ cs) conditions
      ≡ codes "SELECT "
        ++ (rewrite_mysql_query_column columns db table
            ++ (codes " FROM "
                ++ (back_quote db ++ (codes "." ++ (back_quote table ++ concat conditions)))))
select_text-rewrite_mysql_query_column columns db table c cs conditions h =
    select_text_lem db table c cs conditions
    ∙ ap
        (λ r.
          codes "SELECT "
          ++ (r
              ++ (codes " FROM "
                  ++ (back_quote db ++ (codes "." ++ (back_quote table ++ concat conditions))))))
        (ap (join (codes ",")) (columns_agree (c ∷ cs))
          ∙ sym (rewrite_mysql_query_column_lem columns db table c cs h))
