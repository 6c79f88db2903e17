-- ===== src/CanalV1/ParseStmt/Tables.antt =====
-- The schemas that `parseSql` of canal/v1/parseStmt.go gives to the tables of a statement.
use kit_go.Common.{◌≡◌, refl, ap, List, [], ◌∷◌, ◌++◌, if◌then◌else◌, is_empty, Str}
use kit_go.CanalV1.ParseStmt.{
  TableRef, rename_table, drop_table, schema_after, table_loop, parse_sql,
}

-- The last schema that is written among names, or the default.
abbrev pub last_schema : Str → List TableRef → Str
last_schema schema [] = schema
last_schema schema (t ∷ ts) = last_schema (schema_after schema t.schema) ts

table_loop-append :
    (schema : Str) (ts us : List TableRef)
    → table_loop schema (ts ++ us) ≡ table_loop schema ts ++ table_loop (last_schema schema ts) us
unfolding table_loop
table_loop-append schema [] us = refl
table_loop-append schema (t ∷ ts) us =
    ap (λ r. record t { schema = schema_after schema t.schema } ∷ r)
      (table_loop-append (schema_after schema t.schema) ts us)

-- In a DROP or RENAME a table that is written with its schema has that schema, and one that is
-- written without has the last schema written before it in the statement, the default schema only
-- if none was, whatever tables come before it and after it.
pub parse_sql_schema :
    (schema : Str) (ts us : List TableRef) (t : TableRef)
    → let inherited = if is_empty t.schema then last_schema schema ts else t.schema in
      let tables =
        table_loop schema ts ++ (record t { schema = inherited } ∷ table_loop inherited us) in
      ((parse_sql schema (drop_table (ts ++ (t ∷ us)))).tables ≡ tables)
      × ((parse_sql schema (rename_table (ts ++ (t ∷ us)))).tables ≡ tables)
unfolding parse_sql table_loop
parse_sql_schema schema ts us t =
    (table_loop-append schema ts (t ∷ us), table_loop-append schema ts (t ∷ us))
