-- ===== src/CanalV1/ParseStmt.antt =====
-- canal/v1/parseStmt.go. The statement is the syntax tree of the parser package, as far as the
-- code reads it; an action is the number of its constant.
pub mod Tables
pub mod Acl
use kit_go.Common.{
  ℕ, ◌+◌, ◌==◌, Bool, true, false, ◌&&◌, List, [], ◌∷◌, if◌then◌else◌, is_empty, Str, codes,
}

-- `table`, and a table name of the syntax tree.
pub record TableRef : Type 0 where
  pub schema : Str
  pub name : Str

-- `parserx`.
pub record Parserx : Type 0 where
  pub tables : List TableRef
  pub ddlaction : ℕ

-- The fields of `ddlAcl` that the filter reads.
pub record DdlAcl : Type 0 where
  pub include : List ℕ
  pub exclude : List ℕ

pub data Statement : Type 0 where
  -- The old names.
  rename_table drop_table : List TableRef → Statement
  -- With the types of its specifications.
  alter_table : TableRef → List ℕ → Statement
  create_table truncate_table : TableRef → Statement
  create_database drop_database : Str → Statement
  other_statement : Statement

-- The constants are `1000 + iota + 1`, from 1001 for CreateDatabase to 1007 for TruncateTable.
-- `slices.Contains` on actions.
abbrev pub has_action : List ℕ → ℕ → Bool
has_action [] a = false
has_action (x ∷ xs) a = let rest = has_action xs a in if x == a then true else rest

unfoldable pub ddl_filter : Parserx → DdlAcl → Bool
ddl_filter p a =
    let included = has_action a.include p.ddlaction in
    let flag = if has_action a.exclude p.ddlaction then false else included in
    if is_empty a.exclude && is_empty a.include then true else flag

-- `schemaName` after a name with this schema.
abbrev pub schema_after : Str → Str → Str
schema_after schema named = if is_empty named then schema else named

-- A loop over tables, in which `schemaName` is one variable.
unfoldable pub table_loop : Str → List TableRef → List TableRef
table_loop schema [] = []
table_loop schema (t ∷ ts) =
    let s = schema_after schema t.schema in record t { schema = s } ∷ table_loop s ts

abbrev one_table : Str → TableRef → List TableRef
one_table schema t = record t { schema = schema_after schema t.schema } ∷ []

-- The action of the last specification.
abbrev pub last_spec : ℕ → List ℕ → ℕ
last_spec a [] = a
last_spec a (x ∷ xs) = last_spec x xs

abbrev pub any_table : Str
any_table = codes "*"

abbrev whole_database : Str → Str → List TableRef
whole_database schema name = record { schema = schema_after schema name; name = any_table } ∷ []

unfoldable pub parse_sql : Str → Statement → Parserx
unfolding table_loop
parse_sql schema (rename_table ts) = record { tables = table_loop schema ts; ddlaction = 1003 }
parse_sql schema (alter_table t specs) = record {
  tables = one_table schema t;
  ddlaction = last_spec 1005 specs;
}
parse_sql schema (drop_table ts) = record { tables = table_loop schema ts; ddlaction = 1006 }
parse_sql schema (create_table t) = record { tables = one_table schema t; ddlaction = 1004 }
parse_sql schema (truncate_table t) = record { tables = one_table schema t; ddlaction = 1007 }
parse_sql schema (create_database name) = record {
  tables = whole_database schema name;
  ddlaction = 1001;
}
parse_sql schema (drop_database name) = record {
  tables = whole_database schema name;
  ddlaction = 1002;
}
parse_sql schema other_statement = record { tables = []; ddlaction = 0 }
