-- ===== src/CanalV1/Tests.antt =====
-- Runs of canal/v1/, and its theorems at concrete inputs.
use kit_go.Common.{
  List, none, some, ◌++◌, Str, str_eq, if◌then◌else◌, ◌≡◌, true, false, [], ◌∷◌, codes,
}
use kit_go.CanalV1.Handler.{DdlFn, Syncer, QueryEvent, parsed, refused, send, on_ddl}
use kit_go.CanalV1.Handler.Calls.{outcome, on_ddl_lem, sync_ch-on_ddl}
use kit_go.CanalV1.Master.{MasterInfo, set_gtid, force}
use kit_go.CanalV1.Master.Positions.{set_gtid_lem}
use kit_go.CanalV1.ParseStmt.{
  Statement, TableRef, Parserx, DdlAcl, drop_table, rename_table, ddl_filter, parse_sql,
}
use kit_go.CanalV1.ParseStmt.Tables.{parse_sql_schema}
use kit_go.CanalV1.ParseStmt.Acl.{ddl_filter_lem, ddl_filter_exclude_only}

abbrev qualified_table : TableRef
qualified_table = record { schema = codes "a"; name = codes "t" }

abbrev bare_table : TableRef
bare_table = record { schema = []; name = codes "u" }

-- DROP TABLE a.t, u in the database d.
parse_sql_schema_run :
    ((parse_sql (codes "d") (drop_table (qualified_table ∷ bare_table ∷ []))).tables
      ≡ qualified_table ∷ record { schema = codes "a"; name = codes "u" } ∷ [])
    × ((parse_sql (codes "d") (rename_table (qualified_table ∷ bare_table ∷ []))).tables
        ≡ qualified_table ∷ record { schema = codes "a"; name = codes "u" } ∷ [])
unfolding kit_go.CanalV1.ParseStmt.table_loop
parse_sql_schema_run = parse_sql_schema (codes "d") (qualified_table ∷ []) [] bare_table

abbrev dropped : Parserx
dropped = record { tables = bare_table ∷ []; ddlaction = 1006 }

ddl_filter_lem_run :
    ddl_filter dropped (record { include = 1006 ∷ 1004 ∷ []; exclude = 1004 ∷ [] }) ≡ true
ddl_filter_lem_run =
    ddl_filter_lem dropped (record { include = 1006 ∷ 1004 ∷ []; exclude = 1004 ∷ [] })

exclude_only : ddl_filter dropped (record { include = []; exclude = 1004 ∷ [] }) ≡ false
exclude_only = ddl_filter_exclude_only dropped 1004 []

-- A callback that notes the schemas that it is called with, and refuses the schema b.
abbrev note_schema : DdlFn (List Str)
note_schema action schema sql w =
    if str_eq schema (codes "b") then (w, some (codes "refused")) else (w ++ (schema ∷ []), none)

abbrev drop_statement : Statement
drop_statement = drop_table (qualified_table ∷ record { schema = codes "b"; name = codes "u" } ∷ [])

abbrev syncer : Syncer (List Str)
syncer = record { sync_ch = []; closed = false; world = [] }

abbrev drop_event : QueryEvent
drop_event = record { gset = some (codes "g:1"); query = codes "drop"; schema = codes "d" }

abbrev all_actions : DdlAcl
all_actions = record { include = []; exclude = [] }

on_ddl_lem_example :
    on_ddl
      (λ key. true)
      none
      (λ sql. parsed drop_statement)
      (some note_schema)
      all_actions
      drop_event
      syncer
    ≡ outcome
        (λ key. true)
        note_schema
        all_actions
        drop_event
        (send (some (codes "g:1")) syncer)
        (parsed drop_statement)
on_ddl_lem_example =
    on_ddl_lem (λ key. true) none (λ sql. parsed drop_statement) note_schema all_actions drop_event
      syncer

sync_ch-on_ddl_run :
    (on_ddl
      (λ key. true)
      none
      (λ sql. refused (codes "syntax"))
      (some note_schema)
      all_actions
      drop_event
      syncer).0.sync_ch
    ≡ (codes "g:1", true) ∷ []
sync_ch-on_ddl_run =
    sync_ch-on_ddl (λ key. true) none (λ sql. refused (codes "syntax")) (some note_schema)
      all_actions (codes "g:1") (codes "drop") (codes "d") syncer

abbrev stored : MasterInfo
stored = record { gtid_set = codes "g:1"; file_path = codes "f"; last_save_time = 0; file = none }

held_position :
    ((set_gtid (λ s. s) 5 none (codes "g:9") [] stored).gtid_set ≡ codes "g:1")
    × ((set_gtid (λ s. s) 5 none (codes "g:9") (codes "g:2" ∷ []) stored).gtid_set ≡ codes "g:1")
    × ((force
          (λ s. s)
          5
          none
          (codes "g:2" ∷ [])
          (set_gtid (λ s. s) 5 none (codes "g:9") (codes "g:2" ∷ []) stored)).gtid_set
        ≡ codes "g:2")
held_position = set_gtid_lem (λ s. s) 5 none (codes "g:9") (codes "g:2") stored
