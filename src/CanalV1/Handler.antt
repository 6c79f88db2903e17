-- ===== src/CanalV1/Handler.antt =====
-- canal/v1/handler.go: `OnDDL`, `OnPosSynced` and `OnRow`. The callbacks change a world `W` of
-- their own; the parser, the table filter of the replication and the state of the context are
-- parameters. The channel is what has been sent.
pub mod Calls
use kit_go.Common.{
  ℕ, Bool, true, false, not, Option, none, some, List, [], ◌∷◌, ◌++◌, if◌then◌else◌, Str, codes,
}
use kit_go.CanalV1.ParseStmt.{TableRef, Parserx, DdlAcl, Statement, ddl_filter, parse_sql}

-- What the handler changes of `syncer`; `gsetSaver` is a pair.
pub record Syncer (W : Type 0) : Type 0 where
  pub sync_ch : List (Str × Bool)
  pub closed : Bool
  pub world : W

-- A callback: with the action, the schema and the text. It answers an error or none.
abbrev pub DdlFn : Type 0 → Type 0
DdlFn W = ℕ → Str → Str → W → W × Option Str

-- The fields of `QueryEvent` that the handler reads.
pub record QueryEvent : Type 0 where
  pub gset : Option Str
  pub query : Str
  pub schema : Str

unfoldable pub send : {W : Type 0} → Option Str → Syncer W → Syncer W
send none s = s
send (some g) s = record s { sync_ch = s.sync_ch ++ ((g, true) ∷ []) }

abbrev pub table_key : TableRef → Str
table_key t = t.schema ++ (codes "." ++ t.name)

-- The parser answers a statement or an error.
pub data Parse : Type 0 where
  parsed : Statement → Parse
  refused : Str → Parse

module _ {W : Type 0} (check_table_match : Str → Bool) where
  -- What follows a call: `rest` is the remaining loop.
  after_call :
      (Syncer W → Syncer W × Option Str) → Syncer W → W × Option Str → Syncer W × Option Str
  after_call rest s (w, none) = rest (record s { world = w })
  after_call rest s (w, some e) = (record s { world = w; closed = true }, some e)

  unfoldable pub call_tables : DdlFn W → ℕ → Str → List TableRef → Syncer W → Syncer W × Option Str
  unfolding after_call
  call_tables fn action sql [] s = (s, none)
  call_tables fn action sql (t ∷ ts) s =
      let rest = call_tables fn action sql ts in
      let called = after_call rest s (fn action t.schema sql s.world) in
      let skipped = rest s in if check_table_match (table_key t) then called else skipped

  unfoldable pub handle : DdlFn W → DdlAcl → Str → Str → Parse → Syncer W → Syncer W × Option Str
  unfolding call_tables
  handle fn acl schema sql (refused e) s = (record s { closed = true }, some e)
  handle fn acl schema sql (parsed stmt) s =
      let t = parse_sql schema stmt in
      let called = call_tables fn t.ddlaction sql t.tables s in
      if ddl_filter t acl then called else (s, none)

  unfoldable pub on_ddl :
      Option Str
      → (Str → Parse)
      → Option (DdlFn W)
      → DdlAcl
      → QueryEvent
      → Syncer W
      → Syncer W × Option Str
  unfolding handle send
  on_ddl ctx_err parse_one_stmt none acl e s = (send e.gset s, ctx_err)
  on_ddl ctx_err parse_one_stmt (some fn) acl e s =
      handle fn acl e.schema e.query (parse_one_stmt e.query) (send e.gset s)

-- `OnPosSynced`; `none` is a nil set.
unfoldable pub on_pos_synced :
    {W : Type 0} → Option Str → Option Str → Syncer W → Syncer W × Option Str
unfolding send
on_pos_synced ctx_err none s = (s, some (codes "OnPosSynced GTIDSet error"))
on_pos_synced ctx_err (some g) s = (send (some g) s, ctx_err)
