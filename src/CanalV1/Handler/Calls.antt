-- ===== src/CanalV1/Handler/Calls.antt =====
-- Which calls `OnDDL` of canal/v1/handler.go makes, and what it leaves.
use kit_go.Common.{
  ℕ, ◌≡◌, refl, ◌∙◌, Bool, true, Option, none, some, List, [], ◌∷◌, ◌++◌, if◌then◌else◌, Str,
  Bool-cases, inl, inr,
}
use kit_go.CanalV1.ParseStmt.{TableRef, DdlAcl, ddl_filter, parse_sql}
use kit_go.CanalV1.Handler.{
  Syncer, DdlFn, QueryEvent, send, table_key, after_call, call_tables, Parse, parsed, refused,
  handle, on_ddl,
}

-- Goes on unless there is an error.
abbrev pub unless_error : {W : Type 0} → (W → W × Option Str) → W × Option Str → W × Option Str
unless_error rest (w, none) = rest w
unless_error rest (w, some e) = (w, some e)

-- The handler's state after its calls: an error closes it.
abbrev pub finish : {W : Type 0} → Syncer W → W × Option Str → Syncer W × Option Str
finish s (w, none) = (record s { world = w }, none)
finish s (w, some e) = (record s { world = w; closed = true }, some e)

module _ (check_table_match : Str → Bool) where
  -- The tables that the filter of the replication lets through.
  abbrev pub matching : List TableRef → List TableRef
  matching [] = []
  matching (t ∷ ts) =
      let rest = matching ts in if check_table_match (table_key t) then t ∷ rest else rest

module _ {W : Type 0} (check_table_match : Str → Bool) where
  -- The callback on one table after the other, up to the first error.
  abbrev pub run_calls : DdlFn W → ℕ → Str → List TableRef → W → W × Option Str
  run_calls fn action sql [] w = (w, none)
  run_calls fn action sql (t ∷ ts) w =
      unless_error (run_calls fn action sql ts) (fn action t.schema sql w)

  finish-world :
      (s : Syncer W) (w : W) (r : W × Option Str) → finish (record s { world = w }) r ≡ finish s r
  finish-world s w (_, none) = refl
  finish-world s w (_, some e) = refl

  after_call-finish :
      (rest : Syncer W → Syncer W × Option Str) (calls : W → W × Option Str)
      (same : (s : Syncer W) → rest s ≡ finish s (calls s.world)) (s : Syncer W)
      (r : W × Option Str)
      → after_call check_table_match rest s r ≡ finish s (unless_error calls r)
  unfolding after_call
  after_call-finish rest calls same s (w, none) =
      same (record s { world = w }) ∙ finish-world s w (calls w)
  after_call-finish rest calls same s (w, some e) = refl

  call_tables-run_calls :
      (fn : DdlFn W) (action : ℕ) (sql : Str) (ts : List TableRef) (s : Syncer W)
      → call_tables check_table_match fn action sql ts s
        ≡ finish s (run_calls fn action sql (matching check_table_match ts) s.world)
  unfolding call_tables
  call_tables-run_calls fn action sql [] s = refl
  call_tables-run_calls fn action sql (t ∷ ts) s =
      elim (Bool-cases (check_table_match (table_key t))) [
        | inl e ↦ rw e (
            after_call-finish (call_tables check_table_match fn action sql ts)
              (run_calls fn action sql (matching check_table_match ts))
              (call_tables-run_calls fn action sql ts) s (fn action t.schema sql s.world))
        | inr e ↦ rw e (call_tables-run_calls fn action sql ts s)
      ]

  -- What becomes of an event after its position has been sent, by what the parser answers.
  abbrev pub outcome : DdlFn W → DdlAcl → QueryEvent → Syncer W → Parse → Syncer W × Option Str
  outcome fn acl e s (refused message) = (record s { closed = true }, some message)
  outcome fn acl e s (parsed stmt) =
      let t = parse_sql e.schema stmt in
      let calls = run_calls fn t.ddlaction e.query (matching check_table_match t.tables) s.world in
      if ddl_filter t acl then finish s calls else (s, none)

  handle-outcome :
      (fn : DdlFn W) (acl : DdlAcl) (e : QueryEvent) (s : Syncer W) (p : Parse)
      → handle check_table_match fn acl e.schema e.query p s ≡ outcome fn acl e s p
  unfolding handle
  handle-outcome fn acl e s (refused message) = refl
  handle-outcome fn acl e s (parsed stmt) =
      let t = parse_sql e.schema stmt in
      rw (call_tables-run_calls fn t.ddlaction e.query t.tables s) refl

  -- The position of a DDL event is sent first. Then a text that is not parsed closes the handler
  -- with the parser's error, an action that the filter refuses changes nothing more, and else the
  -- callback is called for the tables that match, in order, up to its first error, which closes
  -- the handler and is returned.
  pub on_ddl_lem :
      (ctx_err : Option Str) (parse : Str → Parse) (fn : DdlFn W) (acl : DdlAcl) (e : QueryEvent)
      (s : Syncer W)
      → on_ddl check_table_match ctx_err parse (some fn) acl e s
        ≡ outcome fn acl e (send e.gset s) (parse e.query)
  unfolding on_ddl
  on_ddl_lem ctx_err parse fn acl e s = handle-outcome fn acl e (send e.gset s) (parse e.query)

  sync_ch-finish : (s : Syncer W) (r : W × Option Str) → (finish s r).0.sync_ch ≡ s.sync_ch
  sync_ch-finish s (w, none) = refl
  sync_ch-finish s (w, some e) = refl

  sync_ch-handle :
      (fn : DdlFn W) (acl : DdlAcl) (schema sql : Str) (p : Parse) (s : Syncer W)
      → (handle check_table_match fn acl schema sql p s).0.sync_ch ≡ s.sync_ch
  unfolding handle
  sync_ch-handle fn acl schema sql (refused m) s = refl
  sync_ch-handle fn acl schema sql (parsed stmt) s =
      let t = parse_sql schema stmt in
      elim (Bool-cases (ddl_filter t acl)) [
        | inl e ↦
            rw (e, call_tables-run_calls fn t.ddlaction sql t.tables s)
              (sync_ch-finish s
                (run_calls fn t.ddlaction sql (matching check_table_match t.tables) s.world))
        | inr e ↦ rw e refl
      ]

  -- The position after a DDL event is sent to be saved whatever becomes of the event: also where
  -- its text is not parsed, or the callback answers an error.
  pub sync_ch-on_ddl :
      (ctx_err : Option Str) (parse : Str → Parse) (fn : Option (DdlFn W)) (acl : DdlAcl) (g : Str)
      (query schema : Str) (s : Syncer W)
      → let e : QueryEvent = record { gset = some g; query = query; schema = schema } in
        (on_ddl check_table_match ctx_err parse fn acl e s).0.sync_ch
        ≡ s.sync_ch ++ ((g, true) ∷ [])
  unfolding on_ddl send
  sync_ch-on_ddl ctx_err parse none acl g query schema s = refl
  sync_ch-on_ddl ctx_err parse (some fn) acl g query schema s =
      sync_ch-handle fn acl schema query (parse query)
        (record s { sync_ch = s.sync_ch ++ ((g, true) ∷ []) })
