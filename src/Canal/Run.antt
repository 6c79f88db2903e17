-- ===== src/Canal/Run.antt =====
-- canal/canal.go: `Run`, from the options of the container to the position that the replication
-- starts from. The canal, the parser of positions and the position file are parameters; `G` is a
-- position set of package mysql, where `none` is nil, and `W` is the world that the function
-- `Prepare` changes.
pub mod Starts
use kit_go.Common.{
  Bool, true, false, ◌||◌, Option, none, some, List, [], ◌∷◌, ◌++◌, if◌then◌else◌, is_empty, Str,
  codes,
}
use kit_go.Canal.Filter.{FilterTable, match_table}

-- How a run ends before the replication, or the position and the world that it starts with.
pub data Outcome (G W : Type 0) : Type 0 where
  no_handler not_set panicked : Outcome G W
  failed : Str → W → Outcome G W
  started : G → W → Outcome G W

-- The container's function is called with the position, which it may update, and the tables.
abbrev pub Prepare : Type 0 → Type 0 → Type 0
Prepare G W = Option G → List Str → W → Option G × W × Option Str

-- What the query for the tables answers.
pub data Tables : Type 0 where
  rows : List (Str × Str) → Tables
  query_error : Str → Tables

-- The position of the file, or that of the one argument that is not empty.
unfoldable pub choose : {G : Type 0} → (Str → Option G) → Str → List Str → Option G
choose parse loaded (g ∷ []) = if is_empty g then parse loaded else parse g
choose parse loaded _ = parse loaded

-- The tables that the filter lets through, in the order of the rows.
unfoldable pub matching_tables :
    (Str → Option (Str → Bool)) → FilterTable → List (Str × Str) → List Str
unfolding match_table
matching_tables compile filter [] = []
matching_tables compile filter ((db, table) ∷ rs) =
    let t = db ++ (codes "." ++ table) in
    let rest = matching_tables compile filter rs in
    if match_table compile filter t then t ∷ rest else rest

-- The container's handler: nil, the package's own, or another one.
pub data Handler : Type 0 where
  nil_handler default_handler other_handler : Handler

-- What `Init` and `Load` of the position file answer, and what follows with the text.
abbrev pub loaded_then :
    {G W : Type 0} → Option Str → Str × Option Str → W → (Str → Outcome G W) → Outcome G W
loaded_then (some e) _ w k = failed e w
loaded_then none (g, some e) w k = failed e w
loaded_then none (g, none) w k = k g

module _ {G W : Type 0} (string : G → Str) where
  abbrev pub start_from : Option G → W → Outcome G W
  start_from none w = not_set
  start_from (some g) w = if is_empty (string g) then not_set else started g w

  abbrev pub after_prepare : Option G × W × Option Str → Outcome G W
  after_prepare (g, w, some e) = failed e w
  after_prepare (g, w, none) = start_from g w

  unfoldable pub prepared :
      (Str → Option (Str → Bool))
      → Option (Prepare G W)
      → FilterTable
      → Tables
      → Option G
      → W
      → Outcome G W
  unfolding matching_tables
  prepared compile none filter tables g w = start_from g w
  prepared compile (some prepare) filter (query_error e) g w = failed (codes "get dbs: " ++ e) w
  prepared compile (some prepare) filter (rows rs) g w =
      after_prepare (prepare g (matching_tables compile filter rs) w)

  -- The error of the dialling or of `NewCanal`, and then the handler: one that is not the package's own leaves `h` nil,
  -- and its field is read.
  abbrev pub with_handler : Handler → Option Str → W → Outcome G W → Outcome G W
  with_handler nil_handler _ w rest = no_handler
  with_handler default_handler (some e) w rest = failed e w
  with_handler other_handler (some e) w rest = failed e w
  with_handler default_handler none w rest = rest
  with_handler other_handler none w rest = panicked

  unfoldable pub run :
      (Str → Option G)
      → (Str → Option (Str → Bool))
      → Handler
      → Option Str
      → Option Str
      → Str × Option Str
      → List Str
      → Option (Prepare G W)
      → FilterTable
      → Tables
      → W
      → Outcome G W
  unfolding choose prepared
  run parse compile handler new_error init load gtid_executed prepare filter tables w =
      let rest =
        loaded_then init load w
          (λ text. prepared compile prepare filter tables (choose parse text gtid_executed) w) in
      with_handler handler new_error w rest
