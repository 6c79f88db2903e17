-- ===== src/Canal/Export.antt =====
-- canal/fullexport.go: `FullDataExport`, over a session that changes a world `W`. An index out of
-- range and a call of nil are Go panics, for which the functions return `none`.
pub mod Reads
use kit_go.Common.{Option, none, some, List, [], ◌∷◌, ◌++◌, Str, codes, split}

pub data TableAnswer (Info : Type 0) : Type 0 where
  failed : Str → TableAnswer Info
  found : Info → TableAnswer Info

-- The client's methods, `execute` with the first cell of its result or `none` for an error, and
-- `update` of the GTID set.
pub record Session (W Info Row : Type 0) : Type 0 where
  pub execute : Str → W → W × Option Str
  pub get_table_info : Str → Str → W → W × TableAnswer Info
  pub select_streaming : Str → (Row → W → W × Option Str) → W → W × Option Str
  pub close : W → W
  pub update : Str → W → W

-- What `fn` does with a description, and the function for the rows that it returns.
abbrev pub Export : Type 0 → Type 0 → Type 0 → Type 0
Export W Info Row = Info → W → W × (Row → W → W × Option Str)

abbrev pub start_text : Str
start_text = codes "START TRANSACTION /*!40100 WITH CONSISTENT SNAPSHOT */"

abbrev pub gtid_text : Str
gtid_text = codes "SELECT @@GLOBAL.GTID_EXECUTED"

abbrev pub unlock_text : Str
unlock_text = codes "UNLOCK TABLES"

abbrev pub commit_text : Str
commit_text = codes "COMMIT"

abbrev pub select_all : Str → Str
select_all table = codes "select * from " ++ table

module _ {W Info Row : Type 0} (s : Session W Info Row) where
  -- A statement of which the code drops the result.
  abbrev pub send : Str → W → W
  send sql w = (s.execute sql w).0

  -- The statements before the transaction.
  abbrev pub lock_tables : W → W
  lock_tables w = send (codes "FLUSH TABLES WITH READ LOCK") (
      send (codes "FLUSH /*!40101 LOCAL */ TABLES")
        (send (codes "SET @master_heartbeat_period=1") w))

  abbrev pub begin_snapshot : W → W
  begin_snapshot w =
      send start_text (send (codes "SET SESSION TRANSACTION ISOLATION LEVEL REPEATABLE READ") w)

  abbrev pub stream : Str → W × (Row → W → W × Option Str) → W × Option Str
  stream table (w, exec) = s.select_streaming (select_all table) exec w

  abbrev pub with_info :
      Option (Export W Info Row) → Str → W × TableAnswer Info → Option (W × Option Str)
  with_info fn table (w, failed e) = some (w, some e)
  with_info none table (w, found info) = none
  with_info (some fn) table (w, found info) = some (stream table (fn info w))

  abbrev pub copy_parts : Option (Export W Info Row) → Str → List Str → W → Option (W × Option Str)
  copy_parts fn table [] w = none
  copy_parts fn table (_ ∷ []) w = none
  copy_parts fn table (db ∷ name ∷ _) w = with_info fn table (s.get_table_info db name w)

  -- The body of the loop, up to the test of its error.
  unfoldable pub copy_table : Option (Export W Info Row) → Str → W → Option (W × Option Str)
  copy_table fn table w = copy_parts fn table (split b'.' table) w

  -- The end of the body.
  abbrev pub end_table : W → W
  end_table w = s.close (send commit_text (send unlock_text w))

  -- The rest of the loop, unless there is an error or a panic.
  abbrev pub go_on :
      Option (W × Option Str) → (W → Option (W × Option Str)) → Option (W × Option Str)
  go_on none next = none
  go_on (some (w, some e)) next = some (w, some e)
  go_on (some (w, none)) next = next w

  unfoldable pub table_loop : Option (Export W Info Row) → List Str → W → Option (W × Option Str)
  table_loop fn [] w = some (w, none)
  table_loop fn (table ∷ tables) w =
      go_on (copy_table fn table w) (λ v. table_loop fn tables (end_table v))

  -- A nil result has no cell.
  abbrev pub from_gtid :
      Option (Export W Info Row) → List Str → W × Option Str → Option (W × Option Str)
  from_gtid fn tables (w, none) = none
  from_gtid fn tables (w, some set) = table_loop fn tables (send unlock_text (s.update set w))

  unfoldable pub full_data_export :
      Option (Export W Info Row) → List Str → W → Option (W × Option Str)
  full_data_export fn tables w =
      from_gtid fn tables (s.execute gtid_text (begin_snapshot (lock_tables w)))
