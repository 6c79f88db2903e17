-- ===== src/Canal/Tests.antt =====
-- Runs of canal/, and its theorems at concrete inputs.
use kit_go.Common.{
  ℕ, ◌≡◌, ◌*◌, refl, Bool, true, false, ◌&&◌, ◌||◌, Option, none, some, List, [], ◌∷◌, arith, All,
  Str, codes, str_eq,
}
use kit_go.Canal.Master.{MasterInfo, second, save, close, complete, load}
use kit_go.Canal.Master.Saved.{load-save, close-save}
use kit_go.Canal.Work.{Arrival, Worker, start, turn, work}
use kit_go.Canal.Work.Positions.{Holds, message, work-Holds}
use kit_go.Canal.Work.Times.{Recent, received, work-Recent}
use kit_go.Canal.Work.Writes.{tick_at, turn_forced, first_tick_erases}
use kit_go.Canal.Filter.{FilterTable, exclude, match_table}
use kit_go.Canal.Filter.Matching.{any_hits, match_table_lem, match_table-exclude}

abbrev stored : MasterInfo
stored = record { gtid = codes "a:1"; lastsave_time = 0; file = some (codes "a:1") }

abbrev worker : Worker
worker = record { lastsave_time = 0; gtid_set = codes "a:1"; master = stored; closed = false }

-- Two messages, of which the second is not forced and comes too early to be remembered.
abbrev arrivals : List Arrival
arrivals =
    message (codes "a:2") true (2 * second) (2 * second) none
    ∷ message (codes "a:3") false (3 * second) (3 * second) none
    ∷ tick_at (4 * second) none
    ∷ []

run : (work arrivals worker).master.file ≡ some (codes "a:2")
unfolding work
run = refl

written : some (codes "a:2") ≡ (save (2 * second) none (codes "a:2") stored).0.file
unfolding save
written = refl

saved_is_loaded :
    load complete (record { gtid = []; lastsave_time = 0; file = some (codes "a:2") }) ≡ (
      record { gtid = codes "a:2"; lastsave_time = 0; file = some (codes "a:2") },
      codes "a:2",
      none,
    )
saved_is_loaded =
    load-save (2 * second) (codes "a:2") stored
      (record { gtid = []; lastsave_time = 0; file = some (codes "a:2") }) (omega arith) written

close-save_run :
    let (closed, error) = close 8 none (save 5 none (codes "a:2") stored).0 in
    (closed.file ≡ some (codes "a:1")) × (closed.gtid ≡ codes "a:2") × (error ≡ none)
close-save_run = close-save 5 8 none none (codes "a:2") stored (omega arith) (omega arith)

abbrev IsKnown : Str → Type 0
IsKnown s = (str_eq s (codes "a:1") || (str_eq s (codes "a:2") || str_eq s (codes "a:3"))) ≡ true

work-Holds_example : Holds IsKnown (work arrivals worker)
work-Holds_example = work-Holds IsKnown arrivals worker (refl, (refl, (tt, tt))) (refl, refl)

work-Recent_example : All (Recent (work arrivals worker).lastsave_time) (received arrivals)
work-Recent_example = work-Recent arrivals worker (omega arith, (omega arith, (omega arith, tt)))

turn_forced_example :
    let sent : ℕ → Option Str → Worker = λ u r. turn (message (codes "a:2") true 5 u r) worker in
    ((sent second none).master.file ≡ some (codes "a:2"))
    × ((sent second (some (codes "no space"))).master.file ≡ some (codes "a:1"))
    × ((sent second (some (codes "no space"))).closed ≡ true)
    × ((sent 5 none).master.file ≡ some (codes "a:1"))
    × ((sent 5 none).closed ≡ false)
turn_forced_example =
    turn_forced (codes "a:2") (codes "no space") 5 second 5 none worker (omega arith) (omega arith)

first_tick_erases_run :
    (work (tick_at second none ∷ []) (start 0 (load complete stored).0)).master.file ≡ some []
first_tick_erases_run = first_tick_erases complete stored 0 second (omega arith)

-- Patterns that are plain names; the empty one does not compile.
abbrev compile_name : Str → Option (Str → Bool)
compile_name [] = none
compile_name (x ∷ s) = some (str_eq (x ∷ s))

abbrev two_tables : FilterTable
two_tables = record { include = codes "a" ∷ [] ∷ codes "b" ∷ []; exclude = codes "b" ∷ [] }

match_table_lem_run :
    match_table compile_name two_tables (codes "b")
    ≡ (any_hits compile_name (codes "b") two_tables.include && false)
match_table_lem_run = match_table_lem compile_name two_tables (codes "b")

excluded_table :
    match_table compile_name (exclude (codes "a" ∷ []) two_tables) (codes "a")
    ≡ (match_table compile_name two_tables (codes "a") && false)
excluded_table = match_table-exclude compile_name two_tables (codes "a" ∷ []) (codes "a")
