-- ===== src/Canal/RunTests.antt =====
-- Runs of the start of canal/canal.go, and its theorem at a concrete input.
use kit_go.Common.{◌≡◌, refl, ◌++◌, Bool, Option, none, some, List, [], ◌∷◌, Str, codes}
use kit_go.Canal.Filter.{FilterTable}
use kit_go.Canal.Run.{
  Outcome, panicked, default_handler, other_handler, not_set, started, failed, Prepare, Tables,
  rows, run,
}
use kit_go.Canal.Run.Starts.{IsStart, run-IsStart}

abbrev all_tables : FilterTable
all_tables = record { include = []; exclude = [] }

abbrev no_pattern : Str → Option (Str → Bool)
no_pattern s = none

-- The function that copies the tables sets the position, and notes the tables.
abbrev copy_first : Prepare Str (List Str)
copy_first g tables w = (some (codes "g:7"), w ++ tables, none)

abbrev two_tables : Tables
two_tables = rows ((codes "a", codes "t") ∷ (codes "b", codes "u") ∷ [])

started_with : List Str → Option (Prepare Str (List Str)) → Outcome Str (List Str)
started_with args prepare =
    run (λ g. g) (λ s. some s) no_pattern default_handler none none (codes "g:1", none) args prepare
      all_tables two_tables []

argument_first : started_with (codes "g:5" ∷ []) none ≡ started (codes "g:5") []
unfolding started_with run
argument_first = refl

copy_sets :
    started_with [] (some copy_first) ≡ started (codes "g:7") (codes "a.t" ∷ codes "b.u" ∷ [])
unfolding started_with run kit_go.Canal.Run.matching_tables
copy_sets = refl

other_panics :
    run {W = List Str}
      (λ g. g)
      (λ s. some s)
      no_pattern
      other_handler
      none
      none
      (codes "g:1", none)
      []
      none
      all_tables
      two_tables
      []
    ≡ panicked
unfolding run
other_panics = refl

run-IsStart_example :
    IsStart {W = List Str}
      (λ g. g)
      ((default_handler ≡ default_handler)
        × (◌≡◌ {A = Option Str} none none)
        × (◌≡◌ {A = Option Str} none none)
        × (◌≡◌ {A = Option Str} none none))
      (run
        (λ g. g)
        (λ s. some s)
        no_pattern
        default_handler
        none
        none
        (codes "g:1", none)
        (codes "g:5" ∷ [])
        none
        all_tables
        two_tables
        [])
run-IsStart_example =
    run-IsStart (λ g. g) no_pattern none all_tables two_tables (λ s. some s) (codes "g:5" ∷ []) []
      default_handler none none (codes "g:1", none)
