-- ===== src/Job/Tests.antt =====
-- Runs of utils/job/job.go, and its theorems at concrete inputs.
use kit_go.Common.{◌≡◌, refl, true, false, none, some, List, [], ◌∷◌, contains, Str, codes}
use kit_go.Job.Jobs.{StatusInfo, JobList, new_jobs, status_running}
use kit_go.Job.Jobs.Once.{NoRepeats, add_all, add_all_lem}
use kit_go.Job.Board.{with_status, Arrival, update, ended, process}
use kit_go.Job.Board.Display.{AllFinished, process_finishes, process_waits_on}

abbrev descs : List Str
descs = codes "a" ∷ codes "b" ∷ codes "a" ∷ []

add_all_lem_example :
    let listed = (add_all descs (new_jobs (codes "jobs"))).descs in
    NoRepeats listed × ((s : Str) → contains listed s ≡ contains descs s)
add_all_lem_example = add_all_lem (codes "jobs") descs

abbrev two_jobs : JobList
two_jobs = record {
  name = codes "jobs";
  added = codes "b" ∷ codes "a" ∷ [];
  descs = codes "a" ∷ codes "b" ∷ [];
  resolved = true;
  active = [];
}

abbrev running : StatusInfo
running = with_status (codes "a") status_running

abbrev arrivals : List Arrival
arrivals = update two_jobs (running ∷ []) ∷ ended ∷ update two_jobs [] ∷ []

process_finishes_example :
    (r : JobList × List StatusInfo) × (process arrivals false [] ≡ some r) × AllFinished r
process_finishes_example = process_finishes arrivals [] refl

process_waits_on_run : process (update two_jobs (running ∷ []) ∷ ended ∷ ended ∷ []) false [] ≡ none
process_waits_on_run =
    process_waits_on (update two_jobs (running ∷ []) ∷ []) (ended ∷ []) [] refl refl
