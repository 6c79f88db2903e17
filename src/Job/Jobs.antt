-- ===== src/Job/Jobs.antt =====
-- utils/job/job.go: the list of jobs. The set `added` is the list of its elements; the channel
-- and the context are the arrivals of Job.Board.
pub mod Once
use kit_go.Common.{
  ℕ, Bool, true, false, List, [], ◌∷◌, ◌++◌, if◌then◌else◌, contains, Str, codes, ℤ,
}

-- `StatusInfo`; times are numbers.
pub record StatusInfo : Type 0 where
  pub ref : Str
  pub status : Str
  pub offset : ℤ
  pub total : ℤ
  pub started_at : ℕ
  pub updated_at : ℕ

-- `Jobs`.
pub record JobList : Type 0 where
  pub name : Str
  pub added : List Str
  pub descs : List Str
  pub resolved : Bool
  pub active : List StatusInfo

unfoldable pub new_jobs : Str → JobList
new_jobs name = record { name = name; added = []; descs = []; resolved = false; active = [] }

unfoldable pub add : Str → JobList → JobList
add desc j =
    if contains j.added desc
    then record j { resolved = true }
    else record j { resolved = true; descs = j.descs ++ (desc ∷ []); added = desc ∷ j.added }

unfoldable pub set_status : List StatusInfo → JobList → JobList
set_status active j = record j { active = j.active ++ active }

abbrev pub status_done : Str
status_done = codes "done"

abbrev pub status_exists : Str
status_exists = codes "exists"

abbrev pub status_running : Str
status_running = codes "running"

abbrev pub status_resolved : Str
status_resolved = codes "resolved"

abbrev pub status_resolving : Str
status_resolving = codes "resolving"
