-- ===== src/Job/Board.antt =====
-- utils/job/job.go: `StartProcess` and `ShowProcess`, up to the display. What a round reads of
-- the jobs and the active entries is part of its arrival: one entry from the channel in
-- `StartProcess`, all of `active` at a tick in `ShowProcess`.
pub mod Display
use kit_go.Common.{
  ℕ, Bool, true, false, not, ◌&&◌, ◌||◌, Option, none, some, List, [], ◌∷◌, map, if◌then◌else◌,
  contains, Str, str_eq, pos,
}
use kit_go.Common.Maps.{lookup, insert}
use kit_go.Job.Jobs.{
  StatusInfo, JobList, status_done, status_exists, status_running, status_resolved,
  status_resolving,
}

abbrev pub Statuses : Type 0
Statuses = List (Str × StatusInfo)

abbrev pub with_status : Str → Str → StatusInfo
with_status ref status = record {
  ref = ref;
  status = status;
  offset = pos 0;
  total = pos 0;
  started_at = 0;
  updated_at = 0;
}

abbrev pub is_finished : StatusInfo → Bool
is_finished s = str_eq s.status status_done || str_eq s.status status_exists

-- What `done` makes of the entry of one job.
abbrev finish_entry : Str → Option StatusInfo → Statuses → Statuses
finish_entry key none m = insert key (with_status key status_done) m
finish_entry key (some s) m =
    if is_finished s then m else insert key (record s { status = status_done }) m

-- One round of the loop over the jobs. Before `done`, a job without an entry, or one that runs,
-- waits; any other is left alone too.
unfoldable pub settle : Bool → List Str → Str → Statuses → Statuses
settle done seen key m =
    if contains seen key then m else (if done then finish_entry key (lookup key m) m else m)

unfoldable pub settle_all : Bool → List Str → List Str → Statuses → Statuses
unfolding settle
settle_all done seen [] m = m
settle_all done seen (k ∷ ks) m = settle_all done seen ks (settle done seen k m)

unfoldable pub note_active : List StatusInfo → Statuses → Statuses
note_active [] m = m
note_active (a ∷ as') m = note_active as' (insert a.ref a m)

abbrev ref_of : StatusInfo → Str
ref_of a = a.ref

-- The entry of the list itself.
abbrev pub own_entry : JobList → StatusInfo
own_entry j = with_status j.name (if j.resolved then status_resolved else status_resolving)

-- The map after a round that displays.
unfoldable pub refresh : Bool → JobList → List StatusInfo → Statuses → Statuses
unfolding settle_all note_active
refresh done ongoing active m =
    let own = insert ongoing.name (own_entry ongoing) m in
    let running = settle_all false (map ref_of active) ongoing.descs (note_active active own) in
    let ended = settle_all true [] ongoing.descs own in if done then ended else running

-- A key without an entry shows Go's zero value.
abbrev pub entry_or_zero : Option StatusInfo → StatusInfo
entry_or_zero none = with_status [] []
entry_or_zero (some s) = s

abbrev pub shown : Statuses → Str → StatusInfo
shown m key = entry_or_zero (lookup key m)

-- `ordered`: the list itself, then its jobs.
unfoldable pub ordered : JobList → Statuses → List StatusInfo
ordered ongoing m = map (shown m) (ongoing.name ∷ ongoing.descs)

-- What the `select` receives.
pub data Arrival : Type 0 where
  update : JobList → List StatusInfo → Arrival
  ended : Arrival

-- The loop: the last display, if it returns; `none` is a loop that waits for more.
unfoldable pub process : List Arrival → Bool → Statuses → Option (JobList × List StatusInfo)
unfolding refresh ordered
process [] done m = none
process (ended ∷ as') done m = process as' true m
process (update ongoing active ∷ as') done m =
    let m' = refresh done ongoing active m in
    let rest = process as' done m' in if done then some (ongoing, ordered ongoing m') else rest
