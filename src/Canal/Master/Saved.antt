-- ===== src/Canal/Master/Saved.antt =====
-- What `Save` and `Close` of canal/master.go leave in the file.
use kit_go.Common.{ℕ, ◌≤◌, ◌<◌, ◌+◌, ◌≡◌, Option, none, arith, Str}
use kit_go.Canal.Master.{MasterInfo, second, save, close, complete, load}

-- A position that is saved at least a second after the one before, by a write without an error,
-- is what a later `Load` reads, whatever its record held.
pub load-save :
    (now : ℕ) (set : Str) (m fresh : MasterInfo)
    → m.lastsave_time + second ≤ now
    → fresh.file ≡ (save now none set m).0.file
    → load complete fresh ≡ (record fresh { gtid = set }, set, none)
unfolding load save
load-save now set m fresh h e = ground arith

-- A position that is saved, and then closed over, within a second of the last write never
-- reaches the file: `Close` answers no error and the file holds what it held before.
pub close-save :
    (now later : ℕ) (answer answer' : Option Str) (set : Str) (m : MasterInfo)
    → now ≤ later
    → later < m.lastsave_time + second
    → let (closed, error) = close later answer' (save now answer set m).0 in
      (closed.file ≡ m.file) × (closed.gtid ≡ set) × (error ≡ none)
unfolding close save
close-save now later answer answer' set m h k = ground arith
