-- ===== src/Canal/Master.antt =====
-- canal/master.go: the file that holds the position. The file system and the clock are the
-- caller's: each call takes the time that it reads and what the file operation answers. The
-- file is replaced as a whole or, on an error, left as it was (package atomicfile).
pub mod Saved
use kit_go.Common.{
  ℕ, ◌-◌, ◌*◌, ◌^◌, Bool, true, false, Option, none, some, if◌then◌else◌, ltb, [], Str,
}

-- `masterInfo`, with the content of its file, if there is one. Times are in nanoseconds since
-- Go's zero time.
pub record MasterInfo : Type 0 where
  pub gtid : Str
  pub lastsave_time : ℕ
  pub file : Option Str

abbrev pub second : ℕ
second = 10 ^ 9

-- The write of `Save`, with the error that it answers.
write_file : ℕ → Option Str → Str → MasterInfo → MasterInfo × Option Str
write_file now none set m = (record m { gtid = set; lastsave_time = now; file = some set }, none)
write_file now (some e) set m = (record m { gtid = set; lastsave_time = now }, some e)

unfoldable pub save : ℕ → Option Str → Str → MasterInfo → MasterInfo × Option Str
unfolding write_file
save now answer set m =
    if ltb (now - m.lastsave_time) second
    then (record m { gtid = set }, none)
    else write_file now answer set m

unfoldable pub close : ℕ → Option Str → MasterInfo → MasterInfo × Option Str
unfolding save
close now answer m = save now answer m.gtid m

-- What reading the file answers.
pub data Reading : Type 0 where
  not_opened : Reading
  not_read : Str → Reading
  complete : Reading

-- A text or an error; the position stays as it is where nothing was read.
unfoldable pub load : Reading → MasterInfo → MasterInfo × Str × Option Str
load not_opened m = (m, [], none)
load (not_read e) m = (m, [], some e)
load complete m = elim m.file [ none ↦ (m, [], none) | some s ↦ (record m { gtid = s }, s, none) ]
