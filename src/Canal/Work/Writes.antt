-- ===== src/Canal/Work/Writes.antt =====
-- When the loop `work` of canal/event.go writes the position file, and what it writes.
use kit_go.Common.{ℕ, ◌+◌, ◌≤◌, ◌<◌, ◌≡◌, refl, true, Option, none, some, [], ◌∷◌, arith, Str}
use kit_go.Canal.Master.{MasterInfo, second, save, Reading, not_opened, not_read, complete, load}
use kit_go.Canal.Work.{tick, gtid_save, Arrival, Worker, start, write_position, turn, work}

abbrev pub tick_at : ℕ → Option Str → Arrival
tick_at t answer = record { event = tick; now = t; saved_at = t; answer = answer }

write_position_ok :
    (t : ℕ) (w : Worker)
    → w.master.lastsave_time + second ≤ t
    → (write_position t none w).master.file ≡ some w.gtid_set
unfolding write_position save
write_position_ok t w h = ground arith

write_position_fails :
    (t : ℕ) (x : Str) (w : Worker)
    → w.master.lastsave_time + second ≤ t
    → ((write_position t (some x) w).master.file ≡ w.master.file)
      × ((write_position t (some x) w).closed ≡ true)
unfolding write_position save
write_position_fails t x w h = (ground arith, ground arith)

write_position_early :
    (t : ℕ) (answer : Option Str) (w : Worker)
    → t < w.master.lastsave_time + second
    → ((write_position t answer w).master.file ≡ w.master.file)
      × ((write_position t answer w).closed ≡ w.closed)
unfolding write_position save
write_position_early t answer w h = (ground arith, ground arith)

-- A position sent with `force`: at least a second after the last write, it is in the file if the
-- write answers no error, and else the file is as it was and the canal is closed; before that,
-- neither the file nor the canal changes, whatever the answer would be.
pub turn_forced :
    (set x : Str) (now t early : ℕ) (answer : Option Str) (w : Worker)
    → w.master.lastsave_time + second ≤ t
    → early < w.master.lastsave_time + second
    → let sent : ℕ → Option Str → Worker = λ u r.
      turn (record { event = gtid_save set true; now = now; saved_at = u; answer = r }) w in
      ((sent t none).master.file ≡ some set)
      × ((sent t (some x)).master.file ≡ w.master.file)
      × ((sent t (some x)).closed ≡ true)
      × ((sent early answer).master.file ≡ w.master.file)
      × ((sent early answer).closed ≡ w.closed)
unfolding turn
turn_forced set x now t early answer w h k =
    let kept = record w { lastsave_time = now; gtid_set = set } in
    let (file, closed) = write_position_fails t x kept h in
    let (same, open') = write_position_early early answer kept k in
    (write_position_ok t kept h, file, closed, same, open')

lastsave_time-load : (r : Reading) (m : MasterInfo) → (load r m).0.lastsave_time ≡ m.lastsave_time
unfolding load
lastsave_time-load not_opened m = refl
lastsave_time-load (not_read e) m = refl
lastsave_time-load complete m = ground arith

-- Whatever position `Load` has read, the first tick of a loop that has received nothing
-- overwrites the file with the empty text, if its write answers no error and the last write is at
-- least a second ago.
pub first_tick_erases :
    (r : Reading) (m : MasterInfo) (now t : ℕ)
    → m.lastsave_time + second ≤ t
    → (work (tick_at t none ∷ []) (start now (load r m).0)).master.file ≡ some []
unfolding work turn start
first_tick_erases r m now t h =
    let w = start now (load r m).0 in write_position_ok t w (omega (arith, lastsave_time-load r m))
