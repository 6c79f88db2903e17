-- ===== src/Canal/Work.antt =====
-- canal/event.go: the loop `work`, which remembers positions and saves them. What the `select`
-- receives is a list of arrivals, each with the clock that the round reads and the answer of the
-- write that it may make.
pub mod Positions
pub mod Times
pub mod Writes
use kit_go.Common.{
  ℕ, ◌+◌, ◌-◌, ◌*◌, Bool, true, false, ◌||◌, Option, none, some, List, [], ◌∷◌, if◌then◌else◌, ltb,
  Str,
}
use kit_go.Canal.Master.{MasterInfo, second, save}

-- The ends of the `select`; a message is a `gtidSave` or of another type.
pub data Event : Type 0 where
  done tick other_message : Event
  gtid_save : Str → Bool → Event

pub record Arrival : Type 0 where
  pub event : Event
  pub now : ℕ
  pub saved_at : ℕ
  pub answer : Option Str

-- The variables of `work`, the position file, and whether the canal has been closed.
pub record Worker : Type 0 where
  pub lastsave_time : ℕ
  pub gtid_set : Str
  pub master : MasterInfo
  pub closed : Bool

unfoldable pub start : ℕ → MasterInfo → Worker
start now m = record { lastsave_time = now; gtid_set = []; master = m; closed = false }

-- The worker after `Save`, with its error: the canal is closed on one.
abbrev pub after_save : MasterInfo × Option Str → Worker → Worker
after_save (m, none) w = record w { master = m }
after_save (m, some _) w = record w { master = m; closed = true }

unfoldable pub write_position : ℕ → Option Str → Worker → Worker
unfolding save
write_position saved_at answer w = after_save (save saved_at answer w.gtid_set w.master) w

-- Whether a message is remembered.
abbrev pub is_due : ℕ → Bool → Worker → Bool
is_due now force w = force || ltb (3 * second) (now - w.lastsave_time)

-- One round of the loop, for what is not the end.
unfoldable pub turn : Arrival → Worker → Worker
unfolding write_position
turn a w = elim a.event [
  | done ↦ w
  | tick ↦ write_position a.saved_at a.answer w
  | other_message ↦ w
  | gtid_save set force ↦
      let kept = record w { lastsave_time = a.now; gtid_set = set } in
      let written = write_position a.saved_at a.answer kept in
      if is_due a.now force w then (if force then written else kept) else w
]

abbrev pub is_done : Arrival → Bool
is_done a = elim a.event [
  | done ↦ true
  | tick ↦ false
  | other_message ↦ false
  | gtid_save s f ↦ false
]

unfoldable pub work : List Arrival → Worker → Worker
unfolding turn
work [] w = w
work (a ∷ as') w = let rest = work as' (turn a w) in if is_done a then w else rest
