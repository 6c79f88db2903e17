-- ===== src/Canal/Work/Times.antt =====
-- How old the position is that the loop `work` of canal/event.go remembers.
use kit_go.Common.{
  ℕ, ◌+◌, ◌*◌, ◌≤◌, ◌≡◌, refl, Bool, true, false, Option, none, some, List, [], ◌∷◌, arith,
  if◌then◌else◌, All, Str, Bool-cases, inl, inr,
}
use kit_go.Canal.Master.{MasterInfo, second, save}
use kit_go.Canal.Work.{
  Event, done, tick, other_message, gtid_save, Arrival, Worker, write_position, after_save, turn,
  is_done, work,
}

-- The clock does not run backwards.
abbrev pub InOrder : ℕ → List Arrival → Type 0
InOrder t [] = Unit
InOrder t (a ∷ as') = (t ≤ a.now) × InOrder a.now as'

-- What the loop receives before it ends.
abbrev pub received : List Arrival → List Arrival
received [] = []
received (a ∷ as') = let rest = received as' in if is_done a then [] else a ∷ rest

-- A message that came at most three seconds after a time.
abbrev RecentEvent : ℕ → ℕ → Event → Type 0
RecentEvent t now (gtid_save set force) = now ≤ t + 3 * second
RecentEvent t now done = Unit
RecentEvent t now tick = Unit
RecentEvent t now other_message = Unit

abbrev pub Recent : ℕ → Arrival → Type 0
Recent t a = RecentEvent t a.now a.event

after_save-lastsave_time :
    (r : MasterInfo × Option Str) (w : Worker) → (after_save r w).lastsave_time ≡ w.lastsave_time
after_save-lastsave_time (m, none) w = refl
after_save-lastsave_time (m, some _) w = refl

write_position-lastsave_time :
    (saved_at : ℕ) (answer : Option Str) (w : Worker)
    → (write_position saved_at answer w).lastsave_time ≡ w.lastsave_time
unfolding write_position
write_position-lastsave_time saved_at answer w =
    after_save-lastsave_time (save saved_at answer w.gtid_set w.master) w

abbrev Advances : Arrival → Worker → Worker → Type 0
Advances a w w' =
    (w.lastsave_time ≤ w'.lastsave_time) × (w'.lastsave_time ≤ a.now) × Recent w'.lastsave_time a

turn_message-Advances :
    (set : Str) (force : Bool) (now saved_at : ℕ) (answer : Option Str) (w : Worker)
    → w.lastsave_time ≤ now
    → let a : Arrival = record {
      event = gtid_save set force;
      now = now;
      saved_at = saved_at;
      answer = answer;
    } in
      Advances a w (turn a w)
unfolding turn
turn_message-Advances set true now saved_at answer w h =
    let same =
      write_position-lastsave_time saved_at answer
        (record w { lastsave_time = now; gtid_set = set }) in
    (omega (arith, same), omega (arith, same), omega (arith, same))
turn_message-Advances set false now saved_at answer w h = (ground arith, ground arith, ground arith)

turn-Advances : (a : Arrival) (w : Worker) → w.lastsave_time ≤ a.now → Advances a w (turn a w)
unfolding turn
turn-Advances a w h = by_event a.event a.now a.saved_at a.answer h
  where
    by_event :
        (e : Event) (now saved_at : ℕ) (answer : Option Str)
        → w.lastsave_time ≤ now
        → let a : Arrival = record { event = e; now = now; saved_at = saved_at; answer = answer } in
          Advances a w (turn a w)
    by_event done now saved_at answer h = (omega arith, h, tt)
    by_event tick now saved_at answer h =
        let same = write_position-lastsave_time saved_at answer w in
        (omega (arith, same), omega (arith, same), tt)
    by_event other_message now saved_at answer h = (omega arith, h, tt)
    by_event (gtid_save set force) now saved_at answer h =
        turn_message-Advances set force now saved_at answer w h

work_advances :
    (as' : List Arrival) (w : Worker) (t : ℕ)
    → w.lastsave_time ≤ t
    → InOrder t as'
    → w.lastsave_time ≤ (work as' w).lastsave_time
unfolding work
work_advances [] w t h o = omega arith
work_advances (a ∷ as') w t h (o, os) =
    let step = turn-Advances a w (omega arith) in
    let ih = work_advances as' (turn a w) a.now step.1 os in
    elim (Bool-cases (is_done a)) [
      | inl e ↦ rw e (omega arith)
      | inr e ↦ rw e (omega (arith, step.0, ih))
    ]

Recent-later : (t u : ℕ) (a : Arrival) → t ≤ u → Recent t a → Recent u a
Recent-later t u a h r = by_event a.event r
  where
    by_event : (e : Event) → RecentEvent t a.now e → RecentEvent u a.now e
    by_event done r = tt
    by_event tick r = tt
    by_event other_message r = tt
    by_event (gtid_save set force) r = omega arith

-- If the clock does not run backwards, then at the end no message that the loop received came
-- more than three seconds after the time at which it last remembered a position.
pub work-Recent :
    (as' : List Arrival) (w : Worker)
    → InOrder w.lastsave_time as'
    → All (Recent (work as' w).lastsave_time) (received as')
unfolding work
work-Recent [] w o = tt
work-Recent (a ∷ as') w (o, os) =
    let step = turn-Advances a w o in
    let w' = turn a w in
    let later = work_advances as' w' a.now step.1 os in
    let ih = work-Recent as' w' (later_order as' w'.lastsave_time a.now step.1 os) in
    elim (Bool-cases (is_done a)) [
      | inl e ↦ rw e tt
      | inr e ↦ rw e (Recent-later w'.lastsave_time (work as' w').lastsave_time a later step.2, ih)
    ]
  where
    later_order : (xs : List Arrival) (t u : ℕ) → t ≤ u → InOrder u xs → InOrder t xs
    later_order [] t u h o = tt
    later_order (x ∷ xs) t u h (o, os) = (omega arith, os)
