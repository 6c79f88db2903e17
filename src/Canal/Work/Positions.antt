-- ===== src/Canal/Work/Positions.antt =====
-- Which positions the loop `work` of canal/event.go remembers and saves.
use kit_go.Common.{
  ℕ, ◌-◌, Bool, true, false, Option, none, some, List, [], ◌∷◌, ltb, All, WhenSome, Str, Bool-cases,
  Option-cases, inl, inr,
}
use kit_go.Canal.Master.{MasterInfo, second, save}
use kit_go.Canal.Work.{
  Event, done, tick, other_message, gtid_save, Arrival, Worker, write_position, after_save, is_due,
  turn, is_done, work,
}

-- What the message of an event, if it has one, carries.
abbrev pub Carries {ℓ} : (Str → Type ℓ) → Event → Type ℓ
Carries P (gtid_save set force) = P set
Carries P done = Unit
Carries P tick = Unit
Carries P other_message = Unit

abbrev pub AllCarry {ℓ} : (Str → Type ℓ) → List Arrival → Type ℓ
AllCarry P = All (λ a. Carries P a.event)

-- The file, where there is one, and the position that is remembered satisfy `P`.
abbrev pub Holds {ℓ} : (Str → Type ℓ) → Worker → Type ℓ
Holds P w = WhenSome P w.master.file × P w.gtid_set

abbrev pub message : Str → Bool → ℕ → ℕ → Option Str → Arrival
message set force now saved_at answer = record {
  event = gtid_save set force;
  now = now;
  saved_at = saved_at;
  answer = answer;
}

module _ {ℓ} (P : Str → Type ℓ) where
  save-file :
      (now : ℕ) (answer : Option Str) (set : Str) (m : MasterInfo)
      → WhenSome P m.file
      → P set
      → WhenSome P (save now answer set m).0.file
  unfolding save
  save-file now answer set m h p = elim (Bool-cases (ltb (now - m.lastsave_time) second)) [
    | inl soon ↦ rw soon h
    | inr late ↦ elim (Option-cases answer) [ inl e ↦ rw (late, e) p | inr (x, e) ↦ rw (late, e) h ]
  ]

  after_save-Holds :
      (r : MasterInfo × Option Str) (w : Worker)
      → WhenSome P r.0.file
      → P w.gtid_set
      → Holds P (after_save r w)
  after_save-Holds (m, none) w h p = (h, p)
  after_save-Holds (m, some _) w h p = (h, p)

  write_position-Holds :
      (saved_at : ℕ) (answer : Option Str) (w : Worker)
      → Holds P w
      → Holds P (write_position saved_at answer w)
  unfolding write_position
  write_position-Holds saved_at answer w (h, p) =
      after_save-Holds (save saved_at answer w.gtid_set w.master) w
        (save-file saved_at answer w.gtid_set w.master h p) p

  turn-message-Holds :
      (set : Str) (force : Bool) (now saved_at : ℕ) (answer : Option Str) (w : Worker)
      → P set
      → Holds P w
      → Holds P (turn (message set force now saved_at answer) w)
  unfolding turn
  turn-message-Holds set true now saved_at answer w p h =
      write_position-Holds saved_at answer (record w { lastsave_time = now; gtid_set = set })
        (h.0, p)
  turn-message-Holds set false now saved_at answer w p h = elim (Bool-cases (is_due now false w)) [
    | inl e ↦ rw e (h.0, p)
    | inr e ↦ rw e h
  ]

  turn-Holds : (a : Arrival) (w : Worker) → Carries P a.event → Holds P w → Holds P (turn a w)
  unfolding turn
  turn-Holds a w p h = by_event a.event a.now a.saved_at a.answer p
    where
      by_event :
          (e : Event) (now saved_at : ℕ) (answer : Option Str)
          → Carries P e
          → Holds P (turn (record { event = e; now = now; saved_at = saved_at; answer = answer }) w)
      by_event done now saved_at answer p = h
      by_event tick now saved_at answer p = write_position-Holds saved_at answer w h
      by_event other_message now saved_at answer p = h
      by_event (gtid_save set force) now saved_at answer p =
          turn-message-Holds set force now saved_at answer w p h

  -- Whatever the loop receives, its file and the position that it remembers are among what they
  -- were at the start and the positions that the messages carried: what holds of all these holds
  -- of the file and of the position at the end.
  pub work-Holds :
      (as' : List Arrival) (w : Worker) → AllCarry P as' → Holds P w → Holds P (work as' w)
  unfolding work
  work-Holds [] w c h = h
  work-Holds (a ∷ as') w (c, cs) h =
      let ih = work-Holds as' (turn a w) cs (turn-Holds a w c h) in
      elim (Bool-cases (is_done a)) [ inl e ↦ rw e h | inr e ↦ rw e ih ]
