-- ===== src/CanalV1/Saving.antt =====
-- canal/v1/canal.go: the loop `writeMasterInfo`, which saves the positions that the handlers
-- send. What its `select` takes is the environment's choice, so a round is a step of a relation;
-- the clock and the answer of the write that a round may make come with it.
pub mod Positions
pub mod Ticks
use kit_go.Common.{
  ℕ, ◌-◌, ◌*◌, ◌≡◌, Bool, true, false, ◌||◌, Option, none, some, List, [], ◌∷◌, if◌then◌else◌, ltb,
  Str,
}
use kit_go.CanalV1.Master.{MasterInfo, second, save}

-- The variables of the loop, the position file, and whether `cancel` was called and the loop has
-- returned.
pub record Saver : Type 0 where
  pub last_saved_time : ℕ
  pub gset : Str
  pub master : MasterInfo
  pub cancelled : Bool
  pub returned : Bool

unfoldable pub start : ℕ → MasterInfo → Saver
start now m = record {
  last_saved_time = now;
  gset = [];
  master = m;
  cancelled = false;
  returned = false;
}

abbrev pub after_save : MasterInfo × Option Str → Saver → Saver
after_save (m, none) s = record s { master = m }
after_save (m, some _) s = record s { master = m; cancelled = true; returned = true }

module _ (encode : Str → Str) where
  unfoldable pub save_position : ℕ → Option Str → Saver → Saver
  unfolding save
  save_position saved_at answer s = after_save (save encode saved_at answer s.gset s.master) s

  -- A `gsetSaver` from the channel; one that is not due is forgotten.
  unfoldable pub on_message : Str → Bool → ℕ → ℕ → Option Str → Saver → Saver
  unfolding save_position
  on_message g force now saved_at answer s =
      let kept = record s { last_saved_time = now; gset = g } in
      if force || ltb (3 * second) (now - s.last_saved_time)
      then save_position saved_at answer kept
      else s

  unfoldable pub on_done : Saver → Saver
  on_done s = record s { returned = true }

  -- One round of the loop, with the positions that are sent taken from `Sent`.
  pub data Step (Sent : Str → Type 0) : Saver → Saver → Type 0 where
    message :
        (s : Saver) (g : Str) (force : Bool) (now saved_at : ℕ) (answer : Option Str)
        → s.returned ≡ false
        → Sent g
        → Step Sent s (on_message g force now saved_at answer s)
    other_message : (s : Saver) → s.returned ≡ false → Step Sent s s
    tick :
        (s : Saver) (saved_at : ℕ) (answer : Option Str)
        → s.returned ≡ false
        → Step Sent s (save_position saved_at answer s)
    done : (s : Saver) → s.returned ≡ false → Step Sent s (on_done s)

  pub data Reach (Sent : Str → Type 0) (s : Saver) : Saver → Type 0 where
    here : Reach Sent s s
    next : {t u : Saver} → Reach Sent s t → Step Sent t u → Reach Sent s u

  -- A run of ticks, each with its clock and the answer to its write, until the loop returns.
  unfoldable pub ticks : List (ℕ × Option Str) → Saver → Saver
  unfolding save_position
  ticks [] s = s
  ticks ((t, answer) ∷ ts) s =
      let rest = ticks ts (save_position t answer s) in if s.returned then s else rest
