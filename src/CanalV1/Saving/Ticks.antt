-- ===== src/CanalV1/Saving/Ticks.antt =====
-- What the ticks of `writeMasterInfo` of canal/v1/canal.go do before a position is sent.
use kit_go.Common.{
  ℕ, Bool, true, ◌+◌, ◌≤◌, ◌-◌, ◌≡◌, ◌⊎◌, inl, inr, refl, false, none, some, List, [], ◌∷◌, ◌++◌,
  arith, is_empty, Option, if◌then◌else◌, Str, ltb, Bool-cases,
}
use kit_go.CanalV1.Master.{MasterInfo, second, write_file, save}
use kit_go.CanalV1.Saving.{Saver, start, save_position, ticks}

-- Ticks whose writes all succeed.
abbrev pub written : List ℕ → List (ℕ × Option Str)
written [] = []
written (t ∷ ts) = (t, none) ∷ written ts

module _ (encode : Str → Str) where
  -- Nothing is remembered, the file has a path, and the loop goes on.
  abbrev IsBlank : Saver → Type 0
  IsBlank s = (s.gset ≡ []) × (is_empty s.master.file_path ≡ false) × (s.returned ≡ false)

  abbrev IsErased : Saver → Type 0
  IsErased s = s.master.file ≡ some (encode [])

  tick-IsBlank : (t : ℕ) (s : Saver) → IsBlank s → IsBlank (save_position encode t none s)
  unfolding save_position save write_file
  tick-IsBlank t s h = ground (arith, h.0, h.1, h.2)

  tick-IsErased :
      (t : ℕ) (s : Saver) → IsBlank s → IsErased s → IsErased (save_position encode t none s)
  unfolding save_position save write_file
  tick-IsErased t s h e = ground (arith, h.0, h.1, e)

  tick_late :
      (t : ℕ) (s : Saver)
      → IsBlank s
      → s.master.last_save_time + second ≤ t
      → IsErased (save_position encode t none s)
  unfolding save_position save write_file
  tick_late t s h e = ground (arith, h.0, h.1, e)

  tick_early :
      (t : ℕ) (s : Saver)
      → IsBlank s
      → IsErased (save_position encode t none s)
        ⊎ ((save_position encode t none s).master.last_save_time ≡ s.master.last_save_time)
  unfolding save_position save write_file
  tick_early t s h = elim (Bool-cases (ltb (t - s.master.last_save_time) second)) [
    | inl soon ↦ rw (h.1, soon) (inr refl)
    | inr late ↦ inl (tick_late t s h (ground arith))
  ]

  ticks_step :
      (t : ℕ) (ts : List ℕ) (s : Saver)
      → s.returned ≡ false
      → ticks encode (written ts) (save_position encode t none s)
        ≡ ticks encode (written (t ∷ ts)) s
  unfolding ticks
  ticks_step t ts s h = goes_on s.returned h
    where
      goes_on :
          (b : Bool)
          → b ≡ false
          → ticks encode (written ts) (save_position encode t none s)
            ≡ (if b then s else ticks encode (written ts) (save_position encode t none s))
      goes_on true e = cc
      goes_on false e = refl

  ticks-IsErased :
      (ts : List ℕ) (s : Saver) → IsBlank s → IsErased s → IsErased (ticks encode (written ts) s)
  ticks-IsErased [] s h e = unfold ticks in e
  ticks-IsErased (t ∷ ts) s h e = rw (← ticks_step t ts s h.2) (
      ticks-IsErased ts (save_position encode t none s) (tick-IsBlank t s h)
        (tick-IsErased t s h e))

  ticks_erase_from :
      (ts : List ℕ) (t : ℕ) (us : List ℕ) (s : Saver)
      → IsBlank s
      → s.master.last_save_time + second ≤ t
      → IsErased (ticks encode (written (ts ++ (t ∷ us))) s)
  ticks_erase_from [] t us s h late = rw (← ticks_step t us s h.2) (
      ticks-IsErased us (save_position encode t none s) (tick-IsBlank t s h) (tick_late t s h late))
  ticks_erase_from (u ∷ ts) t us s h late =
      let s' = save_position encode u none s in
      let blank = tick-IsBlank u s h in
      rw (← ticks_step u (ts ++ (t ∷ us)) s h.2) (elim (tick_early u s h) [
        | inl e ↦ ticks-IsErased (ts ++ (t ∷ us)) s' blank e
        | inr same ↦ ticks_erase_from ts t us s' blank (rw same late)
      ])

  -- A loop whose position file has a path, and that receives only ticks and whose writes all
  -- succeed, has overwritten the file with the empty position, whatever the file held, once one
  -- tick comes a second or more after the last save time that the loop started with, whatever
  -- ticks come before and after it.
  pub ticks_erase :
      (ts us : List ℕ) (t now : ℕ) (m : MasterInfo)
      → is_empty m.file_path ≡ false
      → m.last_save_time + second ≤ t
      → (ticks encode (written (ts ++ (t ∷ us))) (start now m)).master.file ≡ some (encode [])
  unfolding start
  ticks_erase ts us t now m path late =
      ticks_erase_from ts t us (start now m) (refl, path, refl) late
