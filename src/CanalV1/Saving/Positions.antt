-- ===== src/CanalV1/Saving/Positions.antt =====
-- Which positions the loop `writeMasterInfo` of canal/v1/canal.go stores, and when it returns.
use kit_go.Common.{
  ℕ, ◌≡◌, refl, true, false, ◌⊎◌, inl, inr, Option, none, some, [], is_empty, Str, Bool-cases, ltb,
  ◌-◌, ◌*◌, ◌||◌,
}
use kit_go.CanalV1.Master.{MasterInfo, second, write_file, save}
use kit_go.CanalV1.Saving.{
  Saver, start, after_save, save_position, on_message, on_done, Step, Reach, message, other_message,
  tick, done, here, next,
}

module _ (encode : Str → Str) (Sent : Str → Type 0) (before : Option Str) where
  -- No position yet, or one that was sent.
  abbrev pub IsKnown : Str → Type 0
  IsKnown g = (g ≡ []) ⊎ Sent g

  -- The content of the file: as before the loop, or the encoding of a known position.
  abbrev pub IsStored : Option Str → Type 0
  IsStored file = (file ≡ before) ⊎ ((g : Str) × (file ≡ some (encode g)) × IsKnown g)

  -- What is remembered and what is stored is known, and `cancel` was called only if the loop has
  -- returned.
  abbrev pub IsSound : Saver → Type 0
  IsSound s =
      IsKnown s.gset × IsStored s.master.file × ((s.cancelled ≡ false) ⊎ (s.returned ≡ true))

  write_file-IsStored :
      (now : ℕ) (answer : Option Str) (m : MasterInfo)
      → IsStored m.file
      → IsKnown m.gtid_set
      → IsStored (write_file encode now answer m).0.file
  unfolding write_file
  write_file-IsStored now none m h k = inr (m.gtid_set, refl, k)
  write_file-IsStored now (some _) m h k = h

  save-IsStored :
      (now : ℕ) (answer : Option Str) (g : Str) (m : MasterInfo)
      → IsStored m.file
      → IsKnown g
      → IsStored (save encode now answer g m).0.file
  unfolding save
  save-IsStored now answer g m h k = elim (Bool-cases (is_empty m.file_path)) [
    | inl e ↦ rw e h
    | inr e ↦ elim (Bool-cases (ltb (now - m.last_save_time) second)) [
      | inl soon ↦ rw (e, soon) h
      | inr late ↦ rw (e, late) (write_file-IsStored now answer (record m { gtid_set = g }) h k)
    ]
  ]

  after_save-IsSound :
      (r : MasterInfo × Option Str) (s : Saver)
      → IsStored r.0.file
      → IsSound s
      → IsSound (after_save r s)
  after_save-IsSound (m, none) s h k = (k.0, h, k.2)
  after_save-IsSound (m, some _) s h k = (k.0, h, inr refl)

  save_position-IsSound :
      (saved_at : ℕ) (answer : Option Str) (s : Saver)
      → IsSound s
      → IsSound (save_position encode saved_at answer s)
  unfolding save_position
  save_position-IsSound saved_at answer s h =
      after_save-IsSound (save encode saved_at answer s.gset s.master) s
        (save-IsStored saved_at answer s.gset s.master h.1 h.0) h

  Step-IsSound : {s t : Saver} → Step encode Sent s t → IsSound s → IsSound t
  unfolding on_message on_done
  Step-IsSound (message s g force now saved_at answer r k) h =
      elim (Bool-cases (force || ltb (3 * second) (now - s.last_saved_time))) [
        | inl due ↦ rw due (
            save_position-IsSound saved_at answer (record s { last_saved_time = now; gset = g })
              (inr k, h.1, h.2))
        | inr late ↦ rw late h
      ]
  Step-IsSound (other_message s r) h = h
  Step-IsSound (tick s saved_at answer r) h = save_position-IsSound saved_at answer s h
  Step-IsSound (done s r) h = (h.0, h.1, inr refl)

  Reach-IsSound : {s t : Saver} → IsSound s → Reach encode Sent s t → IsSound t
  Reach-IsSound h here = h
  Reach-IsSound h (next r st) = Step-IsSound st (Reach-IsSound h r)

  -- Whatever the loop receives, in whatever order, and whatever its writes answer: the file holds
  -- what it held before the loop, or the encoding of the empty position or of one that was sent,
  -- the same holds of the remembered position, and the replication is cancelled only by a loop
  -- that has returned.
  pub start-IsSound :
      (now : ℕ) (m : MasterInfo) (t : Saver)
      → m.file ≡ before
      → Reach encode Sent (start now m) t
      → IsSound t
  unfolding start
  start-IsSound now m t h r = Reach-IsSound (inl refl, inl h, inl refl) r
