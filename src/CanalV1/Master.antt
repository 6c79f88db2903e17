-- ===== src/CanalV1/Master.antt =====
-- canal/v1/master.go, and `SetGTID` and `Force` of canal/v1/canal.go. The encoding of the file
-- (package toml) and the file system's answers are parameters.
pub mod Positions
use kit_go.Common.{
  ℕ, ◌-◌, ◌^◌, Bool, true, false, Option, none, some, List, [], ◌∷◌, if◌then◌else◌, is_empty, ltb,
  Str,
}

-- `masterInfo`, with the content of its file.
pub record MasterInfo : Type 0 where
  pub gtid_set : Str
  pub file_path : Str
  pub last_save_time : ℕ
  pub file : Option Str

-- A time in nanoseconds.
abbrev pub second : ℕ
second = 10 ^ 9

module _ (encode : Str → Str) where
  unfoldable pub write_file : ℕ → Option Str → MasterInfo → MasterInfo × Option Str
  write_file now none m = (record m { last_save_time = now; file = some (encode m.gtid_set) }, none)
  write_file now (some e) m = (record m { last_save_time = now }, some e)

  -- `Save`, with the clock and the answer of the write.
  unfoldable pub save : ℕ → Option Str → Str → MasterInfo → MasterInfo × Option Str
  unfolding write_file
  save now answer gset m =
      let m' = record m { gtid_set = gset } in
      if is_empty m.file_path
      then (m', none)
      else (if ltb (now - m.last_save_time) second then (m', none) else write_file now answer m')

  unfoldable pub close : ℕ → Option Str → MasterInfo → MasterInfo × Option Str
  unfolding save
  close now answer m = save now answer m.gtid_set m

  abbrev saved : ℕ → Option Str → Str → MasterInfo → MasterInfo
  saved now answer gset m = (save now answer gset m).0

  -- `SetGTID`: the position of the server, and the answers to the writes it may make.
  unfoldable pub set_gtid : ℕ → Option Str → Str → List Str → MasterInfo → MasterInfo
  unfolding save
  set_gtid now answer of_server [] m =
      if is_empty m.gtid_set then saved now answer of_server m else m
  set_gtid now answer of_server (g ∷ []) m = if is_empty m.gtid_set then saved now answer g m else m
  set_gtid now answer of_server (g ∷ h ∷ gs) m = m

  -- `Force` on what `SetGTID` returns.
  unfoldable pub force : ℕ → Option Str → List Str → MasterInfo → MasterInfo
  unfolding save
  force now answer (g ∷ []) m = saved now answer g m
  force now answer [] m = m
  force now answer (g ∷ h ∷ gs) m = m

-- What opening the file answers: it is not there, another error, or its content is decoded, where
-- it can be.
pub data Opening : Type 0 where
  not_exist : Opening
  open_error : Str → Opening
  opened : Opening

abbrev decoded : Str → MasterInfo → Option Str → Option MasterInfo × Option Str
decoded e m none = (some m, some e)
decoded e m (some g) = (some (record m { gtid_set = g }), none)

-- `loadMasterInfo` once its directory is there: `decode_error` is the text of a decoding error.
unfoldable pub load_master_info :
    (Str → Option Str) → Str → ℕ → Opening → Str → Option Str → Option MasterInfo × Option Str
load_master_info decode decode_error now opening path content =
    let m : MasterInfo = record {
      gtid_set = [];
      file_path = path;
      last_save_time = now;
      file = content;
    } in
    elim opening [
      | not_exist ↦ (some m, none)
      | open_error e ↦ (none, some e)
      | opened ↦ elim content [
        | none ↦ (some m, none)
        | some text ↦ decoded decode_error m (decode text)
      ]
    ]
