-- ===== src/CanalV1/Master/Positions.antt =====
-- Which position canal/v1/master.go holds and stores.
use kit_go.Common.{
  ℕ, ◌+◌, ◌≤◌, ◌≡◌, false, Option, none, some, [], ◌∷◌, arith, if◌then◌else◌, is_empty, Str,
}
use kit_go.CanalV1.Master.{MasterInfo, second, save, set_gtid, force, opened, load_master_info}

save-gtid_set :
    (encode : Str → Str) (now : ℕ) (answer : Option Str) (gset : Str) (m : MasterInfo)
    → (save encode now answer gset m).0.gtid_set ≡ gset
unfolding save
save-gtid_set encode now none gset m = ground arith
save-gtid_set encode now (some e) gset m = ground arith

-- `SetGTID` with one position or none changes the position only where none is held: then to the
-- given one, or else to the server's; with `Force` the given one is held in any case.
pub set_gtid_lem :
    (encode : Str → Str) (now : ℕ) (answer : Option Str) (of_server g : Str) (m : MasterInfo)
    → ((set_gtid encode now answer of_server [] m).gtid_set
        ≡ (if is_empty m.gtid_set then of_server else m.gtid_set))
      × ((set_gtid encode now answer of_server (g ∷ []) m).gtid_set
          ≡ (if is_empty m.gtid_set then g else m.gtid_set))
      × ((force encode now answer
            (g ∷ [])
            (set_gtid encode now answer of_server (g ∷ []) m)).gtid_set
          ≡ g)
unfolding set_gtid force
set_gtid_lem encode now answer of_server g m = (
  ground (arith, save-gtid_set encode now answer of_server m),
  ground (arith, save-gtid_set encode now answer g m),
  save-gtid_set encode now answer g (set_gtid encode now answer of_server (g ∷ []) m),
)

-- Where the encoding can be decoded, a position that is saved at least a second after the last
-- write, to a file that has a path and by a write without an error, is loaded again.
pub load_master_info-save :
    (encode : Str → Str) (decode : Str → Option Str) (decode_error : Str)
    (decodes : (s : Str) → decode (encode s) ≡ some s) (now later : ℕ) (gset path : Str)
    (m : MasterInfo)
    → m.last_save_time + second ≤ now
    → is_empty m.file_path ≡ false
    → let file = (save encode now none gset m).0.file in
      load_master_info decode decode_error later opened path file ≡ (
        some (record { gtid_set = gset; file_path = path; last_save_time = later; file = file }),
        none,
      )
unfolding load_master_info save
load_master_info-save encode decode decode_error decodes now later gset path m h k =
    ground (arith, decodes gset)
