-- ===== src/Canal/ExportTests.antt =====
-- A run of canal/fullexport.go, and its theorem at a concrete input.
use kit_go.Common.{
  ◌≡◌, refl, Bool, true, false, none, some, List, [], ◌∷◌, ◌++◌, if◌then◌else◌, Str, codes, str_eq,
  map, split,
}
use kit_go.Canal.Export.{
  found, Session, Export, start_text, commit_text, select_all, table_loop, copy_table,
  full_data_export,
}
use kit_go.Canal.Export.Reads.{Watch, ExportLaws, later, full_data_export_lem}

-- A server that keeps whether it is in the transaction, and the tables read.
record Server : Type 0 where
  pub inside : Bool
  pub log : List (Str × Bool)

abbrev inside_after : Str → Bool → Bool
inside_after sql b =
    if str_eq sql start_text then true else if str_eq sql commit_text then false else b

abbrev session : Session Server Unit Unit
session = record {
  execute = λ sql w. (record { inside = inside_after sql w.inside; log = w.log }, some []);
  get_table_info = λ db name w. (w, found tt);
  select_streaming = λ sql f w. (record w { log = w.log ++ ((sql, w.inside) ∷ []) }, none);
  close = λ w. record w { inside = false };
  update = λ set w. w;
}

abbrev watch : Watch Server
watch = record { in_snapshot = λ w. w.inside; reads = λ w. w.log }

abbrev looks : Export Server Unit Unit
looks info w = (w, λ row v. (v, none))

session_laws : ExportLaws watch session looks
session_laws = record {
  reads_send = λ sql w. refl;
  start_law = λ w. refl;
  gtid_law = λ w. refl;
  unlock_law = λ w. refl;
  commit_law = λ w. refl;
  update_law = λ set w. (refl, refl);
  close_law = λ w. (refl, refl);
  info_law = λ db name w. (refl, refl);
  fn_law = λ info w. (refl, refl);
  stream_law = λ sql info v w. refl;
}

abbrev idle : Server
idle = record { inside = false; log = [] }

abbrev two_read : Server
two_read = record {
  inside = false;
  log = (codes "select * from db.a", true) ∷ (codes "select * from db.b", false) ∷ [];
}

exported :
    full_data_export session (some looks) (codes "db.a" ∷ codes "db.b" ∷ []) idle
    ≡ some (two_read, none)
unfolding full_data_export table_loop copy_table split
exported = refl

full_data_export_lem_example :
    two_read.log ≡ (select_all (codes "db.a"), true) ∷ map later (codes "db.b" ∷ [])
full_data_export_lem_example =
    full_data_export_lem watch session looks session_laws (codes "db.a") (codes "db.b" ∷ []) idle
      two_read exported

-- A nil `fn` panics at the first table.
nil_panics : full_data_export session none (codes "db.a" ∷ []) idle ≡ none
unfolding full_data_export table_loop copy_table split
nil_panics = refl
