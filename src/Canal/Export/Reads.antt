-- ===== src/Canal/Export/Reads.antt =====
-- In which transaction `FullDataExport` of canal/fullexport.go reads the tables.
use kit_go.Common.{
  ◌≡◌, refl, sym, ◌∙◌, ap, Bool, true, false, Option, none, some, List, [], ◌∷◌, ◌++◌, map, Str,
  append_assoc, append-nil, split,
}
use kit_go.Canal.Export.{
  TableAnswer, failed, found, Session, Export, start_text, gtid_text, unlock_text, commit_text,
  select_all, send, lock_tables, begin_snapshot, stream, with_info, copy_parts, copy_table,
  end_table, go_on, table_loop, from_gtid, full_data_export,
}

-- What is watched of a world: whether the session is in the transaction of the snapshot, and what
-- was read, with whether it was read in it.
pub record Watch (W : Type 0) : Type 0 where
  pub in_snapshot : W → Bool
  pub reads : W → List (Str × Bool)

-- A change that neither reads a table nor begins or ends a transaction.
abbrev pub IsQuiet : {W : Type 0} → Watch W → W → W → Type 0
IsQuiet o w v = (o.in_snapshot v ≡ o.in_snapshot w) × (o.reads v ≡ o.reads w)

-- What the export relies on: the server's transactions, a streaming select that reads its table
-- once where the function for the rows only looks at rows, and an exporter that does so.
pub record ExportLaws {W Info Row : Type 0} (o : Watch W) (s : Session W Info Row)
    (fn : Export W Info Row) : Type 0 where
  pub reads_send : (sql : Str) (w : W) → o.reads (send s sql w) ≡ o.reads w
  pub start_law : (w : W) → o.in_snapshot (send s start_text w) ≡ true
  pub gtid_law : (w : W) → o.in_snapshot (send s gtid_text w) ≡ o.in_snapshot w
  pub unlock_law : (w : W) → o.in_snapshot (send s unlock_text w) ≡ o.in_snapshot w
  pub commit_law : (w : W) → o.in_snapshot (send s commit_text w) ≡ false
  pub update_law : (set : Str) (w : W) → IsQuiet o w (s.update set w)
  pub close_law : (w : W) → (o.in_snapshot (s.close w) ≡ false) × (o.reads (s.close w) ≡ o.reads w)
  pub info_law : (db name : Str) (w : W) → IsQuiet o w ((s.get_table_info db name w).0)
  pub fn_law : (info : Info) (w : W) → IsQuiet o w ((fn info w).0)
  pub stream_law :
      (sql : Str) (info : Info) (v w : W)
      → o.reads ((s.select_streaming sql ((fn info v).1) w).0)
        ≡ o.reads w ++ ((sql, o.in_snapshot w) ∷ [])

abbrev pub later : Str → Str × Bool
later table = (select_all table, false)

module _ {W Info Row : Type 0} (o : Watch W) (s : Session W Info Row) (fn : Export W Info Row)
    (laws : ExportLaws o s fn) where
  open laws use {
    reads_send, start_law, gtid_law, unlock_law, commit_law, update_law, close_law, info_law,
    fn_law, stream_law,
  }

  -- From `w` to `v`, `table` was read.
  abbrev IsRead : Str → W → W → Type 0
  IsRead table w v = o.reads v ≡ o.reads w ++ ((select_all table, o.in_snapshot w) ∷ [])

  stream-IsRead :
      (table : Str) (info : Info) (w : W) → IsRead table w ((stream s table (fn info w)).0)
  stream-IsRead table info w =
      stream_law (select_all table) info w ((fn info w).0)
      ∙ rw ((fn_law info w).0, (fn_law info w).1) refl

  with_info-IsRead :
      (table : Str) (a : W × TableAnswer Info) (v : W)
      → with_info s (some fn) table a ≡ some (v, none)
      → IsRead table (a.0) v
  with_info-IsRead table (w, failed e) v h = cc
  with_info-IsRead table (w, found info) v h =
      rw (fst_of (stream s table (fn info w)) h) at (stream-IsRead table info w)
    where
      fst_of : (r : W × Option Str) → some r ≡ some (v, none) → r.0 ≡ v
      fst_of (u, e) h = cc

  copy_parts-IsRead :
      (table : Str) (parts : List Str) (w v : W)
      → copy_parts s (some fn) table parts w ≡ some (v, none)
      → IsRead table w v
  copy_parts-IsRead table [] w v h = cc
  copy_parts-IsRead table (_ ∷ []) w v h = cc
  copy_parts-IsRead table (db ∷ name ∷ _) w v h =
      with_info-IsRead table (s.get_table_info db name w) v h
      ∙ rw ((info_law db name w).0, (info_law db name w).1) refl

  end_table_lem :
      (w : W) → (o.in_snapshot (end_table s w) ≡ false) × (o.reads (end_table s w) ≡ o.reads w)
  end_table_lem w = (
    (close_law (send s commit_text (send s unlock_text w))).0,
    (close_law (send s commit_text (send s unlock_text w))).1
        ∙ (reads_send commit_text (send s unlock_text w) ∙ reads_send unlock_text w),
  )

  go_on-none :
      (r : Option (W × Option Str)) (next : W → Option (W × Option Str)) (z : W)
      → go_on s r next ≡ some (z, none)
      → (v : W) × ((r ≡ some (v, none)) × (next v ≡ some (z, none)))
  go_on-none none next z h = cc
  go_on-none (some (w, some e)) next z h = cc
  go_on-none (some (w, none)) next z h = (w, (refl, h))

  loop_step :
      (table : Str) (tables : List Str) (w z : W)
      → table_loop s (some fn) (table ∷ tables) w ≡ some (z, none)
      → (v : W) × (o.in_snapshot v ≡ false)
        × (o.reads v ≡ o.reads w ++ ((select_all table, o.in_snapshot w) ∷ []))
        × (table_loop s (some fn) tables v ≡ some (z, none))
  unfolding table_loop copy_table
  loop_step table tables w z h =
      let p =
        go_on-none (copy_table s (some fn) table w)
          (λ v. table_loop s (some fn) tables (end_table s v)) z h in
      (
        end_table s (p.0),
        (end_table_lem (p.0)).0,
        (end_table_lem (p.0)).1 ∙ copy_parts-IsRead table (split b'.' table) w (p.0) (p.1.0),
        p.1.1,
      )

  loop_later :
      (tables : List Str) (w z : W)
      → o.in_snapshot w ≡ false
      → table_loop s (some fn) tables w ≡ some (z, none)
      → o.reads z ≡ o.reads w ++ map later tables
  unfolding table_loop
  loop_later [] w z out h = reads_same w h
    where
      reads_same :
          (v : W)
          → ◌≡◌ {A = Option (W × Option Str)} (some (v, none)) (some (z, none))
          → o.reads z ≡ o.reads v ++ []
      reads_same v e = sym (ap o.reads (cc)) ∙ sym (append-nil (o.reads v))
  loop_later (table ∷ tables) w z out h =
      let p = loop_step table tables w z h in
      loop_later tables p.0 z p.1 p.3
      ∙ (ap (λ r. r ++ map later tables) p.2
          ∙ (append_assoc (o.reads w) ((select_all table, o.in_snapshot w) ∷ []) (map later tables)
              ∙ rw out refl))

  loop_reads :
      (table : Str) (tables : List Str) (w z : W)
      → table_loop s (some fn) (table ∷ tables) w ≡ some (z, none)
      → o.reads z ≡ o.reads w ++ ((select_all table, o.in_snapshot w) ∷ map later tables)
  loop_reads table tables w z h =
      let p = loop_step table tables w z h in
      loop_later tables p.0 z p.1 p.3
      ∙ (ap (λ r. r ++ map later tables) p.2
          ∙ append_assoc (o.reads w) ((select_all table, o.in_snapshot w) ∷ []) (map later tables))

  from_gtid_reads :
      (table : Str) (tables : List Str) (r : W × Option Str) (z : W)
      → o.in_snapshot (r.0) ≡ true
      → from_gtid s (some fn) (table ∷ tables) r ≡ some (z, none)
      → o.reads z ≡ o.reads (r.0) ++ ((select_all table, true) ∷ map later tables)
  from_gtid_reads table tables (w, none) z inside h = cc
  from_gtid_reads table tables (w, some set) z inside h =
      loop_reads table tables (send s unlock_text (s.update set w)) z h
      ∙ rw
          (
            reads_send unlock_text (s.update set w),
            unlock_law (s.update set w),
            (update_law set w).0,
            (update_law set w).1,
            inside,
          )
          refl

  -- An export of at least one table that ends without an error has read every table once and in
  -- order: the first in the transaction of the snapshot, and all others after its end. The laws say
  -- that sending a statement reads no table, that the transaction begins and ends with its
  -- statements, and that the exporter, which is not nil, only looks at rows.
  pub full_data_export_lem :
      (table : Str) (tables : List Str) (w z : W)
      → full_data_export s (some fn) (table ∷ tables) w ≡ some (z, none)
      → o.reads z ≡ o.reads w ++ ((select_all table, true) ∷ map later tables)
  unfolding full_data_export
  full_data_export_lem table tables w z h =
      from_gtid_reads table tables (s.execute gtid_text (begin_snapshot s (lock_tables s w))) z
        (gtid_law (begin_snapshot s (lock_tables s w)) ∙ start_law _) h
      ∙ ap (λ r. r ++ ((select_all table, true) ∷ map later tables)) (start_reads w)
    where
      start_reads :
          (v : W) → o.reads (send s gtid_text (begin_snapshot s (lock_tables s v))) ≡ o.reads v
      start_reads v =
          reads_send gtid_text _
          ∙ (reads_send start_text _
              ∙ (reads_send _ _ ∙ (reads_send _ _ ∙ (reads_send _ _ ∙ reads_send _ v))))
