-- ===== src/Clickhouse/Ddl/Drop.antt =====
-- ALTER TABLE statements of clickhouse/clickhouse.go whose last part decides what is written.
use kit_go.Common.{◌≡◌, refl, ap, ◌∙◌, List, [], ◌∷◌, ◌++◌, map, Str, codes, All}
use kit_go.Clickhouse.Schema.{FieldKind, Table, AlterType, drop_column, rename_column}
use kit_go.Clickhouse.Policy.{ok, ◌>>=◌}
use kit_go.Clickhouse.Restore
use kit_go.Clickhouse.Restore.{Restore, cat, separated, qualified, drop_one}
use kit_go.Clickhouse.Ddl.{
  AlterSpec, drop_column_spec, rename_column_spec, get_alter_table_spec, write_alter,
}
use kit_go.Clickhouse.Ddl.Alter.{
  IsSupported, all_columns, altered, last_action, get_alter_table_spec_lem,
}

last_action-append :
    (ss : List AlterSpec) (s : AlterSpec) (a : AlterType)
    → last_action (ss ++ (s ∷ [])) a ≡ last_action (s ∷ []) (last_action ss a)
last_action-append [] s a = refl
last_action-append (x ∷ ss) s a = last_action-append ss s _

module _ (w : Restore) where
  write_alter-drop_column :
      (t : Table)
      → t.ddl_action ≡ drop_column
      → write_alter w t.ddl_action t
        ≡ ok (
            cat (
              qualified w t ∷ codes " " ∷ separated (codes ", ") (map (drop_one w) t.columns) ∷ []))
  unfolding write_alter Restore.drop_column
  write_alter-drop_column t a = rw a

  -- An ALTER TABLE whose last part drops a column, and whose parts are all supported, is written
  -- as a statement that drops every column that any of its parts speaks of, the added ones too.
  pub alter_drops_columns :
      (type_to_str : FieldKind → Str → Str) (ss : List AlterSpec) (old : Str) (t : Table)
      → t.columns ≡ []
      → All IsSupported (ss ++ (drop_column_spec old ∷ []))
      → (get_alter_table_spec type_to_str (ss ++ (drop_column_spec old ∷ [])) t >>= λ r.
          write_alter w r.ddl_action r)
        ≡ ok (
            cat (
              qualified w t
              ∷ codes " "
              ∷ separated
                  (codes ", ")
                  (map (drop_one w) (all_columns type_to_str (ss ++ (drop_column_spec old ∷ []))))
              ∷ []))
  unfolding qualified
  alter_drops_columns type_to_str ss old t start h =
      let parts = ss ++ (drop_column_spec old ∷ []) in
      ap (λ r. r >>= λ r'. write_alter w r'.ddl_action r')
        (get_alter_table_spec_lem type_to_str parts t h)
      ∙ (write_alter-drop_column (altered type_to_str 0 parts (record t { colpos = [] }))
            (last_action-append ss (drop_column_spec old) t.ddl_action)
          ∙ ap
              (λ cs. ok (
                cat (
                  qualified w t
                  ∷ codes " "
                  ∷ separated (codes ", ") (map (drop_one w) (cs ++ all_columns type_to_str parts))
                  ∷ [])))
              start)

  write_alter-rename_column :
      (t : Table) → t.ddl_action ≡ rename_column → write_alter w t.ddl_action t ≡ ok []
  unfolding write_alter
  write_alter-rename_column t a = rw a

  -- An ALTER TABLE whose last part renames a column, and whose parts are all supported, writes
  -- nothing after its keywords.
  pub alter_rename_empty :
      (type_to_str : FieldKind → Str → Str) (ss : List AlterSpec) (old new : Str) (t : Table)
      → All IsSupported (ss ++ (rename_column_spec old new ∷ []))
      → (get_alter_table_spec type_to_str (ss ++ (rename_column_spec old new ∷ [])) t >>= λ r.
          write_alter w r.ddl_action r)
        ≡ ok []
  alter_rename_empty type_to_str ss old new t h =
      let parts = ss ++ (rename_column_spec old new ∷ []) in
      ap (λ r. r >>= λ r'. write_alter w r'.ddl_action r')
        (get_alter_table_spec_lem type_to_str parts t h)
      ∙ write_alter-rename_column (altered type_to_str 0 parts (record t { colpos = [] }))
          (last_action-append ss (rename_column_spec old new) t.ddl_action)
