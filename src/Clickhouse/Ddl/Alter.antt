-- ===== src/Clickhouse/Ddl/Alter.antt =====
-- What ALTER TABLE becomes in clickhouse/clickhouse.go.
use kit_go.Common.{
  ℕ, ◌+◌, ◌≡◌, refl, sym, ap, ◌∙◌, false, Option, none, some, List, [], ◌∷◌, ◌++◌, map,
  append_assoc, append-nil, arith, Str, contains, All, set, str_eq_refl,
}
use kit_go.Common.Maps.{lookup, insert, lookup-insert}
use kit_go.Clickhouse.Schema.{
  FieldKind, ColumnDef, Column, Table, empty_table, AlterType, add_columns, modify_column,
  drop_index, drop_column, rename_column, column_of, positions, get_columns, find_column,
}
use kit_go.Clickhouse.Policy.{ok}
use kit_go.Clickhouse.Ddl.{
  Position, AlterSpec, add_spec, modify_spec, change_spec, drop_column_spec, rename_column_spec,
  drop_index_spec, other_spec, get_relative_position, spec_of, spec_loop, get_alter_table_spec,
  with_spec, relative_text, bare_column, note_position,
}

abbrev pub def_names : List ColumnDef → List Str
def_names [] = []
def_names (c ∷ cs) = c.name ∷ def_names cs

-- The code has a case for the specification; one that adds or changes columns has at least one, and
-- its first name is not used again.
abbrev pub IsSupported : AlterSpec → Type 0
IsSupported (add_spec [] p) = ⊥
IsSupported (add_spec (c ∷ cs) p) = contains (def_names cs) c.name ≡ false
IsSupported (modify_spec [] p) = ⊥
IsSupported (modify_spec (c ∷ cs) p) = contains (def_names cs) c.name ≡ false
IsSupported change_spec = ⊥
IsSupported (drop_column_spec old) = Unit
IsSupported (rename_column_spec old new) = Unit
IsSupported (drop_index_spec name) = Unit
IsSupported other_spec = ⊥

abbrev pub spec_action : AlterSpec → AlterType → AlterType
spec_action (add_spec cs p) a = add_columns
spec_action (modify_spec cs p) a = modify_column
spec_action change_spec a = a
spec_action (drop_column_spec old) a = drop_column
spec_action (rename_column_spec old new) a = rename_column
spec_action (drop_index_spec name) a = drop_index
spec_action other_spec a = a

abbrev pub last_action : List AlterSpec → AlterType → AlterType
last_action [] a = a
last_action (s ∷ ss) a = last_action ss (spec_action s a)

-- The name under which the specification's number is kept.
abbrev pub spec_entry : AlterSpec → Option Str
spec_entry (add_spec (c ∷ cs) p) = some c.name
spec_entry (modify_spec (c ∷ cs) p) = some c.name
spec_entry (drop_index_spec name) = some name
spec_entry _ = none

abbrev pub entries : ℕ → List AlterSpec → List (Str × ℕ) → List (Str × ℕ)
entries i [] m = m
entries i (s ∷ ss) m = entries (i + 1) ss (note_position (spec_entry s) i m)

-- A column at the position of its specification.
abbrev pub placed : Option Position → Column → Column
placed none col = col
placed (some p) col = record col { relative_column = relative_text p }

get_relative_position_found :
    (name : Str) (p : Position) (t : Table) (i : ℕ) (col : Column)
    → find_column t name ≡ some (i, col)
    → get_relative_position name (some p) t
      ≡ record t { columns = set t.columns i (record col { relative_column = relative_text p }) }
unfolding get_relative_position
get_relative_position_found name p t i col h = ground arith

module _ (type_to_str : FieldKind → Str → Str) where
  -- The columns that a specification makes: the definitions as they are read, the first of those
  -- that are added or changed at the position that is asked for.
  abbrev pub def_columns : List ColumnDef → Option Position → List Column
  def_columns [] p = []
  def_columns (c ∷ cs) p = placed p (column_of type_to_str c) ∷ map (column_of type_to_str) cs

  abbrev pub spec_columns : AlterSpec → List Column
  spec_columns (add_spec cs p) = def_columns cs p
  spec_columns (modify_spec cs p) = def_columns cs p
  spec_columns change_spec = []
  spec_columns (drop_column_spec old) = column_of type_to_str (bare_column old) ∷ []
  spec_columns (rename_column_spec old new) =
      column_of type_to_str (bare_column old) ∷ column_of type_to_str (bare_column new) ∷ []
  spec_columns (drop_index_spec name) = column_of type_to_str (bare_column name) ∷ []
  spec_columns other_spec = []

  abbrev pub all_columns : List AlterSpec → List Column
  all_columns [] = []
  all_columns (s ∷ ss) = spec_columns s ++ all_columns ss

  lookup-positions :
      (n : Str) (cs : List ColumnDef) (i : ℕ) (m : List (Str × ℕ))
      → contains (def_names cs) n ≡ false
      → lookup n (positions type_to_str i cs m) ≡ lookup n m
  unfolding positions
  lookup-positions n [] i m h = refl
  lookup-positions n (c ∷ cs) i m h =
      ground
        (arith, lookup-positions n cs (i + 1) (insert c.name i m), lookup-insert c.name n i m, h)

  first_found :
      (c : ColumnDef) (cs : List ColumnDef)
      → contains (def_names cs) c.name ≡ false
      → find_column (get_columns type_to_str empty_table (c ∷ cs)) c.name
        ≡ some (0, column_of type_to_str c)
  unfolding find_column get_columns positions
  first_found c cs h =
      ground (arith, lookup-positions c.name cs 1 (insert c.name 0 []) h, str_eq_refl c.name)

  get_relative_position-columns :
      (c : ColumnDef) (cs : List ColumnDef) (p : Option Position)
      → contains (def_names cs) c.name ≡ false
      → (get_relative_position c.name p (get_columns type_to_str empty_table (c ∷ cs))).columns
        ≡ def_columns (c ∷ cs) p
  unfolding get_columns
  get_relative_position-columns c cs none h = unfold get_relative_position in refl
  get_relative_position-columns c cs (some p) h =
      ap (λ t. t.columns)
        (get_relative_position_found c.name p (get_columns type_to_str empty_table (c ∷ cs)) 0
          (column_of type_to_str c) (first_found c cs h))

  spec_of-columns :
      (s : AlterSpec) (a : AlterType)
      → IsSupported s
      → spec_of type_to_str s ≡ ok (spec_columns s, spec_action s a, spec_entry s)
  unfolding spec_of get_columns
  spec_of-columns (add_spec [] p) a h = absurd h
  spec_of-columns (add_spec (c ∷ cs) p) a h =
      ap (λ l. ok (l, add_columns, some c.name)) (get_relative_position-columns c cs p h)
  spec_of-columns (modify_spec [] p) a h = absurd h
  spec_of-columns (modify_spec (c ∷ cs) p) a h =
      ap (λ l. ok (l, modify_column, some c.name)) (get_relative_position-columns c cs p h)
  spec_of-columns change_spec a h = absurd h
  spec_of-columns (drop_column_spec old) a h = refl
  spec_of-columns (rename_column_spec old new) a h = refl
  spec_of-columns (drop_index_spec name) a h = refl
  spec_of-columns other_spec a h = absurd h

  spec_loop_ok :
      (s : AlterSpec) (ss : List AlterSpec) (i : ℕ) (t : Table)
      (x : List Column × AlterType × Option Str)
      → spec_of type_to_str s ≡ ok x
      → spec_loop type_to_str i (s ∷ ss) t ≡ spec_loop type_to_str (i + 1) ss (with_spec t i x)
  unfolding spec_loop
  spec_loop_ok s ss i t x e = rw (e, spec_loop)

  -- The table with what the specifications from the `i`th on make of it.
  abbrev pub altered : ℕ → List AlterSpec → Table → Table
  altered i ss t = record t {
    columns = t.columns ++ all_columns ss;
    ddl_action = last_action ss t.ddl_action;
    colpos = entries i ss t.colpos;
  }

  spec_loop-altered :
      (ss : List AlterSpec) (i : ℕ) (t : Table)
      → All IsSupported ss
      → spec_loop type_to_str i ss t ≡ ok (altered i ss t)
  spec_loop-altered [] i t h =
      unfold spec_loop in ap (λ l. ok (record t { columns = l })) (sym (append-nil t.columns))
  spec_loop-altered (s ∷ ss) i t h =
      let made : List Column × AlterType × Option Str =
        (spec_columns s, spec_action s t.ddl_action, spec_entry s) in
      spec_loop_ok s ss i t made (spec_of-columns s t.ddl_action h.0)
      ∙ (spec_loop-altered ss (i + 1) (with_spec t i made) h.1
          ∙ ap (λ l. ok (record (altered i (s ∷ ss) t) { columns = l }))
              (append_assoc t.columns (spec_columns s) (all_columns ss)))

  -- Where every part of an ALTER TABLE is supported, with at least one column where it adds or
  -- changes columns and the name of the first not used again, the statement is read without an
  -- error or a panic: the table lists behind its own the columns of all parts in order, with the
  -- types and the attributes of their definitions, the first of each part at the position that is asked
  -- for; its action is that of the last part, and each number stands under the name of its part.
  pub get_alter_table_spec_lem :
      (ss : List AlterSpec) (t : Table)
      → All IsSupported ss
      → get_alter_table_spec type_to_str ss t
        ≡ ok (record t {
          columns = t.columns ++ all_columns ss;
          ddl_action = last_action ss t.ddl_action;
          colpos = entries 0 ss [];
        })
  unfolding get_alter_table_spec
  get_alter_table_spec_lem ss t h = spec_loop-altered ss 0 (record t { colpos = [] }) h
