-- ===== src/Clickhouse/Schema/Columns.antt =====
-- The flags of a column that clickhouse/clickhouse.go reads from a column definition.
use kit_go.Common.{
  ◌≡◌, refl, ◌∙◌, Bool, true, false, not, ◌||◌, Option, none, some, List, [], ◌∷◌, arith,
  if◌then◌else◌, Str,
}
use kit_go.Clickhouse.Schema.{
  FieldKind, enum, FieldType, ColumnOption, not_null, auto_increment, primary_key_option,
  other_option, comment_option, ColumnDef, Column, new_column, apply_options, sized, typed,
  column_of,
}

abbrev is_not_null : ColumnOption → Bool
is_not_null not_null = true
is_not_null _ = false

abbrev is_primary : ColumnOption → Bool
is_primary primary_key_option = true
is_primary _ = false

abbrev is_increment : ColumnOption → Bool
is_increment auto_increment = true
is_increment _ = false

abbrev pub any_of : (ColumnOption → Bool) → List ColumnOption → Bool
any_of p [] = false
any_of p (o ∷ os) = p o || any_of p os

abbrev pub says_not_null : List ColumnOption → Bool
says_not_null = any_of is_not_null

abbrev pub says_primary : List ColumnOption → Bool
says_primary = any_of is_primary

abbrev pub says_increment : List ColumnOption → Bool
says_increment = any_of is_increment

-- What the options leave of the three flags of a column.
abbrev pub flags_of : Column → Bool × Bool × Bool
flags_of col = (col.nullable, col.primary_key, col.increment)

apply_options_flags :
    (os : List ColumnOption) (col : Column)
    → flags_of (apply_options os col) ≡ (
      (if says_not_null os then false else col.nullable),
      (if says_primary os then true else col.primary_key),
      (if says_increment os then true else col.increment),
    )
unfolding apply_options
apply_options_flags [] col = refl
apply_options_flags (not_null ∷ os) col =
    ground (arith, apply_options_flags os (record col { nullable = false }))
apply_options_flags (auto_increment ∷ os) col =
    ground (arith, apply_options_flags os (record col { increment = true }))
apply_options_flags (primary_key_option ∷ os) col =
    ground (arith, apply_options_flags os (record col { primary_key = true }))
apply_options_flags (other_option ∷ os) col = apply_options_flags os col
apply_options_flags (comment_option s ∷ os) col =
    apply_options_flags os (record col { comment = s })

module _ (type_to_str : FieldKind → Str → Str) where
  sized_flags :
      (k : FieldKind) (ft : FieldType) (col : Column) → flags_of (sized k ft col) ≡ flags_of col
  unfolding sized
  sized_flags enum ft col = refl
  sized_flags _ ft col = refl

  typed_flags :
      (tp : Option FieldType) (name : Str)
      → flags_of (typed type_to_str tp (new_column name)) ≡ (true, false, false)
  unfolding typed
  typed_flags none name = refl
  typed_flags (some ft) name = sized_flags ft.kind ft _

  typed_ground :
      (c : ColumnDef)
      → let col = typed type_to_str c.tp (new_column c.name) in
        ◌≡◌ {A = Bool × Bool × Bool}
          (
            (if says_not_null c.options then false else col.nullable),
            (if says_primary c.options then true else col.primary_key),
            (if says_increment c.options then true else col.increment),
          )
          (not (says_not_null c.options), says_primary c.options, says_increment c.options)
  typed_ground c = ground (arith, typed_flags c.tp c.name)

  -- A column read from a statement is nullable unless its options say NOT NULL, whether or not
  -- they say PRIMARY KEY; it is a primary key, or filled in by the server, exactly if its options
  -- say so.
  pub column_of_flags :
      (c : ColumnDef)
      → flags_of (column_of type_to_str c)
        ≡ (not (says_not_null c.options), says_primary c.options, says_increment c.options)
  unfolding column_of
  column_of_flags c =
      apply_options_flags c.options (typed type_to_str c.tp (new_column c.name)) ∙ typed_ground c
