-- ===== src/Clickhouse/Unique/Search.antt =====
-- `getUniqueColumnName` of clickhouse/clickhouse.go ends and returns a name that is not taken.
use kit_go.Common.{
  ℕ, zero, suc, ◌+◌, ◌≤◌, ◌<◌, ◌≡◌, ◌≢◌, refl, ◌∙◌, true, false, none, some, List, [], ◌∷◌, ◌++◌,
  arith, if◌then◌else◌, length, Str, itoa, str_eq, str_eq_iff, Bool-cases, Option-cases, inl, inr,
}
use kit_go.Common.Decimal.{itoa_injective}
use kit_go.Clickhouse.Unique.{is_unique, numbered, unique_loop, get_unique_column_name}

-- The map without the entries of one name, as a list.
abbrev remove : Str → List (Str × ℕ) → List (Str × ℕ)
remove k [] = []
remove k ((j, v) ∷ m) = let rest = remove k m in if str_eq j k then rest else (j, v) ∷ rest

is_unique-remove :
    (k j : Str) (m : List (Str × ℕ)) → k ≢ j → is_unique (remove k m) j ≡ is_unique m j
is_unique-remove k j [] h = refl
is_unique-remove k j ((i, v) ∷ m) h =
    ground (arith, str_eq_iff i k, str_eq_iff i j, is_unique-remove k j m h)

length-remove_le : (k : Str) (m : List (Str × ℕ)) → length (remove k m) ≤ length m
length-remove_le k [] = omega arith
length-remove_le k ((i, v) ∷ m) = ground (arith, length-remove_le k m)

length-remove :
    (k : Str) (m : List (Str × ℕ)) → is_unique m k ≡ false → length (remove k m) < length m
length-remove k [] h = cc
length-remove k ((i, v) ∷ m) h = ground (arith, length-remove_le k m, length-remove k m)

append_cancel : (xs : Str) {ys zs : Str} → xs ++ ys ≡ xs ++ zs → ys ≡ zs
append_cancel [] e = e
append_cancel (x ∷ xs) e = append_cancel xs (cc)

numbered_injective : (prefix : Str) (i j : ℕ) → numbered prefix i ≡ numbered prefix j → i ≡ j
numbered_injective prefix i j e = itoa_injective i j (tail_eq (append_cancel prefix e))
  where
    tail_eq : b'_' ∷ itoa i ≡ b'_' ∷ itoa j → itoa i ≡ itoa j
    tail_eq p = cc

-- The names tried later are other names.
unique_loop-remove :
    (fuel : ℕ) (m : List (Str × ℕ)) (prefix : Str) (i j : ℕ)
    → i < j
    → unique_loop fuel (remove (numbered prefix i) m) prefix j ≡ unique_loop fuel m prefix j
unfolding unique_loop
unique_loop-remove zero m prefix i j h = refl
unique_loop-remove (suc fuel) m prefix i j h = rw (
  is_unique-remove (numbered prefix i) (numbered prefix j) m
      (λ e. absurd (omega (arith, numbered_injective prefix i j e))),
  unique_loop-remove fuel m prefix i (j + 1) (omega arith),
)

unique_loop_next :
    (fuel : ℕ) (m : List (Str × ℕ)) (prefix : Str) (i : ℕ)
    → unique_loop (suc fuel) m prefix i ≡ none
    → (is_unique m (numbered prefix i) ≡ false) × (unique_loop fuel m prefix (i + 1) ≡ none)
unfolding unique_loop
unique_loop_next fuel m prefix i h = ground arith

-- A search that fails has met only taken names, all different, and there are at most as many
-- as the map has entries.
unique_loop_fails :
    (fuel : ℕ) (m : List (Str × ℕ)) (prefix : Str) (i : ℕ)
    → unique_loop fuel m prefix i ≡ none
    → fuel ≤ length m
unique_loop_fails zero m prefix i h = omega arith
unique_loop_fails (suc fuel) m prefix i h =
    let (taken, later) = unique_loop_next fuel m prefix i h in
    let k = numbered prefix i in
    omega (
      arith,
      length-remove k m taken,
      unique_loop_fails fuel (remove k m) prefix (i + 1)
          (unique_loop-remove fuel m prefix i (i + 1) (omega arith) ∙ later),
    )

unique_loop_sound :
    (fuel : ℕ) (m : List (Str × ℕ)) (prefix : Str) (i : ℕ) (name : Str)
    → unique_loop fuel m prefix i ≡ some name
    → is_unique m name ≡ true
unfolding unique_loop
unique_loop_sound zero m prefix i name h = cc
unique_loop_sound (suc fuel) m prefix i name h =
    elim (Bool-cases (is_unique m (numbered prefix i))) [
      | inl free ↦ let named : numbered prefix i ≡ name = some_eq (rw free at h) in rw named at free
      | inr taken ↦ unique_loop_sound fuel m prefix (i + 1) name (rw taken at h)
    ]
  where
    some_eq : some (numbered prefix i) ≡ some name → numbered prefix i ≡ name
    some_eq p = cc

-- `getUniqueColumnName` always ends, after at most one try more than the map has entries, and
-- the name that it returns is not in the map.
pub get_unique_column_name_lem :
    (cols : List (Str × ℕ)) (prefix : Str)
    → (name : Str) × (get_unique_column_name cols prefix ≡ some name) × (is_unique cols name ≡ true)
unfolding get_unique_column_name
get_unique_column_name_lem cols prefix = elim (Bool-cases (is_unique cols prefix)) [
  | inl free ↦ (prefix, rw free, free)
  | inr taken ↦ elim (Option-cases (unique_loop (suc (length cols)) cols prefix 0)) [
    | inl fails ↦ absurd (omega (arith, unique_loop_fails (suc (length cols)) cols prefix 0 fails))
    | inr (name, found) ↦
        (name, rw (taken, found), unique_loop_sound (suc (length cols)) cols prefix 0 name found)
  ]
]
