-- ===== src/Clickhouse/Unique.antt =====
-- clickhouse/clickhouse.go: `getUniqueColumnName`.
pub mod Search
use kit_go.Common.{
  ℕ, zero, suc, ◌+◌, Bool, true, false, Option, none, some, List, ◌++◌, if◌then◌else◌, length, Str,
  codes, itoa,
}
use kit_go.Common.Maps.{lookup}

-- `isUnique`, and the search for a suffix; `none` is a search cut off by its fuel.
abbrev pub is_unique : List (Str × ℕ) → Str → Bool
is_unique cols name = elim (lookup name cols) [ none ↦ true | some _ ↦ false ]

abbrev pub numbered : Str → ℕ → Str
numbered prefix index = prefix ++ (codes "_" ++ itoa index)

unfoldable pub unique_loop : ℕ → List (Str × ℕ) → Str → ℕ → Option Str
unique_loop zero cols prefix index = none
unique_loop (suc fuel) cols prefix index =
    let rest = unique_loop fuel cols prefix (index + 1) in
    if is_unique cols (numbered prefix index) then some (numbered prefix index) else rest

unfoldable pub get_unique_column_name : List (Str × ℕ) → Str → Option Str
unfolding unique_loop
get_unique_column_name cols prefix =
    if is_unique cols prefix then some prefix else unique_loop (suc (length cols)) cols prefix 0
