-- ===== src/Canal/Filter/Matching.antt =====
-- Which tables the filter of canal/fileter.go lets through.
use kit_go.Common.{
  ◌≡◌, refl, Bool, true, false, not, ◌&&◌, ◌||◌, Option, none, some, List, [], ◌∷◌, ◌++◌, arith,
  if◌then◌else◌, is_empty, Str,
}
use kit_go.Canal.Filter.{FilterTable, exclude, match_loop, match_table}

module _ (compile : Str → Option (Str → Bool)) where
  -- A pattern that does not compile matches nothing.
  abbrev pub hits : Str → Str → Bool
  hits table val = elim (compile val) [ none ↦ false | some reg ↦ reg table ]

  abbrev pub any_hits : Str → List Str → Bool
  any_hits table [] = false
  any_hits table (val ∷ vals) = hits table val || any_hits table vals

  match_loop-any_hits :
      (vals : List Str) (table : Str) (hit flag : Bool)
      → match_loop compile vals table hit flag ≡ (if any_hits table vals then hit else flag)
  unfolding match_loop
  match_loop-any_hits [] table hit flag = refl
  match_loop-any_hits (val ∷ vals) table hit flag =
      ground (arith, match_loop-any_hits vals table hit flag)

  any_hits-append :
      (table : Str) (xs ys : List Str)
      → any_hits table (xs ++ ys) ≡ (any_hits table xs || any_hits table ys)
  any_hits-append table [] ys = refl
  any_hits-append table (x ∷ xs) ys = ground (arith, any_hits-append table xs ys)

  -- A table passes exactly if it matches a pattern to include, or there are none, and matches no
  -- pattern to exclude; patterns that do not compile match nothing.
  pub match_table_lem :
      (f : FilterTable) (table : Str)
      → match_table compile f table
        ≡ ((is_empty f.include || any_hits table f.include) && not (any_hits table f.exclude))
  unfolding match_table
  match_table_lem f table = ground (
    arith,
    match_loop-any_hits f.include table true (is_empty f.include),
    match_loop-any_hits f.exclude table false
        (match_loop compile f.include table true (is_empty f.include)),
  )

  -- Excluding more tables lets through those that passed before and match none of the new
  -- patterns, and no others.
  pub match_table-exclude :
      (f : FilterTable) (tables : List Str) (table : Str)
      → match_table compile (exclude tables f) table
        ≡ (match_table compile f table && not (any_hits table tables))
  unfolding exclude
  match_table-exclude f tables table = ground (
    arith,
    match_table_lem f table,
    match_table_lem (record f { exclude = f.exclude ++ tables }) table,
    any_hits-append table f.exclude tables,
  )
