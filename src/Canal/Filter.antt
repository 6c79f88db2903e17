-- ===== src/Canal/Filter.antt =====
-- canal/fileter.go: the table filter. A nil slice is an empty list, since the code only appends.
pub mod Matching
use kit_go.Common.{
  Bool, true, false, Option, none, some, List, [], ◌∷◌, ◌++◌, if◌then◌else◌, is_empty, Str,
}

pub record FilterTable : Type 0 where
  pub include : List Str
  pub exclude : List Str

pub new_filter : FilterTable
new_filter = record { include = []; exclude = [] }

unfoldable pub include : List Str → FilterTable → FilterTable
include tables f = record f { include = f.include ++ tables }

unfoldable pub exclude : List Str → FilterTable → FilterTable
exclude tables f = record f { exclude = f.exclude ++ tables }

-- `compile` is `regexp.Compile`, with `MatchString` of its result.
module _ (compile : Str → Option (Str → Bool)) where
  -- A loop over patterns: the first that matches sets the flag and ends the loop.
  unfoldable pub match_loop : List Str → Str → Bool → Bool → Bool
  match_loop [] table hit flag = flag
  match_loop (val ∷ vals) table hit flag =
      let rest = match_loop vals table hit flag in
      elim (compile val) [ none ↦ rest | some reg ↦ if reg table then hit else rest ]

  unfoldable pub match_table : FilterTable → Str → Bool
  unfolding match_loop
  match_table f table =
      match_loop f.exclude table false (match_loop f.include table true (is_empty f.include))
