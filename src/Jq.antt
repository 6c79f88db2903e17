-- ===== src/Jq.antt =====
-- jq/jq.go: `PickJson`, from a path to the expression that is run. Package gojq is not modelled.
-- A path is the list of the runes of a text in UTF-8.
pub mod Paths
mod Tests
use kit_go.Common.{
  ℕ, ◌+◌, ◌==◌, Bool, true, false, ◌||◌, ◌&&◌, leb, List, [], ◌∷◌, ◌++◌, if◌then◌else◌, Str, codes,
  str_eq, split,
}
use kit_go.Common.Fields.{is_space}

unfoldable pub trim_space : Str → Str
trim_space [] = []
trim_space (r ∷ s) = let rest = trim_space s in if is_space r then rest else r ∷ rest

-- The runes that the loop passes over.
abbrev pub is_dropped : ℕ → Bool
is_dropped r = is_space r || (r == b'{' || (r == b'}' || r == b'"'))

-- The loop of `PickJson` over the path.
unfoldable pub rune_path : Str → Str
rune_path [] = []
rune_path (r ∷ s) = let rest = rune_path s in if is_dropped r then rest else r ∷ rest

-- What is written for every key but the last, with the path so far.
abbrev pub step_text : Str → Str → Str
step_text v jpath = codes "|=with_entries(select(.key == \"" ++ (v ++ (codes "\"))|." ++ jpath))

abbrev pub next_path : ℕ → Str → Str → Str
next_path i jpath v = if i == 0 then v else jpath ++ (codes "." ++ v)

-- The loop over the keys before the last, and then the last.
unfoldable pub step_loop : ℕ → Str → List Str → Str
step_loop i jpath [] = []
step_loop i jpath (v ∷ vs) =
    step_text v (next_path i jpath v) ++ step_loop (i + 1) (next_path i jpath v) vs

abbrev pub quoted : Str → Str
quoted v = codes "\"" ++ (v ++ codes "\"")

-- The loop over the names of the last key.
unfoldable pub key_loop : ℕ → Str → List Str → Str
key_loop i key [] = key
key_loop i key (v ∷ vs) =
    let next = if i == 0 then quoted v else key ++ (codes "," ++ quoted v) in
    key_loop (i + 1) next vs

abbrev pub butlast : List Str → List Str
butlast [] = []
butlast (x ∷ []) = []
butlast (x ∷ y ∷ r) = x ∷ butlast (y ∷ r)

abbrev pub last : List Str → Str
last [] = []
last (x ∷ []) = x
last (x ∷ y ∷ r) = last (y ∷ r)

unfoldable pub expression_of : List Str → Str
unfolding step_loop key_loop
expression_of sl =
    codes "."
    ++ (step_loop 0 [] (butlast sl)
        ++ (codes "|=with_entries(select(.key | IN ("
            ++ (key_loop 0 [] (split b',' (last sl)) ++ codes ")))")))

-- The expression that `PickJson` gives to `parserJson`.
unfoldable pub pick_expression : Str → Str
unfolding trim_space rune_path expression_of
pick_expression json_path =
    let path =
      if str_eq (trim_space json_path) (codes "{}") then codes "." else rune_path json_path in
    if str_eq path (codes ".") then codes "." else expression_of (split b':' path)
