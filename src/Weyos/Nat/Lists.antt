-- ===== src/Weyos/Nat/Lists.antt =====
-- The lists that `NewWan` and `NewIpaddr` of weyos/nat.go write.
use kit_go.Common.{
  ℕ, ◌≤◌, ◌+◌, ◌≡◌, refl, ap, ◌∙◌, List, [], ◌∷◌, ◌++◌, map, arith, if◌then◌else◌, is_empty, Str,
  codes, join, append-nil,
}
use kit_go.Weyos.Nat.{comma_loop, wan_text, new_wan}

-- The entries that are not empty.
abbrev pub filled : List Str → List Str
filled [] = []
filled (p ∷ ps) = let rest = filled ps in if is_empty p then rest else p ∷ rest

-- Each entry with a comma before it.
abbrev pub with_commas : List Str → Str
with_commas [] = []
with_commas (p ∷ ps) = codes "," ++ (p ++ with_commas ps)

join-with_commas : (p : Str) (ps : List Str) → join (codes ",") (p ∷ ps) ≡ p ++ with_commas ps
join-with_commas p [] = rw (append-nil p) refl
join-with_commas p (q ∷ ps) = ap (λ r. p ++ (codes "," ++ r)) (join-with_commas q ps)

module _ (text : Str → Str) where
  comma_loop_later :
      (ps : List Str) (i : ℕ) → 1 ≤ i → comma_loop text i ps ≡ with_commas (map text (filled ps))
  unfolding comma_loop
  comma_loop_later [] i h = refl
  comma_loop_later ([] ∷ ps) i h = comma_loop_later ps (i + 1) (omega arith)
  comma_loop_later ((x ∷ p) ∷ ps) i h = ground (arith, comma_loop_later ps (i + 1) (omega arith))

  comma_loop-filled :
      (x : ℕ) (p : Str) (ps : List Str)
      → comma_loop text 0 ((x ∷ p) ∷ ps) ≡ join (codes ",") (map text (filled ((x ∷ p) ∷ ps)))
  unfolding comma_loop
  comma_loop-filled x p ps =
      ap (λ r. text (x ∷ p) ++ r) (comma_loop_later ps 1 (omega arith)) ∙ sym_join
    where
      sym_join :
          text (x ∷ p) ++ with_commas (map text (filled ps))
          ≡ join (codes ",") (text (x ∷ p) ∷ map text (filled ps))
      sym_join = rw (join-with_commas (text (x ∷ p)) (map text (filled ps))) refl

  comma_loop_blank :
      (ps : List Str) → comma_loop text 0 ([] ∷ ps) ≡ with_commas (map text (filled ps))
  unfolding comma_loop
  comma_loop_blank ps = comma_loop_later ps 1 (omega arith)

-- A list of interfaces whose first is not empty is written as the interfaces that are not empty,
-- in order, each after `WAN`, with a comma between two; one whose first is empty has a comma
-- before each of them, also the first.
pub new_wan_lem :
    (x : ℕ) (p : Str) (ps : List Str)
    → (new_wan ((x ∷ p) ∷ ps) ≡ join (codes ",") (map wan_text (filled ((x ∷ p) ∷ ps))))
      × (new_wan ([] ∷ ps) ≡ with_commas (map wan_text (filled ps)))
unfolding new_wan
new_wan_lem x p ps = (comma_loop-filled wan_text x p ps, comma_loop_blank wan_text ps)
