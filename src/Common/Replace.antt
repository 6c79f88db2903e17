-- ===== src/Common/Replace.antt =====
-- `strings.HasPrefix` and `strings.ReplaceAll`, and quoted names.
use Prim.Native.Nat.{ℕ, zero, suc, ◌-◌}
use mathlib.Core.Path.{◌≡◌, refl, ap}
use mathlib.Core.Bool.{Bool, true, false}
use mathlib.Core.List.{[], ◌∷◌, ◌++◌}
use native.Mathlib.Omega.{arith}
use kit_go.Common.Tests.{◌==◌, if◌then◌else◌}
use kit_go.Common.Lists.{length}
use kit_go.Common.Text.{Str}

-- `strings.HasPrefix(s, p)`.
abbrev pub has_prefix : Str → Str → Bool
has_prefix s [] = true
has_prefix [] (_ ∷ _) = false
has_prefix (x ∷ s) (y ∷ p) = let rest = has_prefix s p in if x == y then rest else false

-- `strings.Contains(s, p)`.
abbrev pub has_text : Str → Str → Bool
has_text [] p = has_prefix [] p
has_text (x ∷ s) p = let rest = has_text s p in if has_prefix (x ∷ s) p then true else rest

-- `strings.ReplaceAll(s, old, new)` for an `old` that is not empty; the number counts the bytes of
-- an occurrence that are still passed over.
unfoldable pub replace_loop : ℕ → Str → Str → Str → Str
replace_loop k old new [] = []
replace_loop (suc k) old new (x ∷ s) = replace_loop k old new s
replace_loop zero old new (x ∷ s) =
    let found = new ++ replace_loop (length old - 1) old new s in
    let rest = replace_loop zero old new s in if has_prefix (x ∷ s) old then found else x ∷ rest

has_prefix-append : (p s : Str) → has_prefix (p ++ s) p ≡ true
has_prefix-append [] s = refl
has_prefix-append (x ∷ p) s = ground (arith, has_prefix-append p s)

replace_loop_skip :
    (p old new s : Str) → replace_loop (length p) old new (p ++ s) ≡ replace_loop 0 old new s
unfolding replace_loop
replace_loop_skip [] old new s = refl
replace_loop_skip (x ∷ p) old new s = replace_loop_skip p old new s

-- The first occurrence, at the beginning of the text.
pub replace_loop_first :
    (x : ℕ) (p new s : Str)
    → replace_loop 0 (x ∷ p) new (x ∷ (p ++ s)) ≡ new ++ replace_loop 0 (x ∷ p) new s
unfolding replace_loop
replace_loop_first x p new s =
    let one_less : suc (length p) - 1 ≡ length p = omega arith in
    rw (has_prefix-append (x ∷ p) s, one_less)
      (ap (λ r. new ++ r) (replace_loop_skip p (x ∷ p) new s))
