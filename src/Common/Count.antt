-- ===== src/Common/Count.antt =====
-- How often a byte occurs in a text.
use Prim.Native.Nat.{ℕ, ◌+◌}
use mathlib.Core.Path.{◌≡◌, refl}
use mathlib.Core.List.{List, [], ◌∷◌, ◌++◌, map}
use native.Mathlib.Omega.{arith}
use kit_go.Common.Tests.{◌==◌, if◌then◌else◌}
use kit_go.Common.Text.{Str, join, Free}

abbrev pub count : ℕ → Str → ℕ
count c [] = 0
count c (x ∷ xs) = (if x == c then 1 else 0) + count c xs

abbrev pub total : List ℕ → ℕ
total [] = 0
total (n ∷ ns) = n + total ns

pub count-append : (c : ℕ) (s t : Str) → count c (s ++ t) ≡ count c s + count c t
count-append c [] t = omega arith
count-append c (x ∷ xs) t = omega (arith, count-append c xs t)

pub count-Free : (c : ℕ) (s : Str) → Free c s → count c s ≡ 0
count-Free c [] h = refl
count-Free c (x ∷ xs) h = ground (arith, count-Free c xs h.1)

-- A separator without the byte adds nothing.
pub count-join :
    (c : ℕ) (sep : Str) (xs : List Str)
    → count c sep ≡ 0
    → count c (join sep xs) ≡ total (map (count c) xs)
count-join c sep [] h = refl
count-join c sep (x ∷ []) h = omega arith
count-join c sep (x ∷ y ∷ r) h = omega (
  arith,
  count-append c x (sep ++ join sep (y ∷ r)),
  count-append c sep (join sep (y ∷ r)),
  count-join c sep (y ∷ r) h,
)
