-- ===== src/Common/Text.antt =====
-- A Go string is a list of bytes. The functions of package strings and fmt that the source uses.
use Prim.Native.Nat.{ℕ, zero, suc, ◌+◌, ◌/◌, ◌%◌}
use Prim.Native.Char.{code}
use Prim.Native.String.{String}
use mathlib.Core.Path.{◌≡◌, refl, ap}
use mathlib.Core.Logic.{◌≢◌, ◌↔◌}
use mathlib.Core.Bool.{Bool, true, false, ◌&&◌}
use mathlib.Core.List.{List, [], ◌∷◌, ◌++◌}
use native.Mathlib.Omega.{arith}
use kit_go.Common.Tests.{ltb, ◌==◌, if◌then◌else◌}
use kit_go.Common.Lists.{All}

abbrev pub Str : Type 0
Str = List ℕ

-- The bytes of an ASCII literal.
abbrev pub codes : String → Str
codes String.[] = []
codes (String.◌∷◌ c s) = code c ∷ codes s

abbrev pub str_eq : Str → Str → Bool
str_eq [] [] = true
str_eq [] (_ ∷ _) = false
str_eq (_ ∷ _) [] = false
str_eq (x ∷ xs) (y ∷ ys) = x == y && str_eq xs ys

pub str_eq→eq : (s t : Str) → str_eq s t ≡ true → s ≡ t
str_eq→eq [] [] h = refl
str_eq→eq [] (_ ∷ _) h = cc
str_eq→eq (_ ∷ _) [] h = cc
str_eq→eq (x ∷ xs) (y ∷ ys) h = ground (arith, str_eq→eq xs ys)

pub str_eq_refl : (s : Str) → str_eq s s ≡ true
str_eq_refl [] = refl
str_eq_refl (x ∷ xs) = ground (arith, str_eq_refl xs)

pub str_eq_iff : (s t : Str) → (str_eq s t ≡ true) ↔ (s ≡ t)
str_eq_iff s t = (str_eq→eq s t, λ e. subst_eq e)
  where
    subst_eq : s ≡ t → str_eq s t ≡ true
    subst_eq e = rw (← e) (str_eq_refl s)

-- `slices.Contains` on strings.
abbrev pub contains : List Str → Str → Bool
contains [] s = false
contains (x ∷ xs) s = let rest = contains xs s in if str_eq x s then true else rest

-- `strings.Join`.
abbrev pub join : Str → List Str → Str
join sep [] = []
join sep (x ∷ []) = x
join sep (x ∷ y ∷ r) = x ++ (sep ++ join sep (y ∷ r))

abbrev pub cons_head : ℕ → List Str → List Str
cons_head c [] = (c ∷ []) ∷ []
cons_head c (p ∷ ps) = (c ∷ p) ∷ ps

-- `strings.Split` with a separator of one byte.
unfoldable pub split : ℕ → Str → List Str
split c [] = [] ∷ []
split c (x ∷ xs) = let rest = split c xs in if x == c then [] ∷ rest else cons_head x rest

abbrev pub Free : ℕ → Str → Type 0
Free c = All (λ x. x ≢ c)

split-Free : (c : ℕ) (s : Str) → Free c s → split c s ≡ s ∷ []
unfolding split
split-Free c [] h = refl
split-Free c (x ∷ xs) h = ground (arith, split-Free c xs h.1)

split-append : (c : ℕ) (s t : Str) → Free c s → split c (s ++ c ∷ t) ≡ s ∷ split c t
unfolding split
split-append c [] t h = ground arith
split-append c (x ∷ xs) t h = ground (arith, split-append c xs t h.1)

-- What is joined by a byte that no piece contains is split at that byte into the same pieces.
pub split-join :
    (c : ℕ) (x : Str) (xs : List Str)
    → All (Free c) (x ∷ xs)
    → split c (join (c ∷ []) (x ∷ xs)) ≡ x ∷ xs
split-join c x [] h = split-Free c x h.0
split-join c x (y ∷ ys) h =
    rw (split-append c x (join (c ∷ []) (y ∷ ys)) h.0) (ap (λ r. x ∷ r) (split-join c y ys h.1))

-- `fmt.Sprintf("%d", n)` of a number that is not negative.
unfoldable pub itoa_loop : ℕ → ℕ → Str → Str
itoa_loop zero n acc = acc
itoa_loop (suc f) n acc =
    let acc' = (b'0' + n % 10) ∷ acc in
    let rest = itoa_loop f (n / 10) acc' in if ltb n 10 then acc' else rest

unfoldable pub itoa : ℕ → Str
unfolding itoa_loop
itoa n = itoa_loop (suc n) n []

pub Free-append : (c : ℕ) (s t : Str) → Free c s → Free c t → Free c (s ++ t)
Free-append c [] t h k = k
Free-append c (x ∷ s) t h k = (h.0, Free-append c s t h.1 k)

pub Free-join :
    (c : ℕ) (sep : Str) (xs : List Str) → Free c sep → All (Free c) xs → Free c (join sep xs)
Free-join c sep [] h k = tt
Free-join c sep (x ∷ []) h k = k.0
Free-join c sep (x ∷ y ∷ r) h k =
    Free-append c x (sep ++ join sep (y ∷ r)) k.0
      (Free-append c sep (join sep (y ∷ r)) h (Free-join c sep (y ∷ r) h k.1))
