-- ===== src/Weyos/Login.antt =====
-- weyos/weyos.go: the text that `encryption` makes of a password.
use kit_go.Common.{
  ℕ, zero, suc, ◌+◌, ◌-◌, ◌/◌, ◌%◌, ◌≤◌, ◌<◌, ◌≡◌, refl, ap₂, Bool, true, false, Option, none, some,
  List, [], ◌∷◌, ◌++◌, arith, if◌then◌else◌, ltb, All, length, drop, get_elem?, Str, codes,
}

-- The UTF-8 text of a rune below 2048.
abbrev utf8 : ℕ → Str
utf8 n = if ltb n 128 then n ∷ [] else (192 + n / 64) ∷ (128 + n % 64) ∷ []

-- `string(rune(c))` of a byte plus two, and of a byte less two, where a negative number gives the
-- replacement character.
abbrev above : ℕ → Str
above b = utf8 (b + 2)

abbrev below : ℕ → Str
below b = if ltb b 2 then 239 ∷ 191 ∷ 189 ∷ [] else utf8 (b - 2)

-- The loop over the bytes of the password, from an even or an odd place.
unfoldable pub shift_loop : Bool → Str → Str
shift_loop even [] = []
shift_loop true (b ∷ input) = above b ++ shift_loop false input
shift_loop false (b ∷ input) = below b ++ shift_loop true input

abbrev chars : Str
chars = codes "ABCDEFGHJKMNPQRSTWXYZabcdefhijkmnprstwxyz2345678"

abbrev char_at : Option ℕ → Str
char_at none = []
char_at (some c) = c ∷ []

-- The bytes at the places that the random numbers name.
unfoldable pub salt : List ℕ → Str
salt [] = []
salt (i ∷ is) = char_at (get_elem? chars i) ++ salt is

-- The random numbers are the ten that the loop draws, each below the length of `chars`.
unfoldable pub encryption : List ℕ → Str → Str
unfolding salt shift_loop
encryption drawn input = salt drawn ++ shift_loop true input

-- The inverse of the loop on texts of ASCII.
abbrev pub unshift : Bool → Str → Str
unshift even [] = []
unshift true (b ∷ s) = (b - 2) ∷ unshift false s
unshift false (b ∷ s) = (b + 2) ∷ unshift true s

abbrev pub IsPlain : ℕ → Type 0
IsPlain b = (2 ≤ b) × (b < 126)

above_plain : (b : ℕ) (s : Str) → IsPlain b → above b ++ s ≡ (b + 2) ∷ s
above_plain b s h = ground arith

below_plain : (b : ℕ) (s : Str) → IsPlain b → below b ++ s ≡ (b - 2) ∷ s
below_plain b s h = ground arith

unshift-shift_loop : (even : Bool) (s : Str) → All IsPlain s → unshift even (shift_loop even s) ≡ s
unfolding shift_loop
unshift-shift_loop even [] h = refl
unshift-shift_loop true (b ∷ s) h =
    rw (above_plain b (shift_loop false s) h.0)
      (ap₂ (λ c r. c ∷ r) (omega (arith, h.0)) (unshift-shift_loop false s h.1))
unshift-shift_loop false (b ∷ s) h =
    rw (below_plain b (shift_loop true s) h.0)
      (ap₂ (λ c r. c ∷ r) (omega (arith, h.0)) (unshift-shift_loop true s h.1))

get_elem?-some : (l : Str) (i : ℕ) → i < length l → (c : ℕ) × (get_elem? l i ≡ some c)
get_elem?-some [] i h = absurd (omega arith)
get_elem?-some (x ∷ l) zero h = (x, refl)
get_elem?-some (x ∷ l) (suc i) h = get_elem?-some l i (omega arith)

drop-salt :
    (drawn : List ℕ) (s : Str) → All (λ i. i < 48) drawn → drop (length drawn) (salt drawn ++ s) ≡ s
unfolding salt
drop-salt [] s h = refl
drop-salt (i ∷ is) s h = let (c, e) = get_elem?-some chars i h.0 in rw e (drop-salt is s h.1)

-- `encryption` hides nothing: from its text alone, whatever ten numbers below the length of
-- `chars` were drawn, a password of ASCII bytes from 2 to 125 is read back by leaving out the
-- first ten bytes and undoing the shift by two.
pub unshift-encryption :
    (drawn : List ℕ) (input : Str)
    → length drawn ≡ 10
    → All (λ i. i < 48) drawn
    → All IsPlain input
    → unshift true (drop 10 (encryption drawn input)) ≡ input
unfolding encryption
unshift-encryption drawn input n h k =
    rw (← n, drop-salt drawn (shift_loop true input) h) (unshift-shift_loop true input k)
