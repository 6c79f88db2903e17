-- ===== src/Common/Fields.antt =====
-- `strings.Fields` on texts that are lists of runes, and `strconv.Atoi`.
use Prim.Native.Nat.{ℕ, zero, suc, ◌+◌, ◌-◌, ◌*◌, ◌/◌, ◌%◌, ◌^◌, ◌<◌}
use mathlib.Core.Path.{◌≡◌, refl, ap, ◌∙◌}
use mathlib.Core.Logic.{inl, inr}
use mathlib.Core.Bool.{Bool, true, false, ◌&&◌, ◌||◌}
use mathlib.Core.Option.{Option, none, some}
use mathlib.Core.List.{List, [], ◌∷◌, ◌++◌}
use native.Mathlib.Omega.{arith}
use kit_go.Common.Tests.{Bool-cases, ltb, leb, ◌==◌, if◌then◌else◌}
use kit_go.Common.Lists.{All, is_empty}
use kit_go.Common.Text.{Str, itoa, itoa_loop}
use kit_go.Common.Int.{ℤ, pos, negsuc}

-- `unicode.IsSpace` of a rune above the first 256.
abbrev is_wide_space : ℕ → Bool
is_wide_space c =
    c == 5760
    || ((leb 8192 c && leb c 8202)
        || (c == 8232 || (c == 8233 || (c == 8239 || (c == 8287 || c == 12288)))))

-- `unicode.IsSpace`: the bytes from 9 to 13, the space, the next line, the no-break space, and those
-- above.
abbrev pub is_space : ℕ → Bool
is_space c = (leb 9 c && leb c 13) || (c == b' ' || (c == 133 || (c == 160 || is_wide_space c)))

-- The first word of the text, up to a white rune, and the words after it.
unfoldable pub fields_loop : Str → Str × List Str
fields_loop [] = ([], [])
fields_loop (c ∷ s) =
    let (word, rest) = fields_loop s in
    let words = if is_empty word then rest else word ∷ rest in
    if is_space c then ([], words) else (c ∷ word, rest)

unfoldable pub fields : Str → List Str
unfolding fields_loop
fields s = let (word, rest) = fields_loop s in if is_empty word then rest else word ∷ rest

-- The value of a text of digits; `none` where it has another byte.
abbrev pub digits : ℕ → Str → Option ℕ
digits acc [] = some acc
digits acc (c ∷ s) =
    let rest = digits (acc * 10 + (c - b'0')) s in if leb b'0' c && leb c b'9' then rest else none

abbrev within : ℕ → (ℕ → ℤ) → Option ℕ → Option ℤ
within bound number none = none
within bound number (some n) = if ltb n bound then some (number n) else none

abbrev minus : ℕ → ℤ
minus zero = pos 0
minus (suc n) = negsuc n

-- An optional sign and at least one digit, within the int64s.
abbrev pub atoi : Str → Option ℤ
atoi [] = none
atoi (c ∷ s) =
    if is_empty s
    then within (2 ^ 63) pos (digits 0 (c ∷ s))
    else (if c == b'-'
        then within (2 ^ 63 + 1) minus (digits 0 s)
        else (if c == b'+'
            then within (2 ^ 63) pos (digits 0 s)
            else within (2 ^ 63) pos (digits 0 (c ∷ s))))

abbrev pub Word : Str → Type 0
Word = All (λ c. is_space c ≡ false)

fields_loop-Word : (w s : Str) → Word w → fields_loop (w ++ b' ' ∷ s) ≡ (w, fields s)
unfolding fields_loop fields
fields_loop-Word [] s h = refl
fields_loop-Word (c ∷ w) s h = rw (h.0, fields_loop-Word w s h.1) refl

-- A word and a space before a text put the word before the text's words.
pub fields-Word : (w s : Str) → Word w → is_empty w ≡ false → fields (w ++ b' ' ∷ s) ≡ w ∷ fields s
unfolding fields
fields-Word w s h e = rw (fields_loop-Word w s h, e) refl

fields_loop_last : (w : Str) → Word w → fields_loop w ≡ (w, [])
unfolding fields_loop
fields_loop_last [] h = refl
fields_loop_last (c ∷ w) h = rw (h.0, fields_loop_last w h.1) refl

pub fields_last : (w : Str) → Word w → is_empty w ≡ false → fields w ≡ w ∷ []
unfolding fields
fields_last w h e = rw (fields_loop_last w h, e) refl

module _ (P : ℕ → Type 0) (h : (d : ℕ) → d < 10 → P (b'0' + d)) where
  All-itoa_loop : (f n : ℕ) (acc : Str) → All P acc → All P (itoa_loop f n acc)
  unfolding itoa_loop
  All-itoa_loop zero n acc k = k
  All-itoa_loop (suc f) n acc k =
      let digit : P (b'0' + n % 10) = h (n % 10) (omega arith) in
      elim (Bool-cases (ltb n 10)) [
        | inl small ↦ rw small (digit, k)
        | inr large ↦ rw large (All-itoa_loop f (n / 10) ((b'0' + n % 10) ∷ acc) (digit, k))
      ]

  -- What holds of every digit holds of every byte of a decimal text.
  pub All-itoa : (n : ℕ) → All P (itoa n)
  unfolding itoa
  All-itoa n = All-itoa_loop (suc n) n [] tt

pub Word-itoa : (n : ℕ) → Word (itoa n)
Word-itoa = All-itoa (λ c. is_space c ≡ false) (λ d h. ground arith)

digits_step :
    (m n : ℕ) (acc : Str) → m * 10 + n % 10 ≡ n → digits m ((b'0' + n % 10) ∷ acc) ≡ digits n acc
digits_step m n acc h =
    let lower : leb b'0' (b'0' + n % 10) ≡ true = ground arith in
    let upper : leb (b'0' + n % 10) b'9' ≡ true = ground arith in
    rw (lower, upper) (ap (λ t. digits t acc) (omega (arith, h)))

digits-itoa_loop : (f n : ℕ) (acc : Str) → n < f → digits 0 (itoa_loop f n acc) ≡ digits n acc
unfolding itoa_loop
digits-itoa_loop zero n acc h = absurd (omega arith)
digits-itoa_loop (suc f) n acc h =
    let acc' = (b'0' + n % 10) ∷ acc in
    elim (Bool-cases (ltb n 10)) [
      | inl small ↦ rw small (digits_step 0 n acc (ground arith))
      | inr large ↦ rw large (
          digits-itoa_loop f (n / 10) acc' (ground arith)
          ∙ digits_step (n / 10) n acc (omega arith))
    ]

atoi-digits :
    (s : Str) (n : ℕ)
    → is_empty s ≡ false
    → digits 0 s ≡ some n
    → n < 2 ^ 63
    → atoi s ≡ some (pos n)
atoi-digits [] n e h k = cc
atoi-digits (c ∷ s) n e h k = ground arith

itoa_loop-filled :
    (f n : ℕ) (acc : Str) → is_empty acc ≡ false → is_empty (itoa_loop f n acc) ≡ false
unfolding itoa_loop
itoa_loop-filled zero n acc h = h
itoa_loop-filled (suc f) n acc h =
    ground (arith, itoa_loop-filled f (n / 10) ((b'0' + n % 10) ∷ acc) refl)

pub itoa-filled : (n : ℕ) → is_empty (itoa n) ≡ false
unfolding itoa itoa_loop
itoa-filled n = ground (arith, itoa_loop-filled n (n / 10) ((b'0' + n % 10) ∷ []) refl)

-- Reading the decimal text of a number below the bound gives the number.
pub atoi-itoa : (n : ℕ) → n < 2 ^ 63 → atoi (itoa n) ≡ some (pos n)
unfolding itoa
atoi-itoa n h =
    atoi-digits (itoa n) n (itoa-filled n) (digits-itoa_loop (suc n) n [] (omega arith)) h
