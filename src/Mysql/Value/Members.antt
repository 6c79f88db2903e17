-- ===== src/Mysql/Value/Members.antt =====
-- What the SET branch of `valueType` (mysql/mysql.go) returns for a bit mask.
use kit_go.Common.{
  ℕ, zero, suc, ◌+◌, ◌*◌, ◌/◌, ◌^◌, ◌≤◌, ◌≡◌, refl, sym, Bool, List, [], ◌∷◌, arith, length, take,
  if◌then◌else◌, Str,
}
use kit_go.Mysql.Value.{set_members}
use native.Mathlib.Nat.{pow-suc, div-div-eq-div-mul}
use native.Mathlib.Numerals.{add-one}

-- The mask that MySQL stores for a choice among the members.
abbrev pub mask_of : List Bool → ℕ
mask_of [] = 0
mask_of (b ∷ bs) = (if b then 1 else 0) + 2 * mask_of bs

abbrev pub chosen : List Bool → List Str → List Str
chosen [] ss = []
chosen (b ∷ bs) [] = []
chosen (b ∷ bs) (s ∷ ss) = let more = chosen bs ss in if b then s ∷ more else more

next_power : (w i : ℕ) → w / 2 ^ (i + 1) ≡ w / 2 ^ i / 2
next_power w i = rw (add-one, pow-suc) (sym (div-div-eq-div-mul w (2 ^ i) 2))

set_members-chosen :
    (bs : List Bool) (ss : List Str) (word i : ℕ)
    → word / 2 ^ i ≡ mask_of bs
    → length bs ≡ length ss
    → i + length ss ≤ 63
    → set_members word i ss ≡ chosen bs ss
unfolding set_members
set_members-chosen [] [] word i m e h = refl
set_members-chosen [] (s ∷ ss) word i m e h = absurd (omega arith)
set_members-chosen (b ∷ bs) [] word i m e h = refl
set_members-chosen (b ∷ bs) (s ∷ ss) word i m e h =
    ground (arith, next_power word i, set_members-chosen bs ss word (i + 1))

-- A word that no member past the sixty-third can show in.
set_members-beyond : (ss : List Str) (word i : ℕ) → 63 ≤ i → set_members word i ss ≡ []
unfolding set_members
set_members-beyond [] word i h = refl
set_members-beyond (s ∷ ss) word i h = ground (arith, set_members-beyond ss word (i + 1))

set_members-take_from :
    (k : ℕ) (ss : List Str) (word i : ℕ)
    → i + k ≡ 63
    → set_members word i ss ≡ set_members word i (take k ss)
unfolding set_members
set_members-take_from zero ss word i h = set_members-beyond ss word i (omega arith)
set_members-take_from (suc k) [] word i h = refl
set_members-take_from (suc k) (s ∷ ss) word i h =
    ground (arith, set_members-take_from k ss word (i + 1))

-- For at most 63 members, and the mask of any choice among them, the SET branch lists exactly
-- the chosen members, in the order of the declaration.
pub set_members-mask_of :
    (bs : List Bool) (ss : List Str)
    → length bs ≡ length ss
    → length ss ≤ 63
    → set_members (mask_of bs) 0 ss ≡ chosen bs ss
set_members-mask_of bs ss e h =
    set_members-chosen bs ss (mask_of bs) 0 (omega arith) e (omega arith)

-- Whatever the mask is, the members past the sixty-third are never listed.
pub set_members-take :
    (word : ℕ) (ss : List Str) → set_members word 0 ss ≡ set_members word 0 (take 63 ss)
set_members-take word ss = set_members-take_from 63 ss word 0 (omega arith)
