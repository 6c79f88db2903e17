-- ===== src/Jq/Paths.antt =====
-- The expressions that `PickJson` of jq/jq.go makes of paths.
use kit_go.Common.{
  ℕ, ◌+◌, ◌≤◌, ◌==◌, ◌≡◌, refl, sym, ap, ◌∙◌, false, List, [], ◌∷◌, ◌++◌, map, arith, All, Str,
  codes, str_eq, join, split-join, Free, append_assoc, append-nil,
}
use kit_go.Common.Fields.{is_space}
use kit_go.Jq.{
  trim_space, rune_path, is_dropped, step_text, step_loop, quoted, key_loop, butlast, last,
  expression_of, pick_expression,
}

-- The text of the steps into the keys, each with the keys from the first to its own.
abbrev pub steps : List Str → List Str → Str
steps before [] = []
steps before (v ∷ vs) =
    step_text v (join (codes ".") (before ++ (v ∷ []))) ++ steps (before ++ (v ∷ [])) vs

join-snoc :
    (sep x : Str) (xs : List Str) (v : Str)
    → join sep ((x ∷ xs) ++ (v ∷ [])) ≡ join sep (x ∷ xs) ++ (sep ++ v)
join-snoc sep x [] v = refl
join-snoc sep x (y ∷ xs) v =
    ap (λ r. x ++ (sep ++ r)) (join-snoc sep y xs v)
    ∙ (ap (λ r. x ++ r) (sym (append_assoc sep (join sep (y ∷ xs)) (sep ++ v)))
        ∙ sym (append_assoc x (sep ++ join sep (y ∷ xs)) (sep ++ v)))

step_loop_later :
    (i : ℕ) (x : Str) (xs vs : List Str)
    → 1 ≤ i
    → step_loop i (join (codes ".") (x ∷ xs)) vs ≡ steps (x ∷ xs) vs
unfolding step_loop
step_loop_later i x xs [] h = refl
step_loop_later i x xs (v ∷ vs) h =
    let later : (i == 0) ≡ false = ground (arith, h) in
    rw (later, ← join-snoc (codes ".") x xs v)
      (ap (λ r. step_text v (join (codes ".") ((x ∷ xs) ++ (v ∷ []))) ++ r)
        (step_loop_later (i + 1) x (xs ++ (v ∷ [])) vs (omega (arith, h))))

step_loop-steps : (vs : List Str) → step_loop 0 [] vs ≡ steps [] vs
unfolding step_loop
step_loop-steps [] = refl
step_loop-steps (v ∷ vs) = ap (λ r. step_text v v ++ r) (step_loop_later 1 v [] vs (omega arith))

key_loop_later :
    (i : ℕ) (x : Str) (xs vs : List Str)
    → 1 ≤ i
    → key_loop i (join (codes ",") (x ∷ xs)) vs ≡ join (codes ",") ((x ∷ xs) ++ map quoted vs)
unfolding key_loop
key_loop_later i x xs [] h = ap (join (codes ",")) (sym (append-nil (x ∷ xs)))
key_loop_later i x xs (v ∷ vs) h =
    let later : (i == 0) ≡ false = ground (arith, h) in
    rw (later, ← join-snoc (codes ",") x xs (quoted v))
      (key_loop_later (i + 1) x (xs ++ (quoted v ∷ [])) vs (omega (arith, h))
        ∙ ap (join (codes ",")) (append_assoc (x ∷ xs) (quoted v ∷ []) (map quoted vs)))

key_loop-join :
    (v : Str) (vs : List Str) → key_loop 0 [] (v ∷ vs) ≡ join (codes ",") (map quoted (v ∷ vs))
unfolding key_loop
key_loop-join v vs = key_loop_later 1 (quoted v) [] vs (omega arith)

butlast-snoc : (xs : List Str) (l : Str) → butlast (xs ++ (l ∷ [])) ≡ xs
butlast-snoc [] l = refl
butlast-snoc (x ∷ []) l = refl
butlast-snoc (x ∷ y ∷ xs) l = ap (λ r. x ∷ r) (butlast-snoc (y ∷ xs) l)

last-snoc : (xs : List Str) (l : Str) → last (xs ++ (l ∷ [])) ≡ l
last-snoc [] l = refl
last-snoc (x ∷ []) l = refl
last-snoc (x ∷ y ∷ xs) l = last-snoc (y ∷ xs) l

abbrev pub Plain : Str → Type 0
Plain = All (λ r. is_dropped r ≡ false)

rune_path-Plain : (s : Str) → Plain s → rune_path s ≡ s
unfolding rune_path
rune_path-Plain [] h = refl
rune_path-Plain (r ∷ s) h = rw (h.0, rune_path-Plain s h.1) refl

no_space : (r : ℕ) → is_dropped r ≡ false → is_space r ≡ false
no_space r h = ground (arith, h)

trim_space-Plain : (s : Str) → Plain s → trim_space s ≡ s
unfolding trim_space
trim_space-Plain [] h = refl
trim_space-Plain (r ∷ s) h = rw (no_space r h.0, trim_space-Plain s h.1) refl

Plain-no_braces : (s : Str) → Plain s → str_eq s (codes "{}") ≡ false
Plain-no_braces [] h = refl
Plain-no_braces (r ∷ s) h = ground (arith, h.0)

expression_of-steps :
    (keys : List Str) (f : Str) (fs : List Str)
    → All (Free b',') (f ∷ fs)
    → expression_of (keys ++ (join (codes ",") (f ∷ fs) ∷ []))
      ≡ codes "."
        ++ (steps [] keys
            ++ (codes "|=with_entries(select(.key | IN ("
                ++ (join (codes ",") (map quoted (f ∷ fs)) ++ codes ")))")))
unfolding expression_of
expression_of-steps keys f fs g =
    rw
      (
        butlast-snoc keys (join (codes ",") (f ∷ fs)),
        last-snoc keys (join (codes ",") (f ∷ fs)),
        split-join b',' f fs g,
        step_loop-steps keys,
        key_loop-join f fs,
      )
      refl

-- A path of keys joined by colons, of which the last is a list of names joined by commas, becomes
-- the steps into the keys in order, each with the path down to it, and then the choice of the
-- names; the keys and the names hold no separator, the path no rune that is passed over, and it is
-- not one point.
pub pick_expression_lem :
    (keys : List Str) (f : Str) (fs : List Str) (k : Str) (ks : List Str)
    → keys ++ (join (codes ",") (f ∷ fs) ∷ []) ≡ k ∷ ks
    → All (Free b':') (k ∷ ks)
    → All (Free b',') (f ∷ fs)
    → Plain (join (codes ":") (k ∷ ks))
    → str_eq (join (codes ":") (k ∷ ks)) (codes ".") ≡ false
    → pick_expression (join (codes ":") (k ∷ ks))
      ≡ codes "."
        ++ (steps [] keys
            ++ (codes "|=with_entries(select(.key | IN ("
                ++ (join (codes ",") (map quoted (f ∷ fs)) ++ codes ")))")))
unfolding pick_expression
pick_expression_lem keys f fs k ks e h g p n =
    let path = join (codes ":") (k ∷ ks) in
    rw
      (
        trim_space-Plain path p,
        Plain-no_braces path p,
        rune_path-Plain path p,
        n,
        split-join b':' k ks h,
      )
      (ap expression_of (sym e) ∙ expression_of-steps keys f fs g)
