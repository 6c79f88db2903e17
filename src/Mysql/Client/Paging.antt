-- ===== src/Mysql/Client/Paging.antt =====
-- `GetNextPage` of mysql/client.go ends, and what it lists.
use kit_go.Common.{
  ℕ, zero, suc, ◌+◌, ◌≤◌, ◌<◌, ◌≡◌, refl, ap, ◌∙◌, true, false, ◌⊎◌, inl, inr, some, List, [], ◌∷◌,
  ◌++◌, append-nil, append_assoc, arith, is_empty, Str, Bool-cases, sym,
}
use kit_go.Mysql.Client.{Error, Answer, good, bad, page_loop, get_next_page}

Answer-cases : {A : Type 0} (r : Answer A) → ((a : A) × (r ≡ good a)) ⊎ ((e : Error) × (r ≡ bad e))
Answer-cases (good a) = inl (a, refl)
Answer-cases (bad e) = inr (e, refl)

empty_eq : (s : Str) → is_empty s ≡ true → s ≡ []
empty_eq [] h = refl
empty_eq (_ ∷ _) h = cc

module _ (page : Str → Answer Str) where
  -- Each id is the page after the one before it, and after the last there is none.
  abbrev pub Linked : Str → List Str → Type 0
  Linked id [] = page id ≡ good []
  Linked id (x ∷ xs) = (page id ≡ good x) × (is_empty x ≡ false) × Linked x xs

  abbrev pub Listed : Str → List Str → List Str → Type 0
  Listed id list r =
      ((failed : Str) × (e : Error) × (page failed ≡ bad e) × (r ≡ []))
      ⊎ ((ids : List Str) × Linked id ids × (r ≡ list ++ ids))

  page_loop_bad :
      (fuel : ℕ) (id : Str) (list : List Str) (e : Error)
      → page id ≡ bad e
      → page_loop page (suc fuel) id list ≡ some []
  unfolding page_loop
  page_loop_bad fuel id list e h = ground arith

  page_loop_last :
      (fuel : ℕ) (id : Str) (list : List Str)
      → page id ≡ good []
      → page_loop page (suc fuel) id list ≡ some list
  unfolding page_loop
  page_loop_last fuel id list h = ground arith

  page_loop_next :
      (fuel : ℕ) (id next : Str) (list : List Str)
      → page id ≡ good next
      → is_empty next ≡ false
      → page_loop page (suc fuel) id list ≡ page_loop page fuel next (list ++ (next ∷ []))
  unfolding page_loop
  page_loop_next fuel id next list h k = ground arith

  Listed-next :
      (id next : Str) (list r : List Str)
      → page id ≡ good next
      → is_empty next ≡ false
      → Listed next (list ++ (next ∷ [])) r
      → Listed id list r
  Listed-next id next list r h k (inl failed) = inl failed
  Listed-next id next list r h k (inr (ids, linked, e)) =
      inr (next ∷ ids, (h, k, linked), e ∙ append_assoc list (next ∷ []) ids)

  module _ (rank : Str → ℕ) (top : ℕ) (bounded : (id : Str) → rank id ≤ top)
      (grows : (id next : Str)
        → page id ≡ good next
        → is_empty next ≡ false
        → rank id < rank next) where
    page_loop_ends :
        (fuel : ℕ) (id : Str) (list : List Str)
        → top < rank id + fuel
        → (r : List Str) × (page_loop page fuel id list ≡ some r) × Listed id list r
    page_loop_ends zero id list h = absurd (omega (arith, bounded id))
    page_loop_ends (suc fuel) id list h = elim (Answer-cases (page id)) [
      | inr (e, p) ↦ ([], page_loop_bad fuel id list e p, inl (id, e, p, refl))
      | inl (next, p) ↦ elim (Bool-cases (is_empty next)) [
        | inl n ↦
            let last = p ∙ ap good (empty_eq next n) in
            (list, page_loop_last fuel id list last, inr ([], last, sym (append-nil list)))
        | inr n ↦
            let (r, e, listed) =
              page_loop_ends fuel next (list ++ (next ∷ [])) (omega (arith, grows id next p n)) in
            (r, page_loop_next fuel id next list p n ∙ e, Listed-next id next list r p n listed)
      ]
    ]

    -- If the ids have ranks up to a bound and every page ends at a greater rank than the id after
    -- which it looks, `GetNextPage` returns within one more round than the bound: the first id
    -- and then the ends of all pages, the last one with no page after it; or, where a query
    -- failed, nothing.
    pub get_next_page_lem :
        (start_id : Str)
        → (r : List Str) × (get_next_page page (suc top) start_id ≡ some r)
          × Listed start_id (start_id ∷ []) r
    unfolding get_next_page
    get_next_page_lem start_id = page_loop_ends (suc top) start_id (start_id ∷ []) (omega arith)
