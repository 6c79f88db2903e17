-- ===== src/Clickhouse/Scan/Rows.antt =====
-- Which places of the destination the loops of clickhouse/datatypes.go write, and what.
use kit_go.Common.{
  ℕ, zero, suc, ◌+◌, ◌<◌, ◌==◌, ◌≡◌, refl, ◌∙◌, Bool, true, false, ◌&&◌, not, Option, some, List,
  [], ◌∷◌, arith, Str, set, get_elem?, ltb, length, Bool-cases, inl, inr,
}
use kit_go.Mysql.Value.{TableColumn, Value}
use kit_go.Clickhouse.Scan.{
  Result, good, bad, panics, misread, Library, convert_at, is_selected, place, scan_loop,
}

get_elem?-set_other :
    {D : Type 0} (l : List D) (i j : ℕ) (d : D)
    → (i == j) ≡ false
    → get_elem? (set l i d) j ≡ get_elem? l j
get_elem?-set_other [] i j d h = refl
get_elem?-set_other (x ∷ l) zero zero d h = cc
get_elem?-set_other (x ∷ l) zero (suc j) d h = refl
get_elem?-set_other (x ∷ l) (suc i) zero d h = refl
get_elem?-set_other (x ∷ l) (suc i) (suc j) d h = get_elem?-set_other l i j d (ground (arith, h))

get_elem?-set_same :
    {D : Type 0} (l : List D) (i : ℕ) (d : D)
    → ltb i (length l) ≡ true
    → get_elem? (set l i d) i ≡ some d
get_elem?-set_same [] i d h = ground (arith, h)
get_elem?-set_same (x ∷ l) zero d h = refl
get_elem?-set_same (x ∷ l) (suc i) d h = get_elem?-set_same l i d (ground (arith, h))

module _ {D : Type 0} (lib : Library D) (to_decimal : TableColumn → Value → Result Value)
    (fix_value : TableColumn → Value → Value) (fields : Option (List Str)) where
  abbrev pub scan : ℕ → List TableColumn → List Value → List D → List D × Result Unit
  scan = scan_loop lib to_decimal fix_value fields

  -- No selected column from the place `i` on has the place `j`.
  abbrev pub spares : ℕ → List TableColumn → ℕ → Bool
  spares i [] j = true
  spares i (c ∷ cs) j = not (is_selected lib fields c && i == j) && spares (i + 1) cs j

  place_other :
      (rest : List D → List D × Result Unit) (i j : ℕ) (dest : List D) (r : Result D)
      → ((l : List D) → get_elem? (rest l).0 j ≡ get_elem? l j)
      → (i == j) ≡ false
      → get_elem? (place lib to_decimal fix_value fields rest i dest r).0 j ≡ get_elem? dest j
  place_other rest i j dest (bad e) h n = refl
  place_other rest i j dest panics h n = refl
  place_other rest i j dest (misread d x) h n = elim (Bool-cases (ltb i (length dest))) [
    | inl e ↦ rw e (get_elem?-set_other dest i j d n)
    | inr e ↦ rw e refl
  ]
  place_other rest i j dest (good d) h n = elim (Bool-cases (ltb i (length dest))) [
    | inl e ↦ rw e (h (set dest i d) ∙ get_elem?-set_other dest i j d n)
    | inr e ↦ rw e refl
  ]

  scan-spares :
      (i : ℕ) (cols : List TableColumn) (row : List Value) (dest : List D) (j : ℕ)
      → spares i cols j ≡ true
      → get_elem? (scan i cols row dest).0 j ≡ get_elem? dest j
  unfolding scan_loop
  scan-spares i [] row dest j h = refl
  scan-spares i (c ∷ cs) row dest j h =
      let rest : spares (i + 1) cs j ≡ true = ground (arith, h) in
      elim (Bool-cases (is_selected lib fields c)) [
        | inl e ↦ rw e (
            place_other (scan (i + 1) cs row) i j dest
              (convert_at lib to_decimal fix_value fields c (get_elem? row i))
              (λ l. scan-spares (i + 1) cs row l j rest) (ground (arith, h, e)))
        | inr e ↦ rw e (scan-spares (i + 1) cs row dest j rest)
      ]

  spares_later : (m : ℕ) (cs : List TableColumn) (i : ℕ) → i < m → spares m cs i ≡ true
  spares_later m [] i h = refl
  spares_later m (c ∷ cs) i h = ground (arith, spares_later (m + 1) cs i (omega (arith, h)))

  place_good :
      (rest : List D → List D × Result Unit) (i : ℕ) (dest : List D) (r : Result D)
      → (place lib to_decimal fix_value fields rest i dest r).1 ≡ good tt
      → (d : D) × (r ≡ good d)
        × (ltb i (length dest) ≡ true)
        × (place lib to_decimal fix_value fields rest i dest r ≡ rest (set dest i d))
  place_good rest i dest (bad e) h = cc
  place_good rest i dest panics h = cc
  place_good rest i dest (misread d x) h = elim (Bool-cases (ltb i (length dest))) [
    | inl e ↦ absurd (no_error (rw e at h))
    | inr e ↦ absurd (no_panic (rw e at h))
  ]
    where
      no_error : ◌≡◌ {A = Result Unit} (bad x) (good tt) → ⊥
      no_error k = cc

      no_panic : ◌≡◌ {A = Result Unit} panics (good tt) → ⊥
      no_panic k = cc
  place_good rest i dest (good d) h = elim (Bool-cases (ltb i (length dest))) [
    | inl e ↦ (d, refl, e, rw e refl)
    | inr e ↦ absurd (not_good (rw e at h))
  ]
    where
      not_good : ◌≡◌ {A = Result Unit} panics (good tt) → ⊥
      not_good k = cc

  -- A loop that ends without an error goes on behind a selected column with the column's value in
  -- its place, and behind another with the same destination.
  scan_selected :
      (i : ℕ) (c : TableColumn) (cs : List TableColumn) (row : List Value) (dest : List D)
      → is_selected lib fields c ≡ true
      → (scan i (c ∷ cs) row dest).1 ≡ good tt
      → (d : D) × (convert_at lib to_decimal fix_value fields c (get_elem? row i) ≡ good d)
        × (ltb i (length dest) ≡ true)
        × (scan i (c ∷ cs) row dest ≡ scan (i + 1) cs row (set dest i d))
  unfolding scan_loop
  scan_selected i c cs row dest s g =
      let p =
        place_good (scan (i + 1) cs row) i dest
          (convert_at lib to_decimal fix_value fields c (get_elem? row i)) (rw s at g) in
      (p.0, p.1, p.2, rw s p.3)

  scan_tail :
      (i : ℕ) (c : TableColumn) (cs : List TableColumn) (row : List Value) (dest : List D)
      → (scan i (c ∷ cs) row dest).1 ≡ good tt
      → (dest' : List D) × (scan i (c ∷ cs) row dest ≡ scan (i + 1) cs row dest')
  unfolding scan_loop
  scan_tail i c cs row dest g = elim (Bool-cases (is_selected lib fields c)) [
    | inl s ↦ let p = scan_selected i c cs row dest s g in (set dest i p.0, p.3)
    | inr s ↦ (dest, rw s refl)
  ]

  scan_here :
      (i : ℕ) (c : TableColumn) (cs : List TableColumn) (row : List Value) (dest : List D)
      → is_selected lib fields c ≡ true
      → (scan i (c ∷ cs) row dest).1 ≡ good tt
      → (d : D) × (convert_at lib to_decimal fix_value fields c (get_elem? row i) ≡ good d)
        × (get_elem? (scan i (c ∷ cs) row dest).0 i ≡ some d)
  scan_here i c cs row dest s g =
      let p = scan_selected i c cs row dest s g in
      (
        p.0,
        p.1,
        rw p.3 (
            scan-spares (i + 1) cs row (set dest i p.0) i (spares_later (i + 1) cs i (omega arith))
            ∙ get_elem?-set_same dest i p.0 p.2),
      )

  scan_fills :
      (i : ℕ) (cols : List TableColumn) (row : List Value) (dest : List D) (k : ℕ)
      (col : TableColumn)
      → get_elem? cols k ≡ some col
      → is_selected lib fields col ≡ true
      → (scan i cols row dest).1 ≡ good tt
      → (d : D) × (convert_at lib to_decimal fix_value fields col (get_elem? row (i + k)) ≡ good d)
        × (get_elem? (scan i cols row dest).0 (i + k) ≡ some d)
  scan_fills i [] row dest k col h s g = cc
  scan_fills i (c ∷ cs) row dest zero col h s g =
      let here : i + 0 ≡ i = omega arith in
      let same : c ≡ col = cc in
      let p = scan_here i c cs row dest (rw same s) g in (p.0, rw (here, ← same) p.1, rw here p.2)
  scan_fills i (c ∷ cs) row dest (suc k) col h s g =
      let there : i + suc k ≡ i + 1 + k = omega arith in
      let t = scan_tail i c cs row dest g in
      let p = scan_fills (i + 1) cs row t.0 k col h s (rw t.1 at g) in
      (p.0, rw there p.1, rw (there, t.1) p.2)

  -- Where the scan of a row ends without an error, the place of each selected column has the value
  -- of that column, converted to the driver's type; and a place that no selected column has is as
  -- before.
  pub scan_loop_lem :
      (columns : List TableColumn) (row : List Value) (dest : List D) (k j : ℕ) (col : TableColumn)
      → get_elem? columns k ≡ some col
      → is_selected lib fields col ≡ true
      → spares 0 columns j ≡ true
      → (scan 0 columns row dest).1 ≡ good tt
      → ((d : D) × (convert_at lib to_decimal fix_value fields col (get_elem? row k) ≡ good d)
          × (get_elem? (scan 0 columns row dest).0 k ≡ some d))
        × (get_elem? (scan 0 columns row dest).0 j ≡ get_elem? dest j)
  scan_loop_lem columns row dest k j col h s u g =
      let none_before : 0 + k ≡ k = omega arith in
      let p = scan_fills 0 columns row dest k col h s g in
      ((p.0, rw (← none_before) p.1, rw (← none_before) p.2), scan-spares 0 columns row dest j u)
