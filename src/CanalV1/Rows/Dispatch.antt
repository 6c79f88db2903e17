-- ===== src/CanalV1/Rows/Dispatch.antt =====
-- Which rows of an event the handlers of canal/v1/canal.go read.
use kit_go.Common.{
  ◌≡◌, refl, ap, ap₂, Bool-cases, inl, inr, get_elem?, ◌>>=◌, if◌then◌else◌, str_eq→eq, true, false,
  Option, none, some, List, [], ◌∷◌, str_eq, Str, take,
}
use kit_go.CanalV1.Rows.{
  RowsEvent, RowFn, RowsFn, callback_handler_on_row, call_row, call_rows, insert_action,
  update_action, delete_action,
}

-- The event with only the rows that one call takes: two of an update, one of another action.
abbrev pub first_change : RowsEvent → RowsEvent
first_change e = record e {
  rows = if str_eq e.action update_action then take 2 e.rows else take 1 e.rows;
}

get_elem?-take : {A : Type 0} (l : List A) → get_elem? (take 1 l) 0 ≡ get_elem? l 0
get_elem?-take [] = refl
get_elem?-take (_ ∷ _) = refl

get_elem?-take_two :
    {A : Type 0} (l : List A)
    → (get_elem? (take 2 l) 0 ≡ get_elem? l 0) × (get_elem? (take 2 l) 1 ≡ get_elem? l 1)
get_elem?-take_two [] = (refl, refl)
get_elem?-take_two (_ ∷ []) = (refl, refl)
get_elem?-take_two (_ ∷ _ ∷ _) = (refl, refl)

call_row_first :
    {W : Type 0} (fn : Option (RowFn W)) (e : RowsEvent) (w : W)
    → call_row fn (record e { rows = take 1 e.rows }) w ≡ call_row fn e w
call_row_first none e w = refl
call_row_first (some fn) e w =
    ap (λ o. o >>= λ row. some (fn e.table row w)) (get_elem?-take e.rows)

call_rows_first :
    {W : Type 0} (fn : Option (RowsFn W)) (e : RowsEvent) (w : W)
    → call_rows fn (record e { rows = take 2 e.rows }) w ≡ call_rows fn e w
call_rows_first none e w = refl
call_rows_first (some fn) e w =
    ap₂ (λ o p. o >>= λ before. (p >>= λ after. some (fn e.table before after w)))
      (get_elem?-take_two e.rows).0 (get_elem?-take_two e.rows).1

-- A handler reads one change of an event: whatever rows an event has after its first, or after
-- its first pair where it is an update, the result is that of the event without them, an insert
-- of several rows included.
pub callback_handler_first :
    {W : Type 0} (insert : Option (RowFn W)) (update : Option (RowsFn W))
    (delete : Option (RowFn W)) (e : RowsEvent) (w : W)
    → callback_handler_on_row insert update delete (first_change e) w
      ≡ callback_handler_on_row insert update delete e w
unfolding callback_handler_on_row
callback_handler_first insert update delete e w =
    elim (Bool-cases (str_eq e.action insert_action)) [
      | inl i ↦ rw (i, not_update e.action i) (call_row_first insert e w)
      | inr i ↦ elim (Bool-cases (str_eq e.action update_action)) [
        | inl u ↦ rw (i, u) (call_rows_first update e w)
        | inr u ↦ elim (Bool-cases (str_eq e.action delete_action)) [
          | inl d ↦ rw (i, u, d) (call_row_first delete e w)
          | inr d ↦ rw (i, u, d) refl
        ]
      ]
    ]
  where
    not_update : (a : Str) → str_eq a insert_action ≡ true → str_eq a update_action ≡ false
    not_update a h = rw (str_eq→eq a insert_action h) refl
