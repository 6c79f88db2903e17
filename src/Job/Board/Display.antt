-- ===== src/Job/Board/Display.antt =====
-- What the loops of utils/job/job.go display last.
use kit_go.Common.{
  ◌≡◌, refl, Bool, true, false, ◌||◌, Option, none, some, List, [], ◌∷◌, map, if◌then◌else◌, Str,
  str_eq, str_eq_refl, drop, All, WhenSome, Option-cases, Bool-cases, inl, inr, ◌++◌,
}
use kit_go.Common.Maps.{lookup, insert, lookup-insert}
use kit_go.Job.Jobs.{StatusInfo, JobList, status_done}
use kit_go.Job.Board.{
  Statuses, with_status, is_finished, settle, settle_all, own_entry, refresh, shown, ordered,
  Arrival, update, ended, process, entry_or_zero,
}

-- The entry of the key is there and finished.
abbrev settled_entry : Option StatusInfo → Bool
settled_entry none = false
settled_entry (some s) = is_finished s

abbrev is_settled : Str → Statuses → Bool
is_settled key m = settled_entry (lookup key m)

settle_self : (k : Str) (m : Statuses) → is_settled k (settle true [] k m) ≡ true
unfolding settle
settle_self k m = elim (Option-cases (lookup k m)) [
  | inl e ↦ rw e (rw (lookup-insert k k (with_status k status_done) m, str_eq_refl k) refl)
  | inr (s, e) ↦ elim (Bool-cases (is_finished s)) [
    | inl f ↦ rw (e, f) (rw (e, f) refl)
    | inr f ↦
        rw (e, f) (rw (lookup-insert k k (record s { status = status_done }) m, str_eq_refl k) refl)
  ]
]

insert_keeps :
    (k d : Str) (v : StatusInfo) (m : Statuses)
    → is_finished v ≡ true
    → is_settled d m ≡ true
    → is_settled d (insert k v m) ≡ true
insert_keeps k d v m f h = rw (lookup-insert k d v m) (by_key (str_eq k d))
  where
    by_key : (b : Bool) → settled_entry (if b then some v else lookup d m) ≡ true
    by_key true = f
    by_key false = h

settle_keeps :
    (k d : Str) (m : Statuses) → is_settled d m ≡ true → is_settled d (settle true [] k m) ≡ true
unfolding settle
settle_keeps k d m h = elim (Option-cases (lookup k m)) [
  | inl e ↦ rw e (insert_keeps k d (with_status k status_done) m refl h)
  | inr (s, e) ↦ elim (Bool-cases (is_finished s)) [
    | inl f ↦ rw (e, f) h
    | inr f ↦ rw (e, f) (insert_keeps k d (record s { status = status_done }) m refl h)
  ]
]

settle_all_keeps :
    (ks : List Str) (d : Str) (m : Statuses)
    → is_settled d m ≡ true
    → is_settled d (settle_all true [] ks m) ≡ true
unfolding settle_all
settle_all_keeps [] d m h = h
settle_all_keeps (k ∷ ks) d m h = settle_all_keeps ks d (settle true [] k m) (settle_keeps k d m h)

settle_all_settles :
    (ks : List Str) (m : Statuses) → All (λ d. is_settled d (settle_all true [] ks m) ≡ true) ks
unfolding settle_all
settle_all_settles [] m = tt
settle_all_settles (k ∷ ks) m = (
  settle_all_keeps ks k (settle true [] k m) (settle_self k m),
  settle_all_settles ks (settle true [] k m),
)

is_finished-shown :
    (m : Statuses) (d : Str) → is_settled d m ≡ true → is_finished (shown m d) ≡ true
is_finished-shown m d h = by_entry (lookup d m) h
  where
    by_entry :
        (o : Option StatusInfo) → settled_entry o ≡ true → is_finished (entry_or_zero o) ≡ true
    by_entry none h = cc
    by_entry (some s) h = h

shown-is_finished :
    (ks : List Str) (m : Statuses)
    → All (λ d. is_settled d m ≡ true) ks
    → All (λ s. is_finished s ≡ true) (map (shown m) ks)
shown-is_finished [] m h = tt
shown-is_finished (k ∷ ks) m h = (is_finished-shown m k h.0, shown-is_finished ks m h.1)

-- The jobs of a display are all done, or were there before.
abbrev pub AllFinished : JobList × List StatusInfo → Type 0
AllFinished (ongoing, entries) =
    (map (λ s. is_finished s) (drop 1 entries) ≡ map (λ d. true) ongoing.descs)

map-is_finished :
    (ks : List Str) (m : Statuses)
    → All (λ s. is_finished s ≡ true) (map (shown m) ks)
    → map (λ s. is_finished s) (map (shown m) ks) ≡ map (λ d. true) ks
map-is_finished [] m h = refl
map-is_finished (k ∷ ks) m h = rw (h.0, map-is_finished ks m h.1) refl

refresh-AllFinished :
    (ongoing : JobList) (active : List StatusInfo) (m : Statuses)
    → AllFinished (ongoing, ordered ongoing (refresh true ongoing active m))
unfolding ordered refresh
refresh-AllFinished ongoing active m =
    let own = insert ongoing.name (own_entry ongoing) m in
    let m' = settle_all true [] ongoing.descs own in
    map-is_finished ongoing.descs m'
      (shown-is_finished ongoing.descs m' (settle_all_settles ongoing.descs own))

process-AllFinished :
    (as' : List Arrival) (done : Bool) (m : Statuses) → WhenSome AllFinished (process as' done m)
unfolding process
process-AllFinished [] done m = tt
process-AllFinished (ended ∷ as') done m = process-AllFinished as' true m
process-AllFinished (update ongoing active ∷ as') true m = refresh-AllFinished ongoing active m
process-AllFinished (update ongoing active ∷ as') false m =
    process-AllFinished as' false (refresh false ongoing active m)

-- Whether an update comes after the end of the context.
abbrev pub update_after : Bool → List Arrival → Bool
update_after done [] = false
update_after done (ended ∷ as') = update_after true as'
update_after done (update ongoing active ∷ as') = done || update_after done as'

process_waits :
    (as' : List Arrival) (done : Bool) (m : Statuses)
    → update_after done as' ≡ false
    → process as' done m ≡ none
unfolding process
process_waits [] done m h = refl
process_waits (ended ∷ as') done m h = process_waits as' true m h
process_waits (update ongoing active ∷ as') true m h = cc
process_waits (update ongoing active ∷ as') false m h =
    process_waits as' false (refresh false ongoing active m) h

process_returns :
    (as' : List Arrival) (done : Bool) (m : Statuses)
    → update_after done as' ≡ true
    → (r : JobList × List StatusInfo) × (process as' done m ≡ some r)
unfolding process
process_returns [] done m h = cc
process_returns (ended ∷ as') done m h = process_returns as' true m h
process_returns (update ongoing active ∷ as') true m h =
    ((ongoing, ordered ongoing (refresh true ongoing active m)), refl)
process_returns (update ongoing active ∷ as') false m h =
    process_returns as' false (refresh false ongoing active m) h

-- If an update comes after the end of the context, the loop returns, and its last display shows
-- an entry for every job, each `done` or `exists`.
pub process_finishes :
    (as' : List Arrival) (m : Statuses)
    → update_after false as' ≡ true
    → (r : JobList × List StatusInfo) × (process as' false m ≡ some r) × AllFinished r
process_finishes as' m h =
    let (r, e) = process_returns as' false m h in (r, e, rw e at (process-AllFinished as' false m))

-- If no update comes after the end of the context, the loop does not return, although the context
-- has ended.
pub process_waits_on :
    (as' bs : List Arrival) (m : Statuses)
    → update_after false as' ≡ false
    → update_after true bs ≡ false
    → process (as' ++ (ended ∷ bs)) false m ≡ none
process_waits_on as' bs m h k = process_waits (as' ++ (ended ∷ bs)) false m (late as' false h)
  where
    late :
        (xs : List Arrival) (d : Bool)
        → update_after d xs ≡ false
        → update_after d (xs ++ (ended ∷ bs)) ≡ false
    late [] d h = k
    late (ended ∷ xs) d h = late xs true h
    late (update ongoing active ∷ xs) true h = cc
    late (update ongoing active ∷ xs) false h = late xs false h
