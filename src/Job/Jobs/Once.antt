-- ===== src/Job/Jobs/Once.antt =====
-- The list of jobs of utils/job/job.go holds each job once.
use kit_go.Common.{
  ◌≡◌, refl, false, ◌||◌, List, [], ◌∷◌, ◌++◌, arith, contains, Str, str_eq, str_eq_iff, Bool-cases,
  inl, inr,
}
use kit_go.Job.Jobs.{JobList, new_jobs, add}

abbrev pub NoRepeats : List Str → Type 0
NoRepeats [] = Unit {0}
NoRepeats (x ∷ xs) = (contains xs x ≡ false) × NoRepeats xs

abbrev pub add_all : List Str → JobList → JobList
add_all [] j = j
add_all (d ∷ ds) j = add_all ds (add d j)

-- The set holds what the list holds, and the list holds each once.
pub record Tidy (j : JobList) : Type 0 where
  pub same : (s : Str) → contains j.added s ≡ contains j.descs s
  pub once : NoRepeats j.descs

contains-append :
    (xs ys : List Str) (s : Str) → contains (xs ++ ys) s ≡ (contains xs s || contains ys s)
contains-append [] ys s = refl
contains-append (x ∷ xs) ys s = ground (arith, contains-append xs ys s)

NoRepeats-append :
    (xs : List Str) (y : Str) → NoRepeats xs → contains xs y ≡ false → NoRepeats (xs ++ (y ∷ []))
NoRepeats-append [] y h k = (refl, tt)
NoRepeats-append (x ∷ xs) y (fresh, h) k = (
  ground (arith, contains-append xs (y ∷ []) x, str_eq_iff x y, str_eq_iff y x),
  NoRepeats-append xs y h (ground arith),
)

add-Tidy : (d : Str) (j : JobList) → Tidy j → Tidy (add d j)
unfolding add
add-Tidy d j h = elim (Bool-cases (contains j.added d)) [
  | inl e ↦ rw e (record { same = h.same; once = h.once })
  | inr e ↦ rw e (record {
    same = λ s. ground (arith, h.same s, contains-append j.descs (d ∷ []) s);
    once = NoRepeats-append j.descs d h.once (ground (arith, h.same d));
  })
]

contains-add :
    (d : Str) (j : JobList) (s : Str)
    → Tidy j
    → contains (add d j).descs s ≡ (contains j.descs s || str_eq d s)
unfolding add
contains-add d j s h = ground (arith, h.same d, contains-append j.descs (d ∷ []) s, str_eq_iff d s)

add_all-Tidy : (ds : List Str) (j : JobList) → Tidy j → Tidy (add_all ds j)
add_all-Tidy [] j h = h
add_all-Tidy (d ∷ ds) j h = add_all-Tidy ds (add d j) (add-Tidy d j h)

contains-add_all :
    (ds : List Str) (j : JobList) (s : Str)
    → Tidy j
    → contains (add_all ds j).descs s ≡ (contains j.descs s || contains ds s)
contains-add_all [] j s h = ground arith
contains-add_all (d ∷ ds) j s h =
    ground (arith, contains-add_all ds (add d j) s (add-Tidy d j h), contains-add d j s h)

-- Whatever jobs are added to a new list, in whatever order and however often, the list holds each
-- of them exactly once, and nothing else.
pub add_all_lem :
    (name : Str) (ds : List Str)
    → let descs = (add_all ds (new_jobs name)).descs in
      NoRepeats descs × ((s : Str) → contains descs s ≡ contains ds s)
unfolding new_jobs
add_all_lem name ds =
    let start : Tidy (new_jobs name) = record { same = λ s. refl; once = tt } in
    ((add_all-Tidy ds (new_jobs name) start).once, λ s. contains-add_all ds (new_jobs name) s start)
