-- ===== src/Exporter/Collector/Registry.antt =====
-- When a collector of exporter/exporter.go is registered.
use kit_go.Common.{
  ◌≡◌, refl, ap, Bool, true, false, ◌&&◌, Option, none, some, List, [], ◌∷◌, ◌++◌, arith, contains,
  Str,
}
use kit_go.Common.Maps.{insert}
use kit_go.Exporter.Collector.{
  Collector, App, flags_of, first_missing, run_fns, after_fn, registered, run_action, action, Step,
}

abbrev pub is_none : Option Str → Bool
is_none none = true
is_none (some _) = false

abbrev pub all_known : List Str → List Str → Bool
all_known known [] = true
all_known known (f ∷ fs) = contains known f && all_known known fs

first_missing-all_known :
    (known fs : List Str) → is_none (first_missing known fs) ≡ all_known known fs
first_missing-all_known known [] = refl
first_missing-all_known known (f ∷ fs) = ground (arith, first_missing-all_known known fs)

module _ {W : Type 0} where
  -- The registry after an answer.
  abbrev pub kept_or_added : Option Str → Collector W → App W → List (Str × Collector W)
  kept_or_added none c app = insert c.name c app.collectors
  kept_or_added (some _) c app = app.collectors

  registered_lem :
      (r : W × Option Str) (c : Collector W) (app : App W)
      → ((registered c r app).1 ≡ r.1)
        × ((registered c r app).0.collectors ≡ kept_or_added r.1 c app)
        × ((registered c r app).0.world ≡ r.0)
  registered_lem (w, none) c app = (refl, refl, refl)
  registered_lem (w, some e) c app = (refl, refl, refl)

  run_action_lem :
      (missing : Option Str) (c : Collector W) (app : App W)
      → ((run_action c missing app).0.collectors ≡ kept_or_added (run_action c missing app).1 c app)
        × (is_none (run_action c missing app).1
            ≡ (is_none missing && is_none (run_fns c.fn app.world).1))
  run_action_lem (some _) c app = (refl, refl)
  run_action_lem none c app =
      let r = registered_lem (run_fns c.fn app.world) c app in (rw r.0 r.1, ap is_none r.0)

  -- The flag of a collector, where it is set, adds the collector to the registry exactly if it
  -- answers no error, and that is if every flag that the collector requires is known and its
  -- functions, run in turn, answer none; on an error the registry is as before.
  pub action_lem :
      (flag_names : List Str) (c : Collector W) (app : App W)
      → let (after, answer) = action flag_names true c app in
        (after.collectors ≡ kept_or_added answer c app)
        × (is_none answer ≡ (
            all_known flag_names (flags_of c.name app.flag_check)
            && is_none (run_fns c.fn app.world).1))
  unfolding action
  action_lem flag_names c app =
      let r = run_action_lem (first_missing flag_names (flags_of c.name app.flag_check)) c app in
      (r.0, rw (← first_missing-all_known flag_names (flags_of c.name app.flag_check)) r.1)

  after_fn_stops :
      (rest only : Step W) (e : Str) (r : W × Option Str)
      → ((w : W) → (only w).1 ≡ some e → rest w ≡ only w)
      → (after_fn only r).1 ≡ some e
      → after_fn rest r ≡ after_fn only r
  after_fn_stops rest only e (w, none) same h = same w h
  after_fn_stops rest only e (w, some _) same h = refl

  -- A function that answers an error is the last that is run: the result is that without the
  -- functions behind it.
  pub run_fns_stops :
      (fs gs : List (Step W)) (f : Step W) (w : W) (e : Str)
      → (run_fns (fs ++ (f ∷ [])) w).1 ≡ some e
      → run_fns (fs ++ (f ∷ gs)) w ≡ run_fns (fs ++ (f ∷ [])) w
  unfolding run_fns
  run_fns_stops [] gs f w e h = after_fn_stops (run_fns gs) (λ v. (v, none)) e (f w) (λ v k. cc) h
  run_fns_stops (g ∷ fs) gs f w e h =
      after_fn_stops (run_fns (fs ++ (f ∷ gs))) (run_fns (fs ++ (f ∷ []))) e (g w)
        (λ v k. run_fns_stops fs gs f v e k) h
