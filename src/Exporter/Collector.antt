-- ===== src/Exporter/Collector.antt =====
-- exporter/exporter.go: the registry of collectors. The functions of a collector change a world
-- `W` of their own, and answer an error or none; package cli is where flags are given.
pub mod Registry
use kit_go.Common.{
  ◌==◌, ℕ, Bool, true, false, Option, none, some, List, [], ◌∷◌, ◌++◌, if◌then◌else◌, contains,
  length, Str, codes,
}
use kit_go.Common.Maps.{lookup, insert}

abbrev pub Step : Type 0 → Type 0
Step W = W → W × Option Str

-- `Collector`; a metric function is known by its number.
pub record Collector (W : Type 0) : Type 0 where
  pub name : Str
  pub fn : List (Step W)
  pub call_func : List ℕ

-- `collectors`, `flagCheck` and the flags of `app`, and the world of the functions.
pub record App (W : Type 0) : Type 0 where
  pub collectors : List (Str × Collector W)
  pub flag_check : List (Str × List Str)
  pub flags : List Str
  pub world : W

abbrev pub flags_of : Str → List (Str × List Str) → List Str
flags_of name m = elim (lookup name m) [ none ↦ [] | some fs ↦ fs ]

-- The text that the action of a collector's flag answers for a flag that is not known.
abbrev pub missing_flag : Str → Str → Str
missing_flag name flag =
    codes "collector [" ++ (name ++ (codes "] require flag: --" ++ (flag ++ codes " ")))

-- Whether the variadic argument is one `true`.
abbrev is_required : List Bool → Bool
is_required (r ∷ []) = r
is_required _ = false

-- The first loop of the action: the first of the flags that is not among the known ones.
abbrev pub first_missing : List Str → List Str → Option Str
first_missing known [] = none
first_missing known (f ∷ fs) =
    let rest = first_missing known fs in if contains known f then rest else some f

module _ {W : Type 0} where
  unfoldable pub new_collector : Str → Collector W
  new_collector name = record { name = name; fn = []; call_func = [] }

  unfoldable pub do_fn : Step W → Collector W → Collector W
  do_fn fn c = record c { fn = c.fn ++ (fn ∷ []) }

  unfoldable pub add_call_func : ℕ → Collector W → Collector W
  add_call_func fn c = record c { call_func = c.call_func ++ (fn ∷ []) }

  -- `AddFlag`: `required` is the variadic argument.
  unfoldable pub add_flag : Str → List Bool → Collector W → App W → App W
  add_flag flag required c app =
      let name = c.name ++ (codes "-" ++ flag) in
      let checked =
        if is_required required
        then insert c.name (flags_of c.name app.flag_check ++ (name ∷ [])) app.flag_check
        else app.flag_check in
      record app { flag_check = checked; flags = app.flags ++ (name ∷ []) }

  -- What follows a function: `rest` is the remaining loop.
  abbrev pub after_fn : Step W → W × Option Str → W × Option Str
  after_fn rest (w, none) = rest w
  after_fn rest (w, some e) = (w, some e)

  -- The second loop: the functions in turn, up to the first error.
  unfoldable pub run_fns : List (Step W) → Step W
  run_fns [] w = (w, none)
  run_fns (f ∷ fs) w = after_fn (run_fns fs) (f w)

  abbrev pub registered : Collector W → W × Option Str → App W → App W × Option Str
  registered c (w, none) app =
      (record app { world = w; collectors = insert c.name c app.collectors }, none)
  registered c (w, some e) app = (record app { world = w }, some e)

  abbrev pub run_action : Collector W → Option Str → App W → App W × Option Str
  run_action c (some flag) app = (app, some (missing_flag c.name flag))
  run_action c none app = registered c (run_fns c.fn app.world) app

  -- The action of the flag that `Register` adds, for a flag that is given as `b`.
  unfoldable pub action : List Str → Bool → Collector W → App W → App W × Option Str
  unfolding run_fns
  action flag_names b c app =
      let run = run_action c (first_missing flag_names (flags_of c.name app.flag_check)) app in
      if b then run else (app, none)
