-- ===== src/Exporter/Tests.antt =====
-- Runs of exporter/, and its theorems at concrete inputs.
use kit_go.Common.{
  ◌≡◌, refl, ◌&&◌, ℕ, ◌+◌, true, false, Option, none, some, List, [], ◌∷◌, Str, codes, replicate,
  not, is_empty, Bool,
}
use kit_go.Exporter.Metric.{Sent, Metric, create}
use kit_go.Exporter.Metric.Labels.{set_labels}
use kit_go.Exporter.Collector.{Collector, App, flags_of, run_fns, action}
use kit_go.Exporter.Collector.Registry.{
  is_none, all_known, kept_or_added, action_lem, run_fns_stops,
}

abbrev two_labels : List (Str × Str)
two_labels = (codes "ip", codes "10.0.0.1") ∷ ([], codes "x") ∷ (codes "port", codes "80") ∷ []

abbrev globals : List (Str × Str)
globals = (codes "ip", codes "0") ∷ (codes "site", codes "hq") ∷ []

abbrev blank_metric : Metric ℕ
blank_metric = record {
  name = [];
  unit = [];
  label_name = [];
  label_value = [];
  idx = 0;
  help = [];
  cacel = false;
  ch = [];
}

abbrev up_sent : Sent ℕ
up_sent = record {
  namespace = codes "zjt";
  name = codes "up";
  unit = codes "total";
  help = [];
  label_names = codes "ip" ∷ codes "port" ∷ [];
  label_values = codes "10.0.0.1" ∷ codes "80" ∷ [];
  const_labels = (codes "site", codes "hq") ∷ [];
  value_type = 2;
  value = 1;
}

-- A maker that only refuses an empty name.
abbrev has_name : Sent ℕ → Bool
has_name s = not (is_empty s.name)

-- The label after the hundredth is a panic.
too_many_labels :
    set_labels (replicate 101 (codes "n", codes "v")) (create (codes "up") [] blank_metric) ≡ none
unfolding set_labels create
too_many_labels = refl

abbrev count_call : ℕ → ℕ × Option Str
count_call w = (w + 1, none)

abbrev fail_call : ℕ → ℕ × Option Str
fail_call w = (w + 10, some (codes "down"))

abbrev mysql_collector : Collector ℕ
mysql_collector = record {
  name = codes "mysql";
  fn = count_call ∷ fail_call ∷ count_call ∷ [];
  call_func = 0 ∷ [];
}

abbrev app : App ℕ
app = record {
  collectors = [];
  flag_check = (codes "mysql", codes "mysql-addr" ∷ []) ∷ [];
  flags = codes "mysql-addr" ∷ [];
  world = 0;
}

action_lem_example :
    let (after, answer) = action (codes "mysql-addr" ∷ []) true mysql_collector app in
    (after.collectors ≡ kept_or_added answer mysql_collector app)
    × (is_none answer ≡ (
        all_known (codes "mysql-addr" ∷ []) (flags_of (codes "mysql") app.flag_check)
        && is_none (run_fns mysql_collector.fn 0).1))
action_lem_example = action_lem (codes "mysql-addr" ∷ []) mysql_collector app

run_fns_stops_run :
    run_fns (count_call ∷ fail_call ∷ count_call ∷ []) 0 ≡ run_fns (count_call ∷ fail_call ∷ []) 0
run_fns_stops_run =
    run_fns_stops (count_call ∷ []) (count_call ∷ []) fail_call 0 (codes "down") failed
  where
    failed : (run_fns (count_call ∷ fail_call ∷ []) 0).1 ≡ some (codes "down")
    failed = unfold run_fns in refl
