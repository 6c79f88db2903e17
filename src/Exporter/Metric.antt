-- ===== src/Exporter/Metric.antt =====
-- exporter/metric.go: a metric that is made step by step and sent. The channel is the list of what
-- was sent; package prometheus builds its metric from what `Sent` holds, or panics, as it does on
-- labels with one name twice.
pub mod Labels
use kit_go.Common.{
  ℕ, ◌+◌, Bool, true, false, Option, none, some, List, [], ◌∷◌, ◌++◌, if◌then◌else◌, is_empty,
  length, set, replicate, contains, Str, codes, ltb,
}

-- The values of package prometheus are numbers of a type `F`, with their types of value.
pub record Sent (F : Type 0) : Type 0 where
  pub namespace : Str
  pub name : Str
  pub unit : Str
  pub help : Str
  pub label_names : List Str
  pub label_values : List Str
  pub const_labels : List (Str × Str)
  pub value_type : ℕ
  pub value : F

pub record Metric (F : Type 0) : Type 0 where
  pub name : Str
  pub unit : Str
  pub label_name : List Str
  pub label_value : List Str
  pub idx : ℕ
  pub help : Str
  pub cacel : Bool
  pub ch : List (Sent F)

-- `make([]string, 100)`.
abbrev pub no_labels : List Str
no_labels = replicate 100 []

module _ {F : Type 0} where
  unfoldable pub new_metric : List (Sent F) → Metric F
  new_metric ch = record {
    name = [];
    unit = [];
    label_name = no_labels;
    label_value = no_labels;
    idx = 0;
    help = [];
    cacel = false;
    ch = ch;
  }

  unfoldable pub create : Str → Str → Metric F → Metric F
  create name unit a = record a {
    idx = 0;
    name = name;
    unit = unit;
    help = [];
    label_name = no_labels;
    label_value = no_labels;
  }

  -- `none` is the panic on an index out of range.
  unfoldable pub set_label : Str → Str → Metric F → Option (Metric F)
  set_label name value a =
      let a' = record a {
        label_name = set a.label_name a.idx name;
        label_value = set a.label_value a.idx value;
        idx = a.idx + 1;
      } in
      if ltb a.idx (length a.label_name)
      then (if ltb a.idx (length a.label_value) then some a' else none)
      else none

  unfoldable pub set_help : Str → Metric F → Metric F
  set_help help a = record a { help = help }

-- The global labels that the metric does not set itself.
abbrev pub const_labels : List Str → List (Str × Str) → List (Str × Str)
const_labels names [] = []
const_labels names ((k, v) ∷ globals) =
    let rest = const_labels names globals in if contains names k then rest else (k, v) ∷ rest

-- The loop of `send` over the places of the label names: those that are not empty, with the values
-- at the same places.
abbrev pub used_labels : List Str → List Str → List Str × List Str
used_labels [] values = ([], [])
used_labels (n ∷ ns) [] = ([], [])
used_labels (n ∷ ns) (v ∷ vs) =
    let rest = used_labels ns vs in if is_empty n then rest else (n ∷ rest.0, v ∷ rest.1)

abbrev pub default_namespace : Str
default_namespace = codes "zjt"

module _ {F : Type 0} (makes : Sent F → Bool) where
  -- `send`; `makes` says whether package prometheus makes the metric, and `none` is the panic of
  -- `MustNewConstMetric` where it does not. The two lists of labels are of one length, so that its test of that never fails.
  unfoldable pub send : List (Str × Str) → Str → ℕ → F → Metric F → Option (Metric F)
  send globals namespace value_type value a =
      let used = used_labels a.label_name a.label_value in
      let sent : Sent F = record {
        namespace = namespace;
        name = a.name;
        unit = a.unit;
        help = a.help;
        label_names = used.0;
        label_values = used.1;
        const_labels = const_labels a.label_name globals;
        value_type = value_type;
        value = value;
      } in
      if a.cacel
      then some a
      else (if makes sent then some (record a { ch = a.ch ++ (sent ∷ []) }) else none)

  -- `Send` and `SendWithoutNs`.
  unfoldable pub send_with_ns : List (Str × Str) → ℕ → F → Metric F → Option (Metric F)
  unfolding send
  send_with_ns globals value_type value a = send globals default_namespace value_type value a

  unfoldable pub send_without_ns : List (Str × Str) → ℕ → F → Metric F → Option (Metric F)
  unfolding send
  send_without_ns globals value_type value a = send globals [] value_type value a
