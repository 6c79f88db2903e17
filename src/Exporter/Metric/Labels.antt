-- ===== src/Exporter/Metric/Labels.antt =====
-- Which labels a metric of exporter/metric.go is sent with.
use kit_go.Common.{
  ℕ, Option, some, List, [], ◌∷◌, ◌++◌, map, if◌then◌else◌, is_empty, length, replicate, Str, ◌>>=◌,
}
use kit_go.Exporter.Metric.{Sent, Metric, set_label, const_labels}

module _ {F : Type 0} where
  -- A chain of `SetLabel`.
  unfoldable pub set_labels : List (Str × Str) → Metric F → Option (Metric F)
  unfolding set_label
  set_labels [] a = some a
  set_labels ((n, v) ∷ ps) a = set_label n v a >>= set_labels ps

-- The labels with a name, in order.
abbrev pub with_name : List (Str × Str) → List (Str × Str)
with_name [] = []
with_name ((n, v) ∷ ps) = let rest = with_name ps in if is_empty n then rest else (n, v) ∷ rest

abbrev pub label_of : Str × Str → Str
label_of (n, v) = n

abbrev pub value_of : Str × Str → Str
value_of (n, v) = v

-- The slices with the labels `ps` and `k` free places.
abbrev pub filled : (Str × Str → Str) → List (Str × Str) → ℕ → List Str
filled part ps k = map part ps ++ replicate k []

module _ {F : Type 0} where
  abbrev pub holding : List (Str × Str) → ℕ → Metric F → Metric F
  holding ps k a = record a {
    label_name = filled label_of ps k;
    label_value = filled value_of ps k;
    idx = length ps;
  }

  -- What is sent of a metric with the labels `ps`.
  abbrev pub sent_of : List (Str × Str) → Str → Str → Str → ℕ → F → List (Str × Str) → ℕ → Sent F
  sent_of globals name unit namespace value_type value ps k = record {
    namespace = namespace;
    name = name;
    unit = unit;
    help = [];
    label_names = map label_of (with_name ps);
    label_values = map value_of (with_name ps);
    const_labels = const_labels (filled label_of ps k) globals;
    value_type = value_type;
    value = value;
  }
