-- ===== src/Jq/Tests.antt =====
-- Runs of jq/jq.go, and its theorem at a concrete input.
use kit_go.Common.{◌≡◌, refl, ◌++◌, [], ◌∷◌, map, arith, codes, join, split}
use kit_go.Jq.{quoted, pick_expression}
use kit_go.Jq.Paths.{steps, Plain, pick_expression_lem}

two_names :
    pick_expression (codes "{\"a\": \"b\": \"f1\",\"f2\"}")
    ≡ codes
        ".|=with_entries(select(.key == \"a\"))|.a|=with_entries(select(.key == \"b\"))|.a.b|=with_entries(select(.key | IN (\"f1\",\"f2\")))"
unfolding pick_expression split
two_names = refl

whole : pick_expression (codes " { } ") ≡ codes "."
unfolding pick_expression
whole = refl

pick_expression_lem_example :
    pick_expression (codes "a:f,g")
    ≡ codes "."
      ++ (steps [] (codes "a" ∷ [])
          ++ (codes "|=with_entries(select(.key | IN ("
              ++ (join (codes ",") (map quoted (codes "f" ∷ codes "g" ∷ [])) ++ codes ")))")))
pick_expression_lem_example =
    pick_expression_lem (codes "a" ∷ []) (codes "f") (codes "g" ∷ []) (codes "a") (codes "f,g" ∷ [])
      refl (omega arith) (omega arith) plain refl
  where
    plain : Plain (codes "a:f,g")
    plain = (refl, (refl, (refl, (refl, (refl, tt)))))
