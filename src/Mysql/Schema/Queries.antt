-- ===== src/Mysql/Schema/Queries.antt =====
-- What the queries of mysql/mysql.go are made of.
use kit_go.Common.{
  ℕ, ◌-◌, ◌≡◌, refl, sym, ap, false, ◌∙◌, Option, some, List, [], ◌∷◌, ◌++◌, map, arith, is_empty,
  length, take, Str, codes, join, length-append, append_assoc,
}
use kit_go.Mysql.Schema.{
  query_column, column_loop, cut_last, columns_text, rewrite_mysql_query_column,
}

take-append : (s t : Str) → take (length s) (s ++ t) ≡ s
take-append [] t = refl
take-append (x ∷ s) t = ap (λ r. x ∷ r) (take-append s t)

cut_last-append : (s : Str) (c : ℕ) → cut_last (s ++ (c ∷ [])) ≡ s
cut_last-append s c =
    let less : length (s ++ (c ∷ [])) - 1 ≡ length s = omega (arith, length-append s (c ∷ [])) in
    rw less (take-append s (c ∷ []))

column_loop-join :
    (c : Str × Str) (cs : List (Str × Str))
    → column_loop (c ∷ cs) ≡ join (codes ",") (map query_column (c ∷ cs)) ++ codes ","
unfolding column_loop
column_loop-join c [] = refl
column_loop-join c (d ∷ cs) =
    ap (λ r. query_column c ++ (codes "," ++ r)) (column_loop-join d cs)
    ∙ sym (
        append_assoc (query_column c) (codes "," ++ join (codes ",") (map query_column (d ∷ cs)))
          (codes ","))

is_empty-append : (s : Str) (c : ℕ) → is_empty (s ++ (c ∷ [])) ≡ false
is_empty-append [] c = refl
is_empty-append (_ ∷ _) c = refl

-- Where the table has columns, the text is that of the columns joined by commas, each in back
-- quotes and a set column with ` + 0`: the comma behind the last one, and no more, is cut off.
pub rewrite_mysql_query_column_lem :
    (columns : Str → Str → Option (List (Str × Str))) (schema table : Str) (c : Str × Str)
    (cs : List (Str × Str))
    → columns schema table ≡ some (c ∷ cs)
    → rewrite_mysql_query_column columns schema table ≡ join (codes ",") (map query_column (c ∷ cs))
unfolding rewrite_mysql_query_column
rewrite_mysql_query_column_lem columns schema table c cs h =
    ap columns_text h
    ∙ rw
        (column_loop-join c cs, is_empty-append (join (codes ",") (map query_column (c ∷ cs))) b',')
        (cut_last-append (join (codes ",") (map query_column (c ∷ cs))) b',')
