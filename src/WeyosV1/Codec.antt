-- ===== src/WeyosV1/Codec.antt =====
-- weyos/v1/nat.go: `marshal` and `unmarshal` with the writers and readers of the two rule types.
pub mod RoundTrip
use kit_go.Common.{
  ℕ, ◌==◌, Bool, true, false, Option, none, some, List, [], ◌∷◌, ◌++◌, map, if◌then◌else◌, is_empty,
  length, replicate, get_elem?, set, Str, codes, str_eq, join, split,
}
use kit_go.Common.Maps.{lookup}
use kit_go.WeyosV1.Struct.{
  DNat, SNat, Fields, dnat_fields, snat_fields, zero_dnat, zero_snat, dnat_of, snat_of,
  snat_tag_field, snat_field_pos, dnat_field_pos, is_skipped,
}

-- One round of the loop of `mkDnat`: the value goes to the place that the table gives its tag.
place_dnat : Str → Str → List Str → List Str
place_dnat tag v s =
    if is_skipped tag
    then s
    else elim (lookup tag dnat_field_pos) [ none ↦ s | some pos ↦ set s pos v ]

unfoldable pub mk_dnat_loop : Fields → List Str → List Str
unfolding place_dnat
mk_dnat_loop [] s = s
mk_dnat_loop ((tag, v) ∷ fs) s = mk_dnat_loop fs (place_dnat tag v s)

unfoldable pub mk_dnat : DNat → Str
unfolding mk_dnat_loop
mk_dnat e = join (codes "<") (mk_dnat_loop (dnat_fields e) (replicate 8 []))

-- One round of the loop of `mkSnat`.
place_snat : Str → Str → List Str → List Str
place_snat tag v s = if is_skipped tag then s else (elim (lookup tag snat_tag_field) [
  | none ↦ s
  | some name ↦ elim (lookup tag snat_field_pos) [
    | none ↦ s
    | some pos ↦ set s pos (name ++ (codes "=" ++ v))
  ]
])

unfoldable pub mk_snat_loop : Fields → List Str → List Str
unfolding place_snat
mk_snat_loop [] s = s
mk_snat_loop ((tag, v) ∷ fs) s = mk_snat_loop fs (place_snat tag v s)

unfoldable pub mk_snat : SNat → Str
unfolding mk_snat_loop
mk_snat e = join (codes "&") (mk_snat_loop (snat_fields e) (replicate 12 []))

-- `marshal` on a slice: nothing for an empty slice.
unfoldable pub marshal_dnat : List DNat → Str
unfolding mk_dnat
marshal_dnat [] = []
marshal_dnat (e ∷ es) = join (codes ">") (map mk_dnat (e ∷ es))

unfoldable pub marshal_snat : List SNat → Str
unfolding mk_snat
marshal_snat [] = []
marshal_snat (e ∷ es) = join (codes " ") (map mk_snat (e ∷ es))

-- `f.SetString(field[pos])` for the tag of the field. The record has been found to have more
-- pieces than any place of the table, so the test of `len(field)` against `pos` never stops it.
read_field : List (Str × ℕ) → List Str → Str → Str → Str
read_field table pieces tag old = if is_skipped tag then old else (elim (lookup tag table) [
  | none ↦ old
  | some pos ↦ elim (get_elem? pieces pos) [ none ↦ old | some s ↦ s ]
])

unfoldable pub fill : List (Str × ℕ) → List Str → Fields → Fields
unfolding read_field
fill table pieces [] = []
fill table pieces ((tag, old) ∷ fs) = (tag, read_field table pieces tag old) ∷ fill table pieces fs

-- The loop of `unmkDnat`. The struct `v` is one variable that every record overwrites.
unfoldable pub unmk_dnat : List Str → DNat → List DNat
unfolding fill
unmk_dnat [] v = []
unmk_dnat (r ∷ rs) v =
    let field = split b'<' r in
    let v' = dnat_of (fill dnat_field_pos field (dnat_fields v)) in
    let skip = unmk_dnat rs v in
    let more = v' ∷ unmk_dnat rs v' in if length field == 8 then more else skip

unfoldable pub unmk_snat : List Str → SNat → List SNat
unfolding fill
unmk_snat [] v = []
unmk_snat (r ∷ rs) v =
    let field = split b'|' r in
    let v' = snat_of (fill snat_field_pos field (snat_fields v)) in
    let skip = unmk_snat rs v in
    let more = v' ∷ unmk_snat rs v' in
    if is_empty r then skip else (if length field == 12 then more else skip)

-- The decoded rules are appended to the slice.
unfoldable pub unmarshal_dnat : Str → List DNat → List DNat
unfolding unmk_dnat
unmarshal_dnat s entries = entries ++ unmk_dnat (split b'>' s) zero_dnat

unfoldable pub unmarshal_snat : Str → List SNat → List SNat
unfolding unmk_snat
unmarshal_snat s entries = entries ++ unmk_snat (split b'<' s) zero_snat

-- `SNat.Map`: the query parameters of a rule, converted by `StringGB2312` (a parameter) on demand.
module _ (string_gb2312 : Str → Str) where
  unfoldable pub snat_map_loop : Bool → Fields → List (Str × Str)
  snat_map_loop gb2312 [] = []
  snat_map_loop gb2312 ((tag, v) ∷ fs) =
      let rest = snat_map_loop gb2312 fs in
      let vv = if gb2312 then string_gb2312 v else v in
      if is_skipped tag
      then rest
      else elim (lookup tag snat_tag_field) [ none ↦ rest | some name ↦ (name, vv) ∷ rest ]

  unfoldable pub snat_map : SNat → Bool → List (Str × Str)
  unfolding snat_map_loop
  snat_map e gb2312 = snat_map_loop gb2312 (snat_fields e)
