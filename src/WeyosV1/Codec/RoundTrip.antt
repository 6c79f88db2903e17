-- ===== src/WeyosV1/Codec/RoundTrip.antt =====
-- The text form of NAT rules (weyos/v1/nat.go) read back.
use kit_go.Common.{
  ◌≡◌, ◌≢◌, refl, ap, ◌∙◌, false, List, [], ◌∷◌, ◌++◌, map, arith, is_empty, length, All, Str,
  codes, join, split, split-join, Free, Free-join,
}
use kit_go.WeyosV1.Struct.{DNat, SNat, zero_dnat, zero_snat}
use kit_go.WeyosV1.Codec.{
  mk_dnat, marshal_dnat, unmk_dnat, unmk_snat, unmarshal_dnat, unmarshal_snat,
}

-- The pieces of a record, in the order of the router.
abbrev pub dnat_pieces : DNat → List Str
dnat_pieces e =
    e.status ∷ e.protocol ∷ e.wan_ips ∷ e.wan_port ∷ e.lan_port ∷ e.lan_ip ∷ e.name
    ∷ e.wan_interface ∷ []

-- No field holds one of the two separators.
pub record IsClean (e : DNat) : Type 0 where
  pub no_lt : All (Free b'<') (dnat_pieces e)
  pub no_gt : All (Free b'>') (dnat_pieces e)

pub mk_dnat-dnat_pieces : (e : DNat) → mk_dnat e ≡ join (codes "<") (dnat_pieces e)
unfolding mk_dnat
mk_dnat-dnat_pieces e = refl

split-mk_dnat : (e : DNat) → IsClean e → split b'<' (mk_dnat e) ≡ dnat_pieces e
split-mk_dnat e h = rw (mk_dnat-dnat_pieces e) (split-join b'<' e.status _ h.no_lt)

mk_dnat-Free : (e : DNat) → IsClean e → Free b'>' (mk_dnat e)
mk_dnat-Free e h =
    rw (mk_dnat-dnat_pieces e) (Free-join b'>' (codes "<") (dnat_pieces e) (omega arith) h.no_gt)

unmk_dnat_step :
    (e v : DNat) (rs : List Str) → IsClean e → unmk_dnat (mk_dnat e ∷ rs) v ≡ e ∷ unmk_dnat rs e
unfolding unmk_dnat
unmk_dnat_step e v rs h = rw (split-mk_dnat e h)

unmk_dnat-map : (es : List DNat) (v : DNat) → All IsClean es → unmk_dnat (map mk_dnat es) v ≡ es
unmk_dnat-map [] v h = unfold unmk_dnat in refl
unmk_dnat-map (e ∷ es) v h =
    unmk_dnat_step e v (map mk_dnat es) h.0 ∙ ap (λ r. e ∷ r) (unmk_dnat-map es e h.1)

records-Free : (es : List DNat) → All IsClean es → All (Free b'>') (map mk_dnat es)
records-Free [] h = tt
records-Free (e ∷ es) h = (mk_dnat-Free e h.0, records-Free es h.1)

-- Rules whose fields hold neither separator are read back from their text, in order, and are
-- appended to the rules that were there; no rules are written as an empty text, which adds none.
pub unmarshal_dnat-marshal_dnat :
    (es old : List DNat) → All IsClean es → unmarshal_dnat (marshal_dnat es) old ≡ old ++ es
unmarshal_dnat-marshal_dnat [] old h = unfold unmarshal_dnat marshal_dnat split in refl
unmarshal_dnat-marshal_dnat (e ∷ es) old h =
    unfold unmarshal_dnat marshal_dnat in
    rw (split-join b'>' (mk_dnat e) (map mk_dnat es) (records-Free (e ∷ es) h))
      (ap (λ r. old ++ r) (unmk_dnat-map (e ∷ es) zero_dnat h))

-- A record without eight pieces is passed over.
pub unmk_dnat_malformed :
    (r : Str) (rs : List Str) (v : DNat)
    → length (split b'<' r) ≢ 8
    → unmk_dnat (r ∷ rs) v ≡ unmk_dnat rs v
unfolding unmk_dnat
unmk_dnat_malformed r rs v h = ground arith

-- A record as the router sends it: twelve pieces, of which the ninth is not read.
abbrev pub snat_pieces : SNat × Str → List Str
snat_pieces (e, unread) =
    e.name ∷ e.status ∷ e.lan_ips ∷ e.schedule ∷ e.logging ∷ e.priority ∷ e.wan_interface
    ∷ e.thdtype ∷ unread ∷ e.application ∷ e.protocol ∷ e.failover ∷ []

abbrev pub snat_record : SNat × Str → Str
snat_record r = join (codes "|") (snat_pieces r)

abbrev pub entry_of : SNat × Str → SNat
entry_of (e, unread) = e

pub record IsCleanRecord (r : SNat × Str) : Type 0 where
  pub no_bar : All (Free b'|') (snat_pieces r)
  pub no_lt : All (Free b'<') (snat_pieces r)

is_empty-append_bar : (s t : Str) → is_empty (s ++ b'|' ∷ t) ≡ false
is_empty-append_bar [] t = refl
is_empty-append_bar (_ ∷ _) t = refl

unmk_snat_step :
    (r : SNat × Str) (v : SNat) (rs : List Str)
    → IsCleanRecord r
    → unmk_snat (snat_record r ∷ rs) v ≡ entry_of r ∷ unmk_snat rs (entry_of r)
unfolding unmk_snat
unmk_snat_step (e, unread) v rs h =
    rw (split-join b'|' e.name _ h.no_bar, is_empty-append_bar e.name _)

unmk_snat-map :
    (es : List (SNat × Str)) (v : SNat)
    → All IsCleanRecord es
    → unmk_snat (map snat_record es) v ≡ map entry_of es
unmk_snat-map [] v h = unfold unmk_snat in refl
unmk_snat-map (r ∷ es) v h =
    unmk_snat_step r v (map snat_record es) h.0
    ∙ ap (λ t. entry_of r ∷ t) (unmk_snat-map es (entry_of r) h.1)

snat_records-Free :
    (es : List (SNat × Str)) → All IsCleanRecord es → All (Free b'<') (map snat_record es)
snat_records-Free [] h = tt
snat_records-Free (r ∷ es) h =
    (Free-join b'<' (codes "|") (snat_pieces r) (omega arith) (h.0.no_lt), snat_records-Free es h.1)

-- A text of one or more records joined by `<`, whose pieces hold neither separator, is read as
-- the rules of those records, in order, appended to the rules that were there.
pub unmarshal_snat-join :
    (r : SNat × Str) (es : List (SNat × Str)) (old : List SNat)
    → All IsCleanRecord (r ∷ es)
    → unmarshal_snat (join (codes "<") (map snat_record (r ∷ es))) old
      ≡ old ++ map entry_of (r ∷ es)
unfolding unmarshal_snat
unmarshal_snat-join r es old h =
    rw (split-join b'<' (snat_record r) (map snat_record es) (snat_records-Free (r ∷ es) h))
      (ap (λ t. old ++ t) (unmk_snat-map (r ∷ es) zero_snat h))
