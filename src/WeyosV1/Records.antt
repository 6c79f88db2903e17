-- ===== src/WeyosV1/Records.antt =====
-- weyos/v1/nat.go: the list of NAT rules that a client holds.
pub mod Laws
use kit_go.Common.{
  Bool, true, false, ◌||◌, Option, none, some, List, [], ◌∷◌, ◌++◌, if◌then◌else◌, find, Str,
  str_eq,
}
use kit_go.WeyosV1.Struct.{DNat, SNat}
use kit_go.WeyosV1.Codec.{marshal_dnat, unmarshal_dnat, unmarshal_snat}

-- The struct `nat`.
pub record NatTable : Type 0 where
  pub d_nats : List DNat
  pub s_nats : List SNat

-- The types that `AddEntry` and `DelEntry` look for in the interface.
pub data Entry : Type 0 where
  dnat_entry : DNat → Entry
  snat_entry : SNat → Entry

pub new_nat_recod : NatTable
new_nat_recod = record { d_nats = []; s_nats = [] }

unfoldable pub add_entry : Entry → NatTable → NatTable
add_entry (dnat_entry e) n = record n { d_nats = n.d_nats ++ (e ∷ []) }
add_entry (snat_entry e) n = record n { s_nats = n.s_nats ++ (e ∷ []) }

-- The first rule of that name; `none` is the nil pointer.
unfoldable pub find_dnat : Str → NatTable → Option DNat
find_dnat name n = find (λ e. str_eq e.name name) n.d_nats

unfoldable pub find_snat : Str → NatTable → Option SNat
find_snat name n = find (λ e. str_eq e.name name) n.s_nats

-- `slices.DeleteFunc` with the function of `DelEntry`, and the flag that it sets.
delete_dnats : DNat → List DNat → List DNat × Bool
delete_dnats e [] = ([], false)
delete_dnats e (x ∷ xs) =
    let (rest, found) = delete_dnats e xs in
    if str_eq x.name e.name
    then (rest, true)
    else (if str_eq x.status e.status then (rest, true) else (x ∷ rest, found))

delete_snats : SNat → List SNat → List SNat × Bool
delete_snats e [] = ([], false)
delete_snats e (x ∷ xs) =
    let (rest, found) = delete_snats e xs in
    if str_eq x.name e.name
    then (rest, true)
    else (if str_eq x.status e.status then (rest, true) else (x ∷ rest, found))

unfoldable pub del_entry : Entry → NatTable → NatTable × Bool
unfolding delete_dnats delete_snats
del_entry (dnat_entry e) n =
    let (rest, found) = delete_dnats e n.d_nats in (record n { d_nats = rest }, found)
del_entry (snat_entry e) n =
    let (rest, found) = delete_snats e n.s_nats in (record n { s_nats = rest }, found)

unfoldable pub d_natfrom : Str → NatTable → NatTable
d_natfrom s n = record n { d_nats = unmarshal_dnat s n.d_nats }

unfoldable pub s_natfrom : Str → NatTable → NatTable
s_natfrom s n = record n { s_nats = unmarshal_snat s n.s_nats }

module _ (string_gb2312 : Str → Str) where
  unfoldable pub d_nat_string : Bool → NatTable → Str
  d_nat_string gb2312 n =
      if gb2312 then string_gb2312 (marshal_dnat n.d_nats) else marshal_dnat n.d_nats
