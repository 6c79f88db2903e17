-- ===== src/WeyosV1/Records/Laws.antt =====
-- What the operations on the rule list of weyos/v1/nat.go do to it.
use kit_go.Common.{
  ◌≤◌, ltb, Bool, not, ◌&&◌, if◌then◌else◌, ◌≡◌, refl, false, none, some, List, [], ◌∷◌, ◌++◌,
  arith, find, All, length, Str, str_eq, str_eq_refl, Bool-cases, inl, inr,
}
use kit_go.WeyosV1.Struct.{DNat}
use kit_go.WeyosV1.Codec.RoundTrip.{IsClean, unmarshal_dnat-marshal_dnat}
use kit_go.WeyosV1.Records.{
  NatTable, dnat_entry, add_entry, find_dnat, delete_dnats, del_entry, d_natfrom, d_nat_string,
}

-- The rule shares neither its name nor its status with `e`.
pub record Differs (e x : DNat) : Type 0 where
  pub name : str_eq x.name e.name ≡ false
  pub status : str_eq x.status e.status ≡ false

delete_dnats-Differs : (e : DNat) (xs : List DNat) → All (Differs e) (delete_dnats e xs).0
unfolding delete_dnats
delete_dnats-Differs e [] = tt
delete_dnats-Differs e (x ∷ xs) =
    let ih = delete_dnats-Differs e xs in
    elim (Bool-cases (str_eq x.name e.name)) [
      | inl n ↦ rw n ih
      | inr n ↦ elim (Bool-cases (str_eq x.status e.status)) [
        | inl s ↦ rw (n, s) ih
        | inr s ↦ rw (n, s) (record { name = n; status = s }, ih)
      ]
    ]

abbrev pub filter {ℓ} : {A : Type ℓ} → (A → Bool) → List A → List A
filter p [] = []
filter p (x ∷ xs) = let rest = filter p xs in if p x then x ∷ rest else rest

-- Whether a rule shares neither its name nor its status with `e`.
abbrev pub differs : DNat → DNat → Bool
differs e x = not (str_eq x.name e.name) && not (str_eq x.status e.status)

filter-delete_dnats :
    (e : DNat) (xs : List DNat) → filter (differs e) (delete_dnats e xs).0 ≡ filter (differs e) xs
unfolding delete_dnats
filter-delete_dnats e [] = refl
filter-delete_dnats e (x ∷ xs) = ground (arith, filter-delete_dnats e xs)

delete_dnats_found :
    (e : DNat) (xs : List DNat)
    → (length (delete_dnats e xs).0 ≤ length xs)
      × ((delete_dnats e xs).1 ≡ ltb (length (delete_dnats e xs).0) (length xs))
unfolding delete_dnats
delete_dnats_found e [] = (omega arith, refl)
delete_dnats_found e (x ∷ xs) = ground (arith, delete_dnats_found e xs)

find-Differs :
    (e : DNat) (xs : List DNat) → All (Differs e) xs → find (λ x. str_eq x.name e.name) xs ≡ none
find-Differs e [] h = refl
find-Differs e (x ∷ xs) h = ground (arith, h.0.name, find-Differs e xs h.1)

-- After `DelEntry` of a DNAT rule every rule left has another name and another status, and every
-- rule that differs in both is left, as often as before and in the same order. The rule's name is
-- not found, the SNAT rules are as before, and the result is true exactly if the list became
-- shorter.
pub del_entry_lem :
    (e : DNat) (n : NatTable)
    → let (rest, found) = del_entry (dnat_entry e) n in
      All (Differs e) rest.d_nats
      × (filter (differs e) rest.d_nats ≡ filter (differs e) n.d_nats)
      × (find_dnat e.name rest ≡ none)
      × (rest.s_nats ≡ n.s_nats)
      × (found ≡ ltb (length rest.d_nats) (length n.d_nats))
unfolding del_entry find_dnat
del_entry_lem e n = (
  delete_dnats-Differs e n.d_nats,
  filter-delete_dnats e n.d_nats,
  find-Differs e (delete_dnats e n.d_nats).0 (delete_dnats-Differs e n.d_nats),
  refl,
  (delete_dnats_found e n.d_nats).1,
)

find-append_last :
    (e : DNat) (xs : List DNat)
    → find (λ x. str_eq x.name e.name) xs ≡ none
    → find (λ x. str_eq x.name e.name) (xs ++ (e ∷ [])) ≡ some e
find-append_last e [] h = ground (arith, str_eq_refl e.name)
find-append_last e (x ∷ xs) h = ground (arith, find-append_last e xs)

find-append_other :
    (name : Str) (e : DNat) (xs : List DNat)
    → str_eq e.name name ≡ false
    → find (λ x. str_eq x.name name) (xs ++ (e ∷ [])) ≡ find (λ x. str_eq x.name name) xs
find-append_other name e [] h = ground (arith, h)
find-append_other name e (x ∷ xs) h = ground (arith, find-append_other name e xs)

-- A rule added under a name that is not in the list is what that name finds, and what any other
-- name finds is as before.
pub find_dnat-add_entry :
    (e : DNat) (n : NatTable) (name : Str)
    → find_dnat e.name n ≡ none
    → str_eq e.name name ≡ false
    → (find_dnat e.name (add_entry (dnat_entry e) n) ≡ some e)
      × (find_dnat name (add_entry (dnat_entry e) n) ≡ find_dnat name n)
unfolding find_dnat add_entry
find_dnat-add_entry e n name h k =
    (find-append_last e n.d_nats h, find-append_other name e n.d_nats k)

-- Reading the rules back into the list that they were written from, as every fetch after the
-- first does, leaves each rule twice, for rules whose fields hold neither separator.
pub d_natfrom-d_nat_string :
    (string_gb2312 : Str → Str) (n : NatTable)
    → All IsClean n.d_nats
    → d_natfrom (d_nat_string string_gb2312 false n) n ≡ record n { d_nats = n.d_nats ++ n.d_nats }
unfolding d_natfrom d_nat_string
d_natfrom-d_nat_string g n h = rw (unmarshal_dnat-marshal_dnat n.d_nats n.d_nats h)
