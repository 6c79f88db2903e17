-- ===== src/Weyos/Client/Rules.antt =====
-- The SNAT rules of weyos/weyos.go as a map from names to rules, which the requests change.
use mathlib.Core.Path.{fun_ext}
use kit_go.Common.{
  ◌≡◌, refl, sym, ap, ◌∙◌, inl, inr, Bool, true, false, Option, none, some, List, [], ◌∷◌,
  if◌then◌else◌, is_empty, find, Str, codes, str_eq, contains, not, ◌>>=◌, Bool-cases,
}
use kit_go.Weyos.Nat.{SNat, find_snat}
use kit_go.Weyos.Client.{
  SNatOpt, Router, Client, snat_opt, snat_defaults, marshal_snat, fetch_snat, post_snat, set_snat,
  add_snat, del_snat, rename_snat, mod_snat, send_snat_name, name_snat,
}

abbrev pub Names : Type 0
Names = Str → Option SNat

abbrev pub named : List SNat → Names
named rules n = find (λ s. str_eq s.name n) rules

abbrev pub put : Str → Option SNat → Names → Names
put n v m = λ k. if str_eq n k then v else m k

pub data Request : Type 0 where
  set : SNat → Request
  add : SNat → Request
  del : List Str → Request
  rename : Str → Str → Request

abbrev renamed : Str → Str → Option SNat → Option SNat → Names → Names
renamed old new none _ m = m
renamed old new (some _) (some _) m = m
renamed old new (some s) none m = put new (some (record s { name = new })) (put old none m)

abbrev replaced : SNat → Option SNat → Names → Names
replaced s none m = m
replaced s (some _) m = put s.name (some s) m

-- What a request means for the map.
unfoldable pub apply : Request → Names → Names
apply (set s) m = replaced s (m s.name) m
apply (add s) m = if is_empty s.name then m else put s.name (some (snat_defaults s)) m
apply (del names) m = λ n. if contains names n then none else m n
apply (rename old new) m = renamed old new (m old) (m new) m

unfoldable pub replay : List Request → Names → Names
unfolding apply
replay [] m = m
replay (q ∷ qs) m = replay qs (apply q m)

abbrev is_none : Option SNat → Bool
is_none none = true
is_none (some _) = false

not-true : (b : Bool) → not b ≡ true → b ≡ false
not-true true h = cc
not-true false h = refl

none_of : (o : Option SNat) → is_none o ≡ true → o ≡ none
none_of none h = refl
none_of (some _) h = cc

-- A rule is added under a name that no rule has, and renamed from a name that is not empty: an
-- empty old name is left out of the request.
abbrev pub is_new : Request → Names → Bool
is_new (add s) m = is_none (m s.name)
is_new (rename old _) m = not (is_empty old)
is_new _ m = true

unfoldable pub AllNew : List Request → Names → Type 0
unfolding apply
AllNew [] m = Unit
AllNew (q ∷ qs) m = (is_new q m ≡ true) × AllNew qs (apply q m)

-- What the client relies on: the router answers its list, and a request changes, under each name,
-- what it names.
pub record RouterLaws (r : Router) : Type 0 where
  pub rules : r.Device → List SNat
  pub answers : (d : r.Device) → r.mrprot_data d ≡ some (record { error = []; all = rules d })
  pub mod_law :
      (s old : SNat) (d : r.Device) (n : Str)
      → named (rules d) s.name ≡ some old
      → named (rules (r.mrprot_asp (marshal_snat r (snat_opt s [] (codes "mod"))) d)) n
        ≡ put s.name (some s) (named (rules d)) n
  pub name_law :
      (s : SNat) (old new : Str) (d : r.Device) (n : Str)
      → is_empty old ≡ false
      → named (rules d) old ≡ some s
      → named (rules d) new ≡ none
      → named
          (rules (
            r.mrprot_asp (marshal_snat r (snat_opt (record s { name = new }) old (codes "mod"))) d))
          n
        ≡ put new (some (record s { name = new })) (put old none (named (rules d))) n
  pub add_law :
      (s : SNat) (d : r.Device) (n : Str)
      → named (rules d) s.name ≡ none
      → named (rules (r.mrprot_asp (marshal_snat r (snat_opt s [] (codes "add"))) d)) n
        ≡ put s.name (some s) (named (rules d)) n
  pub del_law :
      (names : List Str) (d : r.Device) (n : Str)
      → named
          (rules (
            r.mrprot_asp
              (marshal_snat r
                (record { rule = none; id = []; action = codes "del"; del_list = names }))
              d))
          n
        ≡ (if contains names n then none else named (rules d) n)

module _ (r : Router) where
  unfoldable pub request : Request → Client r.Device → Option (Client r.Device)
  unfolding set_snat add_snat del_snat rename_snat
  request (set s) cli = set_snat r s cli
  request (add s) cli = some (add_snat r s cli).1
  request (del names) cli = some (del_snat r names cli)
  request (rename old new) cli = rename_snat r old new cli

  unfoldable pub run : List Request → Client r.Device → Option (Client r.Device)
  unfolding request
  run [] cli = some cli
  run (q ∷ qs) cli = request q cli >>= run qs

-- The rules that the client finds by name.
abbrev pub known : {D : Type 0} → Client D → Names
known cli n = find_snat n cli.nat

module _ (r : Router) (laws : RouterLaws r) where
  open laws use {rules, answers, mod_law, name_law, add_law, del_law}

  -- The client holds the list that the router has.
  abbrev pub IsSynced : Client r.Device → Type 0
  IsSynced cli = cli.nat.s_nats ≡ rules cli.device

  abbrev refreshed : Client r.Device → Client r.Device
  refreshed cli = record cli { nat = record (cli.nat) { s_nats = rules cli.device } }

  fetch_snat_lem :
      (cli : Client r.Device) → fetch_snat r cli ≡ (refreshed cli, some (refreshed cli).nat)
  unfolding fetch_snat
  fetch_snat_lem cli = rw (answers cli.device) refl

  -- The client holds the router's list, and its rules are those of the map.
  abbrev pub Follows : Names → Client r.Device → Type 0
  Follows m cli = IsSynced cli × ((n : Str) → known cli n ≡ m n)

  posted_Follows :
      (opt : SNatOpt) (cli : Client r.Device) (m : Names)
      → ((n : Str) → named (rules (r.mrprot_asp (marshal_snat r opt) cli.device)) n ≡ m n)
      → Follows m (fetch_snat r (post_snat r opt cli)).0
  unfolding post_snat find_snat
  posted_Follows opt cli m h = rw (fetch_snat_lem (post_snat r opt cli)) (refl, h)

  refreshed-Follows : (cli : Client r.Device) → Follows (named (rules cli.device)) (refreshed cli)
  unfolding find_snat
  refreshed-Follows cli = (refl, λ n. refl)

  mod_Follows :
      (s : SNat) (cli : Client r.Device) (o : Option SNat)
      → named (rules cli.device) s.name ≡ o
      → Follows (replaced s o (named (rules cli.device))) (mod_snat r s o (refreshed cli))
  mod_Follows s cli none e = refreshed-Follows cli
  mod_Follows s cli (some old) e =
      posted_Follows (snat_opt s [] (codes "mod")) (refreshed cli)
        (put s.name (some s) (named (rules cli.device))) (λ n. mod_law s old cli.device n e)

  name_Follows :
      (old new : Str) (cli : Client r.Device) (o p : Option SNat)
      → not (is_empty old) ≡ true
      → named (rules cli.device) old ≡ o
      → named (rules cli.device) new ≡ p
      → Follows
          (renamed old new o p (named (rules cli.device)))
          (send_snat_name r old new o p (refreshed cli))
  name_Follows old new cli none p g e f = refreshed-Follows cli
  name_Follows old new cli (some s) (some _) g e f = refreshed-Follows cli
  name_Follows old new cli (some s) none g e f =
      posted_Follows (snat_opt (record s { name = new }) old (codes "mod"))
        (record (refreshed cli) {
          nat = record (cli.nat) { s_nats = name_snat old new (rules cli.device) };
        })
        (put new (some (record s { name = new })) (put old none (named (rules cli.device))))
        (λ n. name_law s old new cli.device n (not-true (is_empty old) g) e f)

  add-Follows :
      (s : SNat) (cli : Client r.Device)
      → IsSynced cli
      → is_none (named (rules cli.device) s.name) ≡ true
      → Follows (apply (add s) (named (rules cli.device))) (add_snat r s cli).1
  unfolding add_snat apply snat_defaults find_snat
  add-Follows s cli h new = elim (Bool-cases (is_empty s.name)) [
    | inl e ↦ rw e (h, λ n. ap (λ l. named l n) h)
    | inr e ↦ rw e (
        posted_Follows (snat_opt (snat_defaults s) [] (codes "add")) cli
          (put s.name (some (snat_defaults s)) (named (rules cli.device)))
          (λ n.
            add_law (snat_defaults s) cli.device n (none_of (named (rules cli.device) s.name) new)))
  ]

  request-Follows :
      (q : Request) (cli : Client r.Device)
      → IsSynced cli
      → is_new q (named (rules cli.device)) ≡ true
      → (c : Client r.Device) × (request r q cli ≡ some c)
        × Follows (apply q (named (rules cli.device))) c
  unfolding request set_snat rename_snat del_snat apply find_snat
  request-Follows (set s) cli h new = (
    mod_snat r s (named (rules cli.device) s.name) (refreshed cli),
    rw (fetch_snat_lem cli) refl,
    mod_Follows s cli (named (rules cli.device) s.name) refl,
  )
  request-Follows (add s) cli h new = ((add_snat r s cli).1, refl, add-Follows s cli h new)
  request-Follows (del names) cli h new = (
    del_snat r names cli,
    refl,
    posted_Follows (record { rule = none; id = []; action = codes "del"; del_list = names }) cli
        (λ n. if contains names n then none else named (rules cli.device) n)
        (del_law names cli.device),
  )
  request-Follows (rename old new_name) cli h new =
      let m : Names = named (rules cli.device) in
      (
        send_snat_name r old new_name (m old) (m new_name) (refreshed cli),
        rw (fetch_snat_lem cli) refl,
        name_Follows old new_name cli (m old) (m new_name) new refl refl,
      )

  -- With a router that keeps these laws, a client that holds the router's list, and requests that
  -- add rules only under new names and rename none from the empty name: the requests all return, none on a nil pointer, the client
  -- again holds the router's list, and the rule that it finds under each name is the one that the
  -- same requests give on a map from names to rules, where an edit of an unknown name, a rename
  -- to a known one and an addition without a name do nothing.
  pub run_refines :
      (qs : List Request) (cli : Client r.Device)
      → IsSynced cli
      → AllNew qs (named (rules cli.device))
      → (c : Client r.Device) × (run r qs cli ≡ some c)
        × Follows (replay qs (named (rules cli.device))) c
  unfolding run replay AllNew find_snat
  run_refines [] cli h new = (cli, refl, (h, λ n. ap (λ l. named l n) h))
  run_refines (q ∷ qs) cli h new =
      let done = request-Follows q cli h new.0 in
      let c = done.0 in
      let same : named (rules c.device) ≡ apply q (named (rules cli.device)) =
        fun_ext (λ n. ap (λ l. named l n) (sym done.2.0) ∙ done.2.1 n) in
      let rest = run_refines qs c done.2.0 (rw same new.1) in
      (rest.0, rw done.1 rest.1, rw same at rest.2)
