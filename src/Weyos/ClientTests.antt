-- ===== src/Weyos/ClientTests.antt =====
-- Runs of the client of weyos/weyos.go with a router that keeps its rules in two lists, and the
-- client's theorems at concrete inputs.
use kit_go.Common.{
  ◌≡◌, refl, true, drop, false, Option, none, some, List, [], ◌∷◌, map, if◌then◌else◌, is_empty,
  Str, codes, str_eq, str_eq_iff, contains, arith, ◌⊎◌, pos, inl, inr, Bool-cases,
}
use kit_go.Common.Fields.{Word}
use kit_go.Weyos.Login.{encryption, unshift, unshift-encryption}
use kit_go.Weyos.Protocols.{
  Line, comment, blank, entry, line_text, parser_protocol, declared, parser_protocol_lem,
}
use kit_go.Weyos.Nat.{SNat, DNat, NatRules}
use kit_go.Weyos.Client.{
  SNatOpt, Router, Client, marshal_snat, add_dnat, set_snat, rename_snat, fetch_snat,
}
use kit_go.Weyos.Client.Fetches.{fetch_snat_offline, fetch_snat_refused, d_nats-add_dnat}
use kit_go.Weyos.Client.Rules.{
  named, put, Request, set, add, del, rename, replay, AllNew, RouterLaws, Follows, run, run_refines,
}

-- A rule put in the place of every rule of a name.
abbrev replace : Str → SNat → List SNat → List SNat
replace key s [] = []
replace key s (x ∷ l) =
    let rest = replace key s l in if str_eq x.name key then s ∷ rest else x ∷ rest

abbrev without : List Str → List SNat → List SNat
without names [] = []
without names (x ∷ l) =
    let rest = without names l in if contains names x.name then rest else x ∷ rest

replace_other :
    (s : SNat) (old : Str) (l : List SNat) (n : Str)
    → str_eq s.name n ≡ false
    → named (replace old s l) n ≡ put old none (named l) n
replace_other s old [] n h = ground arith
replace_other s old (x ∷ l) n h =
    ground (
      arith,
      str_eq_iff x.name old,
      str_eq_iff x.name n,
      str_eq_iff old n,
      replace_other s old l n h,
    )

replace_found :
    (s t : SNat) (old : Str) (l : List SNat)
    → named l old ≡ some t
    → (str_eq old s.name ≡ true) ⊎ (named l s.name ≡ none)
    → named (replace old s l) s.name ≡ some s
replace_found s t old [] h k = cc
replace_found s t old (x ∷ l) h k = ground (
  arith,
  str_eq_iff x.name old,
  str_eq_iff x.name s.name,
  str_eq_iff s.name s.name,
  str_eq_iff old s.name,
  replace_found s t old l,
)

replace-put :
    (s t : SNat) (old : Str) (l : List SNat) (n : Str)
    → named l old ≡ some t
    → (str_eq old s.name ≡ true) ⊎ (named l s.name ≡ none)
    → named (replace old s l) n ≡ put s.name (some s) (put old none (named l)) n
replace-put s t old l n h k = elim (Bool-cases (str_eq s.name n)) [
  | inl e ↦ rw (e, ← (str_eq_iff s.name n).0 e) (replace_found s t old l h k)
  | inr e ↦ rw e (replace_other s old l n e)
]

named-without :
    (names : List Str) (l : List SNat) (n : Str)
    → named (without names l) n ≡ (if contains names n then none else named l n)
named-without names [] n = ground arith
named-without names (x ∷ l) n = ground (arith, str_eq_iff x.name n, named-without names l n)

replaced_same :
    (s old : SNat) (l : List SNat) (n : Str)
    → named l s.name ≡ some old
    → named (replace s.name s l) n ≡ put s.name (some s) (named l) n
replaced_same s old l n h =
    ground (arith, replace-put s old s.name l n h (inl ((str_eq_iff s.name s.name).1 refl)))

added_first :
    (s : SNat) (l : List SNat) (n : Str) → named (s ∷ l) n ≡ put s.name (some s) (named l) n
added_first s l n = ground arith

abbrev serve_mod : Option SNat → Str → List SNat → List SNat
serve_mod none id l = l
serve_mod (some s) id l = replace (if is_empty id then s.name else id) s l

abbrev serve_add : Option SNat → List SNat → List SNat
serve_add none l = l
serve_add (some s) l = s ∷ l

abbrev serve : SNatOpt → List SNat → List SNat
serve q l =
    if str_eq q.action (codes "mod")
    then serve_mod q.rule q.id l
    else (if str_eq q.action (codes "add") then serve_add q.rule l else without q.del_list l)

abbrev serve_snat : Option SNatOpt → NatRules → NatRules
serve_snat none d = d
serve_snat (some q) d = record d { s_nats = serve q d.s_nats }

abbrev added : Option DNat → NatRules → NatRules
added none d = d
added (some x) d = record d { d_nats = x ∷ d.d_nats }

-- A router that adds every DNAT rule it is sent, and reads the bodies of SNAT requests.
abbrev two_lists : Router
two_lists = record {
  Device = NatRules;
  Body = Option SNatOpt ⊎ Option DNat;
  mrprot_data = λ d. some (record { error = []; all = d.s_nats });
  nat_base_data = λ d. some (record { error = []; all = d.d_nats });
  mrprot_asp = λ b d. elim b [ inl q ↦ serve_snat q d | inr _ ↦ d ];
  nat_base2_asp = λ b d. elim b [ inl _ ↦ d | inr x ↦ added x d ];
  encode_snat = λ q. inl (some q);
  encode_dnat = λ q. inr q.rule;
  gb18030 = λ b. some b;
  empty_body = inl none;
}

two_lists_laws : RouterLaws two_lists
unfolding marshal_snat
two_lists_laws = record {
  rules = λ d. d.s_nats;
  answers = λ d. refl;
  mod_law = λ s old d n h. replaced_same s old d.s_nats n h;
  name_law = λ s old new d n g h k.
      rw g (replace-put (record s { name = new }) s old d.s_nats n h (inr k));
  add_law = λ s d n h. added_first s d.s_nats n;
  del_law = λ names d n. named-without names d.s_nats n;
}

abbrev snat_of : Str → Str → SNat
snat_of name protocol = record {
  name = name;
  protocol = protocol;
  lan_ips = [];
  log_enabled = pos 0;
  status = pos 1;
  failovered = [];
  priority = pos 0;
  wan_interface = codes "WAN1";
  schedule = [];
  app_protocol = [];
  thdtype = [];
  thd = [];
}

abbrev dnat_of : Str → DNat
dnat_of name = record {
  name = name;
  wan_interface = codes "WAN1";
  src_ips = [];
  src_ports = codes "80";
  lan_ip = codes "10.0.0.1";
  lan_ports = codes "80";
  status = pos 1;
  protocol = codes "tcp";
}

abbrev rules_of : List SNat → NatRules
rules_of l = record { d_nats = []; s_nats = l }

abbrev office : Client NatRules
office = record {
  device = rules_of (snat_of (codes "a") (codes "x") ∷ []);
  nat = rules_of (snat_of (codes "a") (codes "x") ∷ []);
}

abbrev morning : List Request
morning =
    set (snat_of (codes "a") (codes "y"))
    ∷ add (snat_of (codes "b") (codes "z"))
    ∷ rename (codes "a") (codes "c")
    ∷ rename (codes "b") (codes "c")
    ∷ del (codes "b" ∷ [])
    ∷ []

morning_new : AllNew morning (named (two_lists_laws.rules office.device))
unfolding AllNew two_lists_laws replay
morning_new = (refl, (refl, (refl, (refl, (refl, tt)))))

run_refines_example :
    (c : Client NatRules) × (run two_lists morning office ≡ some c)
    × Follows two_lists two_lists_laws
        (replay morning (named (two_lists_laws.rules office.device)))
        c
unfolding two_lists_laws
run_refines_example = run_refines two_lists two_lists_laws morning office refl morning_new

abbrev protocol_of : Option SNat → Str
protocol_of none = []
protocol_of (some s) = s.protocol

morning_names :
    map
      (λ n. protocol_of (replay morning (named (office.device).s_nats) n))
      (codes "a" ∷ codes "b" ∷ codes "c" ∷ [])
    ≡ [] ∷ [] ∷ codes "y" ∷ []
unfolding replay
morning_names = refl

abbrev offline : Router
offline = record two_lists { mrprot_data = λ d. none }

fetch_snat_offline_run :
    (set_snat offline (snat_of (codes "a") []) office ≡ some (record office { nat = rules_of [] }))
    × (rename_snat offline (codes "a") (codes "c") office
        ≡ some (record office { nat = rules_of [] }))
fetch_snat_offline_run = fetch_snat_offline offline office (snat_of (codes "a") []) (codes "c") refl

abbrev logged_out : Router
logged_out = record two_lists {
  mrprot_data = λ d. some (record { error = codes "login"; all = [] });
}

fetch_snat_refused_run :
    ((fetch_snat logged_out office).0 ≡ office)
    × ((set_snat logged_out (snat_of (codes "a") []) office ≡ none)
        × (rename_snat logged_out (codes "a") (codes "c") office ≡ none))
fetch_snat_refused_run =
    fetch_snat_refused logged_out office (snat_of (codes "a") []) (codes "a") (codes "c")
      (record { error = codes "login"; all = [] }) refl refl

d_nats-add_dnat_run : (add_dnat two_lists (dnat_of (codes "w")) office).nat.d_nats ≡ []
d_nats-add_dnat_run = d_nats-add_dnat two_lists office (dnat_of (codes "w"))

-- The router has the rule that the client does not show.
new_dnat_unseen :
    (map (λ d. d.name) ((add_dnat two_lists (dnat_of (codes "w")) office).device).d_nats
      ≡ codes "w" ∷ [])
unfolding add_dnat
new_dnat_unseen = refl

abbrev protocols_file : List Line
protocols_file =
    comment (codes " Internet protocols")
    ∷ entry (codes "icmp") 1 (codes "ICMP")
    ∷ blank
    ∷ entry (codes "tcp") 6 (codes "TCP")
    ∷ []

parser_protocol_lem_example :
    parser_protocol (map line_text protocols_file) (λ j. none) ≡ declared protocols_file (λ j. none)
parser_protocol_lem_example =
    parser_protocol_lem protocols_file (λ j. none)
      (
        tt,
        (
          (icmp_word, refl, icmp_alias, refl, omega arith),
          (tt, ((tcp_word, refl, tcp_alias, refl, omega arith), tt)),
        ),
      )
  where
    icmp_word : Word (codes "icmp")
    icmp_word = (refl, (refl, (refl, (refl, tt))))

    icmp_alias : Word (codes "ICMP")
    icmp_alias = (refl, (refl, (refl, (refl, tt))))

    tcp_word : Word (codes "tcp")
    tcp_word = (refl, (refl, (refl, tt)))

    tcp_alias : Word (codes "TCP")
    tcp_alias = (refl, (refl, (refl, tt)))

tcp_declared : declared protocols_file (λ j. none) (pos 6) ≡ some (codes "tcp")
tcp_declared = refl

short_secret : encryption (0 ∷ 1 ∷ 2 ∷ []) (codes "ab") ≡ codes "ABCc`"
unfolding encryption
short_secret = refl

unshift-encryption_example :
    unshift true
      (drop 10 (encryption (0 ∷ 1 ∷ 2 ∷ 3 ∷ 4 ∷ 5 ∷ 6 ∷ 7 ∷ 8 ∷ 47 ∷ []) (codes "admin")))
    ≡ codes "admin"
unshift-encryption_example =
    unshift-encryption (0 ∷ 1 ∷ 2 ∷ 3 ∷ 4 ∷ 5 ∷ 6 ∷ 7 ∷ 8 ∷ 47 ∷ []) (codes "admin") refl
      (omega arith) (omega arith)
