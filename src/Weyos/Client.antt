-- ===== src/Weyos/Client.antt =====
-- weyos/weyos.go: the client's copy of the router's rules, and the requests that change them.
pub mod Fetches
pub mod Rules
use kit_go.Common.{
  ℕ, Bool, true, false, Option, none, some, List, [], ◌∷◌, if◌then◌else◌, is_empty, find, Str,
  codes, str_eq, ℤ, pos, ◌>>=◌,
}
use kit_go.Weyos.Nat.{SNat, DNat, NatRules, is_zero, find_snat, find_dnat}

-- `sNatOpt` and `dNatOpt`; the rule is `none` where the pointer is nil.
pub record SNatOpt : Type 0 where
  pub rule : Option SNat
  pub id : Str
  pub action : Str
  pub del_list : List Str

pub record DNatOpt : Type 0 where
  pub rule : Option DNat
  pub id : Str
  pub action : Str
  pub del_list : List Str

-- The answer to a GET: the error text and the list of rules.
pub record Answer (A : Type 0) : Type 0 where
  pub error : Str
  pub all : List A

-- The router, and the libraries between it and the client: the answer to each GET (`none` where
-- the request fails, which leaves the result at its zero values), what each POST of a body does
-- to the device, the JSON encoder, and the conversion of a body to GB18030.
pub record Router : Type 1 where
  pub Device : Type 0
  pub Body : Type 0
  pub mrprot_data : Device → Option (Answer SNat)
  pub nat_base_data : Device → Option (Answer DNat)
  pub mrprot_asp : Body → Device → Device
  pub nat_base2_asp : Body → Device → Device
  pub encode_snat : SNatOpt → Body
  pub encode_dnat : DNatOpt → Body
  pub gb18030 : Body → Option Body
  pub empty_body : Body

-- `client`, beside the device that its requests reach.
pub record Client (D : Type 0) : Type 0 where
  pub device : D
  pub nat : NatRules

-- The zero values where the request fails.
abbrev pub result_of : {A : Type 0} → Option (Answer A) → Answer A
result_of none = record { error = []; all = [] }
result_of (some a) = a

-- The caller's rule after `AddSnat` has filled in what is missing.
unfoldable pub snat_defaults : SNat → SNat
snat_defaults s = record s {
  priority = if is_zero s.priority then pos 30000 else s.priority;
  schedule = if is_empty s.schedule then codes "OFF" else s.schedule;
  failovered = if is_empty s.failovered then codes "1" else s.failovered;
  thdtype = if is_empty s.thdtype then codes "0" else s.thdtype;
}

abbrev pub snat_opt : SNat → Str → Str → SNatOpt
snat_opt s id action = record { rule = some s; id = id; action = action; del_list = [] }

abbrev pub dnat_opt : DNat → Str → Str → DNatOpt
dnat_opt s id action = record { rule = some s; id = id; action = action; del_list = [] }

-- The assignment through the pointer that `FindSNat` returns: the first rule of that name.
unfoldable pub name_snat : Str → Str → List SNat → List SNat
name_snat old new [] = []
name_snat old new (s ∷ ss) =
    let rest = name_snat old new ss in
    if str_eq s.name old then record s { name = new } ∷ ss else s ∷ rest

unfoldable pub name_dnat : Str → Str → List DNat → List DNat
name_dnat old new [] = []
name_dnat old new (s ∷ ss) =
    let rest = name_dnat old new ss in
    if str_eq s.name old then record s { name = new } ∷ ss else s ∷ rest

module _ (r : Router) where
  open r use {
    Device, Body, mrprot_data, nat_base_data, mrprot_asp, nat_base2_asp, encode_snat, encode_dnat,
    gb18030, empty_body,
  }

  -- `StringGB2312`: a text that cannot be converted becomes the empty one.
  abbrev pub string_gb2312 : Option Body → Body
  string_gb2312 none = empty_body
  string_gb2312 (some b) = b

  unfoldable pub marshal_snat : SNatOpt → Body
  marshal_snat opt = string_gb2312 (gb18030 (encode_snat opt))

  unfoldable pub marshal_dnat : DNatOpt → Body
  marshal_dnat opt = string_gb2312 (gb18030 (encode_dnat opt))

  -- The client and the rules that the returned pointer reaches; `none` is nil.
  unfoldable pub fetch_snat : Client Device → Client Device × Option NatRules
  fetch_snat cli =
      let result = result_of (mrprot_data cli.device) in
      let nat = record (cli.nat) { s_nats = result.all } in
      if is_empty result.error then (record cli { nat = nat }, some nat) else (cli, none)

  unfoldable pub fetch_dnat : Client Device → Client Device × Option NatRules
  fetch_dnat cli =
      let result = result_of (nat_base_data cli.device) in
      let nat = record (cli.nat) { d_nats = result.all } in
      if is_empty result.error then (record cli { nat = nat }, some nat) else (cli, none)

  -- The POST of a request about a rule.
  unfoldable pub post_snat : SNatOpt → Client Device → Client Device
  unfolding marshal_snat
  post_snat opt cli = record cli { device = mrprot_asp (marshal_snat opt) cli.device }

  unfoldable pub post_dnat : DNatOpt → Client Device → Client Device
  unfolding marshal_dnat
  post_dnat opt cli = record cli { device = nat_base2_asp (marshal_dnat opt) cli.device }

  abbrev pub mod_snat : SNat → Option SNat → Client Device → Client Device
  mod_snat s none cli = cli
  mod_snat s (some _) cli = (fetch_snat (post_snat (snat_opt s [] (codes "mod")) cli)).0

  abbrev pub mod_dnat : DNat → Option DNat → Client Device → Client Device
  mod_dnat s none cli = cli
  mod_dnat s (some _) cli = (fetch_dnat (post_dnat (dnat_opt s [] (codes "mod")) cli)).0

  -- `none` is the panic on the nil pointer.
  unfoldable pub set_snat : SNat → Client Device → Option (Client Device)
  unfolding fetch_snat post_snat
  set_snat s cli =
      let fetched = fetch_snat cli in
      fetched.1 >>= λ rules. some (mod_snat s (find_snat s.name rules) fetched.0)

  unfoldable pub set_dnat : DNat → Client Device → Option (Client Device)
  unfolding fetch_dnat post_dnat
  set_dnat s cli =
      let fetched = fetch_dnat cli in
      fetched.1 >>= λ rules. some (mod_dnat s (find_dnat s.name rules) fetched.0)

  -- The caller's rule, which is changed in place, and the client.
  unfoldable pub add_snat : SNat → Client Device → SNat × Client Device
  unfolding fetch_snat post_snat snat_defaults
  add_snat s cli =
      let s' = snat_defaults s in
      if is_empty s.name
      then (s, cli)
      else (s', (fetch_snat (post_snat (snat_opt s' [] (codes "add")) cli)).0)

  -- `AddDnat`, which fetches the other list in the end.
  unfoldable pub add_dnat : DNat → Client Device → Client Device
  unfolding fetch_snat post_dnat
  add_dnat d cli =
      if is_empty d.name
      then cli
      else (if is_empty d.lan_ip
          then cli
          else (if is_empty d.lan_ports
              then cli
              else (if is_empty d.src_ports
                  then cli
                  else (fetch_snat (post_dnat (dnat_opt d [] (codes "add")) cli)).0)))

  unfoldable pub del_snat : List Str → Client Device → Client Device
  unfolding fetch_snat post_snat
  del_snat s cli =
      let opt : SNatOpt = record { rule = none; id = []; action = codes "del"; del_list = s } in
      (fetch_snat (post_snat opt cli)).0

  unfoldable pub del_dnat : List Str → Client Device → Client Device
  unfolding fetch_dnat post_dnat
  del_dnat s cli =
      let opt : DNatOpt = record { rule = none; id = []; action = codes "del"; del_list = s } in
      (fetch_dnat (post_dnat opt cli)).0

  -- What follows the two lookups of `RenameSnat`.
  abbrev pub send_snat_name : Str → Str → Option SNat → Option SNat → Client Device → Client Device
  send_snat_name old new none _ cli = cli
  send_snat_name old new (some _) (some _) cli = cli
  send_snat_name old new (some s) none cli =
      let nat = record (cli.nat) { s_nats = name_snat old new (cli.nat).s_nats } in
      let opt = snat_opt (record s { name = new }) old (codes "mod") in
      (fetch_snat (post_snat opt (record cli { nat = nat }))).0

  unfoldable pub rename_snat : Str → Str → Client Device → Option (Client Device)
  unfolding fetch_snat post_snat name_snat
  rename_snat old new cli =
      let fetched = fetch_snat cli in
      fetched.1 >>= λ rules.
      some (send_snat_name old new (find_snat old rules) (find_snat new rules) fetched.0)

  abbrev pub send_dnat_name : Str → Str → Option DNat → Option DNat → Client Device → Client Device
  send_dnat_name old new none _ cli = cli
  send_dnat_name old new (some _) (some _) cli = cli
  send_dnat_name old new (some s) none cli =
      let nat = record (cli.nat) { d_nats = name_dnat old new (cli.nat).d_nats } in
      let opt = dnat_opt (record s { name = new }) old (codes "mod") in
      (fetch_dnat (post_dnat opt (record cli { nat = nat }))).0

  unfoldable pub rename_dnat : Str → Str → Client Device → Option (Client Device)
  unfolding fetch_dnat post_dnat name_dnat
  rename_dnat old new cli =
      let fetched = fetch_dnat cli in
      fetched.1 >>= λ rules.
      some (send_dnat_name old new (find_dnat old rules) (find_dnat new rules) fetched.0)
