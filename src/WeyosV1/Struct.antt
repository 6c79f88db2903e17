-- ===== src/WeyosV1/Struct.antt =====
-- The structs of weyos/v1/nat.go, and what package reflect shows of them: the fields in order,
-- each with its `weyos` tag. A tag's value is set or read by the tables of the file.
use kit_go.Common.{
  ℕ, Bool, ◌||◌, none, some, List, [], ◌∷◌, is_empty, get_elem?, Str, codes, str_eq,
}

pub record DNat : Type 0 where
  pub name : Str
  pub status : Str
  pub protocol : Str
  pub lan_port : Str
  pub lan_ip : Str
  pub wan_ips : Str
  pub wan_port : Str
  pub wan_interface : Str

pub record SNat : Type 0 where
  pub name : Str
  pub status : Str
  pub priority : Str
  pub wan_interface : Str
  pub protocol : Str
  pub lan_ips : Str
  pub schedule : Str
  pub failover : Str
  pub logging : Str
  pub application : Str
  pub thdtype : Str

-- A struct under reflection: tags and values.
abbrev pub Fields : Type 0
Fields = List (Str × Str)

abbrev pub dnat_fields : DNat → Fields
dnat_fields e =
    (codes "name", e.name)
    ∷ (codes "enabled", e.status)
    ∷ (codes "proto", e.protocol)
    ∷ (codes "to_port", e.lan_port)
    ∷ (codes "to_addr", e.lan_ip)
    ∷ (codes "src", e.wan_ips)
    ∷ (codes "dst_port", e.wan_port)
    ∷ (codes "ext_if", e.wan_interface)
    ∷ []

abbrev pub snat_fields : SNat → Fields
snat_fields e =
    (codes "name", e.name)
    ∷ (codes "enabled", e.status)
    ∷ (codes "priority", e.priority)
    ∷ (codes "out_if", e.wan_interface)
    ∷ (codes "proto", e.protocol)
    ∷ (codes "src", e.lan_ips)
    ∷ (codes "time_range", e.schedule)
    ∷ (codes "failover", e.failover)
    ∷ (codes "log_enabled", e.logging)
    ∷ (codes "service", e.application)
    ∷ (codes "thd", e.thdtype)
    ∷ []

abbrev pub zero_dnat : DNat
zero_dnat = record {
  name = [];
  status = [];
  protocol = [];
  lan_port = [];
  lan_ip = [];
  wan_ips = [];
  wan_port = [];
  wan_interface = [];
}

abbrev pub zero_snat : SNat
zero_snat = record {
  name = [];
  status = [];
  priority = [];
  wan_interface = [];
  protocol = [];
  lan_ips = [];
  schedule = [];
  failover = [];
  logging = [];
  application = [];
  thdtype = [];
}

-- The value at a place of the struct.
abbrev pub value_at : Fields → ℕ → Str
value_at fs i = elim (get_elem? fs i) [ none ↦ [] | some (tag, v) ↦ v ]

abbrev pub dnat_of : Fields → DNat
dnat_of fs = record {
  name = value_at fs 0;
  status = value_at fs 1;
  protocol = value_at fs 2;
  lan_port = value_at fs 3;
  lan_ip = value_at fs 4;
  wan_ips = value_at fs 5;
  wan_port = value_at fs 6;
  wan_interface = value_at fs 7;
}

abbrev pub snat_of : Fields → SNat
snat_of fs = record {
  name = value_at fs 0;
  status = value_at fs 1;
  priority = value_at fs 2;
  wan_interface = value_at fs 3;
  protocol = value_at fs 4;
  lan_ips = value_at fs 5;
  schedule = value_at fs 6;
  failover = value_at fs 7;
  logging = value_at fs 8;
  application = value_at fs 9;
  thdtype = value_at fs 10;
}

abbrev pub snat_tag_field : List (Str × Str)
snat_tag_field =
    (codes "name", codes "name")
    ∷ (codes "enabled", codes "en")
    ∷ (codes "src", codes "ips")
    ∷ (codes "time_range", codes "time")
    ∷ (codes "log_enabled", codes "log")
    ∷ (codes "priority", codes "rpri")
    ∷ (codes "out_if", codes "wans")
    ∷ (codes "thd", codes "thd_type")
    ∷ (codes "service", codes "shibie")
    ∷ (codes "proto", codes "ipport")
    ∷ (codes "failover", codes "no_change")
    ∷ []

abbrev pub snat_field_pos : List (Str × ℕ)
snat_field_pos =
    (codes "name", 0)
    ∷ (codes "enabled", 1)
    ∷ (codes "src", 2)
    ∷ (codes "time_range", 3)
    ∷ (codes "log_enabled", 4)
    ∷ (codes "priority", 5)
    ∷ (codes "out_if", 6)
    ∷ (codes "thd", 7)
    ∷ (codes "service", 9)
    ∷ (codes "proto", 10)
    ∷ (codes "failover", 11)
    ∷ []

abbrev pub dnat_field_pos : List (Str × ℕ)
dnat_field_pos =
    (codes "enabled", 0)
    ∷ (codes "proto", 1)
    ∷ (codes "src", 2)
    ∷ (codes "dst_port", 3)
    ∷ (codes "to_port", 4)
    ∷ (codes "to_addr", 5)
    ∷ (codes "name", 6)
    ∷ (codes "ext_if", 7)
    ∷ []

-- `tag == "" || tag == "-"`.
abbrev pub is_skipped : Str → Bool
is_skipped tag = is_empty tag || str_eq tag (codes "-")
