-- ===== src/WeyosV1/Client.antt =====
-- weyos/v1/weyos.go and weyos/v1/arp.go: the requests of the client about rules and addresses.
pub mod Doubling
use kit_go.Common.{Bool, true, false, List, [], ◌∷◌, if◌then◌else◌, Str, codes, str_eq}
use kit_go.Common.Maps.{insert}
use kit_go.WeyosV1.Struct.{SNat, Fields}
use kit_go.WeyosV1.Codec.{snat_map_loop, snat_map}
use kit_go.WeyosV1.Records.{NatTable, d_natfrom, s_natfrom, d_nat_string}

pub record Arp : Type 0 where
  pub name : Str
  pub iface : Str
  pub mac : Str
  pub ip : Str
  pub ip_uint : Str
  pub no_num : Str
  pub ttype : Str
  pub status : Str

-- The struct under reflection: no field has a `weyos` tag. The number's `String` is not read.
abbrev pub arp_fields : Arp → Fields
arp_fields e =
    ([], e.name)
    ∷ ([], e.iface)
    ∷ ([], e.mac)
    ∷ ([], e.ip)
    ∷ ([], e.ip_uint)
    ∷ ([], e.no_num)
    ∷ ([], e.ttype)
    ∷ ([], e.status)
    ∷ []

abbrev pub Params : Type 0
Params = List (Str × Str)

-- `SetQueryParams`: every parameter is set in turn.
abbrev pub set_query_params : Params → Params → Params
set_query_params [] q = q
set_query_params ((k, v) ∷ ps) q = set_query_params ps (insert k v q)

abbrev pub opt_modify : Str
opt_modify = codes "mod"

abbrev pub opt_add : Str
opt_add = codes "add"

abbrev pub opt_delete : Str
opt_delete = codes "del"

-- The router: the texts and the list that it answers, decoded from GBK, and what its pages do with
-- the parameters of a request; and the conversion to GB2312.
pub record Router : Type 1 where
  pub Device : Type 0
  pub portforward : Device → Str
  pub mrprot_data : Device → Str
  pub arp_list : Device → List Arp
  pub nat_base_asp : Params → Device → Device
  pub mrprot_asp : Params → Device → Device
  pub arp_static_asp : Params → Device → Device
  pub string_gb2312 : Str → Str

-- `client`, beside the device that its requests reach.
pub record Client (D : Type 0) : Type 0 where
  pub device : D
  pub nat : NatTable
  pub entrys : List Arp

module _ (r : Router) where
  open r use {
    Device, portforward, mrprot_data, arp_list, nat_base_asp, mrprot_asp, arp_static_asp,
    string_gb2312,
  }

  unfoldable pub fetch_rule_dnat : Client Device → Client Device
  fetch_rule_dnat c = record c { nat = d_natfrom (portforward c.device) c.nat }

  unfoldable pub fetch_rule_snat : Client Device → Client Device
  fetch_rule_snat c = record c { nat = s_natfrom (mrprot_data c.device) c.nat }

  unfoldable pub dnat_params : Client Device → Params
  dnat_params c =
      insert (codes "exec_service") (codes "firewall-restart")
        (insert (codes "portforward") (d_nat_string string_gb2312 true c.nat) [])

  unfoldable pub set_rule_dnat : Client Device → Client Device
  unfolding fetch_rule_dnat dnat_params
  set_rule_dnat c = fetch_rule_dnat (record c { device = nat_base_asp (dnat_params c) c.device })

  -- The switch of `SetRuleSNat`; another action sends nothing.
  unfoldable pub send_snat : SNat → Str → Str → Device → Device
  send_snat entry oldname action d =
      let all = set_query_params (snat_map string_gb2312 entry true) [] in
      let opt = codes "opt" in
      if str_eq action opt_add
      then mrprot_asp (insert opt action all) d
      else (if str_eq action opt_modify
          then mrprot_asp (insert opt action (insert (codes "old_name") oldname all)) d
          else (if str_eq action opt_delete
              then mrprot_asp (insert opt action (insert (codes "name") oldname [])) d
              else d))

  unfoldable pub set_rule_snat : SNat → Str → Str → Client Device → Client Device
  unfolding fetch_rule_snat send_snat
  set_rule_snat entry oldname action c =
      fetch_rule_snat (record c { device = send_snat entry oldname action c.device })

  unfoldable pub fetch_list_arp : Client Device → Client Device
  fetch_list_arp c = record c { entrys = arp_list c.device }

  -- `Arp.Map`, the loop of `SNat.Map` over the fields of an `Arp`.
  unfoldable pub arp_map : Arp → Bool → Params
  arp_map e gb2312 = snat_map_loop string_gb2312 gb2312 (arp_fields e)

  unfoldable pub bind_mac : Arp → Str → Str → Client Device → Client Device
  unfolding arp_map
  bind_mac entry oldip action c =
      let all = set_query_params (arp_map entry true) [] in
      let opt = codes "opt" in
      if str_eq action opt_add
      then record c { device = arp_static_asp (insert opt action all) c.device }
      else (if str_eq action opt_modify
          then record c {
            device =
                arp_static_asp (insert opt action (insert (codes "old_ip") oldip all)) c.device;
          }
          else (if str_eq action opt_delete
              then record c { device = arp_static_asp (insert opt action all) c.device }
              else c))
