-- ===== src/WeyosV1/Tests.antt =====
-- Runs of weyos/v1/nat.go, and its theorems at concrete inputs.
use kit_go.Common.{◌≡◌, refl, false, none, [], ◌∷◌, arith, All, ltb, length, codes, join}
use kit_go.WeyosV1.Struct.{DNat, SNat}
use kit_go.WeyosV1.Codec.{marshal_dnat, unmarshal_dnat, unmarshal_snat}
use kit_go.WeyosV1.Codec.RoundTrip.{
  IsClean, IsCleanRecord, snat_record, unmarshal_dnat-marshal_dnat, unmarshal_snat-join,
}
use kit_go.WeyosV1.Records.{NatTable, dnat_entry, find_dnat, del_entry, d_natfrom, d_nat_string}
use kit_go.WeyosV1.Records.Laws.{Differs, filter, differs, del_entry_lem, d_natfrom-d_nat_string}

abbrev web : DNat
web = record {
  name = codes "web";
  status = codes "1";
  protocol = codes "tcp";
  lan_port = codes "80";
  lan_ip = codes "10.0.0.2";
  wan_ips = [];
  wan_port = codes "8080";
  wan_interface = codes "wan1";
}

abbrev mail : DNat
mail = record {
  name = codes "mail";
  status = codes "0";
  protocol = codes "tcp";
  lan_port = codes "25";
  lan_ip = codes "10.0.0.3";
  wan_ips = [];
  wan_port = codes "25";
  wan_interface = codes "wan2";
}

abbrev out : SNat
out = record {
  name = codes "out";
  status = codes "1";
  priority = codes "3";
  wan_interface = codes "wan1";
  protocol = [];
  lan_ips = codes "10.0.0.0/24";
  schedule = [];
  failover = codes "0";
  logging = [];
  application = [];
  thdtype = codes "2";
}

web_text : marshal_dnat (web ∷ []) ≡ codes "1<tcp<<8080<80<10.0.0.2<web<wan1"
unfolding marshal_dnat
web_text = refl

web-IsClean : IsClean web
web-IsClean = omega arith

mail-IsClean : IsClean mail
mail-IsClean = omega arith

out-IsCleanRecord : IsCleanRecord (out, [])
out-IsCleanRecord = omega arith

abbrev one_rule : NatTable
one_rule = record { d_nats = web ∷ []; s_nats = [] }

unmarshal_dnat-marshal_dnat_example :
    unmarshal_dnat (marshal_dnat (web ∷ mail ∷ [])) [] ≡ web ∷ mail ∷ []
unmarshal_dnat-marshal_dnat_example =
    unmarshal_dnat-marshal_dnat (web ∷ mail ∷ []) [] (web-IsClean, (mail-IsClean, tt))

unmarshal_snat-join_run :
    unmarshal_snat (join (codes "<") (snat_record (out, []) ∷ snat_record (out, []) ∷ [])) []
    ≡ out ∷ out ∷ []
unmarshal_snat-join_run =
    unmarshal_snat-join (out, []) ((out, []) ∷ []) [] (out-IsCleanRecord, (out-IsCleanRecord, tt))

del_entry_lem_example :
    let (rest, found) = del_entry (dnat_entry mail) one_rule in
    All (Differs mail) rest.d_nats
    × (filter (differs mail) rest.d_nats ≡ web ∷ [])
    × (find_dnat mail.name rest ≡ none)
    × (rest.s_nats ≡ [])
    × (found ≡ ltb (length rest.d_nats) 1)
del_entry_lem_example = del_entry_lem mail one_rule

nothing_called_mail : find_dnat mail.name one_rule ≡ none
unfolding find_dnat
nothing_called_mail = refl

d_natfrom-d_nat_string_run :
    d_natfrom (d_nat_string (λ s. s) false one_rule) one_rule
    ≡ record one_rule { d_nats = web ∷ web ∷ [] }
d_natfrom-d_nat_string_run = d_natfrom-d_nat_string (λ s. s) one_rule (web-IsClean, tt)
