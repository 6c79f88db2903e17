-- ===== src/WeyosV1/ClientTests.antt =====
-- Runs of weyos/v1/weyos.go with a router that keeps its rules as a text, and the client's
-- theorems at concrete inputs.
use kit_go.Common.{◌≡◌, refl, ◌∷◌, [], Option, none, some, Str, itoa, codes, split, arith, true}
use kit_go.Common.Maps.{lookup}
use kit_go.WeyosV1.Struct.{DNat}
use kit_go.WeyosV1.Codec.RoundTrip.{IsClean}
use kit_go.WeyosV1.Client.{Arp, Router, Client, bind_mac, arp_map}
use kit_go.WeyosV1.Client.Doubling.{
  KeepsRules, IsAscii, set_times, set_times_doubles, bind_mac_blind,
}
use kit_go.WeyosV1.Traffic.{ip_text, compose, compose-ip_text}

abbrev sent_rules : Option Str → Str
sent_rules none = []
sent_rules (some s) = s

abbrev text_router : Router
text_router = record {
  Device = Str;
  portforward = λ d. d;
  mrprot_data = λ d. [];
  arp_list = λ d. [];
  nat_base_asp = λ q d. sent_rules (lookup (codes "portforward") q);
  mrprot_asp = λ q d. d;
  arp_static_asp = λ q d. d;
  string_gb2312 = λ s. s;
}

text_router-KeepsRules : KeepsRules text_router
text_router-KeepsRules = record { kept = λ s d a. refl }

abbrev web : DNat
web = record {
  name = codes "web";
  status = codes "1";
  protocol = codes "tcp";
  lan_port = codes "80";
  lan_ip = codes "10.0.0.2";
  wan_ips = [];
  wan_port = codes "8080";
  wan_interface = codes "wan1";
}

abbrev one_web : Client Str
one_web = record { device = []; nat = record { d_nats = web ∷ []; s_nats = [] }; entrys = [] }

web-IsClean : IsClean web
web-IsClean = omega arith

web-IsAscii : IsAscii web
web-IsAscii = omega arith

set_times_doubles_example :
    (set_times text_router 2 one_web).nat.d_nats ≡ web ∷ web ∷ web ∷ web ∷ []
set_times_doubles_example =
    set_times_doubles text_router text_router-KeepsRules 2 one_web (web-IsClean, tt)
      (web-IsAscii, tt)

abbrev arp_of : Str → Arp
arp_of ip = record {
  name = codes "pc";
  iface = codes "lan";
  mac = codes "00:11:22:33:44:55";
  ip = ip;
  ip_uint = codes "1";
  no_num = codes "0";
  ttype = codes "1";
  status = codes "1";
}

bind_mac_blind_run :
    (arp_map text_router (arp_of (codes "10.0.0.9")) true ≡ [])
    × (bind_mac text_router (arp_of (codes "10.0.0.9")) [] (codes "add") one_web
        ≡ bind_mac text_router (arp_of (codes "10.0.0.8")) [] (codes "add") one_web)
bind_mac_blind_run =
    bind_mac_blind text_router (arp_of (codes "10.0.0.9")) (arp_of (codes "10.0.0.8")) []
      (codes "add") one_web

local_ip : ip_text 3232235777 ≡ codes "192.168.1.1"
unfolding ip_text itoa
local_ip = refl

compose-ip_text_example : compose 0 (split b'.' (ip_text 3232235777)) ≡ 3232235777
compose-ip_text_example = compose-ip_text 3232235777 (omega arith)
