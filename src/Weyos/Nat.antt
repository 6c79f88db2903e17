-- ===== src/Weyos/Nat.antt =====
-- weyos/nat.go: ports, addresses, interfaces and the lookup of rules.
pub mod Lists
pub mod Ports
use kit_go.Common.{
  ℕ, zero, suc, ◌+◌, ◌==◌, Bool, true, false, ◌&&◌, ◌||◌, Option, none, some, List, [], ◌∷◌, ◌++◌,
  if◌then◌else◌, is_empty, find, Str, codes, str_eq, join, ℤ, pos, negsuc, int_eq, ltb_ℤ, show_ℤ,
}

-- `port`.
pub record Port : Type 0 where
  pub start : ℤ
  pub end : ℤ

abbrev pub new_port : ℤ → ℤ → Port
new_port start end = record { start = start; end = end }

abbrev pub is_zero : ℤ → Bool
is_zero z = int_eq z (pos 0)

-- The end that `parseProto` gives to a port: the two tests that it makes in turn.
unfoldable pub port_end : Port → ℤ
port_end p =
    let end = if is_zero p.end then p.start else p.end in
    if is_zero end || ltb_ℤ end p.start then p.start else end

port_text : Port → Str
unfolding port_end
port_text p =
    let end = port_end p in
    if is_zero end then codes ":" else codes ":" ++ (show_ℤ p.start ++ (codes "-" ++ show_ℤ end))

unfoldable pub parse_proto : Str → Port → Port → Str
unfolding port_text
parse_proto perfix src dst = perfix ++ (port_text src ++ port_text dst)

unfoldable pub new_dnat_port : Port → Str
new_dnat_port p =
    if int_eq p.start p.end
    then show_ℤ p.start
    else (if ltb_ℤ p.end p.start then [] else show_ℤ p.start ++ (codes ":" ++ show_ℤ p.end))

-- The loops of `NewIpaddr` and `NewWan`: empty entries are passed over, and a comma is written
-- before every other entry that is not the first of the list.
unfoldable pub comma_loop : (Str → Str) → ℕ → List Str → Str
comma_loop text i [] = []
comma_loop text i (p ∷ ps) =
    let rest = comma_loop text (i + 1) ps in
    let comma = if i == 0 then [] else codes "," in
    if is_empty p then rest else comma ++ (text p ++ rest)

abbrev pub wan_text : Str → Str
wan_text p = codes "WAN" ++ p

unfoldable pub new_wan : List Str → Str
unfolding comma_loop
new_wan iface = comma_loop wan_text 0 iface

unfoldable pub new_ipaddr : List Str → List Str → Str
unfolding comma_loop
new_ipaddr sip iprange =
    let ips = join (codes ",") sip in
    let s = comma_loop (λ p. p) 0 iprange in if is_empty s then ips else ips ++ (codes "," ++ s)

unfoldable pub new_snat_proto : List Str → List Str → Str
new_snat_proto dst_ips protos =
    let text =
      codes "0>"
      ++ (join (codes ",") dst_ips ++ (codes ">" ++ (join (codes ",") protos ++ codes ">>0"))) in
    if is_empty dst_ips && is_empty protos then [] else text

-- `NewIpRange`, with package netip's addresses: `ParseAddr`, `Compare` and `String`.
unfoldable pub new_ip_range : {A : Type 0} → (Str → A) → (A → A → ℤ) → (A → Str) → Str → Str → Str
new_ip_range parse_addr compare string start end =
    let sip = parse_addr start in
    let eip = parse_addr end in
    let i = compare sip eip in
    if int_eq i (pos 1) || is_zero i then [] else string sip ++ (codes "-" ++ string eip)

pub record DNat : Type 0 where
  pub name : Str
  pub wan_interface : Str
  pub src_ips : Str
  pub src_ports : Str
  pub lan_ip : Str
  pub lan_ports : Str
  pub status : ℤ
  pub protocol : Str

pub record SNat : Type 0 where
  pub name : Str
  pub protocol : Str
  pub lan_ips : Str
  pub log_enabled : ℤ
  pub status : ℤ
  pub failovered : Str
  pub priority : ℤ
  pub wan_interface : Str
  pub schedule : Str
  pub app_protocol : Str
  pub thdtype : Str
  pub thd : Str

-- `nat`.
pub record NatRules : Type 0 where
  pub d_nats : List DNat
  pub s_nats : List SNat

-- The first rule of that name; `none` is the nil pointer.
unfoldable pub find_snat : Str → NatRules → Option SNat
find_snat id n = find (λ s. str_eq s.name id) n.s_nats

unfoldable pub find_dnat : Str → NatRules → Option DNat
find_dnat id n = find (λ s. str_eq s.name id) n.d_nats
