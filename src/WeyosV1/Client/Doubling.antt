-- ===== src/WeyosV1/Client/Doubling.antt =====
-- What the requests of weyos/v1/weyos.go do to the client's lists, and what they send.
use kit_go.Common.{
  ◌≡◌, refl, ap, ◌∙◌, true, List, [], ◌∷◌, ◌++◌, All, Str, codes, ℕ, ◌<◌, map, join, arith, zero,
  suc,
}
use kit_go.Common.Maps.{insert}
use kit_go.WeyosV1.Struct.{DNat}
use kit_go.WeyosV1.Codec.{mk_dnat, marshal_dnat, snat_map_loop}
use kit_go.WeyosV1.Codec.RoundTrip.{
  IsClean, dnat_pieces, mk_dnat-dnat_pieces, unmarshal_dnat-marshal_dnat,
}
use kit_go.WeyosV1.Records.{d_natfrom, d_nat_string}
use kit_go.WeyosV1.Client.{
  Arp, Router, Client, fetch_rule_dnat, dnat_params, set_rule_dnat, bind_mac, arp_map,
}

abbrev pub Ascii : Str → Type 0
Ascii = All (λ c. c < 128)

-- What the router does with rules that are ASCII, which GB2312 writes as they are: it answers them
-- back.
pub record KeepsRules (r : Router) : Type 0 where
  pub kept :
      (s : Str) (d : r.Device)
      → Ascii s
      → r.portforward (
          r.nat_base_asp
            (insert
              (codes "exec_service")
              (codes "firewall-restart")
              (insert (codes "portforward") (r.string_gb2312 s) []))
            d)
        ≡ s

All-append {ℓ κ} :
    {A : Type ℓ} (P : A → Type κ) (xs ys : List A) → All P xs → All P ys → All P (xs ++ ys)
All-append P [] ys h k = k
All-append P (x ∷ xs) ys h k = (h.0, All-append P xs ys h.1 k)

All-join {κ} :
    (P : ℕ → Type κ) (sep : Str) (xs : List Str) → All P sep → All (All P) xs → All P (join sep xs)
All-join P sep [] h k = tt
All-join P sep (x ∷ []) h k = k.0
All-join P sep (x ∷ y ∷ r) h k =
    All-append P x (sep ++ join sep (y ∷ r)) k.0
      (All-append P sep (join sep (y ∷ r)) h (All-join P sep (y ∷ r) h k.1))

-- A rule whose fields are ASCII.
abbrev pub IsAscii : DNat → Type 0
IsAscii e = All Ascii (dnat_pieces e)

texts-Ascii : (es : List DNat) → All IsAscii es → All Ascii (map mk_dnat es)
texts-Ascii [] h = tt
texts-Ascii (e ∷ es) h = (
  rw (mk_dnat-dnat_pieces e)
      (All-join (λ c. c < 128) (codes "<") (dnat_pieces e) (omega arith) h.0),
  texts-Ascii es h.1,
)

marshal_dnat-Ascii : (es : List DNat) → All IsAscii es → Ascii (marshal_dnat es)
unfolding marshal_dnat
marshal_dnat-Ascii [] h = tt
marshal_dnat-Ascii (e ∷ es) h =
    All-join (λ c. c < 128) (codes ">") (map mk_dnat (e ∷ es)) (omega arith)
      (texts-Ascii (e ∷ es) h)

-- `n` times the list after itself.
abbrev pub doubled : ℕ → List DNat → List DNat
doubled zero l = l
doubled (suc n) l = doubled n (l ++ l)

module _ (r : Router) where
  unfoldable pub set_times : ℕ → Client r.Device → Client r.Device
  unfolding set_rule_dnat
  set_times zero c = c
  set_times (suc n) c = set_times n (set_rule_dnat r c)

  module _ (keeps : KeepsRules r) where
    set_rule_dnat_doubles :
        (c : Client r.Device)
        → All IsClean c.nat.d_nats
        → All IsAscii c.nat.d_nats
        → (set_rule_dnat r c).nat.d_nats ≡ c.nat.d_nats ++ c.nat.d_nats
    unfolding set_rule_dnat fetch_rule_dnat dnat_params d_natfrom d_nat_string
    set_rule_dnat_doubles c h a =
        rw (keeps.kept (marshal_dnat c.nat.d_nats) c.device (marshal_dnat-Ascii c.nat.d_nats a))
          (unmarshal_dnat-marshal_dnat c.nat.d_nats c.nat.d_nats h)

    -- With a router that keeps the ASCII rules it is sent, and ASCII rules whose fields hold
    -- neither separator: each `SetRuleDnat` appends the client's list to itself, so that `n` calls
    -- in a row double it `n` times.
    pub set_times_doubles :
        (n : ℕ) (c : Client r.Device)
        → All IsClean c.nat.d_nats
        → All IsAscii c.nat.d_nats
        → (set_times n c).nat.d_nats ≡ doubled n c.nat.d_nats
    unfolding set_times
    set_times_doubles zero c h a = refl
    set_times_doubles (suc n) c h a =
        let once = set_rule_dnat_doubles c h a in
        set_times_doubles n (set_rule_dnat r c)
          (rw once (All-append IsClean c.nat.d_nats c.nat.d_nats h h))
          (rw once (All-append IsAscii c.nat.d_nats c.nat.d_nats a a))
        ∙ ap (doubled n) once

  -- `BindMac` sends nothing of the entry: for any two entries the device is asked the same.
  pub bind_mac_blind :
      (e e' : Arp) (oldip action : Str) (c : Client r.Device)
      → (arp_map r e true ≡ []) × (bind_mac r e oldip action c ≡ bind_mac r e' oldip action c)
  unfolding bind_mac arp_map snat_map_loop
  bind_mac_blind e e' oldip action c = (refl, refl)
