-- ===== src/Ipam/Store/Shared.antt =====
-- What `Reserve` of ipam/etcd.go promises of an address, over a store that works.
use kit_go.Common.{
  ◌≡◌, refl, ◌∙◌, ap, true, false, Option, none, some, [], ◌∷◌, if◌then◌else◌, Str, str_eq,
  str_eq_refl,
}
use kit_go.Ipam.Store.{
  Etcd, Addresses, id_path, last_path, last_put, put_last, reserve, ip_list, ips_of, get_by_id,
}

-- A put has no error, and changes the value of its key.
pub record EtcdLaws {W : Type 0} (etcd : Etcd W) : Type 0 where
  pub put_law : (k v : Str) (w : W) → (etcd.put k v w).1 ≡ none
  pub get_law :
      (k j v : Str) (w : W)
      → etcd.get j ((etcd.put k v w).0) ≡ (if str_eq k j then some (some v) else etcd.get j w)

module _ {W IP : Type 0} (etcd : Etcd W) (net : Addresses IP) (prefix : Str)
    (laws : EtcdLaws etcd) where
  open laws use {put_law, get_law}

  last_put-none : (r : W × Option Str) → r.1 ≡ none → last_put etcd net prefix r ≡ (r.0, true, none)
  last_put-none (w, none) h = refl
  last_put-none (w, some e) h = cc

  put_last-none :
      (range_id : Str) (ip : IP) (r : W × Option Str)
      → r.1 ≡ none
      → put_last etcd net prefix range_id ip r
        ≡ ((etcd.put (last_path etcd net prefix range_id) (net.string ip) (r.0)).0, true, none)
  put_last-none range_id ip (w, none) h =
      last_put-none (etcd.put (last_path etcd net prefix range_id) (net.string ip) w)
        (put_law (last_path etcd net prefix range_id) (net.string ip) w)
  put_last-none range_id ip (w, some e) h = cc

  reserve-true :
      (id ifname : Str) (ip : IP) (range_id : Str) (w : W)
      → reserve etcd net prefix id ifname ip range_id w ≡ (
        (etcd.put
            (last_path etcd net prefix range_id)
            (net.string ip)
            ((etcd.put (id_path etcd net prefix id ifname) (net.string ip) w).0)).0,
        true,
        none,
      )
  unfolding reserve
  reserve-true id ifname ip range_id w =
      put_last-none range_id ip (etcd.put (id_path etcd net prefix id ifname) (net.string ip) w)
        (put_law (id_path etcd net prefix id ifname) (net.string ip) w)

  get-reserve :
      (id ifname : Str) (ip : IP) (range_id : Str) (w : W) (j : Str)
      → str_eq (last_path etcd net prefix range_id) j ≡ false
      → etcd.get j ((reserve etcd net prefix id ifname ip range_id w).0) ≡ (
          if str_eq (id_path etcd net prefix id ifname) j
          then some (some (net.string ip))
          else etcd.get j w)
  get-reserve id ifname ip range_id w j h =
      ap (λ r. etcd.get j (r.0)) (reserve-true id ifname ip range_id w)
      ∙ get_law (last_path etcd net prefix range_id) j (net.string ip)
          ((etcd.put (id_path etcd net prefix id ifname) (net.string ip) w).0)
      ∙ rw h (get_law (id_path etcd net prefix id ifname) j (net.string ip) w)

  get_by_id_some :
      (id ifname : Str) (ip : IP) (w : W)
      → net.parse_ip (net.string ip) ≡ some ip
      → etcd.get (id_path etcd net prefix id ifname) w ≡ some (some (net.string ip))
      → get_by_id etcd net prefix id ifname w ≡ ip ∷ []
  unfolding get_by_id
  get_by_id_some id ifname ip w printed h =
      ap (ips_of etcd net prefix) h ∙ ap (ip_list etcd net prefix) printed

  -- The world after two requests for one address, of which the second is for `b`.
  abbrev pub both : Str → Str → Str → Str → IP → Str → W → W
  both a a_if b b_if ip range_id w =
      (reserve etcd net prefix b b_if ip range_id
        ((reserve etcd net prefix a a_if ip range_id w).0)).0

  -- On a store that works, where an address is read back as it was printed and the keys of the two
  -- interfaces and of the range differ, an address that one interface has reserved is reserved for a
  -- second one with the answer true, and then both hold it.
  pub reserve_twice :
      (a a_if b b_if : Str) (ip : IP) (range_id : Str) (w : W)
      → net.parse_ip (net.string ip) ≡ some ip
      → str_eq (last_path etcd net prefix range_id) (id_path etcd net prefix a a_if) ≡ false
      → str_eq (last_path etcd net prefix range_id) (id_path etcd net prefix b b_if) ≡ false
      → str_eq (id_path etcd net prefix b b_if) (id_path etcd net prefix a a_if) ≡ false
      → ((reserve etcd net prefix b b_if ip range_id
            ((reserve etcd net prefix a a_if ip range_id w).0)).1
          ≡ true)
        × (get_by_id etcd net prefix a a_if (both a a_if b b_if ip range_id w) ≡ ip ∷ [])
        × (get_by_id etcd net prefix b b_if (both a a_if b b_if ip range_id w) ≡ ip ∷ [])
  reserve_twice a a_if b b_if ip range_id w printed la lb ba =
      let w1 : W = (reserve etcd net prefix a a_if ip range_id w).0 in
      (
        ap (λ r. r.1) (reserve-true b b_if ip range_id w1),
        get_by_id_some a a_if ip (both a a_if b b_if ip range_id w) printed (
            rw
              (
                get-reserve b b_if ip range_id w1 (id_path etcd net prefix a a_if) la,
                ba,
                get-reserve a a_if ip range_id w (id_path etcd net prefix a a_if) la,
                str_eq_refl (id_path etcd net prefix a a_if),
              )
              refl),
        get_by_id_some b b_if ip (both a a_if b b_if ip range_id w) printed (
            rw
              (
                get-reserve b b_if ip range_id w1 (id_path etcd net prefix b b_if) lb,
                str_eq_refl (id_path etcd net prefix b b_if),
              )
              refl),
      )
