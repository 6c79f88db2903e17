-- ===== src/Ipam/Tests.antt =====
-- Runs of ipam/, and its theorems at concrete inputs.
use kit_go.Common.{
  ◌≡◌, refl, Option, none, some, [], ◌∷◌, Str, codes, true, str_eq, if◌then◌else◌, Bool-cases, inl,
  inr, Bool, false,
}
use kit_go.Ipam.{granted, Allocator, dhcp, static}
use kit_go.Ipam.Outside.{ReleaseLaw, static_outside}
use kit_go.Ipam.Store.{Etcd, Addresses, reserve, get_by_id, release_by_id}
use kit_go.Ipam.Store.Shared.{EtcdLaws, both, reserve_twice}

abbrev far_ip : Str
far_ip = codes "192.168.1.1"

-- A store that is a function of its keys, and addresses that are their own text.
abbrev keys : Etcd (Str → Option Str)
keys = record {
  get = λ k w. some (w k);
  put = λ k v w. ((λ j. if str_eq k j then some v else w j), none);
}

abbrev texts : Addresses Str
texts = record { parse_ip = λ s. some s; string = λ s. s }

keys_laws : EtcdLaws keys
keys_laws = record { put_law = λ k v w. refl; get_law = found }
  where
    found :
        (k j v : Str) (w : Str → Option Str)
        → keys.get j ((keys.put k v w).0) ≡ (if str_eq k j then some (some v) else keys.get j w)
    found k j v w = elim (Bool-cases (str_eq k j)) [ inl t ↦ rw t refl | inr f ↦ rw f refl ]

abbrev no_keys : Str → Option Str
no_keys _ = none

reserve_twice_example :
    ((reserve keys texts []
        (codes "b")
        (codes "eth0")
        far_ip
        (codes "0")
        ((reserve keys texts [] (codes "a") (codes "eth0") far_ip (codes "0") no_keys).0)).1
      ≡ true)
    × (get_by_id keys texts [] (codes "a") (codes "eth0") (
          both keys texts [] keys_laws
            (codes "a")
            (codes "eth0")
            (codes "b")
            (codes "eth0")
            far_ip
            (codes "0")
            no_keys)
        ≡ far_ip ∷ [])
    × (get_by_id keys texts [] (codes "b") (codes "eth0") (
          both keys texts [] keys_laws
            (codes "a")
            (codes "eth0")
            (codes "b")
            (codes "eth0")
            far_ip
            (codes "0")
            no_keys)
        ≡ far_ip ∷ [])
reserve_twice_example =
    reserve_twice keys texts [] keys_laws (codes "a") (codes "eth0") (codes "b") (codes "eth0")
      far_ip (codes "0") no_keys refl refl refl refl

abbrev first_ip : Str
first_ip = codes "10.0.0.1"

abbrev in_range : Option Str → Bool
in_range none = false
in_range (some ip) = str_eq ip first_ip

-- An allocator whose range has one address, which it reserves.
abbrev one_ip : Allocator (Str → Option Str) Str Str
one_ip = record {
  contains = in_range;
  get = λ s id if_name ip w. ((s.reserve id if_name first_ip (codes "0") w).0, granted first_ip);
  release = λ s id if_name w. s.release_by_id id if_name w;
  config_for = λ ip. some ip;
}

one_ip-ReleaseLaw : ReleaseLaw one_ip
one_ip-ReleaseLaw = record { release_law = λ s id if_name w. refl }

static_outside_example :
    static keys texts [] one_ip (codes "c1") (codes "eth0") far_ip no_keys
    ≡ dhcp keys texts [] one_ip (codes "c1") (codes "eth0") no_keys
static_outside_example =
    static_outside keys texts [] one_ip one_ip-ReleaseLaw (codes "c1") (codes "eth0") far_ip no_keys
      refl

-- Another address than the one that was asked for is returned, and is reserved.
other_returned :
    (static keys texts [] one_ip (codes "c1") (codes "eth0") far_ip no_keys).1 ≡ some first_ip
unfolding static
other_returned = refl

stays_reserved :
    get_by_id keys texts []
      (codes "c1")
      (codes "eth0")
      ((static keys texts [] one_ip (codes "c1") (codes "eth0") far_ip no_keys).0)
    ≡ first_ip ∷ []
unfolding static get_by_id reserve release_by_id
stays_reserved = refl
