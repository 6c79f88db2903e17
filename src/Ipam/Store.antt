-- ===== src/Ipam/Store.antt =====
-- ipam/etcd.go: the store of reserved addresses, over the client of etcd and the texts of package
-- net's addresses as parameters.
pub mod Shared
use kit_go.Common.{Bool, true, false, Option, none, some, List, [], ◌∷◌, ◌++◌, Str, codes}

-- The client of etcd over a world `W`: an error or the value of a key, where there is one; and a
-- put with its error.
pub record Etcd (W : Type 0) : Type 0 where
  pub get : Str → W → Option (Option Str)
  pub put : Str → Str → W → W × Option Str

-- `net.ParseIP` and `String`; `none` is the nil address.
pub record Addresses (IP : Type 0) : Type 0 where
  pub parse_ip : Str → Option IP
  pub string : IP → Str

-- The interface through which the allocator calls the store.
pub record Methods (W IP : Type 0) : Type 0 where
  pub reserve : Str → Str → IP → Str → W → W × Bool × Option Str
  pub last_reserved_ip : Str → W → Option (Option IP)
  pub get_by_id : Str → Str → W → List IP
  pub release_by_id : Str → Str → W → W × Option Str

abbrev pub last_ip_prefix : Str
last_ip_prefix = codes "last_reserved_ip."

module _ {W IP : Type 0} (etcd : Etcd W) (net : Addresses IP) (prefix : Str) where
  abbrev pub id_path : Str → Str → Str
  id_path id ifname = prefix ++ (id ++ (codes "/" ++ ifname))

  abbrev pub last_path : Str → Str
  last_path range_id = prefix ++ (last_ip_prefix ++ range_id)

  -- The answer after the second put.
  abbrev pub last_put : W × Option Str → W × Bool × Option Str
  last_put (w, some e) = (w, false, some e)
  last_put (w, none) = (w, true, none)

  -- The second put, where the first has no error.
  abbrev pub put_last : Str → IP → W × Option Str → W × Bool × Option Str
  put_last range_id ip (w, some e) = (w, false, some e)
  put_last range_id ip (w, none) = last_put (etcd.put (last_path range_id) (net.string ip) w)

  unfoldable pub reserve : Str → Str → IP → Str → W → W × Bool × Option Str
  reserve id ifname ip range_id w =
      put_last range_id ip (etcd.put (id_path id ifname) (net.string ip) w)

  abbrev pub ip_list : Option IP → List IP
  ip_list none = []
  ip_list (some ip) = ip ∷ []

  abbrev pub ips_of : Option (Option Str) → List IP
  ips_of none = []
  ips_of (some none) = []
  ips_of (some (some s)) = ip_list (net.parse_ip s)

  unfoldable pub get_by_id : Str → Str → W → List IP
  get_by_id id ifname w = ips_of (etcd.get (id_path id ifname) w)

  abbrev pub last_of : Option (Option Str) → Option (Option IP)
  last_of none = none
  last_of (some none) = some none
  last_of (some (some s)) = some (net.parse_ip s)

  -- `none` is an error, and then the nil address.
  unfoldable pub last_reserved_ip : Str → W → Option (Option IP)
  last_reserved_ip range_id w = last_of (etcd.get (last_path range_id) w)

  unfoldable pub release_by_id : Str → Str → W → W × Option Str
  release_by_id id ifname w = (w, none)

  -- Only an error of the request gives false.
  abbrev pub answered : Option (Option Str) → Bool
  answered none = false
  answered (some _) = true

  unfoldable pub find_by_id : Str → Str → W → Bool
  find_by_id id ifname w = answered (etcd.get (id_path id ifname) w)

  abbrev pub methods : Methods W IP
  methods = record {
    reserve = reserve;
    last_reserved_ip = last_reserved_ip;
    get_by_id = get_by_id;
    release_by_id = release_by_id;
  }
