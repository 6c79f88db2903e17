-- ===== src/Ipam/Outside.antt =====
-- What `Static` of ipam/ipam.go does with an address that is outside the range.
use kit_go.Common.{◌≡◌, refl, ap, false, none, List, [], ◌∷◌, Str, arith}
use kit_go.Ipam.Store.{Etcd, Addresses, Methods, release_by_id}
use kit_go.Ipam.{
  Answer, granted, refused, Allocator, store, release_left, allocated, alloc_ip, result_of, dhcp,
  static,
}

-- The release of the allocator passes the call on to the store.
pub record ReleaseLaw {W IP Config : Type 0} (a : Allocator W IP Config) : Type 0 where
  pub release_law :
      (s : Methods W IP) (id if_name : Str) (w : W)
      → a.release s id if_name w ≡ s.release_by_id id if_name w

module _ {W IP Config : Type 0} (etcd : Etcd W) (net : Addresses IP) (prefix : Str)
    (a : Allocator W IP Config) (law : ReleaseLaw a) where
  release_left-nothing :
      (id if_name : Str) (ip : List Str) (w : W)
      → release_left etcd net prefix a id if_name ip w ≡ w
  unfolding release_by_id
  release_left-nothing id if_name ip w =
      ground (arith, law.release_law (store etcd net prefix a) id if_name w)

  allocated_same :
      (id if_name : Str) (ip ip' : List Str) (r : W × Answer Config)
      → allocated etcd net prefix a id if_name ip r ≡ allocated etcd net prefix a id if_name ip' r
  allocated_same id if_name ip ip' (w, granted c) =
      rw (release_left-nothing id if_name ip w, release_left-nothing id if_name ip' w) refl
  allocated_same id if_name ip ip' (w, refused e) =
      rw (release_left-nothing id if_name ip w, release_left-nothing id if_name ip' w) refl

  -- With an allocator that passes a release on to the store: a request for an address that the
  -- range does not have is answered, and changes the store, as one for any address. `Static` then
  -- does what `Dhcp` does, and releases nothing.
  pub static_outside :
      (id if_name ip : Str) (w : W)
      → a.contains (net.parse_ip ip) ≡ false
      → static etcd net prefix a id if_name ip w ≡ dhcp etcd net prefix a id if_name w
  unfolding static dhcp alloc_ip
  static_outside id if_name ip w h = rw h (
      ap (result_of etcd net prefix a) (
        allocated_same id if_name (ip ∷ []) [] (a.get (store etcd net prefix a) id if_name none w)))
