-- ===== src/Ipam.antt =====
-- ipam/ipam.go: the allocation of an address. The allocator of the host-local plugin with its range
-- set, the client of etcd and package net are parameters, over a world `W` that they change; `IP`
-- and `Config` are their addresses and configurations, and a nil address is `none`.
pub mod Outside
pub mod Store
mod Tests
use kit_go.Common.{
  Bool, true, false, not, Option, none, some, List, [], ◌∷◌, ◌++◌, if◌then◌else◌, Str, codes,
}
use kit_go.Common.Replace.{has_text}
use kit_go.Ipam.Store.{Etcd, Addresses, Methods, methods, get_by_id}

pub data Answer (C : Type 0) : Type 0 where
  granted : C → Answer C
  refused : Str → Answer C

-- The range set and the allocator, which calls the store. `config_for` is the configuration of an
-- address with the mask and the gateway of its range; `none` where no range has it.
pub record Allocator (W IP Config : Type 0) : Type 0 where
  pub contains : Option IP → Bool
  pub get : Methods W IP → Str → Str → Option IP → W → W × Answer Config
  pub release : Methods W IP → Str → Str → W → W × Option Str
  pub config_for : IP → Option Config

-- The text by which the allocator says that the container has an address already.
abbrev pub duplicate_text : Str → Str
duplicate_text id =
    codes "has been allocated to " ++ (id ++ codes ", duplicate allocation is not allowed")

module _ {W IP Config : Type 0} (etcd : Etcd W) (net : Addresses IP) (prefix : Str)
    (a : Allocator W IP Config) where
  open net use {parse_ip}
  open a use {contains, get, release, config_for}

  abbrev pub store : Methods W IP
  store = methods etcd net prefix

  -- The address that is asked for, where the range has it.
  abbrev pub requested_ip : List Str → Option IP
  requested_ip (ip ∷ []) = if contains (parse_ip ip) then parse_ip ip else none
  requested_ip _ = none

  -- Whether `requestedIPs` is not empty after the loop over it.
  abbrev pub is_left : List Str → Bool
  is_left (ip ∷ []) = not (contains (parse_ip ip))
  is_left _ = false

  -- The configuration of the last of the addresses that has one.
  abbrev pub last_config : Option Config → List IP → Option Config
  last_config conf [] = conf
  last_config conf (ip ∷ ips) = elim (config_for ip) [
    | none ↦ last_config conf ips
    | some c ↦ last_config (some c) ips
  ]

  abbrev pub release_left : Str → Str → List Str → W → W
  release_left id if_name ip w = if is_left ip then (release store id if_name w).0 else w

  abbrev pub allocated : Str → Str → List Str → W × Answer Config → W × Answer (Option Config)
  allocated id if_name ip (w, granted c) = (release_left id if_name ip w, granted (some c))
  allocated id if_name ip (w, refused e) =
      let conf = last_config none (get_by_id etcd net prefix id if_name w) in
      if has_text e (duplicate_text id)
      then (release_left id if_name ip w, granted conf)
      else (w, refused (codes "failed to allocate for range 0: " ++ e))

  unfoldable pub alloc_ip : Str → Str → List Str → W → W × Answer (Option Config)
  alloc_ip id if_name ip w = allocated id if_name ip (get store id if_name (requested_ip ip) w)

  -- An error gives the nil result.
  abbrev pub result_of : W × Answer (Option Config) → W × Option Config
  result_of (w, granted conf) = (w, conf)
  result_of (w, refused e) = (w, none)

  unfoldable pub dhcp : Str → Str → W → W × Option Config
  unfolding alloc_ip
  dhcp id if_name w = result_of (alloc_ip id if_name [] w)

  unfoldable pub static : Str → Str → Str → W → W × Option Config
  unfolding alloc_ip
  static id if_name ip w = result_of (alloc_ip id if_name (ip ∷ []) w)
