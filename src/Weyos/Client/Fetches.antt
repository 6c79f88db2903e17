-- ===== src/Weyos/Client/Fetches.antt =====
-- The lists that the client of weyos/weyos.go holds after its requests.
use kit_go.Common.{◌≡◌, refl, false, none, some, [], is_empty, Str, arith}
use kit_go.Weyos.Nat.{SNat, DNat, find_snat}
use kit_go.Weyos.Client.{
  Answer, Router, Client, fetch_snat, post_dnat, add_dnat, set_snat, rename_snat,
}

module _ (r : Router) (cli : Client r.Device) where
  -- A fetch of the SNAT rules whose request fails empties the client's list, and the edit of a
  -- rule or of its name then does nothing more: no request is sent, whatever rules the router has.
  pub fetch_snat_offline :
      (s : SNat) (new : Str)
      → r.mrprot_data cli.device ≡ none
      → (set_snat r s cli ≡ some (record cli { nat = record (cli.nat) { s_nats = [] } }))
        × (rename_snat r s.name new cli
            ≡ some (record cli { nat = record (cli.nat) { s_nats = [] } }))
  unfolding set_snat rename_snat fetch_snat find_snat
  fetch_snat_offline s new h = (rw h refl, rw h refl)

  -- An answer with an error leaves the client as it is, and the edit of a rule or of its name
  -- then panics on the nil pointer.
  pub fetch_snat_refused :
      (s : SNat) (old new : Str) (a : Answer SNat)
      → r.mrprot_data cli.device ≡ some a
      → is_empty a.error ≡ false
      → ((fetch_snat r cli).0 ≡ cli)
        × ((set_snat r s cli ≡ none) × (rename_snat r old new cli ≡ none))
  unfolding set_snat rename_snat fetch_snat
  fetch_snat_refused s old new a h e = (rw (h, e) refl, (rw (h, e) refl, rw (h, e) refl))

  -- `AddDnat` fetches the other list in the end: whatever the request does to the router, the
  -- client's list of DNAT rules stays the one from before.
  pub d_nats-add_dnat : (d : DNat) → (add_dnat r d cli).nat.d_nats ≡ cli.nat.d_nats
  unfolding add_dnat fetch_snat post_dnat
  d_nats-add_dnat d = ground arith
