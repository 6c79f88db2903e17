-- ===== src/Weyos/Tests.antt =====
-- Runs of weyos/nat.go, and its theorems at concrete inputs.
use kit_go.Common.{◌≡◌, refl, false, [], ◌∷◌, codes, pos, ltb_ℤ}
use kit_go.Weyos.Nat.{new_port, port_end, new_wan}
use kit_go.Weyos.Nat.Lists.{new_wan_lem}
use kit_go.Weyos.Nat.Ports.{port_end_lem}

two_wans : new_wan (codes "0" ∷ [] ∷ codes "1" ∷ []) ≡ codes "WAN0,WAN1"
unfolding new_wan
two_wans = refl

blank_wan : new_wan ([] ∷ codes "1" ∷ []) ≡ codes ",WAN1"
unfolding new_wan
blank_wan = refl

new_wan_lem_run :
    (new_wan (codes "0" ∷ [] ∷ codes "1" ∷ []) ≡ codes "WAN0,WAN1")
    × (new_wan ([] ∷ [] ∷ codes "1" ∷ []) ≡ codes ",WAN1")
new_wan_lem_run = new_wan_lem b'0' [] ([] ∷ codes "1" ∷ [])

short_range :
    (ltb_ℤ (port_end (new_port (pos 80) (pos 8))) (pos 80) ≡ false)
    × (port_end (new_port (pos 80) (pos 8)) ≡ pos 80)
short_range = port_end_lem (new_port (pos 80) (pos 8))
