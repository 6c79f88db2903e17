-- ===== src/Weyos/Nat/Ports.antt =====
-- The port ranges of weyos/nat.go.
use kit_go.Common.{◌≡◌, false, ◌||◌, arith, if◌then◌else◌, ℤ, pos, negsuc, ltb_ℤ}
use kit_go.Weyos.Nat.{Port, is_zero, port_end}

ltb_ℤ_irreflexive : (z : ℤ) → ltb_ℤ z z ≡ false
ltb_ℤ_irreflexive (pos n) = ground arith
ltb_ℤ_irreflexive (negsuc n) = ground arith

-- The range that `parseProto` writes never ends before it starts; it ends where the port says,
-- unless that is zero or before the start, and then it ends where it starts.
pub port_end_lem :
    (p : Port)
    → (ltb_ℤ (port_end p) p.start ≡ false)
      × (port_end p ≡ (if is_zero p.end || ltb_ℤ p.end p.start then p.start else p.end))
unfolding port_end
port_end_lem p =
    (ground (arith, ltb_ℤ_irreflexive p.start), ground (arith, ltb_ℤ_irreflexive p.start))
