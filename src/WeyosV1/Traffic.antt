-- ===== src/WeyosV1/Traffic.antt =====
-- weyos/v1/weyos.go: the rows of the traffic table, and the texts of a connection.
use kit_go.Common.{
  ℕ, ◌+◌, ◌*◌, ◌/◌, ◌%◌, ◌^◌, ◌<◌, ◌≡◌, ap, ◌∙◌, ◌≢◌, Option, none, some, List, [], ◌∷◌, ◌++◌, map,
  arith, if◌then◌else◌, int_eq, ℤ, pos, show_ℤ, itoa, Str, codes, split, join, split-join, Free,
  All,
}
use kit_go.Common.Decimal.{digits_value, digits_value-itoa}
use kit_go.Common.Fields.{All-itoa}

-- `net.IPv4(...).String()` of the four bytes of a uint32.
abbrev octets : ℕ → List Str
octets n =
    itoa (n / 2 ^ 24 % 256) ∷ itoa (n / 2 ^ 16 % 256) ∷ itoa (n / 2 ^ 8 % 256) ∷ itoa (n % 256) ∷ []

unfoldable pub ip_text : ℕ → Str
ip_text n = join (codes ".") (octets n)

-- `detail`, with the numbers that are only carried along in `F`.
pub record Detail (F : Type 0) : Type 0 where
  pub remote_ip : Str
  pub remote_ip_uint : ℕ
  pub out_ip : Str
  pub out_ip_uint : ℕ
  pub protocol_int : ℤ
  pub protocol : Str
  pub iface : ℤ
  pub direction : ℤ
  pub rest : F

pub record Traffic (F : Type 0) : Type 0 where
  pub ip : Str
  pub ip_uint : ℕ
  pub details : List (Detail F)
  pub rest : F

module _ {F : Type 0} where
  unfoldable pub iface_str : Detail F → Str
  iface_str d = if int_eq d.iface (pos 0) then codes "LAN" else codes "WAN" ++ show_ℤ d.iface

  unfoldable pub direction_str : Detail F → Str
  direction_str d =
      if int_eq d.direction (pos 1)
      then codes "<-"
      else (if int_eq d.direction (pos 0) then codes "->" else show_ℤ d.direction)

  unfoldable pub protocol_str : (ℤ → Option Str) → Detail F → Str
  protocol_str prots d = elim (prots d.protocol_int) [ none ↦ show_ℤ d.protocol_int | some s ↦ s ]

  unfoldable pub fill_detail : (ℤ → Option Str) → Detail F → Detail F
  unfolding ip_text protocol_str
  fill_detail prots d = record d {
    protocol = protocol_str prots d;
    remote_ip = ip_text d.remote_ip_uint;
    out_ip = ip_text d.out_ip_uint;
  }

  -- The loop of `GetTrafficstats`; the details of a row are what the router answers for the
  -- decimal text of its address.
  unfoldable pub get_trafficstats :
      (ℤ → Option Str) → (Str → List (Detail F)) → List (Traffic F) → List (Traffic F)
  unfolding fill_detail
  get_trafficstats prots hictlistxx2 [] = []
  get_trafficstats prots hictlistxx2 (v ∷ rows) =
      record v {
        ip = ip_text v.ip_uint;
        details = v.details ++ map (fill_detail prots) (hictlistxx2 (itoa v.ip_uint));
      }
      ∷ get_trafficstats prots hictlistxx2 rows

abbrev pub compose : ℕ → List Str → ℕ
compose acc [] = acc
compose acc (s ∷ ss) = compose (acc * 256 + digits_value 0 s) ss

octets-Free : (n : ℕ) → All (Free b'.') (octets n)
octets-Free n = (
  digits_Free (n / 2 ^ 24 % 256),
  (digits_Free (n / 2 ^ 16 % 256), (digits_Free (n / 2 ^ 8 % 256), (digits_Free (n % 256), tt))),
)
  where
    digits_Free : (m : ℕ) → Free b'.' (itoa m)
    digits_Free = All-itoa (λ c. c ≢ b'.') (λ d h. omega arith)

compose-octets : (n : ℕ) → n < 2 ^ 32 → compose 0 (octets n) ≡ n
compose-octets n h =
    rw
      (
        digits_value-itoa (n / 2 ^ 24 % 256),
        digits_value-itoa (n / 2 ^ 16 % 256),
        digits_value-itoa (n / 2 ^ 8 % 256),
        digits_value-itoa (n % 256),
      )
      (omega arith)

-- The four decimal numbers between the points of an address's text make up the 32 bit number
-- that the router gave.
pub compose-ip_text : (n : ℕ) → n < 2 ^ 32 → compose 0 (split b'.' (ip_text n)) ≡ n
unfolding ip_text
compose-ip_text n h =
    ap (compose 0) (
      split-join b'.' (itoa (n / 2 ^ 24 % 256))
        (itoa (n / 2 ^ 16 % 256) ∷ itoa (n / 2 ^ 8 % 256) ∷ itoa (n % 256) ∷ []) (octets-Free n))
    ∙ compose-octets n h
