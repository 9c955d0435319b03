-- ===== src/Flow/Mac.antt =====
-- pb/enrichedflow.go: the texts of MAC addresses.
use flowpipeline.Base.{
  ℕ, zero, suc, ◌+◌, ◌*◌, ◌/◌, ◌%◌, ◌<◌, ◌^◌, List, [], ◌∷◌, String, ◌≡◌, arith, All,
}
use flowpipeline.Flow.{Flow}

pub data MacSeparator : Type 0 where
  mac_separator_dash mac_separator_colon : MacSeparator

-- The octets that are formatted, `(mac & 0xFF00) >> 8` and so on, of which the first is the lowest.
unfoldable pub mac_octets : ℕ → ℕ → List ℕ
mac_octets zero mac = []
mac_octets (suc n) mac = mac % 256 ∷ mac_octets n (mac / 256)

-- `sprintf` is `fmt.Sprintf` with one of the two formats, of six numbers of two hexadecimal digits.
module _ (sprintf : MacSeparator → List ℕ → String) where
  unfoldable pub mac_to_string : ℕ → MacSeparator → String
  unfolding mac_octets
  mac_to_string mac sep = sprintf sep (mac_octets 6 mac)

  unfoldable pub src_mac_string : Flow → MacSeparator → String
  unfolding mac_to_string
  src_mac_string flow sep = mac_to_string flow.src_mac sep

  unfoldable pub dst_mac_string : Flow → MacSeparator → String
  unfolding mac_to_string
  dst_mac_string flow sep = mac_to_string flow.dst_mac sep

abbrev pub value_of : List ℕ → ℕ
value_of [] = 0
value_of (b ∷ bs) = b + 256 * value_of bs

-- The octets of a MAC address are octets, and give its value, of which they take 48 bits.
pub mac_octets_lem :
    (mac : ℕ) → All (λ b. b < 256) (mac_octets 6 mac) × (value_of (mac_octets 6 mac) ≡ mac % 2 ^ 48)
unfolding mac_octets
mac_octets_lem mac = (
  (omega arith, (omega arith, (omega arith, (omega arith, (omega arith, (omega arith, tt)))))),
  omega arith,
)
