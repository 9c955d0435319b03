-- ===== src/Flow/Ip.antt =====
-- What the segments use of Go's `net` package: addresses are byte slices of 4 or 16 bytes.
use Prim.Native.Nat.{bit_and}
use flowpipeline.Base.{
  ℕ, zero, suc, ◌-◌, ◌/◌, ◌^◌, Bool, true, false, ◌&&◌, ◌||◌, List, [], ◌∷◌, ◌++◌, none, some,
  length, take, drop, replicate, leb, ◌==◌, if◌then◌else◌,
}
use flowpipeline.Flow.{Bytes}

-- The content of a slice; nil and an empty slice have none.
abbrev pub octets : Bytes → List ℕ
octets none = []
octets (some l) = l

unfoldable pub bytes_equal : List ℕ → List ℕ → Bool
bytes_equal [] [] = true
bytes_equal [] (b ∷ bs) = false
bytes_equal (a ∷ as') [] = false
bytes_equal (a ∷ as') (b ∷ bs) = (a == b) && bytes_equal as' bs

abbrev v4_in_v6_prefix : List ℕ
v4_in_v6_prefix = replicate 10 0 ++ (255 ∷ 255 ∷ [])

-- `IP.To4`.
unfoldable pub to4 : Bytes → Bytes
unfolding bytes_equal
to4 none = none
to4 (some l) =
    if length l == 4
    then some l
    else if (length l == 16) && bytes_equal (take 12 l) v4_in_v6_prefix
    then some (drop 12 l)
    else none

abbrev pub is_nil : Bytes → Bool
is_nil none = true
is_nil (some l) = false

-- `IP.Equal`.
unfoldable pub ip_equal : Bytes → Bytes → Bool
unfolding bytes_equal
ip_equal ip x =
    let a = octets ip in
    let b = octets x in
    if length a == length b
    then bytes_equal a b
    else if (length a == 4) && (length b == 16)
    then bytes_equal (take 12 b) v4_in_v6_prefix && bytes_equal a (drop 12 b)
    else if (length a == 16) && (length b == 4)
    then bytes_equal (take 12 a) v4_in_v6_prefix && bytes_equal (drop 12 a) b
    else false

-- The bytes of a mask with `ones` leading one bits.
unfoldable pub mask_bytes : ℕ → ℕ → List ℕ
mask_bytes zero ones = []
mask_bytes (suc n) ones =
    (if leb 8 ones then 255 else 255 - 255 / 2 ^ ones) ∷ mask_bytes n (ones - 8)

-- `net.CIDRMask(ones, bits)`.
unfoldable pub cidr_mask : ℕ → ℕ → Bytes
unfolding mask_bytes
cidr_mask ones bits =
    if ((bits == 32) || (bits == 128)) && leb ones bits
    then some (mask_bytes (bits / 8) ones)
    else none

unfoldable pub and_bytes : List ℕ → List ℕ → List ℕ
and_bytes [] ms = []
and_bytes (b ∷ bs) [] = []
and_bytes (b ∷ bs) (m ∷ ms) = bit_and b m ∷ and_bytes bs ms

-- `IP.Mask`.
unfoldable pub ip_mask : Bytes → Bytes → Bytes
unfolding bytes_equal and_bytes
ip_mask ip mask =
    let i = octets ip in
    let m = octets mask in
    let m' =
      if (length m == 16) && (length i == 4) && bytes_equal (take 12 m) (replicate 12 255)
      then drop 12 m
      else m in
    let i' =
      if (length m' == 4) && (length i == 16) && bytes_equal (take 12 i) v4_in_v6_prefix
      then drop 12 i
      else i in
    if length i' == length m' then some (and_bytes i' m') else none

-- `networkNumberAndMask` of `net.IPNet`; two empty lists are its `nil, nil`.
network_and_mask : Bytes → Bytes → List ℕ × List ℕ
unfolding to4
network_and_mask ip mask =
    let number = if is_nil (to4 ip) then octets ip else octets (to4 ip) in
    let m = octets mask in
    if is_nil (to4 ip) && not16 (length number)
    then ([], [])
    else if length m == 4
    then (if length number == 4 then (number, m) else ([], []))
    else if length m == 16
    then (number, if length number == 4 then drop 12 m else m)
    else ([], [])
  where
    not16 : ℕ → Bool
    not16 n = if n == 16 then false else true

-- `IPNet.Contains` for the network `{IP: net, Mask: mask}`.
unfoldable pub net_contains : Bytes → Bytes → Bytes → Bool
unfolding network_and_mask bytes_equal and_bytes to4
net_contains net mask ip =
    let x = if is_nil (to4 ip) then octets ip else octets (to4 ip) in
    let (number, m) = network_and_mask net mask in
    if length x == length number then bytes_equal (and_bytes number m) (and_bytes x m) else false
