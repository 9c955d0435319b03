-- ===== src/Modify/Anonymize.antt =====
-- segments/modify/anonymize/anonymize.go. The anonymizer of package cryptopan is a parameter, and
-- so are `strconv.Atoi`, without its error, and `strings.Split` at commas.
pub mod Reduces
use Prim.Native.Nat.{bit_and}
use flowpipeline.Base.{
  ℕ, zero, suc, ◌+◌, ◌-◌, ◌^◌, ◌≤◌, Bool, true, false, ◌&&◌, ◌||◌, List, [], ◌∷◌, ◌++◌, Option,
  none, some, String, str_eq, ℤ, pos, negsuc, ltb, leb, ◌==◌, u32, if◌then◌else◌, ◌>>=◌, length,
  drop, replicate, ◌≡◌, refl, arith, ap₂, ap,
}
use flowpipeline.Flow.{Bytes, Flow}
use flowpipeline.Flow.Ip.{octets, to4, is_nil, cidr_mask, ip_mask, and_bytes, mask_bytes}
use flowpipeline.Segment.{run_map}

pub data Mode : Type 0 where
  crypto_pan sub_net all : Mode

pub record SubnetAnonymizer : Type 0 where
  pub mask_v4 : ℕ
  pub mask_v6 : ℕ

-- The subnet anonymizer of a mode that does not use it is not read.
pub record Anonymize : Type 0 where
  pub fields : List String
  pub mode : Mode
  pub subnet : SubnetAnonymizer

unfoldable pub mode_from_config : String → Option Mode
mode_from_config s =
    if str_eq s ""
    then some crypto_pan
    else if str_eq s "cryptopan"
    then some crypto_pan
    else if str_eq s "subnet"
    then some sub_net
    else if str_eq s "all"
    then some all
    else none

abbrev uses_subnet : Mode → Bool
uses_subnet crypto_pan = false
uses_subnet sub_net = true
uses_subnet all = true

abbrev uses_cryptopan : Mode → Bool
uses_cryptopan crypto_pan = true
uses_cryptopan sub_net = false
uses_cryptopan all = true

module _ (atoi : String → Option ℤ) (split : String → List String)
    (key_is_valid : String → Bool) where
  -- `maskV4`, from 8 to 32.
  unfoldable pub parse_mask_v4 : String → Option ℕ
  parse_mask_v4 value = if str_eq value "" then some 16 else elim (atoi value) [
    | none ↦ none
    | some (negsuc n) ↦ none
    | some (pos n) ↦ if ltb 32 n || ltb n 8 then none else some n
  ]

  -- `maskV6`, to 128: the lower bound is tested of `maskV4`. A negative number wraps as a `uint32`.
  unfoldable pub parse_mask_v6 : String → ℕ → Option ℕ
  parse_mask_v6 value mask_v4 = if str_eq value "" then some 52 else elim (atoi value) [
    | none ↦ none
    | some (negsuc n) ↦ if ltb mask_v4 4 then none else some (u32 (2 ^ 64 - 1 - n))
    | some (pos n) ↦ if ltb 128 n || ltb mask_v4 4 then none else some n
  ]

  unfoldable pub parse_subnet : Mode → (String → String) → Option SubnetAnonymizer
  unfolding parse_mask_v4 parse_mask_v6
  parse_subnet mode config =
      if uses_subnet mode
      then (parse_mask_v4 (config "maskV4") >>= λ v4.
          (parse_mask_v6 (config "maskV6") v4 >>= λ v6.
          some (record { mask_v4 = v4; mask_v6 = v6 })))
      else some (record { mask_v4 = 0; mask_v6 = 0 })

  unfoldable pub new : (String → String) → Option Anonymize
  unfolding mode_from_config parse_subnet
  new config = mode_from_config (config "mode") >>= λ mode.
      (parse_subnet mode config >>= λ subnet.
      (if uses_cryptopan mode && not_valid (config "key")
        then none
        else some (record {
          fields =
              if str_eq (config "fields") ""
              then "DstAddr" ∷ "NextHop" ∷ "SamplerAddress" ∷ "SrcAddr" ∷ []
              else split (config "fields");
          mode = mode;
          subnet = subnet;
        })))
    where
      not_valid : String → Bool
      not_valid key = if str_eq key "" then true else if key_is_valid key then false else true

-- The length of the prefix that is preserved, given the one of an earlier anonymization.
unfoldable pub preserved : ℕ → ℕ → ℕ
preserved mask original = if (original == 0) || ltb mask original then mask else original

-- The mask of an IPv6 address has the length of that of an IPv4 address.
unfoldable pub reduce_ip_to_subnet : SubnetAnonymizer → Bytes → ℕ → Bytes × ℕ
unfolding preserved
reduce_ip_to_subnet anon ip original =
    if is_nil (to4 ip)
    then (ip_mask ip (cidr_mask anon.mask_v4 128), preserved anon.mask_v6 original)
    else (ip_mask ip (cidr_mask anon.mask_v4 32), preserved anon.mask_v4 original)

module _ (cryptopan : Bytes → Bytes) where
  -- The address, the type of anonymization and the length of the preserved prefix.
  unfoldable pub anonymize : Anonymize → Bytes → ℕ → Bytes × ℕ × ℕ
  unfolding reduce_ip_to_subnet
  anonymize s ip len = elim s.mode [
    | crypto_pan ↦ (cryptopan ip, 1, len)
    | sub_net ↦ let (ip', len') = reduce_ip_to_subnet s.subnet ip len in (ip', 2, len')
    | all ↦ let (ip', len') = reduce_ip_to_subnet s.subnet (cryptopan ip) len in (ip', 3, len')
  ]

  -- The loop over the fields; other names are ignored, as is an address that is not set.
  unfoldable pub anonymize_field : Anonymize → String → Flow → Flow
  unfolding anonymize
  anonymize_field s field msg =
      if str_eq field "SrcAddr"
      then (if is_nil msg.src_addr
          then msg
          else (let (ip, anon, len) = anonymize s msg.src_addr msg.src_addr_preserved_len in
              record msg { src_addr = ip; src_addr_anon = anon; src_addr_preserved_len = len }))
      else if str_eq field "DstAddr"
      then (if is_nil msg.dst_addr
          then msg
          else (let (ip, anon, len) = anonymize s msg.dst_addr msg.dst_addr_preserved_len in
              record msg { dst_addr = ip; dst_addr_anon = anon; dst_addr_preserved_len = len }))
      else if str_eq field "SamplerAddress"
      then (if is_nil msg.sampler_address
          then msg
          else (let (ip, anon, len) = anonymize s msg.sampler_address 0 in
              record msg {
                sampler_address = ip;
                sampler_addr_anon = anon;
                sampler_addr_preserved_prefix_len = len;
              }))
      else if str_eq field "NextHop"
      then (if is_nil msg.next_hop
          then msg
          else (let (ip, anon, len) =
                anonymize s msg.next_hop msg.next_hop_anon_preserved_prefix_len in
              record msg {
                next_hop = ip;
                next_hop_anon = anon;
                next_hop_anon_preserved_prefix_len = len;
              }))
      else msg

  unfoldable pub anonymize_fields : Anonymize → List String → Flow → Flow
  unfolding anonymize_field
  anonymize_fields s [] msg = msg
  anonymize_fields s (field ∷ fields) msg = anonymize_fields s fields (anonymize_field s field msg)

  unfoldable pub run : Anonymize → List Flow → List Flow
  unfolding anonymize_fields
  run s = run_map (anonymize_fields s s.fields)
