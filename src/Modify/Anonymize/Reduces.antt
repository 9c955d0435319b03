-- ===== src/Modify/Anonymize/Reduces.antt =====
-- What the anonymization by subnets leaves of an address.
use Prim.Native.Nat.{bit_and, bit_and-bitwise, digits, min}
use flowpipeline.Base.{
  ℕ, zero, suc, ◌-◌, ◌/◌, ◌∙◌, ◌≤◌, List, [], ◌∷◌, none, some, length, drop, replicate, ◌≡◌, refl,
  arith, ap₂, ap, subst, leb, true,
}
use flowpipeline.Flow.Ip.{octets, to4, cidr_mask, ip_mask, and_bytes, mask_bytes}
use flowpipeline.Modify.Anonymize.{SubnetAnonymizer, preserved, reduce_ip_to_subnet}

digits_of_none : (n a : ℕ) → digits (λ b. zero) min n a 0 ≡ 0
digits_of_none zero a = refl
digits_of_none (suc n) zero = refl
digits_of_none (suc n) (suc a) = omega (arith, digits_of_none n (suc a / 2))

bit_and_zero : (a : ℕ) → bit_and a 0 ≡ 0
bit_and_zero a = (λ i. bit_and-bitwise a 0 i) ∙ digits_of_none a a

and_bytes-zeros : (bs : List ℕ) → and_bytes bs (mask_bytes (length bs) 0) ≡ replicate (length bs) 0
unfolding and_bytes mask_bytes
and_bytes-zeros [] = refl
and_bytes-zeros (b ∷ bs) = ap₂ (λ x l. x ∷ l) (bit_and_zero b) (and_bytes-zeros bs)

length-mask_bytes : (n ones : ℕ) → length (mask_bytes n ones) ≡ n
unfolding mask_bytes
length-mask_bytes zero ones = refl
length-mask_bytes (suc n) ones = ap suc (length-mask_bytes n (ones - 8))

ip_mask-v6 :
    (i m : List ℕ)
    → length i ≡ 16
    → length m ≡ 16
    → ip_mask (some i) (some m) ≡ some (and_bytes i m)
unfolding ip_mask
ip_mask-v6 i m h l = rw (l, h, l, h) refl

drop-and_bytes :
    (b : List ℕ) (ones : ℕ)
    → length b ≡ 16
    → ones ≤ 32
    → drop 4 (and_bytes b (mask_bytes 16 ones)) ≡ replicate 12 0
unfolding and_bytes mask_bytes
drop-and_bytes [] ones h l = absurd (omega (arith, h))
drop-and_bytes (a ∷ []) ones h l = absurd (omega (arith, h))
drop-and_bytes (a ∷ b ∷ []) ones h l = absurd (omega (arith, h))
drop-and_bytes (a ∷ b ∷ c ∷ []) ones h l = absurd (omega (arith, h))
drop-and_bytes (a ∷ b ∷ c ∷ d ∷ rest) ones h l =
    let none_left : ones - 8 - 8 - 8 - 8 ≡ 0 = omega (arith, l) in
    let n : length rest ≡ 12 = omega (arith, h) in
    rw none_left
      (subst (λ k. and_bytes rest (mask_bytes k 0) ≡ replicate k 0) n (and_bytes-zeros rest))

-- Of an IPv6 address that was not anonymized before, with a mask for IPv4 of at most 32 bits, the
-- anonymization by subnets keeps at most the first 4 octets, whatever the mask for IPv6, which is
-- reported as the length of the preserved prefix.
pub reduce_ip_to_subnet-v6 :
    (anon : SubnetAnonymizer) (ip : List ℕ)
    → length ip ≡ 16
    → to4 (some ip) ≡ none
    → anon.mask_v4 ≤ 32
    → let (reduced, len) = reduce_ip_to_subnet anon (some ip) 0 in
      (drop 4 (octets reduced) ≡ replicate 12 0) × (len ≡ anon.mask_v6)
unfolding reduce_ip_to_subnet preserved cidr_mask
reduce_ip_to_subnet-v6 anon ip h n l =
    let fits : leb anon.mask_v4 128 ≡ true = ground arith in
    rw (n, fits, ip_mask-v6 ip (mask_bytes 16 anon.mask_v4) h (length-mask_bytes 16 anon.mask_v4))
      (drop-and_bytes ip anon.mask_v4 h l, refl)
