-- ===== src/Runtime/AddressPolicy/Mapped.antt =====
-- The classification of IPv4 addresses by octets, and of the IPv6 addresses that carry one.
use rogatio.Prelude.{
  ℕ, ◌+◌, ◌-◌, ◌*◌, ◌/◌, ◌%◌, ◌^◌, ◌<◌, ◌≡◌, refl, ap, sym, Bool, true, false, not, ◌&&◌, ◌||◌,
  some, List, [], ◌∷◌, ◌==◌, if◌then◌else◌, arith, all,
}
use rogatio.Runtime.Addresses.{Ipv4}
use rogatio.Runtime.AddressPolicy.{
  AddressClassification, ipv4_number, in_ipv4_range, classify_number, classify_ipv4, classify_ipv6,
  or_words, is_public_class, mapped_ipv4, word_at, holds_at,
}

pub record IsIpv4 (ip : Ipv4) : Type 0 where
  pub first_bound : ip.first < 256
  pub second_bound : ip.second < 256
  pub third_bound : ip.third < 256
  pub fourth_bound : ip.fourth < 256

-- An IPv4 address inside `::ffff:0:0/96`.
abbrev pub mapped_words : Ipv4 → List ℕ
mapped_words ip =
    0 ∷ 0 ∷ 0 ∷ 0 ∷ 0 ∷ 0xffff ∷ (ip.first * 256 + ip.second) ∷ (ip.third * 256 + ip.fourth) ∷ []

mapped_ipv4-mapped_words : (ip : Ipv4) → IsIpv4 ip → mapped_ipv4 (mapped_words ip) ≡ some ip
unfolding mapped_ipv4 word_at holds_at
mapped_ipv4-mapped_words ip h =
    let first : (ip.first * 256 + ip.second) / 256 ≡ ip.first = omega (arith, h.second_bound) in
    let second : (ip.first * 256 + ip.second) % 256 ≡ ip.second = omega (arith, h.second_bound) in
    let third : (ip.third * 256 + ip.fourth) / 256 ≡ ip.third = omega (arith, h.fourth_bound) in
    let fourth : (ip.third * 256 + ip.fourth) % 256 ≡ ip.fourth = omega (arith, h.fourth_bound) in
    rw (first, second, third, fourth) refl

-- An IPv4-mapped IPv6 address is classified as the IPv4 address that it carries, so that mapping
-- does not hide a private or local address.
pub classify_ipv6-mapped_words :
    (ip : Ipv4) → IsIpv4 ip → classify_ipv6 (mapped_words ip) ≡ classify_ipv4 ip
unfolding classify_ipv6
classify_ipv6-mapped_words ip h =
    ap (λ mapped. or_words mapped (mapped_words ip)) (mapped_ipv4-mapped_words ip h)

-- An address block in CIDR notation.
pub record Cidr : Type 0 where
  pub base : Ipv4
  pub bits : ℕ

abbrev cidr : ℕ → ℕ → ℕ → ℕ → ℕ → Cidr
cidr a b c d bits = record {
  base = record { first = a; second = b; third = c; fourth = d };
  bits = bits;
}

-- The two addresses agree in the first bits of the block.
abbrev pub in_block : ℕ → Cidr → Bool
in_block number block =
    number / 2 ^ (32 - block.bits) == ipv4_number block.base / 2 ^ (32 - block.bits)

-- The blocks of special purpose.
abbrev pub special_blocks : List Cidr
special_blocks =
    cidr 0 0 0 0 8
    ∷ cidr 10 0 0 0 8
    ∷ cidr 172 16 0 0 12
    ∷ cidr 192 168 0 0 16
    ∷ cidr 127 0 0 0 8
    ∷ cidr 169 254 0 0 16
    ∷ cidr 100 64 0 0 10
    ∷ cidr 192 0 0 0 24
    ∷ cidr 192 0 2 0 24
    ∷ cidr 192 88 99 0 24
    ∷ cidr 198 18 0 0 15
    ∷ cidr 198 51 100 0 24
    ∷ cidr 203 0 113 0 24
    ∷ cidr 224 0 0 0 3
    ∷ []

ipv4_number_bound : (ip : Ipv4) → ipv4_number ip < 2 ^ 32
unfolding ipv4_number
ipv4_number_bound ip = omega arith

-- One test of the chain, for a range that is a block, for two and for three.
chain_one :
    {b b' r : Bool} (c rest : AddressClassification)
    → is_public_class c ≡ false
    → b ≡ b'
    → is_public_class rest ≡ r
    → is_public_class (if b then c else rest) ≡ (not b' && r)
chain_one {b = true} c rest h e hr = rw (sym e) h
chain_one {b = false} c rest h e hr = rw (sym e) hr

chain_two :
    {a b a' b' r : Bool} (c rest : AddressClassification)
    → is_public_class c ≡ false
    → a ≡ a'
    → b ≡ b'
    → is_public_class rest ≡ r
    → is_public_class (if a || b then c else rest) ≡ (not a' && (not b' && r))
chain_two {a = true} c rest h ea eb hr = rw (sym ea) h
chain_two {a = false} c rest h ea eb hr = rw (sym ea) (chain_one c rest h eb hr)

chain_three :
    {a b d a' b' d' r : Bool} (c rest : AddressClassification)
    → is_public_class c ≡ false
    → a ≡ a'
    → b ≡ b'
    → d ≡ d'
    → is_public_class rest ≡ r
    → is_public_class (if a || (b || d) then c else rest) ≡ (not a' && (not b' && (not d' && r)))
chain_three {a = true} c rest h ea eb ed hr = rw (sym ea) h
chain_three {a = false} c rest h ea eb ed hr = rw (sym ea) (chain_two c rest h eb ed hr)

-- A range of the source that is the block of some quotient.
abbrev IsBlock : ℕ → ℕ → ℕ → Cidr → Type 0
IsBlock n start end block = in_ipv4_range n start end ≡ in_block n block

module _ (n : ℕ) (bound : n < 2 ^ 32) where
  zero_net : IsBlock n 0x00000000 0x00ffffff (cidr 0 0 0 0 8)
  unfolding in_ipv4_range ipv4_number
  zero_net = ground arith

  ten : IsBlock n 0x0a000000 0x0affffff (cidr 10 0 0 0 8)
  unfolding in_ipv4_range ipv4_number
  ten = ground arith

  private_172 : IsBlock n 0xac100000 0xac1fffff (cidr 172 16 0 0 12)
  unfolding in_ipv4_range ipv4_number
  private_172 = ground arith

  private_192 : IsBlock n 0xc0a80000 0xc0a8ffff (cidr 192 168 0 0 16)
  unfolding in_ipv4_range ipv4_number
  private_192 = ground arith

  loopback_net : IsBlock n 0x7f000000 0x7fffffff (cidr 127 0 0 0 8)
  unfolding in_ipv4_range ipv4_number
  loopback_net = ground arith

  link_net : IsBlock n 0xa9fe0000 0xa9feffff (cidr 169 254 0 0 16)
  unfolding in_ipv4_range ipv4_number
  link_net = ground arith

  carrier_net : IsBlock n 0x64400000 0x647fffff (cidr 100 64 0 0 10)
  unfolding in_ipv4_range ipv4_number
  carrier_net = ground arith

  protocol_net : IsBlock n 0xc0000000 0xc00000ff (cidr 192 0 0 0 24)
  unfolding in_ipv4_range ipv4_number
  protocol_net = ground arith

  test_net : IsBlock n 0xc0000200 0xc00002ff (cidr 192 0 2 0 24)
  unfolding in_ipv4_range ipv4_number
  test_net = ground arith

  relay_net : IsBlock n 0xc0586300 0xc05863ff (cidr 192 88 99 0 24)
  unfolding in_ipv4_range ipv4_number
  relay_net = ground arith

  benchmark_net : IsBlock n 0xc6120000 0xc613ffff (cidr 198 18 0 0 15)
  unfolding in_ipv4_range ipv4_number
  benchmark_net = ground arith

  documentation_198 : IsBlock n 0xc6336400 0xc63364ff (cidr 198 51 100 0 24)
  unfolding in_ipv4_range ipv4_number
  documentation_198 = ground arith

  documentation_203 : IsBlock n 0xcb007100 0xcb0071ff (cidr 203 0 113 0 24)
  unfolding in_ipv4_range ipv4_number
  documentation_203 = ground arith

  multicast_net : IsBlock n 0xe0000000 0xffffffff (cidr 224 0 0 0 3)
  unfolding in_ipv4_range ipv4_number
  multicast_net = ground arith

  classify_number_blocks :
      is_public_class (classify_number n) ≡ all (λ block. not (in_block n block)) special_blocks
  unfolding classify_number is_public_class
  classify_number_blocks = chain_one _ _ refl zero_net (
      chain_three _ _ refl ten private_172 private_192 (
        chain_one _ _ refl loopback_net (
          chain_one _ _ refl link_net (
            chain_one _ _ refl carrier_net (
              chain_three _ _ refl protocol_net test_net relay_net (
                chain_one _ _ refl benchmark_net (
                  chain_two _ _ refl documentation_198 documentation_203
                    (chain_one _ _ refl multicast_net refl))))))))

-- `classifyIPv4`, which compares the address as a 32-bit number with ranges, answers "public" for
-- exactly the addresses that lie in none of the fourteen special-purpose blocks.
pub classify_ipv4-special_blocks :
    (ip : Ipv4)
    → is_public_class (classify_ipv4 ip)
      ≡ all (λ block. not (in_block (ipv4_number ip) block)) special_blocks
unfolding classify_ipv4
classify_ipv4-special_blocks ip = classify_number_blocks (ipv4_number ip) (ipv4_number_bound ip)
