-- ===== src/Runtime/AddressPolicy.antt =====
-- packages/runtime/src/address-policy.ts: which addresses the outbound requests may go to. `isIP` of
-- node:net is a parameter. A word of an IPv6 address is below 2 ^ 16, so the comparison under a
-- mask of its upper bits is one of quotients.
pub mod Mapped
pub mod Prefix
pub mod Local
pub mod Resolved
use rogatio.Prelude.{
  ℕ, zero, suc, ◌+◌, ◌-◌, ◌*◌, ◌/◌, ◌%◌, ◌^◌, min, Bool, true, false, not, ◌&&◌, ◌||◌, Option, none,
  some, List, [], ◌∷◌, ◌++◌, ◌==◌, leb, ltb, if◌then◌else◌, get_elem?, length, all, any, take, drop,
}
use rogatio.Prelude.Sorting.{sort}
use rogatio.Prelude.Texts.{Text, text_lt}
use rogatio.Runtime.Addresses.{Ipv4, parse_ipv4, parse_ipv6}

pub data AddressClassification : Type 0 where
  public_address invalid loopback unspecified private_address link_local multicast carrier_grade
        documentation benchmarking reserved mapped_private :
      AddressClassification

pub record ResolvedAddress : Type 0 where
  pub address : Text
  pub family : ℕ

unfoldable pub ipv4_number : Ipv4 → ℕ
ipv4_number ip = (((ip.first * 256 + ip.second) * 256 + ip.third) * 256 + ip.fourth) % 2 ^ 32

unfoldable pub in_ipv4_range : ℕ → ℕ → ℕ → Bool
in_ipv4_range number start end = leb start number && leb number end

-- `value[index] ?? 0`
unfoldable pub word_at : List ℕ → ℕ → ℕ
word_at [] index = 0
word_at (word ∷ words) zero = word
word_at (word ∷ words) (suc index) = word_at words index

-- The loop of `prefixMatches`, on fuel: a round takes at least one of the remaining bits.
unfoldable pub prefix_from : ℕ → List ℕ → List ℕ → ℕ → ℕ → Bool
unfolding word_at
prefix_from zero value prefix index remaining = true
prefix_from (suc fuel) value prefix index remaining =
    let rest = prefix_from fuel value prefix (index + 1) (remaining - min remaining 16) in
    if remaining == 0
    then true
    else (word_at value index / 2 ^ (16 - min remaining 16)
        == word_at prefix index / 2 ^ (16 - min remaining 16))
      && rest

unfoldable pub prefix_matches : List ℕ → List ℕ → ℕ → Bool
unfolding prefix_from
prefix_matches value prefix bits = prefix_from bits value prefix 0 bits

-- `value[index] === word`
unfoldable pub holds_at : List ℕ → ℕ → ℕ → Bool
holds_at [] index expected = false
holds_at (word ∷ words) zero expected = word == expected
holds_at (word ∷ words) (suc index) expected = holds_at words index expected

unfoldable pub mapped_ipv4 : List ℕ → Option Ipv4
unfolding word_at holds_at
mapped_ipv4 value =
    if any (λ word. not (word == 0)) (take 5 value) || not (holds_at value 5 0xffff)
    then none
    else some (record {
      first = word_at value 6 / 256;
      second = word_at value 6 % 256;
      third = word_at value 7 / 256;
      fourth = word_at value 7 % 256;
    })

-- The tests of `classifyIPv4` on the address as a number, in their order.
unfoldable pub classify_number : ℕ → AddressClassification
unfolding in_ipv4_range
classify_number number =
    if in_ipv4_range number 0x00000000 0x00ffffff
    then unspecified
    else if in_ipv4_range number 0x0a000000 0x0affffff
        || (in_ipv4_range number 0xac100000 0xac1fffff
            || in_ipv4_range number 0xc0a80000 0xc0a8ffff)
    then private_address
    else if in_ipv4_range number 0x7f000000 0x7fffffff
    then loopback
    else if in_ipv4_range number 0xa9fe0000 0xa9feffff
    then link_local
    else if in_ipv4_range number 0x64400000 0x647fffff
    then carrier_grade
    else if in_ipv4_range number 0xc0000000 0xc00000ff
        || (in_ipv4_range number 0xc0000200 0xc00002ff
            || in_ipv4_range number 0xc0586300 0xc05863ff)
    then reserved
    else if in_ipv4_range number 0xc6120000 0xc613ffff
    then benchmarking
    else if in_ipv4_range number 0xc6336400 0xc63364ff || in_ipv4_range number 0xcb007100 0xcb0071ff
    then documentation
    else if in_ipv4_range number 0xe0000000 0xffffffff
    then multicast
    else public_address

unfoldable pub classify_ipv4 : Ipv4 → AddressClassification
unfolding classify_number ipv4_number
classify_ipv4 ip = classify_number (ipv4_number ip)

-- `classifyIPv6` after the test for a mapped address.
unfoldable pub classify_words : List ℕ → AddressClassification
unfolding word_at prefix_matches
classify_words value =
    if all (λ word. word == 0) value
    then unspecified
    else if all (λ word. word == 0) (take 7 value) && word_at value 7 == 1
    then loopback
    else if prefix_matches value (0xfc00 ∷ []) 7
    then private_address
    else if prefix_matches value (0xfe80 ∷ []) 10
    then link_local
    else if prefix_matches value (0xff00 ∷ []) 8
    then multicast
    else if prefix_matches value (0x2001 ∷ 0x0db8 ∷ []) 32
    then documentation
    else if prefix_matches value (0x2001 ∷ 0x0000 ∷ []) 32
    then reserved
    else if prefix_matches value (0x2001 ∷ 0x0002 ∷ 0x0000 ∷ []) 48
    then benchmarking
    else if prefix_matches value (0x2001 ∷ 0x0010 ∷ []) 28
    then reserved
    else if prefix_matches value (0x0064 ∷ 0xff9b ∷ 0x0000 ∷ 0x0000 ∷ 0x0000 ∷ 0x0000 ∷ []) 96
    then reserved
    else if prefix_matches value (0x0100 ∷ []) 8
    then reserved
    else public_address

abbrev or_words : Option Ipv4 → List ℕ → AddressClassification
or_words none value = classify_words value
or_words (some mapped) value = classify_ipv4 mapped

unfoldable pub classify_ipv6 : List ℕ → AddressClassification
unfolding mapped_ipv4 classify_ipv4 classify_words
classify_ipv6 value = or_words (mapped_ipv4 value) value

abbrev of_ipv4 : Option Ipv4 → AddressClassification
of_ipv4 none = invalid
of_ipv4 (some ip) = classify_ipv4 ip

abbrev of_ipv6 : Option (List ℕ) → AddressClassification
of_ipv6 none = invalid
of_ipv6 (some words) = classify_ipv6 words

unfoldable pub is_public_class : AddressClassification → Bool
is_public_class public_address = true
is_public_class _ = false

-- `left.family - right.family || …` is not positive.
unfoldable pub address_comes_first : ResolvedAddress → ResolvedAddress → Bool
unfolding text_lt
address_comes_first left right =
    if left.family == right.family
    then not (text_lt right.address left.address)
    else ltb left.family right.family

module _ (is_ip : Text → ℕ) where
  -- A value that is no string is `none`.
  unfoldable pub classify_address : Option Text → AddressClassification
  unfolding classify_ipv4 classify_ipv6
  classify_address none = invalid
  classify_address (some value) =
      if is_ip value == 4
      then of_ipv4 (parse_ipv4 value)
      else if is_ip value == 6
      then of_ipv6 (parse_ipv6 value)
      else invalid

  unfoldable pub is_public_address : Option Text → Bool
  unfolding classify_address is_public_class
  is_public_address value = is_public_class (classify_address value)

  unfoldable pub is_acceptable : ResolvedAddress → Bool
  unfolding is_public_address
  is_acceptable resolved =
      (resolved.family == 4 || resolved.family == 6) && is_public_address (some resolved.address)

  unfoldable pub validate_resolved_addresses :
      List ResolvedAddress → ℕ → Option (List ResolvedAddress)
  unfolding is_acceptable address_comes_first
  validate_resolved_addresses addresses max_addresses =
      if length addresses == 0 || ltb max_addresses (length addresses)
      then none
      else if all is_acceptable addresses
      then some (sort address_comes_first addresses)
      else none
