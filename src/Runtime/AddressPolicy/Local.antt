-- ===== src/Runtime/AddressPolicy/Local.antt =====
-- IPv6 addresses of local scope.
use rogatio.Prelude.{
  ℕ, ◌≤◌, ◌≡◌, ◌⊎◌, refl, inl, inr, true, false, List, [], ◌∷◌, ◌==◌, arith, none,
}
use rogatio.Runtime.AddressPolicy.{
  is_public_class, classify_words, classify_ipv6, mapped_ipv4, or_words, prefix_matches,
  prefix_from, word_at,
}

-- The first word lies in fc00::/7, fe80::/10 or ff00::/8.
abbrev pub IsLocal : ℕ → Type 0
IsLocal word =
    ((0xfc00 ≤ word) × (word ≤ 0xfdff))
    ⊎ (((0xfe80 ≤ word) × (word ≤ 0xfebf)) ⊎ ((0xff00 ≤ word) × (word ≤ 0xffff)))

nonzero : (word : ℕ) → IsLocal word → (word == 0) ≡ false
nonzero word (inl h) = ground (arith, h)
nonzero word (inr (inl h)) = ground (arith, h)
nonzero word (inr (inr h)) = ground (arith, h)

module _ (word : ℕ) (words : List ℕ) where
  unique_prefix :
      (0xfc00 ≤ word) × (word ≤ 0xfdff) → prefix_matches (word ∷ words) (0xfc00 ∷ []) 7 ≡ true
  unfolding prefix_matches prefix_from word_at
  unique_prefix h = ground (arith, h)

  link_unique_prefix :
      (0xfe80 ≤ word) × (word ≤ 0xfebf) → prefix_matches (word ∷ words) (0xfc00 ∷ []) 7 ≡ false
  unfolding prefix_matches prefix_from word_at
  link_unique_prefix h = ground (arith, h)

  link_prefix :
      (0xfe80 ≤ word) × (word ≤ 0xfebf) → prefix_matches (word ∷ words) (0xfe80 ∷ []) 10 ≡ true
  unfolding prefix_matches prefix_from word_at
  link_prefix h = ground (arith, h)

  group_unique_prefix :
      (0xff00 ≤ word) × (word ≤ 0xffff) → prefix_matches (word ∷ words) (0xfc00 ∷ []) 7 ≡ false
  unfolding prefix_matches prefix_from word_at
  group_unique_prefix h = ground (arith, h)

  group_link_prefix :
      (0xff00 ≤ word) × (word ≤ 0xffff) → prefix_matches (word ∷ words) (0xfe80 ∷ []) 10 ≡ false
  unfolding prefix_matches prefix_from word_at
  group_link_prefix h = ground (arith, h)

  group_prefix :
      (0xff00 ≤ word) × (word ≤ 0xffff) → prefix_matches (word ∷ words) (0xff00 ∷ []) 8 ≡ true
  unfolding prefix_matches prefix_from word_at
  group_prefix h = ground (arith, h)

  classify_words_local : IsLocal word → is_public_class (classify_words (word ∷ words)) ≡ false
  unfolding classify_words is_public_class
  classify_words_local (inl h) = rw (nonzero word (inl h), unique_prefix h) refl
  classify_words_local (inr (inl h)) =
      rw (nonzero word (inr (inl h)), link_unique_prefix h, link_prefix h) refl
  classify_words_local (inr (inr h)) =
      rw (nonzero word (inr (inr h)), group_unique_prefix h, group_link_prefix h, group_prefix h)
        refl

mapped_ipv4_local : (word : ℕ) (words : List ℕ) → IsLocal word → mapped_ipv4 (word ∷ words) ≡ none
unfolding mapped_ipv4
mapped_ipv4_local word words (inl h) = ground (arith, h)
mapped_ipv4_local word words (inr (inl h)) = ground (arith, h)
mapped_ipv4_local word words (inr (inr h)) = ground (arith, h)

-- No IPv6 address in fc00::/7 (unique local), fe80::/10 (link-local) or ff00::/8 (multicast) is
-- classified as public.
pub classify_ipv6_local :
    (word : ℕ) (words : List ℕ)
    → IsLocal word
    → is_public_class (classify_ipv6 (word ∷ words)) ≡ false
unfolding classify_ipv6
classify_ipv6_local word words h =
    rw (mapped_ipv4_local word words h, or_words) (classify_words_local word words h)
