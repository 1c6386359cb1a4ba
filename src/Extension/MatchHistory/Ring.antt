-- ===== src/Extension/MatchHistory/Ring.antt =====
-- packages/extension/src/match-history.ts: the ring is the newest part of an unbounded log.
use rogatio.Prelude.{
  ℕ, zero, suc, ◌+◌, ◌-◌, ◌≤◌, ◌≡◌, refl, ap, ◌∙◌, sym, true, false, some, List, [], ◌∷◌, ◌++◌, leb,
  length, drop, map, All, inl, inr, arith, Bool-cases, length-append,
}
use rogatio.Prelude.Slices.{drop-append, length-drop}
use rogatio.Prelude.Texts.{Text}
use rogatio.Extension.MatchHistory.{
  match_history_cap, MatchHistoryEntry, entries, raw_entry, newest, sanitize_stored_entry,
  cons_valid, valid_entries, parse_match_history_entries, append_valid, append_match_history,
}

pub length-newest {ℓ} : {A : Type ℓ} (n : ℕ) (xs : List A) → length (newest n xs) ≤ n
unfolding newest
length-newest n xs = elim (Bool-cases (leb (length xs) n)) [
  | inl few ↦ rw few (ground arith)
  | inr many ↦ rw many (rw (length-drop (length xs - n) xs) (omega arith))
]

newest_of_few {ℓ} : {A : Type ℓ} (n : ℕ) (xs : List A) → length xs ≤ n → newest n xs ≡ xs
unfolding newest
newest_of_few n xs few = rw (is_few (length xs) few) refl
  where
    is_few : (m : ℕ) → m ≤ n → leb m n ≡ true
    is_few m h = ground arith

newest_of_many {ℓ} :
    {A : Type ℓ} (n : ℕ) (xs : List A) → suc n ≤ length xs → newest n xs ≡ drop (length xs - n) xs
unfolding newest
newest_of_many n xs many = rw (is_many (length xs) many) refl
  where
    is_many : (m : ℕ) → suc n ≤ m → leb m n ≡ false
    is_many m h = ground arith

drop_nil {ℓ} : {A : Type ℓ} (k : ℕ) → drop {A = A} k [] ≡ []
drop_nil zero = refl
drop_nil (suc k) = refl

drop-drop {ℓ} : {A : Type ℓ} (n m : ℕ) (xs : List A) → drop n (drop m xs) ≡ drop (m + n) xs
drop-drop n zero xs = ap (λ k. drop k xs) (omega arith)
drop-drop n (suc m) [] = drop_nil n ∙ sym (drop_nil (suc m + n))
drop-drop n (suc m) (x ∷ xs) = drop-drop n m xs ∙ ap (λ k. drop k (x ∷ xs)) (plus n m)
  where
    plus : (n m : ℕ) → suc (m + n) ≡ suc m + n
    plus n m = omega arith

newest-append_of_many {ℓ} :
    {A : Type ℓ} (n : ℕ) (xs : List A) (x : A)
    → suc n ≤ length xs
    → newest n (newest n xs ++ x ∷ []) ≡ newest n (xs ++ x ∷ [])
newest-append_of_many n xs x many =
    let k = length xs - n in
    let ys = drop k xs ++ x ∷ [] in
    let size = length-append (drop k xs) (x ∷ []) in
    let whole = length-append xs (x ∷ []) in
    ap (λ kept. newest n (kept ++ x ∷ [])) (newest_of_many n xs many)
    ∙ newest_of_many n ys (omega (arith, size, length-drop k xs, many))
    ∙ ap (λ zs. drop (length ys - n) zs) (sym (drop-append k xs (x ∷ []) (omega arith)))
    ∙ drop-drop (length ys - n) k (xs ++ x ∷ [])
    ∙ ap (λ j. drop j (xs ++ x ∷ [])) (omega (arith, size, whole, length-drop k xs, many))
    ∙ sym (newest_of_many n (xs ++ x ∷ []) (omega (arith, whole, many)))

-- Keeping the newest before and after appending is keeping them after.
newest-append {ℓ} :
    {A : Type ℓ} (n : ℕ) (xs : List A) (x : A)
    → newest n (newest n xs ++ x ∷ []) ≡ newest n (xs ++ x ∷ [])
newest-append n xs x = elim (Bool-cases (leb (length xs) n)) [
  | inl few ↦ ap (λ ys. newest n (ys ++ x ∷ [])) (newest_of_few n xs (ground arith))
  | inr many ↦ newest-append_of_many n xs x (ground arith)
]

module _ (strip_url : Text → Text) where
  -- Sanitizing the row changes nothing.
  abbrev pub IsStable : MatchHistoryEntry → Type 0
  IsStable row = sanitize_stored_entry strip_url (raw_entry row) ≡ some row

  valid_entries-raw :
      (rows : List MatchHistoryEntry)
      → All IsStable rows
      → valid_entries strip_url (map raw_entry rows) ≡ rows
  unfolding valid_entries
  valid_entries-raw [] stable = refl
  valid_entries-raw (row ∷ rows) stable =
      ap (λ first. cons_valid strip_url first (valid_entries strip_url (map raw_entry rows)))
        (stable.0)
      ∙ ap (λ rest. row ∷ rest) (valid_entries-raw rows (stable.1))

  All-drop :
      (n : ℕ) (rows : List MatchHistoryEntry) → All IsStable rows → All IsStable (drop n rows)
  All-drop zero rows stable = stable
  All-drop (suc n) [] stable = tt
  All-drop (suc n) (row ∷ rows) stable = All-drop n rows (stable.1)

  pub All-append :
      (rows : List MatchHistoryEntry) (row : MatchHistoryEntry)
      → All IsStable rows
      → IsStable row
      → All IsStable (rows ++ row ∷ [])
  All-append [] row stable last = (last, tt)
  All-append (r ∷ rows) row stable last = (stable.0, All-append rows row (stable.1) last)

  All-newest :
      (n : ℕ) (rows : List MatchHistoryEntry) → All IsStable rows → All IsStable (newest n rows)
  unfolding newest
  All-newest n rows stable = elim (Bool-cases (leb (length rows) n)) [
    | inl few ↦ rw few stable
    | inr many ↦ rw many (All-drop (length rows - n) rows stable)
  ]

  pub parse-newest :
      (rows : List MatchHistoryEntry)
      → All IsStable rows
      → parse_match_history_entries strip_url
          (entries (map raw_entry (newest match_history_cap rows)))
        ≡ newest match_history_cap rows
  unfolding parse_match_history_entries
  parse-newest rows stable =
      ap (newest match_history_cap) (
        valid_entries-raw (newest match_history_cap rows)
          (All-newest match_history_cap rows stable))
      ∙ newest_of_few match_history_cap (newest match_history_cap rows)
          (length-newest match_history_cap rows)

  pub append-newest :
      (rows : List MatchHistoryEntry) (row : MatchHistoryEntry)
      → All IsStable rows
      → IsStable row
      → append_match_history strip_url (newest match_history_cap rows) row
        ≡ newest match_history_cap (rows ++ row ∷ [])
  unfolding append_match_history
  append-newest rows row stable last =
      ap
        (λ next.
          append_valid strip_url
            (parse_match_history_entries strip_url
              (entries (map raw_entry (newest match_history_cap rows))))
            next)
        last
      ∙ ap (λ valid. newest match_history_cap (valid ++ row ∷ [])) (parse-newest rows stable)
      ∙ newest-append match_history_cap rows row
