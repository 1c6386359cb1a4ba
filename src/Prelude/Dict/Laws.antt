-- ===== src/Prelude/Dict/Laws.antt =====
-- The laws of a dictionary with distinct keys.
use Prim.Native.Nat.{suc, ◌≤◌}
use Prim.Native.String.{String}
use mathlib.Core.Path.{◌≡◌, refl}
use mathlib.Core.Logic.{◌≢◌, inl, inr}
use mathlib.Core.List.{List, [], ◌∷◌}
use mathlib.Core.Option.{none, some}
use native.Mathlib.Omega.{arith}
use text.Mathlib.Text.{◌==◌}
use text.Mathlib.TextEquality.{eq_iff}
use rogatio.Prelude.Tests.{if◌then◌else◌, Bool-cases}
use rogatio.Prelude.Lists.{length, All}
use rogatio.Prelude.Dict.{put, get, delete}

module _ {ℓ} {V : Type ℓ} where
  abbrev pub HasDistinctKeys : List (String × V) → Type ℓ
  HasDistinctKeys [] = Unit
  HasDistinctKeys ((k, v) ∷ entries) = (get k entries ≡ none) × HasDistinctKeys entries

  pub get-put :
      (n key : String) (value : V) (entries : List (String × V))
      → get n (put key value entries) ≡ (if key == n then some value else get n entries)
  unfolding get put
  get-put n key value [] = refl
  get-put n key value ((k, v) ∷ entries) =
      ground (arith, eq_iff k key, eq_iff key n, eq_iff k n, get-put n key value entries)

  pub put-HasDistinctKeys :
      (key : String) (value : V) (entries : List (String × V))
      → HasDistinctKeys entries
      → HasDistinctKeys (put key value entries)
  unfolding put
  put-HasDistinctKeys key value [] h = (unfold get in refl, tt)
  put-HasDistinctKeys key value ((k, v) ∷ entries) h = ground (
    arith,
    eq_iff k key,
    eq_iff key k,
    get-put k key value entries,
    put-HasDistinctKeys key value entries h.1,
  )

  pub get-delete_ne :
      (n key : String) (entries : List (String × V))
      → n ≢ key
      → get n (delete key entries) ≡ get n entries
  unfolding get delete
  get-delete_ne n key [] h = refl
  get-delete_ne n key ((k, v) ∷ entries) h =
      ground (arith, eq_iff k key, eq_iff k n, get-delete_ne n key entries h)

  pub get-delete_self :
      (key : String) (entries : List (String × V))
      → HasDistinctKeys entries
      → get key (delete key entries) ≡ none
  unfolding get delete
  get-delete_self key [] h = refl
  get-delete_self key ((k, v) ∷ entries) h =
      ground (arith, eq_iff k key, get-delete_self key entries h.1)

  get-delete-none :
      (n key : String) (entries : List (String × V))
      → get n entries ≡ none
      → get n (delete key entries) ≡ none
  unfolding get delete
  get-delete-none n key [] h = refl
  get-delete-none n key ((k, v) ∷ entries) h =
      ground (arith, eq_iff k key, eq_iff k n, get-delete-none n key entries)

  pub delete-HasDistinctKeys :
      (key : String) (entries : List (String × V))
      → HasDistinctKeys entries
      → HasDistinctKeys (delete key entries)
  unfolding delete
  delete-HasDistinctKeys key [] h = tt
  delete-HasDistinctKeys key ((k, v) ∷ entries) h =
      ground (arith, get-delete-none k key entries, delete-HasDistinctKeys key entries h.1)

  pub length-put_new :
      (key : String) (value : V) (entries : List (String × V))
      → get key entries ≡ none
      → length (put key value entries) ≡ suc (length entries)
  unfolding get put
  length-put_new key value [] h = refl
  length-put_new key value ((k, v) ∷ entries) h = ground (arith, length-put_new key value entries)

  pub length-put_old :
      (key : String) (value old : V) (entries : List (String × V))
      → get key entries ≡ some old
      → length (put key value entries) ≡ length entries
  unfolding get put
  length-put_old key value old [] h = cc
  length-put_old key value old ((k, v) ∷ entries) h =
      ground (arith, length-put_old key value old entries)

  pub length-delete :
      (key : String) (entries : List (String × V)) → length (delete key entries) ≤ length entries
  unfolding delete
  length-delete key [] = omega arith
  length-delete key ((k, v) ∷ entries) = ground (arith, length-delete key entries)

  -- What holds of every entry, and of what is put, holds of every entry afterwards.
  module _ {κ} (P : String × V → Type κ) where
    pub All-put :
        (key : String) (value : V) (entries : List (String × V))
        → P (key, value)
        → All P entries
        → All P (put key value entries)
    unfolding put
    All-put key value [] p h = (p, tt)
    All-put key value ((k, v) ∷ entries) p h = elim (Bool-cases (k == key)) [
      | inl same ↦ rw (same, (eq_iff k key).0 same) (p, h.1)
      | inr other ↦ rw other (h.0, All-put key value entries p h.1)
    ]

    pub All-delete :
        (key : String) (entries : List (String × V)) → All P entries → All P (delete key entries)
    unfolding delete
    All-delete key [] h = tt
    All-delete key ((k, v) ∷ entries) h = elim (Bool-cases (k == key)) [
      | inl same ↦ rw same h.1
      | inr other ↦ rw other (h.0, All-delete key entries h.1)
    ]

    pub All-get :
        (key : String) (value : V) (entries : List (String × V))
        → All P entries
        → get key entries ≡ some value
        → P (key, value)
    unfolding get
    All-get key value [] h e = absurd (cc e)
    All-get key value ((k, v) ∷ entries) h e = elim (Bool-cases (k == key)) [
      | inl same ↦
          let at_key : k ≡ key = (eq_iff k key).0 same in
          let here : v ≡ value = ground arith in rw (← at_key, ← here) h.0
      | inr other ↦ All-get key value entries h.1 (rw other at e)
    ]
