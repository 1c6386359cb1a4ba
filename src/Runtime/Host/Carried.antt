-- ===== src/Runtime/Host/Carried.antt =====
-- packages/runtime/src/host.ts: which messages of a session announced a digest or carried a part.
use rogatio.Prelude.{
  ℕ, suc, ◌≡◌, Option, some, List, [], ◌∷◌, All, String, ◌==◌, Bool-cases, inl, inr, ==_iff,
}
use mathlib.Core.List.{Memᴰ}
use mathlib.Core.Path.{subst}
use rogatio.Prelude.Texts.{Text, codes}
use rogatio.Prelude.Json.{pos, integer, Json, object, Fields, own}
use rogatio.Runtime.Envelope.{string_of, number_of}
use rogatio.Runtime.Framing.{Bytes, decode_native_frame}
use rogatio.Runtime.Results.{ok}
use rogatio.Runtime.ProjectStage.{part_at}
use rogatio.Runtime.ProjectStage.Assembly.{HoldsFrom}

module _ (parse : Bytes → Option Json) (from_base64 : String → Bytes)
    (frames : List (Bytes × ℕ)) where
  -- One of the messages is an object of that type with these fields.
  pub record IsMessage (type : String) (fields : Fields) : Type 0 where
    pub frame : Bytes
    pub now : ℕ
    pub sent : Memᴰ (frame, now) frames
    pub decoded : decode_native_frame parse frame ≡ ok (object fields)
    pub typed : string_of (own "type" fields) ≡ some type

  -- A message that begins a transfer announces the digest.
  pub record IsAnnounced (digest : Text) : Type 0 where
    pub fields : Fields
    pub text : String
    pub begins : IsMessage "policy-begin" fields
    pub states : string_of (own "policyDigest" fields) ≡ some text
    pub codes_of : codes text ≡ digest

  -- A message carries the bytes as the part of that number.
  pub record IsPart (index : ℕ) (part : Bytes) : Type 0 where
    pub fields : Fields
    pub text : String
    pub sends : IsMessage "policy-part" fields
    pub numbered : number_of (own "index" fields) ≡ some (integer (pos index))
    pub holds : string_of (own "data" fields) ≡ some text
    pub decodes : from_base64 text ≡ part

  -- Messages carry the bytes as the parts from a number on.
  abbrev pub AreParts : ℕ → List Bytes → Type 0
  AreParts index [] = Unit
  AreParts index (part ∷ parts) = IsPart index part × AreParts (suc index) parts

  part_at-IsPart :
      (index : ℕ) (part : Bytes) (received : List (ℕ × Bytes))
      → All (λ entry. IsPart entry.0 entry.1) received
      → part_at index received ≡ some part
      → IsPart index part
  unfolding part_at
  part_at-IsPart index part [] carried found = absurd (cc found)
  part_at-IsPart index part ((i, p) ∷ received) carried found = elim (Bool-cases (i == index)) [
    | inr other ↦ part_at-IsPart index part received (carried.1) (rw other at found)
    | inl here ↦
        subst (λ q. IsPart index q) (same (rw here at found))
          (subst (λ n. IsPart n p) ((==_iff i index).0 here) (carried.0))
  ]
    where
      same : some p ≡ some part → p ≡ part
      same h = cc

  pub AreParts-of_HoldsFrom :
      (index : ℕ) (parts : List Bytes) (received : List (ℕ × Bytes))
      → All (λ entry. IsPart entry.0 entry.1) received
      → HoldsFrom index parts received
      → AreParts index parts
  AreParts-of_HoldsFrom index [] received carried holds = tt
  AreParts-of_HoldsFrom index (part ∷ parts) received carried holds = (
    part_at-IsPart index part received carried (holds.0),
    AreParts-of_HoldsFrom (suc index) parts received carried (holds.1),
  )
