-- ===== src/Prelude/Json.antt =====
-- JSON values, and numbers as far as the program tells them apart.
use Prim.Native.Nat.{ℕ}
use Prim.Native.String.{String}
use mathlib.Core.Bool.{Bool, false}
use mathlib.Core.Option.{Option, none, some}
use text.Mathlib.Text.{◌==◌}
use rogatio.Prelude.Tests.{leb, if◌then◌else◌}

-- An integer: `pos n` is n, `negsuc n` is -(n + 1).
pub data ℤ : Type 0 where
  pos : ℕ → ℤ
  negsuc : ℕ → ℤ

-- A number: an integer, or any other, by its text.
pub data Number : Type 0 where
  integer : ℤ → Number
  fractional : String → Number

mutual
  pub data Json : Type 0 where
    null : Json
    boolean : Bool → Json
    number : Number → Json
    string : String → Json
    array : Items → Json
    object : Fields → Json

  pub data Items : Type 0 where
    nil : Items
    item : Json → Items → Items

  pub data Fields : Type 0 where
    end : Fields
    field : String → Json → Fields → Fields

-- The own property of an object of distinct keys.
unfoldable pub own : String → Fields → Option Json
own key end = none
own key (field k value fields) =
    let later = own key fields in if k == key then some value else later

-- `Number.isSafeInteger`
unfoldable pub is_safe_integer : Number → Bool
is_safe_integer (integer (pos n)) = leb n 9007199254740991
is_safe_integer (integer (negsuc n)) = leb n 9007199254740990
is_safe_integer (fractional n) = false
