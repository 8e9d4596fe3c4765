-- ===== src/Base/Values.antt =====
-- JavaScript's dynamic values (`unknown`), as JSON and the callers of the source give them.
use Prim.Native.Nat.{ℕ}
use Prim.Native.String.{String}
use mathlib.Core.Bool.{Bool, true, false}
use mathlib.Core.Option.{Option, none, some}
use mathlib.Core.List.{List, [], ◌∷◌}
use culturago_stellar.Base.Tests.{if◌then◌else◌, ◌==◌, number_eq, text_eq}

-- A finite number that is no natural one is told by the text that JavaScript prints for it. `opaque` is a
-- function, a symbol or a bigint other than 0. The fields of an object are in their order.
mutual
  pub data Value : Type 0 where
    null undefined not_a_number infinite opaque : Value
    boolean : Bool → Value
    natural : ℕ → Value
    number : String → Value
    string : String → Value
    array : Items → Value
    object : Fields → Value

  pub data Items : Type 0 where
    nil : Items
    cons : Value → Items → Items

  pub data Fields : Type 0 where
    end : Fields
    field : String → Value → Fields → Fields

-- `obj[key]`, none for undefined.
unfoldable pub field_of : String → Fields → Option Value
field_of k end = none
field_of k (field j v fs) = if j == k then some v else field_of k fs

-- `Object.keys(obj)`
abbrev pub keys_of : Fields → List String
keys_of end = []
keys_of (field k v fs) = k ∷ keys_of fs

-- Whether `if (value)` takes the branch.
abbrev pub is_truthy : Value → Bool
is_truthy null = false
is_truthy undefined = false
is_truthy not_a_number = false
is_truthy infinite = true
is_truthy opaque = true
is_truthy (boolean b) = b
is_truthy (natural n) = if n == 0 then false else true
is_truthy (number s) = true
is_truthy (string s) = if s == "" then false else true
is_truthy (array xs) = true
is_truthy (object fs) = true
