-- ===== src/Base/Json.antt =====
-- The untyped values that events carry as metadata (`dict[str, Any]`).
use Prim.Native.Nat.{ℕ}
use mathlib.Core.Bool.{Bool, true, false}
use mathlib.Core.Option.{Option, none, some}
use litehive.Base.Tests.{ltb, ◌==◌, if◌then◌else◌}
use litehive.Base.Text.{Text, text_eq, truthy}

mutual
  pub data Value : Type 0 where
    null : Value
    bool : Bool → Value
    int : ℕ → Value
    str : Text → Value
    arr : Items → Value
    obj : Fields → Value

  pub data Items : Type 0 where
    nil : Items
    cons : Value → Items → Items

  pub data Fields : Type 0 where
    end : Fields
    field : Text → Value → Fields → Fields

-- `d.get(key)`: a missing key reads as `None`.
unfoldable pub get : Text → Fields → Value
get k end = null
get k (field j v m) = let rest = get k m in if j == k then v else rest

-- `isinstance(v, int)`, which holds of a Boolean too.
abbrev pub as_int : Value → Option ℕ
as_int (int n) = some n
as_int (bool true) = some 1
as_int (bool false) = some 0
as_int _ = none

abbrev pub as_str : Value → Option Text
as_str (str s) = some s
as_str _ = none

abbrev pub as_dict : Value → Option Fields
as_dict (obj m) = some m
as_dict _ = none

abbrev pub as_list : Value → Option Items
as_list (arr xs) = some xs
as_list _ = none

-- `bool(v)`.
abbrev pub value_truthy : Value → Bool
value_truthy null = false
value_truthy (bool b) = b
value_truthy (int n) = ltb 0 n
value_truthy (str s) = truthy s
value_truthy (arr nil) = false
value_truthy (arr (cons _ _)) = true
value_truthy (obj end) = false
value_truthy (obj (field _ _ _)) = true

abbrev pub of_option : Option Text → Value
of_option none = null
of_option (some s) = str s
