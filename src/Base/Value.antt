-- ===== src/Base/Value.antt =====
-- The values that a program keeps in dictionaries typed `Any`: `None`, booleans, integers and
-- texts. Floats, lists and dictionaries are left out.
use Prim.Native.String.{String}
use mathlib.Core.Path.{◌≡◌, refl}
use mathlib.Core.Bool.{Bool, true, false, not}
use mathlib.Core.Option.{Option, none, some}
use native.Mathlib.Omega.{arith}
use emergence_os.Base.Tests.{nat_beq, if◌then◌else◌}
use emergence_os.Base.Equality.{◌==◌, string_eq, ==_refl}
use emergence_os.Base.Int.{ℤ, pos, negsuc}

pub data Value : Type 0 where
  none_value : Value
  boolean : Bool → Value
  integer : ℤ → Value
  text : String → Value

-- `bool(v)`
unfoldable pub truthy : Value → Bool
truthy none_value = false
truthy (boolean b) = b
truthy (integer (pos n)) = not (nat_beq n 0)
truthy (integer (negsuc n)) = true
truthy (text s) = not (s == "")

int_equal : ℤ → ℤ → Bool
int_equal (pos a) (pos b) = nat_beq a b
int_equal (negsuc a) (negsuc b) = nat_beq a b
int_equal (pos a) (negsuc b) = false
int_equal (negsuc a) (pos b) = false

-- A boolean is an integer for Python's `==`.
abbrev as_int : Bool → ℤ
as_int true = pos 1
as_int false = pos 0

-- `a == b`
unfoldable pub py_equal : Value → Value → Bool
unfolding int_equal
py_equal none_value none_value = true
py_equal (boolean a) (boolean b) = int_equal (as_int a) (as_int b)
py_equal (boolean a) (integer b) = int_equal (as_int a) b
py_equal (integer a) (boolean b) = int_equal a (as_int b)
py_equal (integer a) (integer b) = int_equal a b
py_equal (text a) (text b) = a == b
py_equal _ _ = false

pub py_equal_refl : (v : Value) → py_equal v v ≡ true
unfolding py_equal
py_equal_refl none_value = refl
py_equal_refl (boolean true) = refl
py_equal_refl (boolean false) = refl
py_equal_refl (integer (pos n)) = ground arith
py_equal_refl (integer (negsuc n)) = ground arith
py_equal_refl (text s) = ==_refl s

-- `a or b`, for a left side that may be missing.
unfoldable pub py_or : Option Value → Option Value → Option Value
py_or none b = b
py_or (some v) b = if truthy v then some v else b
