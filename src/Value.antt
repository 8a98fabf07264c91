-- ===== src/Value.antt =====
-- The values that the program passes around (NodeStatus of bteng/core/node.py), and what Python's
-- `int`, `float`, `bool` and `type` make of them.
-- A float is the whole number of nanoseconds, or of 10^-9, that it stands for.
mod Numeral
use Numeral.{int_of_text, float_of_text}
use bteng.Prelude.{
  ℕ, zero, suc, ◌*◌, ◌/◌, String, ℤ, pos, negsuc, Bool, true, false, Option, none, some, str_eq,
  not, ◌+◌, ◌-◌, ◌==◌,
}

pub data Status : Type 0 where
  idle running success failure : Status

-- `s is t` on the enumeration
abbrev pub is_status : Status → Status → Bool
is_status idle idle = true
is_status running running = true
is_status success success = true
is_status failure failure = true
is_status _ _ = false

-- An `object` is any other Python object, known by its identity.
pub data Value : Type 0 where
  none_value : Value
  bool : Bool → Value
  int : ℤ → Value
  float : ℤ → Value
  text : String → Value
  status : Status → Value
  object : ℕ → Value

abbrev pub nano : ℕ
nano = 1000000000

-- n * 10^9
scale : ℤ → ℤ
scale (pos n) = pos (n * nano)
scale (negsuc n) = negsuc (n * nano + (nano - 1))

-- n / 10^9, towards zero
truncate : ℤ → ℤ
truncate (pos n) = pos (n / nano)
truncate (negsuc n) = let q = (n + 1) / nano in elim q [ zero ↦ pos 0 | suc k ↦ negsuc k ]

-- `int(v)`; `none` where it raises TypeError or ValueError.
unfoldable pub int_of : Value → Option ℤ
unfolding int_of_text truncate
int_of (bool false) = some (pos 0)
int_of (bool true) = some (pos 1)
int_of (int z) = some z
int_of (float z) = some (truncate z)
int_of (text s) = int_of_text s
int_of _ = none

-- `float(v)`; `none` where it raises TypeError or ValueError.
unfoldable pub float_of : Value → Option ℤ
unfolding float_of_text scale
float_of (bool false) = some (pos 0)
float_of (bool true) = some (pos nano)
float_of (int z) = some (scale z)
float_of (float z) = some z
float_of (text s) = float_of_text s
float_of _ = none

is_zero : ℤ → Bool
is_zero (pos n) = n == 0
is_zero (negsuc n) = false

-- `bool(v)`
unfoldable pub truthy : Value → Bool
unfolding is_zero
truthy none_value = false
truthy (bool b) = b
truthy (int z) = not (is_zero z)
truthy (float z) = not (is_zero z)
truthy (text s) = not (str_eq s "")
truthy (status s) = true
truthy (object n) = true

-- `type(v).__name__`
unfoldable pub type_name : Value → String
type_name none_value = "NoneType"
type_name (bool b) = "bool"
type_name (int z) = "int"
type_name (float z) = "float"
type_name (text s) = "str"
type_name (status s) = "NodeStatus"
type_name (object n) = "object"
