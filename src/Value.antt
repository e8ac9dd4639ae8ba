-- ===== src/Value.antt =====
-- The dynamic values that the `any` fields of a record hold (db/memory.go, `Record`), with what Go
-- does with them: `==` on interfaces, hashing as a map key, and `fmt.Sprintf("%v", …)`. A slice has
-- no `==` and no hash: the run time panics. Floats, times and nested values, which nothing in the
-- repository stores, are left out.
mod Format
pub use Format.{ℤ, pos, negsuc}
unfoldable pub use Format.{digit, decimal, decimal_int, join, sprint_bool}
use Prim.Native.String.{◌++◌}
use mathlib.Core.List.{List-discrete}
use alma_backend_task.Prelude.{
  String, Bool, true, false, List, ite, Result, ok, panic, String-discrete, ℕ_discrete,
}

pub data Value : Type 0 where
  nil : Value
  str : String → Value
  int : ℤ → Value
  bool : Bool → Value
  strs : List String → Value

unfoldable pub Value-discrete : Discrete Value
unfolding String-discrete
Value-discrete = hlevel (String-discrete, ℕ_discrete, List-discrete)

-- Whether the value can be a map key.
unfoldable pub hashable : Value → Bool
hashable (strs ss) = false
hashable _ = true

-- `a == b` on interface values.
unfoldable pub go_eq : Value → Value → {E : Type 0} → Result E Bool
go_eq (strs ss) (strs ts) = panic
go_eq a b = ok (ite (Value-discrete a b) true false)

-- `fmt.Sprintf("%v", v)`
unfoldable pub sprint : Value → String
sprint nil = "<nil>"
sprint (str s) = s
sprint (int i) = decimal_int i
sprint (bool b) = sprint_bool b
sprint (strs ss) = "[" ++ (join " " ss ++ "]")

-- `s, _ := v.(string)`
unfoldable pub as_str : Value → String
as_str (str s) = s
as_str _ = ""

-- `ss, _ := v.([]string)`
unfoldable pub as_strs : Value → List String
as_strs (strs ss) = ss
as_strs _ = List.[]
