-- ===== src/Base/Value.antt =====
-- The values of a dynamically typed argument, as far as the package's checks tell them apart.
use telegram_presence.Base.Int.{ℤ, pos, negsuc}
use telegram_presence.Base.Text.{Text}
use Prim.Native.Nat.{ℕ, suc, ◌-◌, ◌*◌}
use mathlib.Core.Bool.{Bool}
use mathlib.Core.Option.{Option, none, some}

-- A finite float is a whole number of ticks; `tick_rate` ticks are one second.
abbrev pub tick_rate : ℕ
tick_rate = 1000000

pub data Float : Type 0 where
  nan pos_inf neg_inf : Float
  ticks : ℤ → Float

-- `mapping` is a mapping that JSON can carry, by a JSON text that mappings which are equal in Python
-- share. `other` is any object that none of the checks accepts.
pub data Value : Type 0 where
  null other : Value
  boolean : Bool → Value
  int : ℤ → Value
  float : Float → Value
  str : Text → Value
  mapping : Text → Value

-- `float(n)` of an integer
unfoldable pub float_of_int : ℤ → Float
float_of_int (pos n) = ticks (pos (n * tick_rate))
float_of_int (negsuc n) = ticks (negsuc (suc n * tick_rate - 1))

-- `isinstance(v, (int, float)) and not isinstance(v, bool)`, with the `float(v)` that follows it
unfoldable pub as_number : Value → Option Float
unfolding float_of_int
as_number (int n) = some (float_of_int n)
as_number (float x) = some x
as_number _ = none

-- `math.isfinite(x) and x >= 0`, with the ticks
unfoldable pub finite_nonneg : Float → Option ℕ
finite_nonneg (ticks (pos n)) = some n
finite_nonneg _ = none

-- `isinstance(v, int) and not isinstance(v, bool) and v >= 0`, with the number
unfoldable pub as_nat : Value → Option ℕ
as_nat (int (pos n)) = some n
as_nat _ = none
