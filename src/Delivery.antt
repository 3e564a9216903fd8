-- ===== src/Delivery.antt =====
-- telegram_presence/delivery.py: the states of a delivery, and the checks its records share.
pub mod Envelope
pub mod Receipt
pub mod Record
use telegram_presence.Base.{
  ℕ, ◌≤◌, ◌<◌, ◌≡◌, refl, Bool, true, false, not, ◌&&◌, ◌||◌, Option, none, some, arith, ◌==◌,
  if◌then◌else◌, ltb, length,
}
use telegram_presence.Base.Text.{Text, strip, is_empty}
use telegram_presence.Base.Result.{Result, ok, err, value_error, ◌>>=◌, ◌>>◌, raise_if}
use telegram_presence.Base.Value.{Value, null, str, as_number, finite_nonneg}

pub data DeliveryState : Type 0 where
  pending sending acked failed dead_letter : DeliveryState

unfoldable pub state_eq : DeliveryState → DeliveryState → Bool
state_eq pending pending = true
state_eq sending sending = true
state_eq acked acked = true
state_eq failed failed = true
state_eq dead_letter dead_letter = true
state_eq _ _ = false

-- `_identifier` of a string
unfoldable pub identifier : Text → Result Text
identifier t = do
  raise_if (is_empty (strip t)) value_error
  raise_if (ltb 256 (length (strip t))) value_error
  ok (strip t)

-- `_identifier`
unfoldable pub identifier_value : Value → Result Text
identifier_value (str t) = identifier t
identifier_value _ = err value_error

-- The identifier of an optional field.
unfoldable pub optional_identifier : Option Text → Result (Option Text)
optional_identifier none = ok none
optional_identifier (some t) = identifier t >>= λ u. ok (some u)

pub or_value_error : Option ℕ → Result (Option ℕ)
or_value_error none = err value_error
or_value_error (some t) = ok (some t)

-- `_timestamp`, in ticks
unfoldable pub timestamp : Value → Result (Option ℕ)
unfolding or_value_error
timestamp null = ok none
timestamp v = elim (as_number v) [
  | none ↦ err value_error
  | some x ↦ or_value_error (finite_nonneg x)
]
