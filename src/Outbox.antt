-- ===== src/Outbox.antt =====
-- telegram_presence/outbox.py: the configuration of a `DurableOutbox`, and its directory of records.
pub mod Queue
mod Tests
pub mod Lease
pub mod Settle
pub mod Backoff
pub mod Laws
pub mod Lifecycle
pub mod History
use telegram_presence.Base.{
  ℕ, zero, suc, ◌+◌, ◌-◌, ◌*◌, ◌^◌, ◌≤◌, ◌<◌, ◌≡◌, refl, Bool, true, false, not, ◌&&◌, ◌||◌, Option,
  none, some, List, [], ◌∷◌, arith, ◌==◌, if◌then◌else◌, ltb, leb, length, min, max,
}
use telegram_presence.Base.Int.{pos}
use telegram_presence.Base.Text.{Text, codes, text_eq, text_leb}
use telegram_presence.Base.Result.{Result, ok, err, value_error, ◌>>=◌, ◌>>◌, raise_if}
use telegram_presence.Base.Value.{Value, int, as_number, finite_nonneg}
use telegram_presence.Base.Sort.{sort}
use telegram_presence.Delivery.Record.{DeliveryRecord, post_init}

-- Durations are in ticks.
pub record Config : Type 0 where
  pub max_attempts : ℕ
  pub base_retry_seconds : ℕ
  pub max_retry_seconds : ℕ
  pub sending_timeout_seconds : ℕ

pub positive_count : Value → Result ℕ
positive_count (int (pos (suc n))) = ok (suc n)
positive_count _ = err value_error

pub positive_ticks : Option ℕ → Result ℕ
positive_ticks (some (suc n)) = ok (suc n)
positive_ticks _ = err value_error

pub duration : Value → Result ℕ
unfolding positive_ticks
duration v = elim (as_number v) [
  | none ↦ err value_error
  | some x ↦ positive_ticks (finite_nonneg x)
]

-- The checks of `__init__`.
pub configure : Value → Value → Value → Value → Result Config
configure max_attempts base_retry max_retry sending_timeout = do
  attempts ← positive_count max_attempts
  base ← duration base_retry
  cap ← duration max_retry
  timeout ← duration sending_timeout
  raise_if (ltb cap base) value_error
  ok (record {
    max_attempts = attempts;
    base_retry_seconds = base;
    max_retry_seconds = cap;
    sending_timeout_seconds = timeout;
  })

-- `_retry_delay`: an overflow of `ldexp` gives the cap, as `min` does here.
unfoldable pub retry_delay : Config → ℕ → ℕ
retry_delay c attempts =
    let exponent = attempts - 1 in min c.max_retry_seconds (c.base_retry_seconds * 2 ^ exponent)

-- The records of the outbox's directory, one file for each delivery id.
abbrev pub Store : Type 0
Store = List DeliveryRecord

pub find : Text → Store → Option DeliveryRecord
find id [] = none
find id (r ∷ s) = if text_eq r.delivery_id id then some r else find id s

-- `os.replace` of the record's file.
pub put : DeliveryRecord → Store → Store
put r [] = r ∷ []
put r (q ∷ s) = if text_eq q.delivery_id r.delivery_id then r ∷ s else q ∷ put r s

-- `unlink` of the record's file.
pub unlink : Text → Store → Store
unlink id [] = []
unlink id (r ∷ s) = if text_eq r.delivery_id id then s else r ∷ unlink id s

-- `[A-Za-z0-9_.-]`
pub safe_char : ℕ → Bool
safe_char c =
    (leb b'A' c && leb c b'Z')
    || (leb b'a' c && leb c b'z')
    || (leb b'0' c && leb c b'9')
    || (c == b'_')
    || (c == b'.')
    || (c == b'-')

pub all_safe : Text → Bool
unfolding safe_char
all_safe [] = true
all_safe (c ∷ t) = safe_char c && all_safe t

-- `_SAFE_ID.fullmatch`
pub safe_id : Text → Bool
unfolding all_safe
safe_id t = leb 1 (length t) && leb (length t) 256 && all_safe t

-- `_get_unlocked`, with the check of `_path`
pub get : Text → Store → Result (Option DeliveryRecord)
get id s = do raise_if (not (safe_id id)) value_error; ok (find id s)

-- `_write_unlocked`, with the check of `_path`
pub write : DeliveryRecord → Store → Result Store
write r s = do raise_if (not (safe_id r.delivery_id)) value_error; ok (put r s)

-- by `(created_at, delivery_id)`
pub created_before : DeliveryRecord → DeliveryRecord → Bool
created_before a b =
    ltb a.created_at b.created_at
    || ((a.created_at == b.created_at) && text_leb a.delivery_id b.delivery_id)

-- `_records_unlocked`
pub records : Store → List DeliveryRecord
records s = sort created_before s

-- Replace a record, by the checks of its constructor and the file's path.
pub replace : DeliveryRecord → Store → Result (Store × DeliveryRecord)
replace r s = do updated ← post_init r; s' ← write updated s; ok (s', updated)
