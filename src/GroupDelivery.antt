-- ===== src/GroupDelivery.antt =====
-- `group_delivery.py`: the durable table of the agent's group actions, its rows, and the answers of
-- the transports that it records.
pub mod Answers
pub mod Table
pub mod Queue
pub mod Deliver
pub mod Prune
pub mod Lifecycle
pub mod Drain
mod Tests
use telegram_presence.Base.{ℕ, ◌*◌, Bool, true, false, List}
use telegram_presence.Base.Int.{ℤ}
use telegram_presence.Base.Text.{Text}
use telegram_presence.Base.Value.{tick_rate}

-- The values of the column `status`.
pub data Status : Type 0 where
  pending sending retry acked dead superseded : Status

-- A row of the table `group_actions`: a `GroupAction` with the two times that it leaves out.
pub record Row : Type 0 where
  pub action_id : Text
  pub chat : Text
  pub msg_id : ℕ
  pub action : Text
  pub intent_key : Text
  pub transport_random_id : ℤ
  pub payload : Text
  pub status : Status
  pub attempts : ℕ
  pub max_attempts : ℕ
  pub next_attempt_at : ℕ
  pub created_at : ℕ
  pub updated_at : ℕ
  pub telegram_message_ids : List ℤ
  pub last_error : Text

-- The settings of a `GroupActionOutbox`, its durations in ticks.
pub record Settings : Type 0 where
  pub max_attempts : ℕ
  pub base_backoff_sec : ℕ

-- `hashlib.sha256` of a text's UTF-8 bytes: its hexadecimal digits, and its first eight bytes as a
-- signed integer.
pub record Sha256 : Type 0 where
  pub hexdigest : Text → Text
  pub signed_int64 : Text → ℤ

abbrev pub sending_lease_seconds : ℕ
sending_lease_seconds = 120 * tick_rate

abbrev pub terminal_retention_seconds : ℕ
terminal_retention_seconds = 30 * 24 * 60 * 60 * tick_rate

abbrev pub terminal_max_rows : ℕ
terminal_max_rows = 5000

abbrev pub prune_interval_seconds : ℕ
prune_interval_seconds = 6 * 60 * 60 * tick_rate

unfoldable pub is_superseded : Status → Bool
is_superseded superseded = true
is_superseded _ = false

-- `status IN ('acked','dead','superseded')`
unfoldable pub is_terminal : Status → Bool
is_terminal acked = true
is_terminal dead = true
is_terminal superseded = true
is_terminal _ = false

-- `status IN ('pending','retry')`
unfoldable pub is_waiting : Status → Bool
is_waiting pending = true
is_waiting retry = true
is_waiting _ = false
