-- ===== src/GroupDelivery/Deliver.antt =====
-- `GroupActionOutbox.deliver`: the transaction that claims a row, the send, and the transaction that
-- settles its outcome, which other processes may come before.
pub mod Outcomes
use telegram_presence.Base.{
  ℕ, zero, ◌+◌, ◌-◌, ◌*◌, ◌^◌, min, Bool, true, false, ◌&&◌, Option, none, some, List, [], ltb, leb,
  if◌then◌else◌, take,
}
use telegram_presence.Base.Int.{ℤ, pos}
use telegram_presence.Base.Text.{Text, codes, text_eq}
use telegram_presence.Base.Value.{tick_rate}
use telegram_presence.GroupDelivery.{Row, Settings, Status, sending, retry, acked, dead}
use telegram_presence.GroupDelivery.Answers.{
  Answer, Submission, Resolution, ack, failure, resolve_transport_ack, extract_telegram_message_ids,
}
use telegram_presence.GroupDelivery.Table.{Table, find, update}

-- An injected sender: whether its signature takes a `random_id`, and what a call of it does.
pub record Sender : Type 0 where
  pub accepts_random_id : Bool
  pub send : Text → ℕ → Text → Option ℤ → Submission

unfoldable pub is_nonzero : ℤ → Bool
is_nonzero (pos zero) = false
is_nonzero _ = true

-- `_invoke_sender`
unfoldable pub invoke_sender : Row → Sender → Submission
unfolding is_nonzero
invoke_sender r s =
    if text_eq r.action (codes "reply") && is_nonzero r.transport_random_id && s.accepts_random_id
    then s.send r.chat r.msg_id r.payload (some r.transport_random_id)
    else s.send r.chat r.msg_id r.payload none

-- What `deliver` returns or raises; `failed` is the transport's exception, raised again.
pub data Delivered : Type 0 where
  already : List ℤ → Delivered
  acknowledged : Answer → Delivered
  failed : Text → Delivered
  dead_lettered : Row → Delivered
  missing in_flight deferred integrity_error assertion_error overflow_error : Delivered

-- `UPDATE … SET status='sending', attempts=attempts+1, updated_at=?`
unfoldable pub begun : ℕ → Row → Row
begun now r = record r { status = sending; attempts = r.attempts + 1; updated_at = now }

-- `base_backoff_sec * (2 ** max(0, attempts - 1))`, at most five minutes
unfoldable pub backoff : Settings → ℕ → ℕ
backoff c attempts =
    let exponent = attempts - 1 in min (300 * tick_rate) (c.base_backoff_sec * 2 ^ exponent)

-- `2 ** max(0, attempts - 1)` is too large for a float, so that its product with a float raises.
unfoldable pub overflows : ℕ → Bool
overflows attempts = leb 1024 (attempts - 1)

-- The update of a failed send: `current` is the row that was read before it, `r` the row that it meets.
unfoldable pub unsent : Settings → ℕ → Text → Row → Row → Row
unfolding backoff
unsent c now error current r =
    let exhausted = leb current.max_attempts current.attempts in
    record r {
      status = if exhausted then dead else retry;
      next_attempt_at = if exhausted then now else now + backoff c current.attempts;
      updated_at = now;
      last_error = take 500 error;
    }

unfoldable pub sent : ℕ → List ℤ → Row → Row
sent later ids r = record r {
  status = acked;
  telegram_message_ids = ids;
  last_error = [];
  updated_at = later;
}

unfoldable pub written : Table → Option Table → Delivered → Table × Delivered
written t none d = (t, integrity_error)
written t (some t') d = (t', d)

-- The settlement of the outcome, on the table that it meets: the update goes by the action id alone.
-- `now` is the time of the claim, `later` that of the answer.
unfoldable pub finish : Settings → ℕ → ℕ → Text → Row → Resolution → Table → Table × Delivered
unfolding unsent sent written overflows
finish c now later id current (ack a) t =
    written t (update (sent later (extract_telegram_message_ids a)) id t) (acknowledged a)
finish c now later id current (failure e) t =
    let settled = written t (update (unsent c now e current) id t) (failed e) in
    if overflows current.attempts then (t, overflow_error) else settled

-- What the claim comes to: the row to be sent, or what the call returns or raises at once.
pub data Claim : Type 0 where
  to_send : Row → Claim
  stops : Delivered → Claim

unfoldable pub claim_read : Text → Table → Option Table → Table × Claim
claim_read id t none = (t, stops integrity_error)
claim_read id t (some t') = elim (find id t') [
  | none ↦ (t', stops assertion_error)
  | some current ↦ (t', to_send current)
]

unfoldable pub by_status : Status → Table × Claim → Row → Table → Table × Claim
by_status acked attempt r t = (t, stops (already r.telegram_message_ids))
by_status dead attempt r t = (t, stops (dead_lettered r))
by_status sending attempt r t = (t, stops in_flight)
by_status _ attempt r t = attempt

unfoldable pub begin_row : ℕ → Text → Row → Table → Table × Claim
unfolding claim_read begun by_status
begin_row now id r t =
    let attempt : Table × Claim =
      if ltb now r.next_attempt_at
      then (t, stops deferred)
      else claim_read id t (update (begun now) id t) in
    by_status r.status attempt r t

-- The first transaction of `deliver`.
unfoldable pub begin_send : ℕ → Text → Table → Table × Claim
unfolding begin_row
begin_send now id t = elim (find id t) [ none ↦ (t, stops missing) | some r ↦ begin_row now id r t ]

-- The send of a claimed row, then its settlement.
unfoldable pub send_begun : Settings → ℕ → ℕ → Text → Sender → Table × Claim → Table × Delivered
unfolding finish invoke_sender
send_begun c now later id s (t, stops d) = (t, d)
send_begun c now later id s (t, to_send current) =
    finish c now later id current (resolve_transport_ack (invoke_sender current s)) t

-- `deliver`, with no other process between its transactions
unfoldable pub deliver : Settings → ℕ → ℕ → Text → Sender → Table → Table × Delivered
unfolding begin_send send_begun
deliver c now later id s t = send_begun c now later id s (begin_send now id t)
