-- ===== src/GroupDelivery/Tests.antt =====
-- The calls on the table of group actions at concrete rows.
use telegram_presence.Base.{◌+◌, ◌*◌, ◌≤◌, ◌≡◌, refl, true, false, none, some, List, [], ◌∷◌, arith}
use telegram_presence.Base.Int.{pos}
use telegram_presence.Base.Text.{Text, codes, text_eq, strip, is_empty, lstrip_at, lower}
use telegram_presence.Base.Value.{tick_rate}
use telegram_presence.Base.Result.{ok}
use telegram_presence.GroupDelivery.{
  Row, Settings, Sha256, pending, retry, acked, is_waiting, is_superseded, is_terminal,
}
use telegram_presence.Inbox.Peers.{canonical_chat_peer}
use telegram_presence.GroupDelivery.Answers.{object, raised, returned, failure}
use telegram_presence.GroupDelivery.Table.{Table, find, has_key, key_of, update, replace, conflict}
use telegram_presence.GroupDelivery.Table.Laws.{IsValid, clash}
use telegram_presence.GroupDelivery.Queue.{Request, enqueue, natural_key, known_action, int_max}
use telegram_presence.GroupDelivery.Queue.Idempotence.{enqueue-enqueue_same}
use telegram_presence.GroupDelivery.Deliver.{
  Sender, begun, unsent, written, overflows, backoff, finish, deliver,
}
use telegram_presence.GroupDelivery.Deliver.Outcomes.{Settled, deliver_due}
use telegram_presence.GroupDelivery.Prune.{prune_terminal_actions, terminal_row}
use telegram_presence.GroupDelivery.Prune.Bounds.{terminal_count, prune_bounds, prune_active}
use telegram_presence.GroupDelivery.Drain.{Clock, drain_group_actions}
use telegram_presence.GroupDelivery.Drain.Bounds.{drain_group_actions-IsValid}
use telegram_presence.GroupDelivery.Lifecycle.History.{
  Call, enqueue_call, begin_call, finish_call, deliver_call, recover_call, Held, step, run,
  run-IsValid, run-Held,
}

abbrev plain_sha : Sha256
plain_sha = record { hexdigest = λ t. t; signed_int64 = λ t. pos 7 }

abbrev small : Settings
small = record { max_attempts = 3; base_backoff_sec = 2 * tick_rate }

abbrev reply_request : Request
reply_request = record {
  chat = codes " @Chat ";
  msg_id = pos 5;
  action = codes "reply";
  payload = codes "hello";
  idempotency_key = [];
}

abbrev rephrased : Request
rephrased = record {
  chat = codes "chat";
  msg_id = pos 5;
  action = codes "reply";
  payload = codes "good day";
  idempotency_key = [];
}

abbrev accepting : Sender
accepting = record {
  accepts_random_id = true;
  send = λ chat msg_id payload random_id. returned (object (some (pos 9)) none);
}

abbrev failing : Sender
failing = record {
  accepts_random_id = false;
  send = λ chat msg_id payload random_id. raised (codes "OSError: down");
}

abbrev waiting_row : Row
waiting_row = record {
  action_id = codes "tga-1";
  chat = codes "@chat";
  msg_id = 5;
  action = codes "reply";
  intent_key = [];
  transport_random_id = pos 7;
  payload = codes "hello";
  status = pending;
  attempts = 0;
  max_attempts = 3;
  next_attempt_at = 10;
  created_at = 10;
  updated_at = 10;
  telegram_message_ids = [];
  last_error = [];
}

abbrev done_row : Row
done_row = record waiting_row {
  action_id = codes "tga-2";
  msg_id = 6;
  status = acked;
  attempts = 1;
}

abbrev older_row : Row
older_row = record done_row { action_id = codes "tga-3"; msg_id = 4; updated_at = 8 }

abbrev three_rows : Table
three_rows = done_row ∷ waiting_row ∷ older_row ∷ []

three_rows-IsValid : IsValid three_rows
unfolding clash text_eq is_superseded has_key key_of
three_rows-IsValid = (((refl, refl), ((refl, refl), tt)), (((refl, refl), tt), (tt, tt)))

-- A send of the waiting row is claimed, recovered as stale and delivered again, before its own failure
-- is settled.
abbrev day : List Call
day =
    enqueue_call small 11 reply_request
    ∷ begin_call 12 (codes "tga-1")
    ∷ recover_call (200 * tick_rate)
    ∷ deliver_call small (201 * tick_rate) (202 * tick_rate) (codes "tga-1") accepting
    ∷ finish_call small 12 203 (codes "tga-1") (begun 12 waiting_row)
        (failure (codes "OSError: down"))
    ∷ []

run-IsValid_example : IsValid (run plain_sha day three_rows)
run-IsValid_example = run-IsValid plain_sha day three_rows three_rows-IsValid

run-Held_example :
    (r : Row) × (find (codes "tga-2") (run plain_sha day three_rows) ≡ some r) × Held day done_row r
unfolding find text_eq
run-Held_example =
    run-Held plain_sha day three_rows (codes "tga-2") done_row three_rows-IsValid refl

-- The settlement of a failed send sets an acknowledged row back to a retry.
retried_after_ack :
    find (codes "tga-2") (
      step plain_sha
        (finish_call small 12 203 (codes "tga-2") done_row (failure (codes "OSError: down")))
        three_rows)
    ≡ some (record done_row {
      status = retry;
      next_attempt_at = 12 + 2 * tick_rate;
      updated_at = 12;
      last_error = codes "OSError: down";
    })
unfolding find text_eq step finish unsent written overflows backoff update replace conflict has_key
    key_of is_superseded
retried_after_ack = refl

deliver_due_example :
    Settled small 12 13
      (codes "tga-1")
      failing
      waiting_row
      three_rows
      (deliver small 12 13 (codes "tga-1") failing three_rows)
unfolding find text_eq is_waiting
deliver_due_example =
    deliver_due small 12 13 (codes "tga-1") failing waiting_row three_rows three_rows-IsValid refl
      refl (omega arith) (omega arith)

enqueue-enqueue_same_example :
    (out : Table × Row) × (enqueue plain_sha small 11 reply_request three_rows ≡ ok out)
    × (enqueue plain_sha small 50 rephrased out.0 ≡ ok out)
unfolding known_action natural_key text_eq canonical_chat_peer int_max strip is_empty lstrip_at
    lower
enqueue-enqueue_same_example =
    enqueue-enqueue_same plain_sha small small 11 50 reply_request rephrased three_rows refl refl
      refl

prune_bounds_example :
    IsValid (prune_terminal_actions 20 5 1 three_rows).0
    × (terminal_count (prune_terminal_actions 20 5 1 three_rows).0 ≤ 1)
prune_bounds_example = prune_bounds 20 5 1 three_rows three_rows-IsValid

prune_active_example :
    find (codes "tga-1") (prune_terminal_actions 20 5 1 three_rows).0 ≡ some waiting_row
unfolding find text_eq terminal_row is_terminal
prune_active_example = prune_active 20 5 1 three_rows (codes "tga-1") waiting_row refl refl

abbrev noon : Text → Clock
noon id = (12, 13)

drain_group_actions-IsValid_example :
    IsValid (drain_group_actions small 12 noon accepting failing (pos 4) three_rows).0
    × ((drain_group_actions small 12 noon accepting failing (pos 4) three_rows).1
        ≤ int_max 1 (pos 4))
drain_group_actions-IsValid_example =
    drain_group_actions-IsValid small 12 noon accepting failing (pos 4) three_rows
      three_rows-IsValid
