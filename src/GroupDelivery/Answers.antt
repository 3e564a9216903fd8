-- ===== src/GroupDelivery/Answers.antt =====
-- What a transport answers: `_optional_int` results, `extract_telegram_message_id(s)`,
-- `resolve_transport_ack`.
use telegram_presence.Base.{
  Bool, true, false, Option, none, some, List, [], ◌∷◌, ◌++◌, if◌then◌else◌,
}
use telegram_presence.Base.Int.{ℤ}
use telegram_presence.Base.Text.{Text, codes}

-- A transport's answer. The fields `message_id` and `id` of an object or a dictionary, and the
-- elements of its `message_ids`, are what `_optional_int` makes of them, `none` where they are missing.
-- `other` is any value without them, such as `True`.
mutual
  pub data Answer : Type 0 where
    nothing refusal other : Answer
    object : Option ℤ → Option ℤ → Answer
    dictionary : Option ℤ → Option ℤ → Option (List (Option ℤ)) → Answer
    sequence : Answers → Answer

  pub data Answers : Type 0 where
    empty : Answers
    entry : Answer → Answers → Answers

unfoldable pub first_of : Option ℤ → Option ℤ → Option ℤ
first_of none later = later
first_of (some n) later = some n

-- `extract_telegram_message_id`: the last element that has an id, for a sequence
unfoldable mutual
  pub extract_telegram_message_id : Answer → Option ℤ
  extract_telegram_message_id (object message_id id) = first_of message_id id
  extract_telegram_message_id (dictionary message_id id ids) = first_of message_id id
  extract_telegram_message_id (sequence items) = extract_last_id items
  extract_telegram_message_id _ = none

  pub extract_last_id : Answers → Option ℤ
  extract_last_id empty = none
  extract_last_id (entry item items) =
      first_of (extract_last_id items) (extract_telegram_message_id item)

unfoldable pub parsed_ids : List (Option ℤ) → List ℤ
parsed_ids [] = []
parsed_ids (none ∷ values) = parsed_ids values
parsed_ids (some n ∷ values) = n ∷ parsed_ids values

unfoldable pub single_id : Option ℤ → List ℤ
single_id none = []
single_id (some n) = n ∷ []

-- `extract_telegram_message_ids`
unfoldable mutual
  pub extract_telegram_message_ids : Answer → List ℤ
  extract_telegram_message_ids (dictionary message_id id (some values)) = parsed_ids values
  extract_telegram_message_ids (dictionary message_id id none) = single_id (first_of message_id id)
  extract_telegram_message_ids (sequence items) = extract_all_ids items
  extract_telegram_message_ids (object message_id id) = single_id (first_of message_id id)
  extract_telegram_message_ids _ = []

  pub extract_all_ids : Answers → List ℤ
  extract_all_ids empty = []
  extract_all_ids (entry item items) = extract_telegram_message_ids item ++ extract_all_ids items

-- What a call of a sender does: it raises, it returns a value, or it returns a future, whose
-- `result` returns or raises, a timeout included. A raised exception is its `type: message`.
pub data Submission : Type 0 where
  raised : Text → Submission
  returned : Answer → Submission
  future_returned : Answer → Submission
  future_raised : Text → Submission

pub data Resolution : Type 0 where
  ack : Answer → Resolution
  failure : Text → Resolution

unfoldable pub is_refused : Answer → Bool
is_refused nothing = true
is_refused refusal = true
is_refused _ = false

-- `resolve_transport_ack`, with the sender's own exception
unfoldable pub resolve_transport_ack : Submission → Resolution
unfolding is_refused
resolve_transport_ack (raised e) = failure e
resolve_transport_ack (returned a) =
    if is_refused a
    then failure (codes "RuntimeError: transport did not accept delivery")
    else ack a
resolve_transport_ack (future_returned a) =
    if is_refused a
    then failure (codes "RuntimeError: transport completed without an ACK")
    else ack a
resolve_transport_ack (future_raised e) = failure e
