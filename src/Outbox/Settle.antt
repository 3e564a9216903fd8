-- ===== src/Outbox/Settle.antt =====
-- Sending a claimed record and settling the result: `_receipt`, `_settle`, `_send_claimed` and the
-- two dispatch calls of `DurableOutbox`.
pub mod Progress
pub mod Dispatch
use telegram_presence.Base.{
  ℕ, zero, suc, ◌+◌, ◌≤◌, ◌<◌, ◌≡◌, refl, Bool, true, false, not, ◌&&◌, ◌||◌, Option, none, some,
  List, [], ◌∷◌, ◌++◌, arith, ◌==◌, if◌then◌else◌, ltb, leb, max, take, length,
}
use telegram_presence.Base.Text.{Text, codes, text_eq, is_empty, strip}
use telegram_presence.Base.Result.{
  Result, ok, err, value_error, corruption_error, ◌>>=◌, ◌>>◌, raise_if,
}
use telegram_presence.Delivery.{sending, acked, failed, dead_letter, state_eq}
use telegram_presence.Delivery.Envelope.{MessageEnvelope}
use telegram_presence.Delivery.Receipt.{TransportReceipt}
use telegram_presence.Delivery.Receipt
use telegram_presence.Delivery.Record.{DeliveryRecord, post_init}
use telegram_presence.Outbox.{Config, Store, get, write, replace, retry_delay}
use telegram_presence.Outbox.Lease.{Scan, claim_due_transports, claim_id, recover_inflight}

-- What `result.get(…)` finds in a mapping: a marker that is a boolean, anything else, or nothing; the
-- texts are `str(…)` of the value, and empty where it is missing or false.
pub data Marker : Type 0 where
  missing not_boolean : Marker
  marked : Bool → Marker

pub record ReceiptMapping : Type 0 where
  pub success : Marker
  pub accepted : Marker
  pub transport : Text
  pub correlation_id : Text
  pub transport_message_id : Text
  pub message_id : Text
  pub error : Option Text

-- What a sender does: it returns a value, or raises an exception with `"{type}: {text}"`.
pub data Sent : Type 0 where
  receipt : TransportReceipt → Sent
  boolean : Bool → Sent
  mapping : ReceiptMapping → Sent
  other_value : Sent
  raises : Text → Sent

-- What `_send_claimed` hands to `_settle`.
pub data Outcome : Type 0 where
  received : TransportReceipt → Outcome
  raised : Text → Outcome

pub value_error_text : Text → Outcome
value_error_text t = raised (codes "ValueError: " ++ t)

pub matching : TransportReceipt → MessageEnvelope → Outcome
unfolding value_error_text
matching r e =
    if not (text_eq r.transport e.transport)
    then value_error_text (codes "transport receipt does not match envelope transport")
    else if not (text_eq r.correlation_id e.correlation_id)
    then value_error_text (codes "transport receipt does not match correlation_id")
    else received r

unfoldable pub or_text : Text → Text → Text
or_text [] u = u
or_text (c ∷ t) u = c ∷ t

pub optional_text : Text → Option Text
optional_text [] = none
optional_text (c ∷ t) = some (c ∷ t)

-- `result.get("success", result.get("ok"))`
pub marker : ReceiptMapping → Marker
marker m = elim m.success [ missing ↦ m.accepted | not_boolean ↦ not_boolean | marked b ↦ marked b ]

-- The message of the `ValueError` that `_identifier` raises.
pub identifier_message : Text → Text → Text
identifier_message field t =
    if is_empty (strip t)
    then field ++ codes " must be a non-empty string"
    else field ++ codes " exceeds 256 characters"

pub identifier_fails : Text → Bool
identifier_fails t = is_empty (strip t) || ltb 256 (length (strip t))

pub built : Result TransportReceipt → Text → Text → MessageEnvelope → Outcome
unfolding matching value_error_text identifier_message identifier_fails
built (ok r) transport correlation_id e = matching r e
built (err _) transport correlation_id e =
    if identifier_fails transport
    then value_error_text (identifier_message (codes "transport") transport)
    else value_error_text (identifier_message (codes "correlation_id") correlation_id)

pub from_mapping : ReceiptMapping → MessageEnvelope → Marker → Outcome
unfolding built or_text optional_text value_error_text
from_mapping m e (marked b) =
    let transport = or_text m.transport e.transport in
    let correlation_id = or_text m.correlation_id e.correlation_id in
    built
      (Receipt.new b transport correlation_id
        (optional_text (or_text m.transport_message_id m.message_id)) m.error)
      transport correlation_id e
from_mapping m e _ = value_error_text (codes "transport mapping must contain boolean success or ok")

pub false_error : Bool → Option Text
false_error true = none
false_error false = some (codes "transport returned false")

-- `_receipt`, with the exceptions that `_send_claimed` catches around it
pub outcome : Sent → MessageEnvelope → Outcome
unfolding matching from_mapping false_error marker value_error_text built
outcome (receipt r) e = matching r e
outcome (boolean b) e =
    built (Receipt.new b e.transport e.correlation_id none (false_error b)) e.transport
      e.correlation_id e
outcome (mapping m) e = from_mapping m e (marker m)
outcome other_value e =
    value_error_text (codes "transport must return bool, mapping, or TransportReceipt")
outcome (raises t) e = raised t

unfoldable pub or_default : Option Text → Text
unfolding or_text
or_default none = codes "transport failed"
or_default (some t) = or_text t (codes "transport failed")

-- `receipt.error if receipt else None`: a receipt is true when it reports success.
unfoldable pub receipt_error : TransportReceipt → Option Text
receipt_error r = if r.success then r.error else none

-- `error or (receipt.error if receipt else None) or "transport failed"`
unfoldable pub failure_text : Outcome → Text
unfolding or_default receipt_error
failure_text (received r) = or_default (receipt_error r)
failure_text (raised t) = or_default (some t)

unfoldable pub succeeded : ℕ → TransportReceipt → DeliveryRecord → DeliveryRecord
succeeded now r d = record d {
  state = acked;
  next_attempt_at = none;
  updated_at = now;
  sending_started_at = none;
  acked_at = some now;
  last_error = none;
  transport_message_id = r.transport_message_id;
  lease_id = none;
}

unfoldable pub unsuccessful : Config → ℕ → Text → DeliveryRecord → DeliveryRecord
unsuccessful c now message d =
    let exhausted = leb c.max_attempts d.attempts in
    record d {
      state = if exhausted then dead_letter else failed;
      next_attempt_at = if exhausted then none else some (now + retry_delay c d.attempts);
      updated_at = now;
      sending_started_at = none;
      acked_at = none;
      last_error = some (take 1000 message);
      lease_id = none;
    }

-- The record that a claim settles to.
unfoldable pub settled : Config → ℕ → Outcome → DeliveryRecord → DeliveryRecord
unfolding succeeded unsuccessful failure_text
settled c now (received r) d =
    if r.success then succeeded now r d else unsuccessful c now (failure_text (received r)) d
settled c now (raised t) d = unsuccessful c now (failure_text (raised t)) d

-- `current.lease_id != claimed.lease_id`, negated
unfoldable pub lease_eq : Option Text → Option Text → Bool
lease_eq none none = true
lease_eq (some a) (some b) = text_eq a b
lease_eq _ _ = false

unfoldable pub settle_found :
    Config → ℕ → DeliveryRecord → Outcome → DeliveryRecord → Store → Result (Store × DeliveryRecord)
unfolding lease_eq
settle_found c now claimed o current s =
    if not (state_eq current.state sending) || not (lease_eq current.lease_id claimed.lease_id)
    then ok (s, current)
    else replace (settled c (max now current.updated_at) o current) s

-- `_settle`
unfoldable pub settle :
    Config → ℕ → DeliveryRecord → Outcome → Store → Result (Store × DeliveryRecord)
unfolding settle_found
settle c now claimed o s =
    get claimed.delivery_id s
    >>= elim [ none ↦ err corruption_error | some current ↦ settle_found c now claimed o current s ]

-- `_send_claimed`
pub send_claimed :
    Config → ℕ → DeliveryRecord → (MessageEnvelope → Sent) → Store → Result (Store × DeliveryRecord)
send_claimed c now claimed sender s =
    settle c now claimed (outcome (sender claimed.envelope) claimed.envelope) s

-- One round of a dispatch: the clock at the claim and at the settlement, the lease id that `uuid4`
-- draws, and what the sender does in this round.
pub record Round : Type 0 where
  pub claim_time : ℕ
  pub lease : Text
  pub settle_time : ℕ
  pub sender : MessageEnvelope → Sent

pub sent_one : Store × DeliveryRecord → Store × Option DeliveryRecord
sent_one out = (out.0, some out.1)

-- `dispatch_one`
pub dispatch_one : Config → Text → ℕ → Round → Store → Result (Store × Option DeliveryRecord)
unfolding sent_one
dispatch_one c id recover_time round s = do
  p ← recover_inflight c false recover_time s
  claim ← claim_id c id round.claim_time round.lease p.0
  elim claim.1 [
    | none ↦ ok claim
    | some claimed ↦
        send_claimed c round.settle_time claimed round.sender claim.0 >>= λ out. ok (sent_one out)
  ]

-- The `for _ in range(limit)` of `dispatch_due`, one round for each turn.
pub dispatch_rounds : Config → Option (List Text) → List Round → Scan → Result Scan
dispatch_rounds c transports [] p = ok p
dispatch_rounds c transports (round ∷ rounds) p = do
  claim ← claim_due_transports c transports round.claim_time round.lease p.0
  elim claim.1 [
    | none ↦ ok (claim.0, p.1)
    | some claimed ↦ send_claimed c round.settle_time claimed round.sender claim.0 >>= λ out.
        dispatch_rounds c transports rounds (out.0, p.1 ++ out.1 ∷ [])
  ]

-- `dispatch_due`, once its arguments are resolved to a transport filter
pub dispatch_due : Config → Option (List Text) → ℕ → List Round → Store → Result Scan
unfolding dispatch_rounds
dispatch_due c transports recover_time rounds s = do
  p ← recover_inflight c false recover_time s
  dispatch_rounds c transports rounds (p.0, [])
