-- ===== src/Outbox/Queue.antt =====
-- The operations of `DurableOutbox` that an application calls: enqueue, list, requeue, purge.
pub mod Progress
pub mod Purge
pub mod Idempotence
use telegram_presence.Base.{
  ℕ, zero, suc, ◌+◌, ◌≤◌, ◌<◌, ◌≡◌, refl, Bool, true, false, not, ◌&&◌, ◌||◌, Option, none, some,
  List, [], ◌∷◌, ◌++◌, arith, ◌==◌, if◌then◌else◌, ltb, leb, max, keep,
}
use telegram_presence.Base.Int.{ℤ, pos, negsuc}
use telegram_presence.Base.Int.{int_eq}
use telegram_presence.Base.Text.{Text, codes, text_eq}
use telegram_presence.Base.Result.{Result, ok, err, value_error, key_error, ◌>>=◌, ◌>>◌, raise_if}
use telegram_presence.Content.Media.{MediaDescriptor}
use telegram_presence.Delivery.{DeliveryState, pending, failed, acked, dead_letter, state_eq}
use telegram_presence.Delivery.Envelope.{
  MessageEnvelope, Kind, media, message, notification, reaction, reply, Peer, number, handle,
}
use telegram_presence.Delivery.Record.{DeliveryRecord, post_init}
use telegram_presence.Outbox.{Config, Store, find, get, write, unlink, records}

pub peer_eq : Peer → Peer → Bool
unfolding int_eq
peer_eq (number m) (number n) = int_eq m n
peer_eq (handle s) (handle t) = text_eq s t
peer_eq _ _ = false

pub kind_eq : Kind → Kind → Bool
kind_eq media media = true
kind_eq message message = true
kind_eq notification notification = true
kind_eq reaction reaction = true
kind_eq reply reply = true
kind_eq _ _ = false

pub option_eq {ℓ} : {A : Type ℓ} → (A → A → Bool) → Option A → Option A → Bool
option_eq eq none none = true
option_eq eq (some a) (some b) = eq a b
option_eq eq _ _ = false

pub media_eq : MediaDescriptor → MediaDescriptor → Bool
unfolding option_eq
media_eq a b =
    text_eq a.mime_type b.mime_type
    && (a.size_bytes == b.size_bytes)
    && text_eq a.source b.source
    && option_eq text_eq a.filename b.filename

-- Equality of two `_request_payload`s: everything but the envelope's id, correlation and time. Equal
-- metadata have one text, as `MessageEnvelope` says.
pub same_request : MessageEnvelope → MessageEnvelope → Bool
unfolding option_eq media_eq kind_eq peer_eq
same_request a b =
    option_eq text_eq a.causation_id b.causation_id
    && text_eq a.idempotency_key b.idempotency_key
    && text_eq a.transport b.transport
    && peer_eq a.peer b.peer
    && kind_eq a.kind b.kind
    && text_eq a.text b.text
    && option_eq ◌==◌ a.reply_to_message_id b.reply_to_message_id
    && option_eq media_eq a.media b.media
    && option_eq ◌==◌ a.owner_user_id b.owner_user_id
    && text_eq a.metadata b.metadata

-- The name that `_delivery_id` hashes.
unfoldable pub delivery_name : MessageEnvelope → Text
delivery_name e = codes "telegram-presence:" ++ (e.transport ++ (codes ":" ++ e.idempotency_key))

unfoldable pub new_record : Text → MessageEnvelope → ℕ → DeliveryRecord
new_record id e now = record {
  envelope = e;
  state = pending;
  attempts = 0;
  next_attempt_at = some now;
  created_at = now;
  updated_at = now;
  sending_started_at = none;
  acked_at = none;
  last_error = none;
  transport_message_id = none;
  lease_id = none;
  delivery_id = id;
}

unfoldable pub enqueue_new : Text → MessageEnvelope → ℕ → Store → Result (Store × DeliveryRecord)
enqueue_new id e now s = do r ← post_init (new_record id e now); s' ← write r s; ok (s', r)

unfoldable pub enqueue_again :
    MessageEnvelope → DeliveryRecord → Store → Result (Store × DeliveryRecord)
enqueue_again e existing s = do
  raise_if (not (same_request existing.envelope e)) value_error
  ok (s, existing)

-- `uuid5` is the hex form of the name-based UUID in the URL namespace.
module _ (uuid5 : Text → Text) where
  -- `_delivery_id`
  unfoldable pub delivery_id : MessageEnvelope → Text
  delivery_id e = uuid5 (delivery_name e)

  unfoldable pub enqueue : MessageEnvelope → ℕ → Store → Result (Store × DeliveryRecord)
  unfolding delivery_id
  enqueue e now s = get (delivery_id e) s >>= elim [
    | none ↦ enqueue_new (delivery_id e) e now s
    | some existing ↦ enqueue_again e existing s
  ]

pub state_in : List DeliveryState → DeliveryState → Bool
state_in [] d = false
state_in (w ∷ ws) d = state_eq w d || state_in ws d

-- `list(states)`
pub list : Option (List DeliveryState) → Store → List DeliveryRecord
unfolding state_in
list none s = records s
list (some wanted) s = keep (λ r. state_in wanted r.state) (records s)

pub requeued : ℕ → DeliveryRecord → DeliveryRecord
requeued now r =
    let t = max now r.updated_at in
    record r {
      state = failed;
      attempts = 0;
      next_attempt_at = some t;
      updated_at = t;
      last_error = some (codes "operator requeued dead letter");
      lease_id = none;
    }

pub requeue_found : ℕ → DeliveryRecord → Store → Result (Store × DeliveryRecord)
unfolding requeued
requeue_found now r s = do
  raise_if (not (state_eq r.state dead_letter)) value_error
  updated ← post_init (requeued now r)
  s' ← write updated s
  ok (s', updated)

pub requeue_dead_letter : Text → ℕ → Store → Result (Store × DeliveryRecord)
requeue_dead_letter id now s =
    get id s >>= elim [ none ↦ err key_error | some r ↦ requeue_found now r s ]

-- Whether `purge_acked(before=…)` deletes a record.
pub purges : Option ℕ → DeliveryRecord → Bool
purges none r = state_eq r.state acked
purges (some before) r =
    state_eq r.state acked && elim r.acked_at [ none ↦ false | some t ↦ ltb t before ]

pub purge_loop : Option ℕ → List DeliveryRecord → Store × ℕ → Store × ℕ
unfolding purges
purge_loop before [] out = out
purge_loop before (r ∷ rs) out =
    purge_loop before rs (if purges before r then (unlink r.delivery_id out.0, out.1 + 1) else out)

pub purge_acked : Option ℕ → Store → Store × ℕ
unfolding purge_loop
purge_acked before s = purge_loop before (records s) (s, 0)
