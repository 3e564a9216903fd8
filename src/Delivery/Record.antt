-- ===== src/Delivery/Record.antt =====
-- `DeliveryRecord` of telegram_presence/delivery.py: the persisted state of one envelope, and the
-- shape that `__post_init__` holds each state to.
pub mod Laws
use telegram_presence.Base.{
  ℕ, ◌≤◌, ◌<◌, ◌≡◌, Bool, true, false, not, ◌&&◌, ◌||◌, Option, none, some, ltb, is_none, is_some,
  length, take,
}
use telegram_presence.Base.Text.{Text}
use telegram_presence.Base.Result.{Result, ok, err, value_error, ◌>>=◌, ◌>>◌, raise_if}
use telegram_presence.Delivery.{
  DeliveryState, pending, sending, acked, failed, dead_letter, identifier, optional_identifier,
}
use telegram_presence.Delivery.Envelope.{MessageEnvelope}
use telegram_presence.Delivery.Receipt.{clip_error}

pub record DeliveryRecord : Type 0 where
  pub envelope : MessageEnvelope
  pub state : DeliveryState
  pub attempts : ℕ
  pub next_attempt_at : Option ℕ
  pub created_at : ℕ
  pub updated_at : ℕ
  pub sending_started_at : Option ℕ
  pub acked_at : Option ℕ
  pub last_error : Option Text
  pub transport_message_id : Option Text
  pub lease_id : Option Text
  pub delivery_id : Text

-- The test that `__post_init__` makes for the record's state, over the fields it reads.
pub shape_error : DeliveryState → ℕ → Option ℕ → Option ℕ → Option ℕ → Option Text → Bool
shape_error sending attempts next started acked_at lease =
    ltb attempts 1 || is_none started || is_none lease || is_some next || is_some acked_at
shape_error acked attempts next started acked_at lease =
    ltb attempts 1 || is_none acked_at || is_some started || is_some lease || is_some next
shape_error failed attempts next started acked_at lease =
    is_none next || is_some started || is_some acked_at || is_some lease
shape_error dead_letter attempts next started acked_at lease =
    ltb attempts 1 || is_some next || is_some started || is_some acked_at || is_some lease
shape_error pending attempts next started acked_at lease =
    is_some started || is_some acked_at || is_some lease

-- `__post_init__`, which `dataclasses.replace` runs too.
unfoldable pub post_init : DeliveryRecord → Result DeliveryRecord
unfolding shape_error
post_init r = do
  delivery_id ← identifier r.delivery_id
  lease_id ← optional_identifier r.lease_id
  raise_if (ltb r.updated_at r.created_at) value_error
  raise_if
      (shape_error r.state r.attempts r.next_attempt_at r.sending_started_at r.acked_at lease_id)
      value_error
  ok (record r {
    delivery_id = delivery_id;
    lease_id = lease_id;
    last_error = clip_error r.last_error;
  })
