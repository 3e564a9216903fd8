-- ===== src/Delivery/Record/Laws.antt =====
-- What `__post_init__` of a delivery record accepts.
mod Tests
use telegram_presence.Base.{
  ℕ, ◌≤◌, ◌<◌, ◌≡◌, ◌≢◌, refl, ap, ◌↔◌, Bool, true, false, not, ◌&&◌, ◌||◌, Option, none, some, ltb,
  is_none, is_some, length, take, arith,
}
use telegram_presence.Base.Text.{Text}
use telegram_presence.Base.Result.{Result, ok, err, value_error, ◌>>=◌, ◌>>◌, raise_if}
use telegram_presence.Delivery.{
  DeliveryState, pending, sending, acked, failed, dead_letter, identifier, optional_identifier,
}
use telegram_presence.Delivery.Receipt.{clip_error}
use telegram_presence.Delivery.Record.{DeliveryRecord, post_init, shape_error}

-- The fields that each state needs and those that it must not have.
abbrev pub Shape : DeliveryState → DeliveryRecord → Type 0
Shape pending r = (r.sending_started_at ≡ none) × (r.acked_at ≡ none) × (r.lease_id ≡ none)
Shape sending r =
    (1 ≤ r.attempts)
    × (r.sending_started_at ≢ none)
    × (r.lease_id ≢ none)
    × (r.next_attempt_at ≡ none)
    × (r.acked_at ≡ none)
Shape acked r =
    (1 ≤ r.attempts)
    × (r.acked_at ≢ none)
    × (r.sending_started_at ≡ none)
    × (r.lease_id ≡ none)
    × (r.next_attempt_at ≡ none)
Shape failed r =
    (r.next_attempt_at ≢ none)
    × (r.sending_started_at ≡ none)
    × (r.acked_at ≡ none)
    × (r.lease_id ≡ none)
Shape dead_letter r =
    (1 ≤ r.attempts)
    × (r.next_attempt_at ≡ none)
    × (r.sending_started_at ≡ none)
    × (r.acked_at ≡ none)
    × (r.lease_id ≡ none)

pub record IsWellFormed (r : DeliveryRecord) : Type 0 where
  pub id : identifier r.delivery_id ≡ ok r.delivery_id
  pub lease : optional_identifier r.lease_id ≡ ok r.lease_id
  pub clipped : clip_error r.last_error ≡ r.last_error
  pub ordered : r.created_at ≤ r.updated_at
  pub shape : Shape r.state r

abbrev shape_test : DeliveryRecord → DeliveryState → Bool
shape_test r d =
    shape_error d r.attempts r.next_attempt_at r.sending_started_at r.acked_at r.lease_id

state_fields_iff : (r : DeliveryRecord) (d : DeliveryState) → (shape_test r d ≡ false) ↔ Shape d r
unfolding shape_error
state_fields_iff r pending = ground arith
state_fields_iff r sending = ground arith
state_fields_iff r acked = ground arith
state_fields_iff r failed = ground arith
state_fields_iff r dead_letter = ground arith

pub post_init-IsWellFormed : (r : DeliveryRecord) → IsWellFormed r → post_init r ≡ ok r
unfolding post_init
post_init-IsWellFormed r w =
    rw (w.id, w.lease)
      (ground (arith, w.ordered, w.clipped, (state_fields_iff r r.state).1 w.shape))

accepted-IsWellFormed : (r : DeliveryRecord) → post_init r ≡ ok r → IsWellFormed r
unfolding post_init
accepted-IsWellFormed r h = record {
  id = ground arith;
  lease = ground arith;
  clipped = ground arith;
  ordered = ground arith;
  shape = (state_fields_iff r r.state).0 (ground arith);
}

-- The checks of a delivery record raise no error and change nothing exactly for the well-formed
-- records: its ids are clean identifiers, its error text is within 1000 characters, it was not updated
-- before it was created, and it has the fields of its state and none that belong to another state.
pub post_init_iff : (r : DeliveryRecord) → (post_init r ≡ ok r) ↔ IsWellFormed r
post_init_iff r = (accepted-IsWellFormed r, post_init-IsWellFormed r)
