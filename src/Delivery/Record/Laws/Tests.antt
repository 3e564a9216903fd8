-- ===== src/Delivery/Record/Laws/Tests.antt =====
-- A delivery record that is being sent.
use telegram_presence.Base.{◌≡◌, ◌↔◌, none, some}
use telegram_presence.Base.Int.{negsuc}
use telegram_presence.Base.Text.{codes}
use telegram_presence.Base.Result.{ok}
use telegram_presence.Delivery.{sending}
use telegram_presence.Delivery.Envelope.{reply, number}
use telegram_presence.Delivery.Record.{DeliveryRecord, post_init}
use telegram_presence.Delivery.Record.Laws.{IsWellFormed, post_init_iff}

abbrev in_flight : DeliveryRecord
in_flight = record {
  envelope = record {
    transport = codes "bot_api";
    peer = number (negsuc 1000);
    kind = reply;
    text = codes "hello";
    reply_to_message_id = some 42;
    media = none;
    correlation_id = codes "cycle-1";
    causation_id = none;
    idempotency_key = codes "reply-42";
    owner_user_id = none;
    metadata = codes "{}";
    created_at = 100;
    envelope_id = codes "e1";
  };
  state = sending;
  attempts = 1;
  next_attempt_at = none;
  created_at = 100;
  updated_at = 100;
  sending_started_at = some 100;
  acked_at = none;
  last_error = none;
  transport_message_id = none;
  lease_id = some (codes "ab12");
  delivery_id = codes "0f3c";
}

post_init_iff_example : (post_init in_flight ≡ ok in_flight) ↔ IsWellFormed in_flight
post_init_iff_example = post_init_iff in_flight
