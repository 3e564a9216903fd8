-- ===== src/Delivery/Receipt.antt =====
-- `TransportReceipt` of telegram_presence/delivery.py.
use telegram_presence.Base.{Bool, Option, none, some, take}
use telegram_presence.Base.Text.{Text, lower}
use telegram_presence.Base.Result.{Result, ok, ◌>>=◌}
use telegram_presence.Delivery.{identifier}

pub record TransportReceipt : Type 0 where
  pub success : Bool
  pub transport : Text
  pub correlation_id : Text
  pub transport_message_id : Option Text
  pub error : Option Text

-- `text[:1000]` of an optional text
unfoldable pub clip_error : Option Text → Option Text
clip_error none = none
clip_error (some t) = some (take 1000 t)

-- The constructor with `__post_init__`.
unfoldable pub new : Bool → Text → Text → Option Text → Option Text → Result TransportReceipt
new success transport correlation_id message_id error = do
  name ← identifier transport
  correlation ← identifier correlation_id
  ok (record {
    success = success;
    transport = lower name;
    correlation_id = correlation;
    transport_message_id = message_id;
    error = clip_error error;
  })
