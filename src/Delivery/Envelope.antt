-- ===== src/Delivery/Envelope.antt =====
-- `MessageEnvelope` of telegram_presence/delivery.py.
use telegram_presence.Base.{
  ℕ, zero, suc, Bool, true, false, not, ◌&&◌, Option, none, some, if◌then◌else◌, is_none, is_some,
}
use telegram_presence.Base.Int.{ℤ, pos}
use telegram_presence.Base.Text.{Text, codes, text_eq, strip, lower, is_empty}
use telegram_presence.Base.Result.{Result, ok, err, value_error, ◌>>=◌, ◌>>◌, raise_if}
use telegram_presence.Base.Value.{Value, null, int, str, mapping}
use telegram_presence.Content.Media.{MediaDescriptor}
use telegram_presence.Delivery.{identifier_value, timestamp}

pub data Kind : Type 0 where
  media message notification reaction reply : Kind

-- a numeric id, or a handle
pub data Peer : Type 0 where
  number : ℤ → Peer
  handle : Text → Peer

-- The metadata are a text that stands for a mapping's value under `==`: its keys are sorted, and values that
-- are equal in Python, such as 1, 1.0 and True, are written alike; nothing but `==` looks into them.
pub record MessageEnvelope : Type 0 where
  pub transport : Text
  pub peer : Peer
  pub kind : Kind
  pub text : Text
  pub reply_to_message_id : Option ℕ
  pub media : Option MediaDescriptor
  pub correlation_id : Text
  pub causation_id : Option Text
  pub idempotency_key : Text
  pub owner_user_id : Option ℕ
  pub metadata : Text
  pub created_at : ℕ
  pub envelope_id : Text

-- The arguments of the constructor, defaults filled in.
pub record Arguments : Type 0 where
  pub transport : Value
  pub peer : Value
  pub kind : Value
  pub text : Value
  pub reply_to_message_id : Value
  pub media : Option MediaDescriptor
  pub correlation_id : Value
  pub causation_id : Value
  pub idempotency_key : Value
  pub owner_user_id : Value
  pub metadata : Value
  pub created_at : Value
  pub envelope_id : Value

-- `ENVELOPE_KINDS`
pub envelope_kind : Text → Result Kind
envelope_kind t =
    if text_eq t (codes "media")
    then ok media
    else if text_eq t (codes "message")
    then ok message
    else if text_eq t (codes "notification")
    then ok notification
    else if text_eq t (codes "reaction")
    then ok reaction
    else if text_eq t (codes "reply")
    then ok reply
    else err value_error

pub is_zero : ℤ → Bool
is_zero (pos zero) = true
is_zero _ = false

pub checked_peer : Value → Result Peer
unfolding is_zero
checked_peer (int n) = if is_zero n then err value_error else ok (number n)
checked_peer (str t) = if is_empty (strip t) then err value_error else ok (handle (strip t))
checked_peer _ = err value_error

pub checked_text : Value → Result Text
checked_text (str t) = ok t
checked_text _ = err value_error

-- `None`, or a positive `int` that is no `bool`
pub optional_positive : Value → Result (Option ℕ)
optional_positive null = ok none
optional_positive (int (pos (suc n))) = ok (some (suc n))
optional_positive _ = err value_error

pub needs_text : Kind → Bool
needs_text media = false
needs_text _ = true

pub needs_reply_to : Kind → Bool
needs_reply_to reaction = true
needs_reply_to reply = true
needs_reply_to _ = false

pub is_media : Kind → Bool
is_media media = true
is_media _ = false

pub checked_causation : Value → Result (Option Text)
checked_causation null = ok none
checked_causation v = identifier_value v >>= λ t. ok (some t)

-- The envelope id stands in for a key that is not given.
pub checked_key : Text → Value → Result Text
checked_key envelope_id null = ok envelope_id
checked_key envelope_id v = identifier_value v

pub required : Option ℕ → Result ℕ
required none = err value_error
required (some t) = ok t

pub checked_metadata : Value → Result Text
checked_metadata (mapping json) = ok json
checked_metadata _ = err value_error

-- The constructor of `MessageEnvelope` with `__post_init__`.
pub new : Arguments → Result MessageEnvelope
unfolding envelope_kind checked_peer checked_text optional_positive needs_text needs_reply_to
    is_media checked_causation checked_key required checked_metadata
new a = do
  transport ← identifier_value a.transport
  kind_name ← identifier_value a.kind
  kind ← envelope_kind (lower kind_name)
  peer ← checked_peer a.peer
  text ← checked_text a.text
  raise_if (needs_text kind && is_empty (strip text)) value_error
  raise_if (is_media kind && is_none a.media) value_error
  raise_if (is_some a.media && not (is_media kind)) value_error
  reply_to ← optional_positive a.reply_to_message_id
  raise_if (needs_reply_to kind && is_none reply_to) value_error
  owner ← optional_positive a.owner_user_id
  envelope_id ← identifier_value a.envelope_id
  correlation_id ← identifier_value a.correlation_id
  causation_id ← checked_causation a.causation_id
  idempotency_key ← checked_key envelope_id a.idempotency_key
  stamp ← timestamp a.created_at
  created_at ← required stamp
  metadata ← checked_metadata a.metadata
  ok (record {
    transport = lower transport;
    peer = peer;
    kind = kind;
    text = text;
    reply_to_message_id = reply_to;
    media = a.media;
    correlation_id = correlation_id;
    causation_id = causation_id;
    idempotency_key = idempotency_key;
    owner_user_id = owner;
    metadata = metadata;
    created_at = created_at;
    envelope_id = envelope_id;
  })
