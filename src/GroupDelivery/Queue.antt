-- ===== src/GroupDelivery/Queue.antt =====
-- `GroupActionOutbox.__init__`'s settings, `enqueue`, `get` and `due`.
pub mod Idempotence
use telegram_presence.Base.{
  ℕ, zero, suc, ◌/◌, max, Bool, not, ◌&&◌, ◌||◌, none, some, List, [], ◌∷◌, ◌++◌, leb,
  if◌then◌else◌, take, keep,
}
use telegram_presence.Base.Int.{ℤ, pos, negsuc}
use telegram_presence.Base.Text.{Text, codes, text_eq, is_empty, strip}
use telegram_presence.Base.Result.{Result, ok, err, value_error, runtime_error, ◌>>◌, raise_if}
use telegram_presence.Base.Sort.{sort}
use telegram_presence.Base.Value.{tick_rate}
use telegram_presence.Inbox.Peers.{canonical_chat_peer}
use telegram_presence.Outbox.Lease.{decimal}
use telegram_presence.GroupDelivery.{Row, Settings, Sha256, pending, is_waiting}
use telegram_presence.GroupDelivery.Table.{Table, NaturalKey, find, find_key, insert_or_ignore}

unfoldable pub int_max : ℕ → ℤ → ℕ
int_max low (pos n) = max low n
int_max low (negsuc n) = low

-- The settings that `__init__` keeps; a twentieth of a second is the least backoff.
unfoldable pub settings : ℤ → ℤ → Settings
unfolding int_max
settings max_attempts base_backoff = record {
  max_attempts = int_max 1 max_attempts;
  base_backoff_sec = int_max (tick_rate / 20) base_backoff;
}

-- `value or 1`
unfoldable pub nonzero : ℤ → ℤ
nonzero (pos zero) = pos 1
nonzero n = n

-- `_transport_random_id`
unfoldable pub transport_random_id : Sha256 → Text → ℤ
unfolding nonzero
transport_random_id sha action_id = nonzero (sha.signed_int64 action_id)

-- `action in {"reply", "react"}`
unfoldable pub known_action : Text → Bool
known_action a = text_eq a (codes "reply") || text_eq a (codes "react")

-- A post that answers no message is known by its request, or else by its text.
unfoldable pub intent_of : Sha256 → ℕ → Text → Text → Text
intent_of sha (suc n) payload idempotency_key = []
intent_of sha zero payload idempotency_key =
    let raw_intent = strip idempotency_key in
    if is_empty raw_intent
    then codes "legacy-payload:" ++ sha.hexdigest payload
    else codes "request:" ++ sha.hexdigest raw_intent

pub record Request : Type 0 where
  pub chat : Text
  pub msg_id : ℤ
  pub action : Text
  pub payload : Text
  pub idempotency_key : Text

unfoldable pub natural_key : Sha256 → Request → NaturalKey
unfolding intent_of
natural_key sha q =
    let clean_msg_id = int_max 0 q.msg_id in
    record {
      chat = canonical_chat_peer q.chat;
      msg_id = clean_msg_id;
      action = q.action;
      intent_key = intent_of sha clean_msg_id q.payload q.idempotency_key;
    }

unfoldable pub action_id_of : Sha256 → NaturalKey → Text
action_id_of sha k =
    let name = k.chat ++ (0 ∷ decimal k.msg_id ++ (0 ∷ k.action ++ (0 ∷ k.intent_key))) in
    codes "tga-" ++ take 40 (sha.hexdigest name)

unfoldable pub new_row : Sha256 → Settings → ℕ → Request → Row
unfolding natural_key action_id_of transport_random_id
new_row sha c now q =
    let k = natural_key sha q in
    let id = action_id_of sha k in
    record {
      action_id = id;
      chat = k.chat;
      msg_id = k.msg_id;
      action = k.action;
      intent_key = k.intent_key;
      transport_random_id = transport_random_id sha id;
      payload = q.payload;
      status = pending;
      attempts = 0;
      max_attempts = c.max_attempts;
      next_attempt_at = now;
      created_at = now;
      updated_at = now;
      telegram_message_ids = [];
      last_error = [];
    }

-- The row that `enqueue` returns after the insertion: by its id, or else by its natural key.
unfoldable pub inserted : NaturalKey → Text → Table → Result (Table × Row)
inserted k id t = elim (find id t) [
  | some r ↦ ok (t, r)
  | none ↦ elim (find_key k t) [ some r ↦ ok (t, r) | none ↦ err runtime_error ]
]

-- `enqueue`
unfoldable pub enqueue : Sha256 → Settings → ℕ → Request → Table → Result (Table × Row)
unfolding inserted new_row known_action
enqueue sha c now q t = do
  raise_if (not (known_action q.action)) value_error
  let k = natural_key sha q
  let r = new_row sha c now q
  elim (find_key k t) [
    | some existing ↦ ok (t, existing)
    | none ↦ inserted k r.action_id (insert_or_ignore r t)
  ]

-- `ORDER BY created_at`
unfoldable pub created_first : Row → Row → Bool
created_first a b = leb a.created_at b.created_at

unfoldable pub row_due : ℕ → Row → Bool
row_due now r = is_waiting r.status && leb r.next_attempt_at now

-- `due(limit=…)`
unfoldable pub due : ℕ → ℤ → Table → List Row
unfolding created_first row_due int_max
due now limit t = take (int_max 1 limit) (sort created_first (keep (row_due now) t))
