-- ===== src/Inbox/Ingest.antt =====
-- `GroupInbox`: its memory of seen ids and of the agent's own messages, and `ingest_message`.
pub mod Seen
pub mod Acks
pub mod History
use telegram_presence.Base.{
  ℕ, zero, suc, ◌+◌, ◌-◌, ◌*◌, ◌/◌, ◌%◌, ◌^◌, ◌≤◌, ◌<◌, min, max, ◌≡◌, refl, sym, ap, ◌∙◌, subst,
  ◌≢◌, ◌↔◌, ◌⊎◌, inl, inr, Bool, true, false, not, ◌&&◌, ◌||◌, Option, none, some, List, [], ◌∷◌,
  ◌++◌, map, arith, ltb, leb, ◌==◌, if◌then◌else◌, ltb→lt, lt→ltb, leb→le, ==_iff, Bool-cases,
  Option-cases, is_none, is_some, length, length-append, take, drop, length-take, length-drop,
  take-all, keep, length-keep-le, All, All-append, All-map,
}
use telegram_presence.Base.Int.{ℤ, int_eq}
use telegram_presence.Base.Text.{Text, codes, text_eq, is_empty}
use telegram_presence.Inbox.Peers.{chat_key}
use telegram_presence.Inbox.Terms.{
  matched_terms, sanitize_snippet, normalize_snippet, cap_normalized_snippet, clean_handle,
  label_in, some_text, max_snippet_chars,
}
use telegram_presence.Inbox.Spool.{
  SpoolRow, Content, row, keyless, garbage, Line, Disk, Key, key_eq, row_key, Fault, Appended,
  appended, duplicate, raised, append, read_lines,
}

abbrev pub max_seen_ids : ℕ
max_seen_ids = 2048

abbrev pub max_own_ids : ℕ
max_own_ids = 200

abbrev pub max_full_text_chars : ℕ
max_full_text_chars = 4096

-- The set `_seen` as a list without order, the deque `_seen_order`, the deque `_own_ids`, and the files.
pub record Inbox : Type 0 where
  pub disk : Disk
  pub seen : List Key
  pub seen_order : List Key
  pub own_ids : List Key

unfoldable pub key_in : Key → List Key → Bool
key_in k [] = false
key_in k (x ∷ xs) = key_eq x k || key_in k xs

-- `set.discard`
unfoldable pub discard : Key → List Key → List Key
discard k [] = []
discard k (x ∷ xs) = let rest = discard k xs in if key_eq x k then rest else x ∷ rest

-- `deque(maxlen=…).append`
unfoldable pub push_bounded {ℓ} : {A : Type ℓ} → ℕ → A → List A → List A
push_bounded bound x xs = if ltb (length xs) bound then xs ++ x ∷ [] else drop 1 xs ++ x ∷ []

unfoldable pub forget_first : List Key → List Key → List Key
unfolding discard
forget_first [] seen = seen
forget_first (k ∷ order) seen = if length (k ∷ order) == max_seen_ids then discard k seen else seen

-- `_remember_seen_unlocked`
unfoldable pub remember_seen : Key → Inbox → Inbox
unfolding key_in push_bounded forget_first
remember_seen k b = if key_in k b.seen then b else record b {
  seen = forget_first b.seen_order b.seen ++ k ∷ [];
  seen_order = push_bounded max_seen_ids k b.seen_order;
}

-- the newest `n` of a list
unfoldable pub last_of {ℓ} : {A : Type ℓ} → ℕ → List A → List A
last_of n xs = drop (length xs - n) xs

unfoldable pub recall : Content → Inbox → Inbox
unfolding remember_seen
recall (row r) b = remember_seen (row_key r) b
recall (keyless o) b = b
recall garbage b = b

unfoldable pub hydrate : List Line → Inbox → Inbox
unfolding recall
hydrate [] b = b
hydrate (l ∷ ls) b = hydrate ls (recall l.content b)

-- `__init__` with `_load_seen_from_spool`
unfoldable pub open_inbox : Disk → Inbox
unfolding hydrate read_lines last_of
open_inbox d =
    hydrate (last_of max_seen_ids (read_lines d))
      (record { disk = d; seen = []; seen_order = []; own_ids = [] })

-- `remember_own_message`
unfoldable pub remember_own_message : Text → ℕ → Inbox → Inbox
unfolding push_bounded
remember_own_message chat message_id b = record b {
  own_ids = push_bounded max_own_ids (chat_key chat, message_id) b.own_ids;
}

-- The arguments of `ingest_message`; `message_id` is `none` where `int` raises, `original_chars_hint`
-- too. `now` is the time given or read.
pub record Message : Type 0 where
  pub chat : Text
  pub message_id : Option ℕ
  pub sender_id : Option ℤ
  pub text : Text
  pub reply_to_msg_id : Option ℕ
  pub self_id : Option ℤ
  pub sender_username : Text
  pub sender_name : Text
  pub topic_id : Option ℤ
  pub now : ℕ
  pub addressed_hint : Bool
  pub matched_terms_hint : List Text
  pub full_text_complete : Option Bool
  pub original_chars_hint : Option ℕ

-- What the host injects: its `redact`, its names, and the size of a row's JSON text.
pub record Host : Type 0 where
  pub redact : Text → Text
  pub names : List Text
  pub row_bytes : SpoolRow → ℕ

-- `InboxAddResult`, by its `reason`
pub data Reason : Type 0 where
  invalid_message_id own_message duplicate_message storage_failure written_row : Reason

pub record InboxAddResult : Type 0 where
  pub written : Bool
  pub safe_to_ack : Bool
  pub reason : Reason

-- `self_id is not None and sender_id == self_id`
unfoldable pub is_own : Message → Bool
unfolding int_eq
is_own m = elim m.self_id [
  | none ↦ false
  | some self ↦ elim m.sender_id [ none ↦ false | some sender ↦ int_eq sender self ]
]

-- The loop over the hints.
unfoldable pub add_hints : List Text → List Text → List Text
add_hints [] terms = terms
add_hints (h ∷ hints) terms =
    let term = sanitize_snippet 80 h in
    add_hints hints
      (if not (is_empty term) && not (label_in term terms) then terms ++ term ∷ [] else terms)

unfoldable pub terms_of : Host → Message → List Text
unfolding add_hints
terms_of host m = add_hints (take 16 m.matched_terms_hint) (matched_terms host.names m.text)

unfoldable pub reply_to_me : Message → Inbox → Bool
unfolding key_in
reply_to_me m b = elim m.reply_to_msg_id [
  | none ↦ false
  | some id ↦ key_in (chat_key m.chat, id) b.own_ids
]

unfoldable pub is_addressed : Host → Message → Inbox → Bool
unfolding terms_of reply_to_me
is_addressed host m b =
    let named = elim (terms_of host m) as (λ ts. Bool) [ [] ↦ false | t ∷ ts ↦ true ] in
    named || reply_to_me m b || m.addressed_hint

unfoldable pub original_chars : ℕ → Option ℕ → ℕ
original_chars n none = n
original_chars n (some hint) = max n (min 10000000 hint)

-- `full_text_complete is not False`
unfoldable pub not_false : Option Bool → Bool
not_false (some false) = false
not_false _ = true

-- The row that `ingest_message` builds, before it has a sequence.
unfoldable pub build_row : Host → Message → ℕ → Inbox → SpoolRow
unfolding is_addressed original_chars not_false
build_row host m mid b =
    let normalized = normalize_snippet (host.redact m.text) in
    let snippet = cap_normalized_snippet max_snippet_chars normalized in
    let truncated = not (text_eq normalized snippet) in
    let disclosed = is_addressed host m b && truncated in
    let whole : Bool =
      leb (length normalized) max_full_text_chars && not_false m.full_text_complete in
    record {
      ts = m.now;
      chat = m.chat;
      message_id = mid;
      sender_id = m.sender_id;
      sender_username = clean_handle (host.redact m.sender_username);
      sender_name = some_text (sanitize_snippet 64 (host.redact m.sender_name));
      reply_to_msg_id = m.reply_to_msg_id;
      topic_id = m.topic_id;
      addressed = is_addressed host m b;
      matched_terms =
          map (λ t. sanitize_snippet 80 (host.redact t)) (terms_of host m)
          ++ (if reply_to_me m b then codes "reply_to_me" ∷ [] else []);
      snippet = snippet;
      truncated = truncated;
      original_chars = original_chars (length normalized) m.original_chars_hint;
      full_text = if disclosed then some (take max_full_text_chars normalized) else none;
      full_text_complete = if disclosed then some whole else none;
      spool_seq = none;
    }

unfoldable pub answer : Bool → Bool → Reason → InboxAddResult
answer written safe_to_ack reason = record {
  written = written;
  safe_to_ack = safe_to_ack;
  reason = reason;
}

unfoldable pub appended_result : Key → Inbox → Disk × Appended → Inbox × InboxAddResult
unfolding remember_seen answer
appended_result k b out = elim out.1 [
  | appended ↦ (remember_seen k (record b { disk = out.0 }), answer true true written_row)
  | duplicate ↦ (remember_seen k (record b { disk = out.0 }), answer false true duplicate_message)
  | raised ↦ (record b { disk = out.0 }, answer false false storage_failure)
]

unfoldable pub ingest_id : Host → Message → ℕ → Fault → Inbox → Inbox × InboxAddResult
unfolding is_own appended_result build_row
ingest_id host m mid fault b =
    let k : Key = (chat_key m.chat, mid) in
    if is_own m
    then (remember_own_message m.chat mid b, answer false true own_message)
    else if key_in k b.seen
    then (b, answer false true duplicate_message)
    else appended_result k b (append host.row_bytes (build_row host m mid b) fault b.disk)

-- `ingest_message`
unfoldable pub ingest_message : Host → Message → Fault → Inbox → Inbox × InboxAddResult
unfolding ingest_id
ingest_message host m fault b = elim m.message_id [
  | none ↦ (b, answer false true invalid_message_id)
  | some mid ↦ ingest_id host m mid fault b
]

-- `add_message`
unfoldable pub add_message : Host → Message → Fault → Inbox → Inbox × Bool
unfolding ingest_message
add_message host m fault b = let out = ingest_message host m fault b in (out.0, out.1.written)
