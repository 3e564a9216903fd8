-- ===== src/Roster.antt =====
-- telegram_presence/roster.py: the participants and the named entities of each chat, with notes.
pub mod Dict
pub mod Memory
pub mod Bounds
pub mod Notes
pub mod Blocks
mod Tests
use telegram_presence.Base.{
  ℕ, zero, suc, ◌+◌, ◌-◌, ◌*◌, ◌/◌, ◌%◌, ◌^◌, ◌≤◌, ◌<◌, min, max, ◌≡◌, refl, sym, ap, ◌∙◌, subst,
  ◌≢◌, ◌↔◌, ◌⊎◌, inl, inr, Bool, true, false, not, ◌&&◌, ◌||◌, Option, none, some, List, [], ◌∷◌,
  ◌++◌, map, arith, ltb, leb, ◌==◌, if◌then◌else◌, ltb→lt, lt→ltb, leb→le, ==_iff, Bool-cases,
  Option-cases, is_none, is_some, length, length-append, take, drop, length-take, length-drop,
  take-all, keep, length-keep-le, All, All-append, All-map,
}
use telegram_presence.Base.Int.{ℤ, pos, negsuc}
use telegram_presence.Base.Text.{Text, codes, text_eq, strip, lower, lstrip_at, is_empty, is_space}
use telegram_presence.Inbox.Peers.{chat_key}
use telegram_presence.Inbox.Terms.{one_space}
use telegram_presence.Outbox.Lease.{decimal}
use telegram_presence.Roster.Dict.{Bucket, lookup, store, evict}

abbrev pub max_participants_per_chat : ℕ
max_participants_per_chat = 300

abbrev pub note_max_chars : ℕ
note_max_chars = 200

abbrev pub notes_max_per_participant : ℕ
notes_max_per_participant = 3

abbrev pub max_entities_per_chat : ℕ
max_entities_per_chat = 30

abbrev pub entity_aliases_max : ℕ
entity_aliases_max = 6

-- A participant; `notes` is `none` where an old entry has at most the one `note`.
pub record Participant : Type 0 where
  pub first_seen : ℕ
  pub last_seen : ℕ
  pub msg_count : ℕ
  pub handle : Option Text
  pub name : Option Text
  pub notes : Option (List Text)
  pub note : Option Text
  pub note_ts : Option ℕ

pub record Entity : Type 0 where
  pub name : Text
  pub first_seen : ℕ
  pub last_seen : ℕ
  pub aliases : List Text
  pub note : Text

-- The payload: for each chat its participants, and under `__entities__` for each chat its entities.
pub record Roster : Type 0 where
  pub chats : Bucket (Bucket Participant)
  pub entities : Bucket (Bucket Entity)

-- `d.get(key) or {}`, `d.setdefault(key, {})`
unfoldable pub bucket_of {ℓ} : {V : Type ℓ} → Text → Bucket (Bucket V) → Bucket V
unfolding lookup
bucket_of key m = elim (lookup key m) [ none ↦ [] | some b ↦ b ]

-- `str(int(sender_id))`
unfoldable pub sender_key : ℤ → Text
unfolding decimal
sender_key (pos n) = decimal n
sender_key (negsuc n) = b'-' ∷ decimal (suc n)

-- A new text, or the old one where there is none.
unfoldable pub replaced : (Text → Text) → Text → Option Text → Option Text
replaced f [] old = old
replaced f (c ∷ t) old = some (f (c ∷ t))

unfoldable pub handle_of : Text → Text
handle_of t = lstrip_at (strip t)

-- What `observe_message` makes of an entry.
unfoldable pub observed : ℕ → Text → Text → Option Participant → Participant
unfolding replaced handle_of
observed now handle name none = record {
  first_seen = now;
  last_seen = now;
  msg_count = 1;
  handle = replaced handle_of handle none;
  name = replaced (λ t. take 80 (strip t)) name none;
  notes = none;
  note = none;
  note_ts = none;
}
observed now handle name (some p) = record p {
  last_seen = now;
  msg_count = p.msg_count + 1;
  handle = replaced handle_of handle p.handle;
  name = replaced (λ t. take 80 (strip t)) name p.name;
}

-- The roster after `observe_message`
unfoldable pub observe : ℕ → Text → ℤ → Text → Text → Roster → Roster
unfolding bucket_of sender_key observed
observe now chat sender_id handle name r =
    let m = bucket_of (chat_key chat) r.chats in
    let key = sender_key sender_id in
    let m' = store key (observed now handle name (lookup key m)) m in
    record r {
      chats = store (chat_key chat) (evict max_participants_per_chat (λ p. p.last_seen) m') r.chats;
    }

-- `" ".join(t.split())[:bound]`
unfoldable pub one_line : ℕ → Text → Text
one_line bound t = take bound (strip (one_space false t))

unfoldable pub some_note : Option Text → List Text
some_note none = []
some_note (some []) = []
some_note (some (c ∷ t)) = (c ∷ t) ∷ []

unfoldable pub notes_of : Participant → List Text
unfolding some_note
notes_of p = elim p.notes [ none ↦ some_note p.note | some ns ↦ ns ]

-- `any(str(n).strip().lower() == note.lower() for n in notes)`
unfoldable pub has_note : Text → List Text → Bool
has_note note [] = false
has_note note (n ∷ ns) = text_eq (lower (strip n)) (lower note) || has_note note ns

-- `xs[-n:]`, for n over 0
unfoldable pub last_of {ℓ} : {A : Type ℓ} → ℕ → List A → List A
last_of n xs = drop (length xs - n) xs

-- `xs[-1]`, for a list that is not empty
unfoldable pub newest : Text → List Text → Text
newest n [] = n
newest n (m ∷ ms) = newest m ms

-- What `set_note` makes of an entry.
unfoldable pub noted : ℕ → Text → Participant → Participant
unfolding notes_of has_note last_of newest
noted now note p =
    let old = notes_of p in
    let all_notes = if has_note note old then old else old ++ note ∷ [] in
    let kept = last_of notes_max_per_participant all_notes in
    record p { notes = some kept; note = some (newest note kept); note_ts = some now }

-- `str(entry.get("handle") or "").lower() == handle`
unfoldable pub is_handle : Text → Participant → Bool
is_handle handle p = text_eq (elim p.handle [ none ↦ [] | some h ↦ lower h ]) handle

-- The loop of `set_note` over the entries.
unfoldable pub note_first : ℕ → Text → Text → Bucket Participant → Option (Bucket Participant)
unfolding is_handle noted
note_first now handle note [] = none
note_first now handle note (e ∷ es) =
    let rest = note_first now handle note es in
    if is_handle handle e.1
    then some ((e.0, noted now note e.1) ∷ es)
    else elim rest [ none ↦ none | some m ↦ some (e ∷ m) ]

-- The roster after `set_note`, if a participant matched
unfoldable pub add_note : ℕ → Text → Text → Text → Roster → Option Roster
unfolding bucket_of one_line handle_of note_first
add_note now chat handle note r =
    let who = lower (handle_of handle) in
    let text = one_line note_max_chars note in
    if is_empty who || is_empty text
    then none
    else elim (note_first now who text (bucket_of (chat_key chat) r.chats)) [
      | none ↦ none
      | some m ↦ some (record r { chats = store (chat_key chat) m r.chats })
    ]

-- `" | ".join`
unfoldable pub join : Text → List Text → Text
join sep [] = []
join sep (t ∷ []) = t
join sep (t ∷ u ∷ ts) = t ++ sep ++ join sep (u ∷ ts)

unfoldable pub notes_text : Participant → Text
unfolding last_of join
notes_text p = elim p.notes as (λ x. Text) [
  | some (n ∷ ns) ↦ join (codes " | ") (last_of 3 (n ∷ ns))
  | _ ↦ elim p.note [ none ↦ [] | some t ↦ t ]
]

unfoldable pub note_of_handle : Text → Bucket Participant → Text
unfolding is_handle notes_text
note_of_handle handle [] = []
note_of_handle handle (e ∷ es) =
    let rest = note_of_handle handle es in if is_handle handle e.1 then notes_text e.1 else rest

-- `participant_note`
unfoldable pub participant_note : Text → Text → Roster → Text
unfolding note_of_handle handle_of bucket_of
participant_note chat handle r =
    let who = lower (handle_of handle) in
    if is_empty who then [] else note_of_handle who (bucket_of (chat_key chat) r.chats)

-- `re.sub(r"[\s_\-@]+", "", text.casefold())`
unfoldable pub plain_name : Text → Text
plain_name t = keep (λ c. not (is_space c || (c == b'_') || (c == b'-') || (c == b'@'))) (lower t)

unfoldable pub member : Text → List Text → Bool
member t [] = false
member t (u ∷ us) = text_eq u t || member t us

-- `_is_self_name`, for the host's name terms
unfoldable pub is_self_name : List Text → Text → Bool
unfolding plain_name member
is_self_name names t = member (plain_name t) (map plain_name names)

-- The loop of `remember_entity` over the aliases that are given.
unfoldable pub merge_aliases : List Text → Text → List Text → List Text → List Text
unfolding one_line is_self_name member
merge_aliases names key [] merged = merged
merge_aliases names key (a ∷ as_given) merged =
    let alias = one_line 60 a in
    merge_aliases names key as_given (
      if not (is_empty alias)
        && not (is_self_name names alias)
        && not (text_eq (lower alias) key)
        && not (member (lower alias) (map lower merged))
      then merged ++ alias ∷ []
      else merged)

unfoldable pub aliases_after : List Text → Text → List Text → List Text → List Text
unfolding merge_aliases
aliases_after names key given old =
    let merged = merge_aliases names key given (map (λ a. take 60 (strip a)) old) in
    take entity_aliases_max (keep (λ a. not (is_self_name names a)) merged)

-- What `remember_entity` makes of an entry.
unfoldable pub entity_after : List Text → ℕ → Text → Text → List Text → Option Entity → Entity
unfolding aliases_after
entity_after names now name note given none = record {
  name = name;
  first_seen = now;
  last_seen = now;
  aliases = aliases_after names (lower name) given [];
  note = note;
}
entity_after names now name note given (some e) = record e {
  last_seen = now;
  aliases = aliases_after names (lower name) given e.aliases;
  note = note;
}

-- The roster after `remember_entity`, if it takes the entity
unfoldable pub add_entity : List Text → ℕ → Text → Text → Text → List Text → Roster → Option Roster
unfolding bucket_of one_line is_self_name entity_after
add_entity names now chat raw_name raw_note given r =
    let name = one_line 60 raw_name in
    let note = one_line note_max_chars raw_note in
    let m = bucket_of (chat_key chat) r.entities in
    let entry = entity_after names now name note given (lookup (lower name) m) in
    let m' = evict max_entities_per_chat (λ e. e.last_seen) (store (lower name) entry m) in
    if is_empty name || is_empty note || is_self_name names name
    then none
    else some (record r { entities = store (chat_key chat) m' r.entities })
