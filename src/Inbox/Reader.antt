-- ===== src/Inbox/Reader.antt =====
-- The readers of the spool: `snapshot_seq`, `pending`, `has_unconsumed_addressed`.
pub mod Paging
use telegram_presence.Base.{
  ℕ, zero, suc, ◌+◌, ◌-◌, ◌*◌, ◌/◌, ◌%◌, ◌^◌, ◌≤◌, ◌<◌, min, max, ◌≡◌, refl, sym, ap, ◌∙◌, subst,
  ◌≢◌, ◌↔◌, ◌⊎◌, inl, inr, Bool, true, false, not, ◌&&◌, ◌||◌, Option, none, some, List, [], ◌∷◌,
  ◌++◌, map, arith, ltb, leb, ◌==◌, if◌then◌else◌, ltb→lt, lt→ltb, leb→le, ==_iff, Bool-cases,
  Option-cases, is_none, is_some, length, length-append, take, drop, length-take, length-drop,
  take-all, keep, length-keep-le, All, All-append, All-map,
}
use telegram_presence.Base.Text.{Text, text_eq}
use telegram_presence.Inbox.Peers.{chat_key}
use telegram_presence.Inbox.Spool.{
  SpoolRow, Content, row, keyless, garbage, Line, Disk, seq_or, scan_seq, numbered, read_lines,
}
use telegram_presence.Inbox.Ingest.{last_of}

-- `snapshot_seq`
unfoldable pub snapshot_seq : Disk → ℕ
unfolding read_lines
snapshot_seq d = scan_seq 0 (read_lines d)

-- From where `pending` reads: after a sequence, or after a time.
pub data Cursor : Type 0 where
  after_seq after_ts : ℕ → Cursor

unfoldable pub is_after : Cursor → ℕ → ℕ → Bool
is_after (after_seq n) seq ts = ltb n seq
is_after (after_ts t) seq ts = ltb t ts

unfoldable pub in_chat : Option Text → Text → Bool
in_chat none chat = true
in_chat (some want) chat = text_eq (chat_key chat) (chat_key want)

-- An object of the spool with the sequence that it is read with.
pub record Entry : Type 0 where
  pub seq : ℕ
  pub content : Content

unfoldable pub taken : Bool → ℕ → Content → List Entry → List Entry
taken test seq content entries =
    if test then record { seq = seq; content = content } ∷ entries else entries

-- What the loop of `pending` does with an object: `here` is collected from the lines behind it if it is
-- not counted, `next` if it is.
unfoldable pub collect : Cursor → Option Text → ℕ → Content → List Entry → List Entry → List Entry
unfolding is_after in_chat taken
collect cursor chat ordinal (row r) here next =
    let seq = seq_or (ordinal + 1) r.spool_seq in
    taken (is_after cursor seq r.ts && in_chat chat r.chat) seq (row r) next
collect cursor chat ordinal (keyless o) here next =
    let seq = seq_or (ordinal + 1) o.spool_seq in
    taken (is_after cursor seq o.ts && in_chat chat o.chat) seq (keyless o) next
collect cursor chat ordinal garbage here next = here

-- The entries that the loop of `pending` collects.
unfoldable pub unread : Cursor → Option Text → ℕ → List Line → List Entry
unfolding collect
unread cursor chat ordinal [] = []
unread cursor chat ordinal (l ∷ ls) =
    let here = unread cursor chat ordinal ls in
    let next = unread cursor chat (ordinal + 1) ls in
    collect cursor chat ordinal l.content here next

-- `pending`, with the bound that its limit comes to; `rows[-0:]` is not reached
unfoldable pub pending : Cursor → ℕ → Option Text → Bool → Disk → List Entry
unfolding unread read_lines last_of
pending cursor bounded chat oldest_first d =
    let rows = unread cursor chat 0 (read_lines d) in
    if oldest_first then take bounded rows else last_of bounded rows

unfoldable pub is_addressed : Content → Bool
is_addressed (row r) = r.addressed
is_addressed (keyless o) = o.addressed
is_addressed garbage = false

unfoldable pub any_addressed : List Entry → Bool
unfolding is_addressed
any_addressed [] = false
any_addressed (e ∷ es) = is_addressed e.content || any_addressed es

-- `has_unconsumed_addressed`
unfoldable pub has_unconsumed_addressed : Cursor → Option Text → Disk → Bool
unfolding pending any_addressed
has_unconsumed_addressed cursor chat d = any_addressed (pending cursor 50 chat false d)
