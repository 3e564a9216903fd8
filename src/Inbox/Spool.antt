-- ===== src/Inbox/Spool.antt =====
-- The spool file of `GroupInbox` and its sequence file, with the faults that a write may meet.
pub mod Sequence
pub mod Bounds
pub mod Unique
use telegram_presence.Base.{
  ℕ, zero, suc, ◌+◌, ◌-◌, ◌*◌, ◌/◌, ◌%◌, ◌^◌, ◌≤◌, ◌<◌, min, max, ◌≡◌, refl, sym, ap, ◌∙◌, subst,
  ◌≢◌, ◌↔◌, ◌⊎◌, inl, inr, Bool, true, false, not, ◌&&◌, ◌||◌, Option, none, some, List, [], ◌∷◌,
  ◌++◌, map, arith, ltb, leb, ◌==◌, if◌then◌else◌, ltb→lt, lt→ltb, leb→le, ==_iff, Bool-cases,
  Option-cases, is_none, is_some, length, length-append, take, drop, length-take, length-drop,
  take-all, keep, length-keep-le, All, All-append, All-map,
}
use telegram_presence.Base.Int.{ℤ}
use telegram_presence.Base.Text.{Text, text_eq}
use telegram_presence.Inbox.Peers.{chat_key}
use mathlib.Core.List.{reverse}

-- A row of the spool; the fields that a row may lack are optional.
pub record SpoolRow : Type 0 where
  pub ts : ℕ
  pub chat : Text
  pub message_id : ℕ
  pub sender_id : Option ℤ
  pub sender_username : Option Text
  pub sender_name : Option Text
  pub reply_to_msg_id : Option ℕ
  pub topic_id : Option ℤ
  pub addressed : Bool
  pub matched_terms : List Text
  pub snippet : Text
  pub truncated : Bool
  pub original_chars : ℕ
  pub full_text : Option Text
  pub full_text_complete : Option Bool
  pub spool_seq : Option ℕ

-- A JSON object with no chat or no message id: what the readers look at, with the defaults for what
-- it lacks.
pub record Keyless : Type 0 where
  pub ts : ℕ
  pub chat : Text
  pub addressed : Bool
  pub spool_seq : Option ℕ

-- What a line parses to; `garbage` is nothing that `json.loads` makes an object of.
pub data Content : Type 0 where
  row : SpoolRow → Content
  keyless : Keyless → Content
  garbage : Content

-- A line, with the bytes that it takes with its newline.
pub record Line : Type 0 where
  pub content : Content
  pub size : ℕ

-- What stands behind the spool's last newline: a line that lacks it, or bytes that end inside a
-- character, which are not UTF-8.
pub data Tail : Type 0 where
  unended : Line → Tail
  undecodable : ℕ → Tail

-- The spool's lines, its tail, and the number in the sequence file if that can be read.
pub record Disk : Type 0 where
  pub lines : List Line
  pub tail : Option Tail
  pub last_seq : Option ℕ

-- The lines that a reader of the spool gets: none where its tail cannot be decoded, since `pending`,
-- `snapshot_seq` and `_load_seen_from_spool` read the whole file and end as on an empty spool when the
-- reading raises.
unfoldable pub tail_lines : List Line → Tail → List Line
tail_lines ls (unended t) = ls ++ t ∷ []
tail_lines ls (undecodable n) = []

unfoldable pub read_lines : Disk → List Line
unfolding tail_lines
read_lines d = elim d.tail [ none ↦ d.lines | some t ↦ tail_lines d.lines t ]

-- A chat's key and a message id.
abbrev pub Key : Type 0
Key = Text × ℕ

unfoldable pub key_eq : Key → Key → Bool
key_eq a b = text_eq a.0 b.0 && (a.1 == b.1)

unfoldable pub row_key : SpoolRow → Key
row_key r = (chat_key r.chat, r.message_id)

abbrev pub max_spool_bytes : ℕ
max_spool_bytes = 1000000

abbrev pub max_spool_retain_rows : ℕ
max_spool_retain_rows = 500

unfoldable pub has_key : Key → Content → Bool
unfolding key_eq row_key
has_key k (row r) = key_eq (row_key r) k
has_key k (keyless n) = false
has_key k garbage = false

unfoldable pub any_key : Key → List Line → Bool
unfolding has_key
any_key k [] = false
any_key k (l ∷ ls) = has_key k l.content || any_key k ls

-- `_repair_torn_tail_locked`: a complete row gets its newline, any other tail is dropped
unfoldable pub repair_tail : Disk → Option Tail → Disk
repair_tail d none = d
repair_tail d (some (undecodable n)) = record d { tail = none }
repair_tail d (some (unended t)) = elim t.content [
  | row r ↦ record d { lines = d.lines ++ t ∷ []; tail = none }
  | keyless n ↦ record d { tail = none }
  | garbage ↦ record d { tail = none }
]

unfoldable pub repair_torn_tail : Disk → Disk
unfolding repair_tail
repair_torn_tail d = repair_tail d d.tail

-- `int(row.get("spool_seq") or ordinal)`
unfoldable pub seq_or : ℕ → Option ℕ → ℕ
seq_or ordinal none = ordinal
seq_or ordinal (some zero) = ordinal
seq_or ordinal (some (suc n)) = suc n

-- The greatest sequence of the lines; `ordinal` counts the objects before.
unfoldable pub scan_seq : ℕ → List Line → ℕ
unfolding seq_or
scan_seq ordinal [] = 0
scan_seq ordinal (l ∷ ls) =
    let here = scan_seq ordinal ls in
    let next = scan_seq (ordinal + 1) ls in
    elim l.content [
      | row r ↦ max (seq_or (ordinal + 1) r.spool_seq) next
      | keyless o ↦ max (seq_or (ordinal + 1) o.spool_seq) next
      | garbage ↦ here
    ]

-- the number that `_next_seq_locked` counts from
unfoldable pub current_seq : Disk → ℕ
unfolding scan_seq
current_seq d = elim d.last_seq [ none ↦ scan_seq 0 d.lines | some n ↦ n ]

-- `_next_seq_locked`
unfoldable pub next_seq : Disk → Disk × ℕ
unfolding current_seq
next_seq d = (record d { last_seq = some (current_seq d + 1) }, current_seq d + 1)

unfoldable pub total_bytes : List Line → ℕ
total_bytes [] = 0
total_bytes (l ∷ ls) = l.size + total_bytes ls

-- The loop of `_rotate_locked` over the newest lines first.
unfoldable pub retain : ℕ → ℕ → List Line → List Line
retain budget kept [] = []
retain budget kept (l ∷ ls) =
    let rest = retain budget (kept + l.size) ls in
    if ltb budget (kept + l.size) then [] else l ∷ rest

-- `_rotate_locked`
unfoldable pub rotate : ℕ → Disk → Disk
unfolding total_bytes retain
rotate incoming d =
    let budget = max_spool_bytes - incoming in
    if leb (total_bytes d.lines + incoming) max_spool_bytes then d else record d {
      lines = reverse (retain budget 0 (take max_spool_retain_rows (reverse d.lines)));
    }

-- Where an append raises: on taking the lock, after the repair, after the sequence file or the rotated
-- spool is written, in the write of the row (with some bytes of it on disk, which end behind a character
-- or inside one, or with all but the newline), or on the `fsync` after it.
pub data Fault : Type 0 where
  no_fault at_lock after_repair after_sequence after_rotation unterminated after_write : Fault
  torn torn_inside : ℕ → Fault

-- What `_append` returns: whether the row was written, or that it raised.
pub data Appended : Type 0 where
  appended duplicate raised : Appended

unfoldable pub numbered : ℕ → SpoolRow → SpoolRow
numbered n r = record r { spool_seq = some n }

unfoldable pub write_line : Line → Disk → Disk
write_line l d = record d { lines = d.lines ++ l ∷ [] }

-- The append of a row that the spool does not hold, by its fault; `size` gives the bytes of a row's JSON
-- text with its newline.
unfoldable pub append_new : (SpoolRow → ℕ) → SpoolRow → Fault → Disk → Disk × Appended
unfolding next_seq rotate numbered write_line
append_new size r fault d =
    let out = next_seq d in
    let r' = numbered out.1 r in
    let l : Line = record { content = row r'; size = size r' } in
    let d' = rotate (size r') out.0 in
    elim fault [
      | no_fault ↦ (write_line l d', appended)
      | at_lock ↦ (d, raised)
      | after_repair ↦ (d, raised)
      | after_sequence ↦ (out.0, raised)
      | after_rotation ↦ (d', raised)
      | unterminated ↦ (record d' { tail = some (unended l) }, raised)
      | after_write ↦ (write_line l d', raised)
      | torn n ↦
          (record d' { tail = some (unended (record { content = garbage; size = n })) }, raised)
      | torn_inside n ↦ (record d' { tail = some (undecodable n) }, raised)
    ]

unfoldable pub append_found : Fault → Disk → Disk × Appended
append_found no_fault d = (d, duplicate)
append_found fault d = (d, raised)

unfoldable pub append_repaired : (SpoolRow → ℕ) → SpoolRow → Fault → Disk → Disk × Appended
unfolding append_new append_found any_key
append_repaired size r fault d =
    if any_key (row_key r) d.lines then append_found fault d else append_new size r fault d

-- `_append`
unfoldable pub append : (SpoolRow → ℕ) → SpoolRow → Fault → Disk → Disk × Appended
unfolding append_repaired repair_torn_tail
append size r fault d =
    let repaired = append_repaired size r fault (repair_torn_tail d) in
    elim fault [ at_lock ↦ (d, raised) | _ ↦ repaired ]
