-- ===== src/Inbox/Tests.antt =====
-- The spelling of one chat, and an inbox that gets a message twice.
use telegram_presence.Base.{◌+◌, ◌≡◌, refl, true, false, none, some, List, [], ◌∷◌, arith, length}
use telegram_presence.Base.Text.{codes, text_eq, lower, lstrip_at, strip}
use telegram_presence.Base.Int.{pos}
use telegram_presence.Inbox.Peers.{canonical_chat_peer, chat_key}
use telegram_presence.Inbox.Peers.Canonical.{canonical_chat_peer-canonical_chat_peer}
use telegram_presence.Inbox.Spool.{
  row, Disk, no_fault, torn, torn_inside, read_lines, append, repair_torn_tail, numbered, seq_or,
}
use telegram_presence.Inbox.Ingest.{
  Inbox, Message, Host, answer, duplicate_message, is_own, build_row, ingest_message,
}
use telegram_presence.Inbox.Ingest.Acks.{Kept, ingest_message-Kept, ingest_message-ingest_message}
use telegram_presence.Inbox.Ingest.History.{
  IsInbox, Event, ingested, own_sent, restarted, seq_lost, run, run-IsInbox,
}
use telegram_presence.Inbox.Spool.Sequence.{line_seq}
use telegram_presence.Inbox.Reader.{after_seq, unread}
use telegram_presence.Inbox.Reader.Paging.{pages, pages-unread}

canonical_chat_peer_example :
    canonical_chat_peer (canonical_chat_peer (codes " Rain_Chat "))
    ≡ canonical_chat_peer (codes " Rain_Chat ")
canonical_chat_peer_example = canonical_chat_peer-canonical_chat_peer (codes " Rain_Chat ")

abbrev host : Host
host = record { redact = λ t. t; names = codes "antt" ∷ []; row_bytes = λ r. 120 + length r.chat }

abbrev message : Message
message = record {
  chat = codes "@rain";
  message_id = some 7;
  sender_id = some (pos 9);
  text = codes "hey antt";
  reply_to_msg_id = none;
  self_id = some (pos 5);
  sender_username = codes "ann";
  sender_name = codes "Ann";
  topic_id = none;
  now = 10;
  addressed_hint = false;
  matched_terms_hint = [];
  full_text_complete = none;
  original_chars_hint = none;
}

abbrev empty_disk : Disk
empty_disk = record { lines = []; tail = none; last_seq = none }

abbrev empty_inbox : Inbox
empty_inbox = record { disk = empty_disk; seen = []; seen_order = []; own_ids = [] }

empty_inbox-IsInbox : IsInbox empty_inbox
unfolding repair_torn_tail
empty_inbox-IsInbox = (((tt, tt), tt), (refl, tt, omega arith))

ingest_message-Kept_example :
    Kept host message 7 empty_inbox (ingest_message host message no_fault empty_inbox)
unfolding build_row numbered
ingest_message-Kept_example = ingest_message-Kept host message 7 no_fault empty_inbox refl

ingest_message-ingest_message_example :
    ingest_message host message (torn 3) (ingest_message host message no_fault empty_inbox).0
    ≡ ((ingest_message host message no_fault empty_inbox).0, answer false true duplicate_message)
unfolding is_own ingest_message append
ingest_message-ingest_message_example =
    ingest_message-ingest_message host message message 7 no_fault (torn 3) empty_inbox refl refl
      refl refl refl refl

abbrev events : List Event
events =
    ingested message (torn_inside 3)
    ∷ seq_lost
    ∷ restarted
    ∷ own_sent (codes "@rain") 8
    ∷ ingested message no_fault
    ∷ []

run-IsInbox_example : IsInbox (run host events empty_inbox)
run-IsInbox_example = run-IsInbox host events empty_inbox empty_inbox-IsInbox

abbrev two_rows : Disk
two_rows = record {
  lines =
      record {
        content = row (record (build_row host message 7 empty_inbox) { spool_seq = some 1 });
        size = 128;
      }
      ∷ record {
        content = row (record (build_row host message 8 empty_inbox) { spool_seq = some 4 });
        size = 128;
      }
      ∷ [];
  tail = none;
  last_seq = some 4;
}

two_unread : length (unread (after_seq 0) (some (codes "@rain")) 0 (read_lines two_rows)) ≡ 2
unfolding read_lines unread seq_or text_eq chat_key lower lstrip_at strip build_row
two_unread = refl

pages-unread_example :
    pages 2 1 (some (codes "@rain")) two_rows 0
    ≡ unread (after_seq 0) (some (codes "@rain")) 0 (read_lines two_rows)
unfolding read_lines line_seq
pages-unread_example =
    pages-unread (some (codes "@rain")) 2 1 0 two_rows (omega arith, (omega arith, tt))
      (omega (arith, two_unread))
