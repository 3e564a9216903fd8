-- ===== src/Inbox/Ingest/History.antt =====
-- Histories of an inbox: messages, the agent's own messages, restarts, and the loss of the sequence
-- file.
use telegram_presence.Base.{
  ℕ, ◌≡◌, refl, sym, subst, inl, inr, some, List, [], ◌∷◌, arith, Bool-cases, Option-cases,
}
use telegram_presence.Base.Text.{Text}
use telegram_presence.Inbox.Peers.{chat_key}
use telegram_presence.Inbox.Spool.{Disk, Key, Fault, Appended, appended, duplicate, raised, append}
use telegram_presence.Inbox.Spool.Sequence.{Sequenced}
use telegram_presence.Inbox.Spool.Sequence.Append.{
  lose_seq, lost_lines, lose_seq-Sequenced, append-Sequenced,
}
use telegram_presence.Inbox.Spool.Unique.{Unique, UniqueRows, append-UniqueRows}
use telegram_presence.Inbox.Ingest.{
  Inbox, Message, Host, is_own, key_in, remember_seen, remember_own_message, build_row,
  appended_result, ingest_id, ingest_message, open_inbox,
}
use telegram_presence.Inbox.Ingest.Seen.{IsCached, remember_seen-IsCached, open_inbox-IsCached}

-- What the files hold: rising sequences, each message at most once.
abbrev pub IsSpool : Disk → Type 0
IsSpool d = Sequenced d × UniqueRows d

-- The invariant of an inbox.
abbrev pub IsInbox : Inbox → Type 0
IsInbox b = IsSpool b.disk × IsCached b

remember_seen-IsInbox : (k : Key) (b : Inbox) → IsInbox b → IsInbox (remember_seen k b)
unfolding remember_seen
remember_seen-IsInbox k b v =
    (subst IsSpool (sym (remember_disk k b)) v.0, remember_seen-IsCached k b v.1)
  where
    remember_disk : (k : Key) (b : Inbox) → (remember_seen k b).disk ≡ b.disk
    remember_disk k b = ground arith

appended_result-IsInbox :
    (k : Key) (b : Inbox) (d : Disk) (a : Appended)
    → IsSpool d
    → IsCached b
    → IsInbox (appended_result k b (d, a)).0
unfolding appended_result
appended_result-IsInbox k b d appended s c = remember_seen-IsInbox k (record b { disk = d }) (s, c)
appended_result-IsInbox k b d duplicate s c = remember_seen-IsInbox k (record b { disk = d }) (s, c)
appended_result-IsInbox k b d raised s c = (s, c)

ingest_id-IsInbox :
    (host : Host) (m : Message) (mid : ℕ) (fault : Fault) (b : Inbox)
    → IsInbox b
    → IsInbox (ingest_id host m mid fault b).0
unfolding ingest_id remember_own_message
ingest_id-IsInbox host m mid fault b v = elim (Bool-cases (is_own m)) [
  | inl o ↦ rw (ingest_id, o) v
  | inr o ↦ elim (Bool-cases (key_in (chat_key m.chat, mid) b.seen)) [
    | inl s ↦ rw (ingest_id, o, s) v
    | inr s ↦
        let r = build_row host m mid b in
        let out = append host.row_bytes r fault b.disk in
        let spool : IsSpool out.0 = (
          append-Sequenced host.row_bytes r fault b.disk v.0.0,
          append-UniqueRows host.row_bytes r fault b.disk v.0.1,
        ) in
        rw (ingest_id, o, s)
          (appended_result-IsInbox (chat_key m.chat, mid) b out.0 out.1 spool v.1)
  ]
]

-- What happens to an inbox: a message is ingested, with the fault that its append meets; the agent sent
-- a message; the process restarts on the files; the sequence file is lost.
pub data Event : Type 0 where
  ingested : Message → Fault → Event
  own_sent : Text → ℕ → Event
  restarted seq_lost : Event

unfoldable pub step : Host → Event → Inbox → Inbox
unfolding remember_own_message lose_seq
step host (ingested m fault) b = (ingest_message host m fault b).0
step host (own_sent chat id) b = remember_own_message chat id b
step host restarted b = open_inbox b.disk
step host seq_lost b = record b { disk = lose_seq b.disk }

unfoldable pub run : Host → List Event → Inbox → Inbox
unfolding step
run host [] b = b
run host (e ∷ es) b = run host es (step host e b)

ingest_message-IsInbox :
    (host : Host) (m : Message) (fault : Fault) (b : Inbox)
    → IsInbox b
    → IsInbox (ingest_message host m fault b).0
unfolding ingest_message
ingest_message-IsInbox host m fault b v = elim (Option-cases m.message_id) [
  | inl e ↦ rw (ingest_message, e) v
  | inr (mid, e) ↦
      subst (λ z. IsInbox z.0) (sym (with_id mid e)) (ingest_id-IsInbox host m mid fault b v)
]
  where
    with_id :
        (mid : ℕ)
        → m.message_id ≡ some mid
        → ingest_message host m fault b ≡ ingest_id host m mid fault b
    with_id mid e = rw (ingest_message, e) refl

step-IsInbox : (host : Host) (e : Event) (b : Inbox) → IsInbox b → IsInbox (step host e b)
unfolding step remember_own_message
step-IsInbox host (ingested m fault) b v = ingest_message-IsInbox host m fault b v
step-IsInbox host (own_sent chat id) b v = v
step-IsInbox host restarted b v =
    let opened = open_inbox-IsCached b.disk in (subst IsSpool (sym opened.1) v.0, opened.0)
step-IsInbox host seq_lost b v =
    ((lose_seq-Sequenced b.disk v.0.0, subst Unique (sym (lost_lines b.disk)) v.0.1), v.1)

-- Whatever messages come, whatever faults their appends meet, and wherever the process restarts or loses
-- its sequence file: the rows of the spool, once a torn tail is repaired, have rising sequences and no
-- message stands there twice, and the cache of seen ids holds each id once and at most 2048 of them.
pub run-IsInbox : (host : Host) (es : List Event) (b : Inbox) → IsInbox b → IsInbox (run host es b)
unfolding run
run-IsInbox host [] b v = v
run-IsInbox host (e ∷ es) b v = run-IsInbox host es (step host e b) (step-IsInbox host e b v)
