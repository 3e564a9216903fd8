-- ===== src/Lib.antt =====
-- Verification of telegram-presence, a Python package that lets a language-model agent take part
-- in Telegram group chats. An inbound message enters the inbox (`telegram_presence/inbox.py`), the
-- engage cycle (`telegram_presence/engage.py`) decides on actions, the actions are stored before
-- they are sent (`telegram_presence/group_delivery.py` for group replies and reactions,
-- `telegram_presence/outbox.py` for envelopes of any transport), and policies bound what is
-- accepted (`policy.py`, `liveness.py`, `content.py` of `telegram_presence`).
--
-- Which file models which part:
-- - Outbox, with its folder: `telegram_presence/outbox.py`, `DurableOutbox`. Outbox.antt has the
--   configuration, `_retry_delay`, and the directory as the list of its records, one for each
--   delivery id (`Store`; `get`, `write`, `records` and `replace` stand for `_get_unlocked`,
--   `_write_unlocked`, `_records_unlocked` and `dataclasses.replace` with the write).
--   Outbox/Queue.antt has `enqueue`, `list`, `requeue_dead_letter` and `purge_acked`,
--   Outbox/Lease.antt the claims, the attempt limit and `recover_inflight`, Outbox/Settle.antt
--   `_receipt` (as `outcome`), `_settle`, `_send_claimed`, `dispatch_one` and `dispatch_due`.
--   Outbox/Queue/Purge.antt has what a purge deletes. Each operation is one critical section of
--   the source's lock, so a history of operations, purges among them, is any interleaving of
--   several workers that share one configuration. A receipt of a failure is false as a value, so
--   that its own error text is lost, in the model as in the code.
-- - Delivery, with its folder: `telegram_presence/delivery.py`. States, envelopes, receipts and
--   records, with the checks of the three `__post_init__`.
-- - GroupDelivery, with its folder: `telegram_presence/group_delivery.py`, `GroupActionOutbox`.
--   GroupDelivery/Table.antt has the SQLite table as its rows, with the primary key and the
--   partial unique index (`update` gives `none` where SQLite raises `IntegrityError`), Queue
--   `enqueue` and `due`, Answers the transport's answers, Deliver `deliver` as its two
--   transactions (`begin_send`, and `finish` with the update by the action id alone), Prune the
--   retention and the recovery of stale sends, Drain `deliver_group_action` and
--   `drain_group_actions`. A history has the two transactions as calls of their own, so that
--   several processes may be inside `deliver` at once; a settlement then comes with whatever row
--   its process read before. A backoff that is too large for a float is an `overflow_error`. A
--   drain runs its deliveries one after the other.
-- - Engage, with its folder: `telegram_presence/engage.py`. Engage.antt has the plans,
--   Engage/Validate.antt `validate_actions` with its loop variables as a record,
--   Engage/Boundaries.antt the autonomy, memory, wait and depth policies with their traces (Paused
--   and Depth say what two of them do without the code's own tests), Engage/Coalesce
--   `coalesce_candidates` with its loop as a function of the list behind and the group,
--   Engage/Topics the cursor and the failures of a topic's entry, Engage/Addressing
--   `apply_reply_addressing` with `cap_delegate_reply` of `telegram_presence/delegate.py`,
--   Engage/Ledger `gate_open`, the caps for a day and the cursors of a chat's entry.
-- - Inbox, with its folder: `telegram_presence/inbox.py`. Inbox/Peers has the spelling of chats,
--   Inbox/Terms the terms and the text of an inbound message, Inbox/Spool the spool file and the
--   sequence file with `_append` and what it calls, Inbox/Ingest `GroupInbox` with its memory and
--   `ingest_message`, Inbox/Reader `snapshot_seq`, `pending` and `has_unconsumed_addressed`. A
--   `Fault` says where an append raises and how much of its row is then on disk, also where this
--   ends inside a character, which no reader can decode; a history has messages with their faults,
--   restarts, and the loss of the sequence file. The size of a row's JSON text and the redaction
--   of the host are arguments.
-- - Roster, with its folder: `telegram_presence/roster.py`. Roster.antt has the participants and
--   entities with what each call makes of them, Roster/Dict the dictionaries with `_evict`,
--   Roster/Memory the cache with its file, `_flush` and the calls, Roster/Blocks what a prompt
--   shows. The clock, the success of a write and the host's names are arguments.
-- - Content/Media and Content/Chunks, with its folder: the media policy and `semantic_chunks` of
--   `telegram_presence/content.py`. The two regular expressions that split a text are scans over
--   its code points.
-- - Policy and Liveness: `telegram_presence/policy.py` and `telegram_presence/liveness.py`.
-- - Base: what these share, such as texts, dynamically typed values, exceptions as results, and
--   loops.
--
-- How the code is represented. A text is the list of its code points; `lower` and `isalpha` cover
-- the Latin and Cyrillic letters, `\w` these with the ten digits and the underscore, `casefold`
-- and a pattern's IGNORECASE are `lower`, and `isprintable` goes by the ranges of control, format,
-- space and private code points. A time or duration is a natural number of ticks, a millionth of a
-- second; times are not negative. The clock, `uuid4` and the senders are arguments: a call takes
-- the time it reads, the lease id it draws and the answer it gets. `uuid5` and SHA-256 are
-- functions given as arguments, with no assumption on them beyond what a theorem names. A raised
-- exception is a result (`Base/Result.antt`); where it is raised before the first write, the store
-- is left as it was. A value of any type is a `Value`, with its type as a constructor. An
-- envelope's metadata are a text, one for all mappings that are equal under `==`.
--
-- Termination. Every function is total. The loops run over the records of the store by recursion
-- on the list. `dispatch_due` runs at most as many rounds as its limit says, the digits of a count
-- are printed with fuel one more than the count, which has no more digits than that, and a word is
-- cut with its length as fuel, since each cut takes a code point at least.
--
-- What is not modelled: the encoding of records as JSON files and the repair of a file that cannot
-- be decoded; file modes, locks and fsync; the migration of an older SQLite schema; two processes
-- that share one spool; the legacy receipt of the inbox; the rest of the engage cycle; the
-- reconstruction of scenes; the prompts; the network adapters under
-- `telegram_presence/transports`.
pub mod Base
pub mod Policy
pub mod Roster
pub mod Liveness
pub mod Content
pub mod Delivery
pub mod Engage
pub mod Inbox
pub mod GroupDelivery
pub mod Outbox
