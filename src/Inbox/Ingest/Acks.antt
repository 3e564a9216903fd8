-- ===== src/Inbox/Ingest/Acks.antt =====
-- What a result of `ingest_message` promises to the transport.
use telegram_presence.Base.{
  ℕ, ◌≤◌, ◌≡◌, refl, max, sym, ap, ◌∙◌, subst, inl, inr, Bool, true, false, not, ◌||◌, none, some,
  arith, Bool-cases,
}
use telegram_presence.Inbox.Peers.{chat_key}
use telegram_presence.Inbox.Spool.{
  Disk, Key, row_key, Fault, Appended, appended, duplicate, raised, append, any_key,
  max_spool_bytes, total_bytes,
}
use telegram_presence.Inbox.Spool.Bounds.{Returned, append-Returned, stamped}
use telegram_presence.Inbox.Ingest.{
  Inbox, Message, Host, Reason, invalid_message_id, own_message, duplicate_message, storage_failure,
  written_row, InboxAddResult, answer, is_own, key_in, remember_seen, build_row, appended_result,
  ingest_id, ingest_message,
}
use telegram_presence.Inbox.Ingest.Seen.{remember_seen-key_in}

-- What holds after a call, by the reason of its result.
abbrev pub Promise : Host → Message → ℕ → Inbox → Inbox → Reason → Type 0
Promise host m mid b b' invalid_message_id = m.message_id ≡ none
Promise host m mid b b' own_message = is_own m ≡ true
Promise host m mid b b' duplicate_message =
    (key_in (chat_key m.chat, mid) b.seen || any_key (chat_key m.chat, mid) b'.disk.lines) ≡ true
Promise host m mid b b' written_row =
    (any_key (chat_key m.chat, mid) b'.disk.lines ≡ true)
    × (total_bytes b'.disk.lines
        ≤ max max_spool_bytes (host.row_bytes (stamped (build_row host m mid b) b.disk)))
Promise host m mid b b' storage_failure = (b'.seen ≡ b.seen) × (b'.seen_order ≡ b.seen_order)

unfoldable pub failed : Reason → Bool
failed storage_failure = true
failed _ = false

unfoldable pub is_written : Reason → Bool
is_written written_row = true
is_written _ = false

-- The result may be acknowledged exactly if the storage did not fail, it is written exactly if its
-- reason says so, and its reason keeps its promise.
abbrev pub Kept : Host → Message → ℕ → Inbox → Inbox × InboxAddResult → Type 0
Kept host m mid b out =
    (out.1.safe_to_ack ≡ not (failed out.1.reason))
    × (out.1.written ≡ is_written out.1.reason)
    × Promise host m mid b out.0 out.1.reason

build_row_key :
    (host : Host) (m : Message) (mid : ℕ) (b : Inbox)
    → row_key (build_row host m mid b) ≡ (chat_key m.chat, mid)
unfolding row_key build_row
build_row_key host m mid b = refl

remember_seen-disk : (k : Key) (b : Inbox) → (remember_seen k b).disk ≡ b.disk
unfolding remember_seen
remember_seen-disk k b = ground arith

module _ (host : Host) where
  appended-Kept :
      (m : Message) (mid : ℕ) (b : Inbox) (d : Disk) (a : Appended)
      → Returned host.row_bytes (build_row host m mid b) b.disk d a
      → Kept host m mid b (appended_result (chat_key m.chat, mid) b (d, a))
  unfolding appended_result answer failed is_written
  appended-Kept m mid b d appended h =
      let same = remember_seen-disk (chat_key m.chat, mid) (record b { disk = d }) in
      let e = build_row_key host m mid b in
      (refl, refl, rw same (ap (λ k. any_key k d.lines) (sym e) ∙ h.0, h.1))
  appended-Kept m mid b d duplicate h =
      let same = remember_seen-disk (chat_key m.chat, mid) (record b { disk = d }) in
      let there : any_key (chat_key m.chat, mid) d.lines ≡ true =
        ap (λ k. any_key k d.lines) (sym (build_row_key host m mid b)) ∙ h.0 in
      (refl, refl, rw (same, there) (ground arith))
  appended-Kept m mid b d raised h = (refl, refl, (refl, refl))

  ingest_id-Kept :
      (m : Message) (mid : ℕ) (fault : Fault) (b : Inbox)
      → Kept host m mid b (ingest_id host m mid fault b)
  unfolding ingest_id answer failed is_written
  ingest_id-Kept m mid fault b = elim (Bool-cases (is_own m)) [
    | inl o ↦ rw (ingest_id, o) (refl, refl, o)
    | inr o ↦ elim (Bool-cases (key_in (chat_key m.chat, mid) b.seen)) [
      | inl s ↦ rw (ingest_id, o, s) (refl, refl, rw s refl)
      | inr s ↦
          let r = build_row host m mid b in
          let out = append host.row_bytes r fault b.disk in
          rw (ingest_id, o, s)
            (appended-Kept m mid b out.0 out.1 (append-Returned host.row_bytes r fault b.disk))
    ]
  ]

  ingest_with_id :
      (m : Message) (mid : ℕ) (fault : Fault) (b : Inbox)
      → m.message_id ≡ some mid
      → ingest_message host m fault b ≡ ingest_id host m mid fault b
  unfolding ingest_message
  ingest_with_id m mid fault b e = rw (ingest_message, e) refl

  -- A message with an id is acknowledged only if it is safe: the agent wrote it itself, its id was seen
  -- or stands in the spool, or its row was written, with the spool's lines within the size limit, or
  -- within the size of this row where it alone is larger. A storage failure is not acknowledged, and the
  -- message is not remembered as seen.
  pub ingest_message-Kept :
      (m : Message) (mid : ℕ) (fault : Fault) (b : Inbox)
      → m.message_id ≡ some mid
      → Kept host m mid b (ingest_message host m fault b)
  ingest_message-Kept m mid fault b e =
      subst (Kept host m mid b) (sym (ingest_with_id m mid fault b e))
        (ingest_id-Kept m mid fault b)

  seen_result :
      (k : Key) (b : Inbox) (d : Disk) (a : Appended)
      → (appended_result k b (d, a)).1.safe_to_ack ≡ true
      → key_in k (appended_result k b (d, a)).0.seen ≡ true
  unfolding appended_result answer
  seen_result k b d appended h = remember_seen-key_in k (record b { disk = d })
  seen_result k b d duplicate h = remember_seen-key_in k (record b { disk = d })
  seen_result k b d raised h = cc

  remembered :
      (m : Message) (mid : ℕ) (fault : Fault) (b : Inbox)
      → is_own m ≡ false
      → (ingest_id host m mid fault b).1.safe_to_ack ≡ true
      → key_in (chat_key m.chat, mid) (ingest_id host m mid fault b).0.seen ≡ true
  unfolding ingest_id
  remembered m mid fault b o safe = elim (Bool-cases (key_in (chat_key m.chat, mid) b.seen)) [
    | inl s ↦ rw (ingest_id, o, s) s
    | inr s ↦
        let r = build_row host m mid b in
        let out = append host.row_bytes r fault b.disk in
        let there : (appended_result (chat_key m.chat, mid) b out).1.safe_to_ack ≡ true =
          rw (ingest_id, o, s) at safe in
        rw (ingest_id, o, s) (seen_result (chat_key m.chat, mid) b out.0 out.1 there)
  ]

  seen_before :
      (m : Message) (mid : ℕ) (fault : Fault) (b : Inbox)
      → is_own m ≡ false
      → key_in (chat_key m.chat, mid) b.seen ≡ true
      → ingest_id host m mid fault b ≡ (b, answer false true duplicate_message)
  unfolding ingest_id
  seen_before m mid fault b o s = rw (ingest_id, o, s) refl

  -- A replay of a message that was acknowledged as written or as a duplicate, with whatever text, time
  -- and fault, changes nothing and is acknowledged as a duplicate.
  pub ingest_message-ingest_message :
      (m m' : Message) (mid : ℕ) (fault fault' : Fault) (b : Inbox)
      → m.message_id ≡ some mid
      → m'.message_id ≡ some mid
      → chat_key m'.chat ≡ chat_key m.chat
      → is_own m ≡ false
      → is_own m' ≡ false
      → (ingest_message host m fault b).1.safe_to_ack ≡ true
      → ingest_message host m' fault' (ingest_message host m fault b).0
        ≡ ((ingest_message host m fault b).0, answer false true duplicate_message)
  ingest_message-ingest_message m m' mid fault fault' b e e' c o o' safe =
      let k : Key = (chat_key m.chat, mid) in
      let first = ingest_with_id m mid fault b e in
      let out = ingest_id host m mid fault b in
      let seen = remembered m mid fault b o (ap (λ z. z.1.safe_to_ack) (sym first) ∙ safe) in
      subst (λ z. ingest_message host m' fault' z.0 ≡ (z.0, answer false true duplicate_message))
        (sym first)
        (ingest_with_id m' mid fault' out.0 e'
          ∙ seen_before m' mid fault' out.0 o' (ap (λ t. key_in (t, mid) out.0.seen) c ∙ seen))
