-- ===== src/GroupDelivery/Deliver/Outcomes.antt =====
-- What a delivery of a due row comes to.
use telegram_presence.Base.{
  ℕ, zero, suc, ◌+◌, ◌-◌, ◌*◌, ◌^◌, ◌≤◌, ◌<◌, min, ◌≡◌, ◌≢◌, refl, ap, ◌∙◌, ◌⊎◌, inl, inr, true,
  false, Option, none, some, List, [], arith, if◌then◌else◌, Bool-cases, leb, take,
}
use telegram_presence.Base.Int.{ℤ, pos, negsuc}
use telegram_presence.Base.Text.{Text, codes, text_eq, text_eq_refl, text_eq_iff}
use telegram_presence.Base.Value.{tick_rate}
use telegram_presence.GroupDelivery.{
  Row, Settings, Status, acked, dead, retry, is_waiting, is_superseded,
}
use telegram_presence.GroupDelivery.Answers.{
  Resolution, ack, failure, resolve_transport_ack, extract_telegram_message_ids,
}
use telegram_presence.GroupDelivery.Table.{Table, find, update, replace}
use telegram_presence.GroupDelivery.Table.Laws.{IsValid}
use telegram_presence.GroupDelivery.Table.Updates.{SameIntent, Updated, update-Updated}
use telegram_presence.GroupDelivery.Deliver.{
  Sender, Delivered, acknowledged, failed, begun, backoff, overflows, unsent, sent, written, finish,
  to_send, claim_read, begin_row, begin_send, send_begun, is_nonzero, invoke_sender, deliver,
  by_status,
}

-- What the row of a due delivery says after it, and what the call returns or raises.
pub record Acknowledged (later : ℕ) (ids : List ℤ) (r u : Row) : Type 0 where
  pub same : SameIntent r u
  pub status : u.status ≡ acked
  pub attempts : u.attempts ≡ suc r.attempts
  pub telegram_message_ids : u.telegram_message_ids ≡ ids
  pub last_error : u.last_error ≡ []
  pub updated_at : u.updated_at ≡ later

pub record Refused (c : Settings) (now : ℕ) (e : Text) (r u : Row) : Type 0 where
  pub same : SameIntent r u
  pub attempts : u.attempts ≡ suc r.attempts
  pub last_error : u.last_error ≡ take 500 e
  pub next :
      ((r.max_attempts ≤ suc r.attempts) × (u.status ≡ dead) × (u.next_attempt_at ≡ now))
      ⊎ ((suc r.attempts < r.max_attempts)
          × (u.status ≡ retry)
          × (u.next_attempt_at ≡ now + min (300 * tick_rate) (c.base_backoff_sec * 2 ^ r.attempts)))

-- The outcome by the transport's answer.
abbrev pub Ends : Settings → ℕ → ℕ → Resolution → Row → Row → Delivered → Type 0
Ends c now later (ack a) r u d =
    Acknowledged later (extract_telegram_message_ids a) r u × (d ≡ acknowledged a)
Ends c now later (failure e) r u d = Refused c now e r u × (d ≡ failed e)

-- The random id that a sender gets: the row's for a reply, if it is not 0 and the sender takes one.
abbrev pub Given : Row → Sender → Option ℤ → Type 0
Given r s (some n) =
    (n ≡ r.transport_random_id)
    × (r.action ≡ codes "reply")
    × (r.transport_random_id ≢ pos 0)
    × (s.accepts_random_id ≡ true)
Given r s none =
    (r.action ≢ codes "reply") ⊎ (r.transport_random_id ≡ pos 0) ⊎ (s.accepts_random_id ≡ false)

-- What the delivery of a row makes of a table, and what it returns.
abbrev pub Settled : Settings → ℕ → ℕ → Text → Sender → Row → Table → Table × Delivered → Type 0
Settled c now later id s r t out =
    (n : Option ℤ) × Given r s n
    × (u : Row) × Ends c now later (resolve_transport_ack (s.send r.chat r.msg_id r.payload n)) r u
        out.1
    × Updated id u t out.0

active_waiting : (s : Status) → is_waiting s ≡ true → is_superseded s ≡ false
unfolding is_waiting is_superseded
active_waiting s h = ground arith

pub begun_same : (now : ℕ) (r : Row) → SameIntent r (begun now r)
unfolding begun
begun_same now r = ground arith

nonzero : (n : ℤ) → ((is_nonzero n ≡ true) × (n ≢ pos 0)) ⊎ ((is_nonzero n ≡ false) × (n ≡ pos 0))
unfolding is_nonzero
nonzero (pos zero) = inr (refl, refl)
nonzero (pos (suc n)) = inl (refl, λ e. cc)
nonzero (negsuc n) = inl (refl, λ e. cc)

pub found-Updated : (id : Text) (r : Row) (t t' : Table) → Updated id r t t' → find id t' ≡ some r
found-Updated id r t t' u = u.1 id ∙ (rw (text_eq_refl id) refl)

pub Updated-trans :
    (id : Text) (q r : Row) (t t' t'' : Table)
    → Updated id q t t'
    → Updated id r t' t''
    → Updated id r t t''
Updated-trans id q r t t' t'' u w = (w.0, λ j. w.1 j ∙ (later j))
  where
    later :
        (j : Text)
        → (if text_eq id j then some r else find j t') ≡ (if text_eq id j then some r else find j t)
    later j = elim (Bool-cases (text_eq id j)) [ inl e ↦ rw e refl | inr e ↦ rw (u.1 j, e) refl ]

-- The call of the sender.
sender_called :
    (now : ℕ) (r : Row) (s : Sender)
    → (n : Option ℤ) × Given r s n
      × (invoke_sender (begun now r) s ≡ s.send r.chat r.msg_id r.payload n)
unfolding invoke_sender begun
sender_called now r s = elim (Bool-cases (text_eq r.action (codes "reply"))) [
  | inr e ↦
      let other : r.action ≢ codes "reply" =
        λ f. ground (arith, e, (text_eq_iff r.action (codes "reply")).1 f) in
      (none, inl other, rw e refl)
  | inl e ↦ elim (nonzero r.transport_random_id) [
    | inr (f, zero_id) ↦ (none, inr (inl zero_id), rw (e, f) refl)
    | inl (f, nonzero_id) ↦ elim (Bool-cases s.accepts_random_id) [
      | inr g ↦ (none, inr (inr g), rw (e, f, g) refl)
      | inl g ↦ (
        some r.transport_random_id,
        (refl, (text_eq_iff r.action (codes "reply")).0 e, nonzero_id, g),
        rw (e, f, g) refl,
      )
    ]
  ]
]

module _ (c : Settings) (now later : ℕ) (id : Text) (r : Row) where
  Acknowledged-sent : (ids : List ℤ) → Acknowledged later ids r (sent later ids (begun now r))
  unfolding sent begun
  Acknowledged-sent ids = record {
    same = ground arith;
    status = refl;
    attempts = omega arith;
    telegram_message_ids = refl;
    last_error = refl;
    updated_at = refl;
  }

  Refused-unsent : (e : Text) → Refused c now e r (unsent c now e (begun now r) (begun now r))
  unfolding unsent begun backoff
  Refused-unsent e = elim (Bool-cases (leb r.max_attempts (r.attempts + 1))) [
    | inl f ↦ rw f (record {
      same = ground arith;
      attempts = omega arith;
      last_error = refl;
      next = inl (ground arith, refl, refl);
    })
    | inr f ↦ rw f (record {
      same = ground arith;
      attempts = omega arith;
      last_error = refl;
      next = inr (
        ground arith,
        refl,
        ap (λ k. now + min (300 * tick_rate) (c.base_backoff_sec * 2 ^ k)) one_less,
      );
    })
  ]
    where
      one_less : r.attempts + 1 - 1 ≡ r.attempts
      one_less = omega arith

  finish-Ends :
      (a : Resolution) (t : Table)
      → IsValid t
      → find id t ≡ some (begun now r)
      → r.attempts < 1024
      → (u : Row) × Ends c now later a r u (finish c now later id (begun now r) a t).1
        × Updated id u t (finish c now later id (begun now r) a t).0
  unfolding finish written
  finish-Ends (ack a) t v h few =
      let f = sent later (extract_telegram_message_ids a) in
      let same : SameIntent (begun now r) (f (begun now r)) = unfold sent in ground arith in
      let u = update-Updated f id (begun now r) t v h same (unfold begun is_superseded in refl) in
      rw u.0 (f (begun now r), (Acknowledged-sent (extract_telegram_message_ids a), refl), u.1)
  finish-Ends (failure e) t v h few =
      let f = unsent c now e (begun now r) in
      let same : SameIntent (begun now r) (f (begun now r)) = unfold unsent in ground arith in
      let fits : overflows (begun now r).attempts ≡ false =
        unfold overflows begun in ground arith in
      let u = update-Updated f id (begun now r) t v h same (unfold begun is_superseded in refl) in
      rw (fits, u.0) (f (begun now r), (Refused-unsent e, refl), u.1)

begun_row :
    (now : ℕ) (id : Text) (r : Row) (t : Table)
    → find id t ≡ some r
    → is_waiting r.status ≡ true
    → r.next_attempt_at ≤ now
    → begin_send now id t ≡ claim_read id t (update (begun now) id t)
unfolding begin_send begin_row by_status is_waiting
begun_row now id r t h w d = rw (begin_send, h) (ground arith)

pub claim_read-found :
    (id : Text) (q : Row) (t t' : Table)
    → find id t' ≡ some q
    → claim_read id t (some t') ≡ (t', to_send q)
unfolding claim_read
claim_read-found id q t t' h = rw (claim_read, h) refl

-- The delivery of a due row (pending or to be tried again, its time come) in a valid table, with no other
-- process between its two transactions and fewer than 1024 attempts made before. Its outcome is what the
-- sender answers for the row's chat, message and payload, and for its random id if the row is a reply,
-- that id is not 0 and the sender takes one. An acknowledgement is returned and leaves the row
-- acknowledged with its message ids and no error. A failure is raised; it leaves its text, of at most
-- 500 characters, and the row dead if its attempts are used up, else to be tried again after the base
-- backoff doubled for each earlier attempt, at most five minutes. Either way one attempt is counted, the
-- intent is the same, the table stays valid and its other rows stay.
pub deliver_due :
    (c : Settings) (now later : ℕ) (id : Text) (s : Sender) (r : Row) (t : Table)
    → IsValid t
    → find id t ≡ some r
    → is_waiting r.status ≡ true
    → r.next_attempt_at ≤ now
    → r.attempts < 1024
    → Settled c now later id s r t (deliver c now later id s t)
unfolding deliver claim_read send_begun
deliver_due c now later id s r t v h w d few =
    let u = update-Updated (begun now) id r t v h (begun_same now r) (active_waiting r.status w) in
    let t' = replace (begun now r) t in
    let there = found-Updated id (begun now r) t t' u.1 in
    let (n, given, call) = sender_called now r s in
    let a = resolve_transport_ack (s.send r.chat r.msg_id r.payload n) in
    let (x, ends, w') = finish-Ends c now later id r a t' u.1.0 there few in
    rw (begun_row now id r t h w d, u.0, claim_read-found id (begun now r) t t' there, call)
      (n, given, x, ends, Updated-trans id (begun now r) x t t' _ u.1 w')
