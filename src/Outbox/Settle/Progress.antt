-- ===== src/Outbox/Settle/Progress.antt =====
-- Settling a lease: the record it ends in, and leases that are no longer held.
use telegram_presence.Base.{
  ℕ, ◌+◌, ◌≤◌, ◌<◌, ◌≡◌, refl, sym, ap, subst, ◌⊎◌, ◌↔◌, inl, inr, Bool, Option, none, [], ◌∷◌,
  take, true, false, not, ◌&&◌, ◌||◌, some, arith, Bool-cases, leb, max, Option-cases,
}
use telegram_presence.Base.Text.{Text, codes, text_eq_iff}
use telegram_presence.Base.Loop.{Ensures, Ensures-map, IfOk, IfOk-of-Ensures}
use telegram_presence.Delivery.{sending, acked, failed, dead_letter, state_eq, optional_identifier}
use telegram_presence.Delivery.Receipt.{TransportReceipt, clip_error}
use telegram_presence.Delivery.Record.{DeliveryRecord}
use telegram_presence.Delivery.Record.Laws.{Shape}
use telegram_presence.Outbox.{Config, Store, find, get, put, safe_id, retry_delay}
use telegram_presence.Outbox.Laws.{find-All, find-id, find-put_self, Current}
use telegram_presence.Outbox.Lifecycle.{
  Move, acks, retries, gives_up, Same, IsValid, IsSound, Progress, Progress-refl, Progress-put,
  replace-ok,
}
use telegram_presence.Outbox.Lease.Progress.{clip-take}
use telegram_presence.Outbox.Settle.{
  Outcome, received, raised, succeeded, unsuccessful, settled, failure_text, receipt_error,
  or_default, or_text, lease_eq, settle_found, settle,
}

module _ (c : Config) (t : ℕ) (d : DeliveryRecord) (late : d.updated_at ≤ t)
    (is_sending : d.state ≡ sending) where
  started : IsValid d → 1 ≤ d.attempts
  started v = (subst (λ x. Shape x d) is_sending v.form.shape).0

  module _ (v : IsValid d) where
    succeeded-IsValid : (r : TransportReceipt) → IsValid (succeeded t r d)
    unfolding succeeded optional_identifier clip_error
    succeeded-IsValid r = record {
      form = record {
        id = v.form.id;
        lease = refl;
        clipped = refl;
        ordered = omega (arith, v.form.ordered);
        shape = ground (arith, started v);
      };
      path = v.path;
    }

    unsuccessful-Shape : (m : Text) → Shape (unsuccessful c t m d).state (unsuccessful c t m d)
    unfolding unsuccessful
    unsuccessful-Shape m = elim (Bool-cases (leb c.max_attempts d.attempts)) [
      | inl h ↦ rw h (started v, refl, refl, refl, refl)
      | inr h ↦ rw h (ground arith, refl, refl, refl)
    ]

    unsuccessful-IsValid : (m : Text) → IsValid (unsuccessful c t m d)
    unfolding unsuccessful optional_identifier
    unsuccessful-IsValid m = record {
      form = record {
        id = v.form.id;
        lease = refl;
        clipped = clip-take m;
        ordered = omega (arith, v.form.ordered);
        shape = unsuccessful-Shape m;
      };
      path = v.path;
    }

    settled-IsValid : (o : Outcome) → IsValid (settled c t o d)
    unfolding settled failure_text receipt_error
    settled-IsValid (raised m) = unsuccessful-IsValid _
    settled-IsValid (received r) = elim (Bool-cases r.success) [
      | inl e ↦ rw e (succeeded-IsValid r)
      | inr e ↦ rw e (unsuccessful-IsValid (or_default none))
    ]

  settled-Same : (o : Outcome) → Same d (settled c t o d)
  unfolding settled succeeded unsuccessful
  settled-Same (raised m) = record { id = refl; envelope = refl; created = refl; later = late }
  settled-Same (received r) = elim (Bool-cases r.success) [
    | inl e ↦ rw e (record { id = refl; envelope = refl; created = refl; later = late })
    | inr e ↦ rw e (record { id = refl; envelope = refl; created = refl; later = late })
  ]

  unsuccessful-Move : (m : Text) → Move c d (unsuccessful c t m d)
  unfolding unsuccessful
  unsuccessful-Move m = elim (Bool-cases (leb c.max_attempts d.attempts)) [
    | inl h ↦ gives_up (ground arith) (ground arith) (ground arith) (rw h) refl
    | inr h ↦ retries is_sending (ground arith) (rw h) refl
  ]

  settled-Move : (o : Outcome) → Move c d (settled c t o d)
  unfolding settled succeeded failure_text receipt_error
  settled-Move (raised m) = unsuccessful-Move _
  settled-Move (received r) = elim (Bool-cases r.success) [
    | inl e ↦ rw e (acks is_sending refl refl)
    | inr e ↦ rw e (unsuccessful-Move (or_default none))
  ]

-- What an acknowledged delivery's record says.
pub record Acked (now : ℕ) (message_id : Option Text) (u : DeliveryRecord) : Type 0 where
  pub state : u.state ≡ acked
  pub acked_at : u.acked_at ≡ some now
  pub last_error : u.last_error ≡ none
  pub transport_message_id : u.transport_message_id ≡ message_id
  pub lease_id : u.lease_id ≡ none

-- What the record `u` of a delivery `d` says once its send failed with `message`.
pub record Failed (c : Config) (now : ℕ) (message : Text) (d u : DeliveryRecord) : Type 0 where
  pub state :
      ((c.max_attempts ≤ d.attempts) × (u.state ≡ dead_letter) × (u.next_attempt_at ≡ none))
      ⊎ ((d.attempts < c.max_attempts)
          × (u.state ≡ failed)
          × (u.next_attempt_at ≡ some (now + retry_delay c d.attempts)))
  pub attempts : u.attempts ≡ d.attempts
  pub acked_at : u.acked_at ≡ none
  pub last_error : u.last_error ≡ some (take 1000 message)
  pub lease_id : u.lease_id ≡ none

-- What an outcome makes of a record: a receipt of a failure has one text, whatever its error says.
abbrev pub Ends : Config → ℕ → Outcome → DeliveryRecord → DeliveryRecord → Type 0
Ends c now (received r) d u =
    ((r.success ≡ true) × Acked now r.transport_message_id u)
    ⊎ ((r.success ≡ false) × Failed c now (codes "transport failed") d u)
Ends c now (raised []) d u = Failed c now (codes "transport failed") d u
Ends c now (raised (x ∷ t)) d u = Failed c now (x ∷ t) d u

unsuccessful-Failed :
    (c : Config) (t : ℕ) (m : Text) (d : DeliveryRecord) → Failed c t m d (unsuccessful c t m d)
unfolding unsuccessful
unsuccessful-Failed c t m d = record {
  state = elim (Bool-cases (leb c.max_attempts d.attempts)) [
    | inl h ↦ rw h (inl (ground arith, refl, refl))
    | inr h ↦ rw h (inr (ground arith, refl, refl))
  ];
  attempts = refl;
  acked_at = refl;
  last_error = refl;
  lease_id = refl;
}

succeeded-Acked :
    (t : ℕ) (r : TransportReceipt) (d : DeliveryRecord)
    → Acked t r.transport_message_id (succeeded t r d)
unfolding succeeded
succeeded-Acked t r d = record {
  state = refl;
  acked_at = refl;
  last_error = refl;
  transport_message_id = refl;
  lease_id = refl;
}

settled-Ends :
    (c : Config) (t : ℕ) (o : Outcome) (d : DeliveryRecord) → Ends c t o d (settled c t o d)
unfolding settled failure_text receipt_error or_default or_text
settled-Ends c t (raised []) d = unsuccessful-Failed c t _ d
settled-Ends c t (raised (x ∷ m)) d = unsuccessful-Failed c t _ d
settled-Ends c t (received r) d = elim (Bool-cases r.success) [
  | inl e ↦ rw e (inl (refl, succeeded-Acked t r d))
  | inr e ↦ rw e (inr (refl, unsuccessful-Failed c t _ d))
]

lease_eq_iff : (a b : Option Text) → (lease_eq a b ≡ true) ↔ (a ≡ b)
unfolding lease_eq
lease_eq_iff none none = (λ e. refl, λ e. refl)
lease_eq_iff none (some b) = (λ e. cc, λ e. cc)
lease_eq_iff (some a) none = (λ e. cc, λ e. cc)
lease_eq_iff (some a) (some b) =
    (λ e. ap some ((text_eq_iff a b).0 e), λ e. (text_eq_iff a b).1 (ground arith))

-- The lease that was claimed is still held.
abbrev pub Held : DeliveryRecord → DeliveryRecord → Type 0
Held claimed current = (current.state ≡ sending) × (current.lease_id ≡ claimed.lease_id)

holds : DeliveryRecord → DeliveryRecord → Bool
holds claimed current = state_eq current.state sending && lease_eq current.lease_id claimed.lease_id

lost : (claimed current : DeliveryRecord) → holds claimed current ≡ false → ¬ Held claimed current
unfolding holds state_eq
lost claimed current e h =
    ground (arith, h.0, (lease_eq_iff current.lease_id claimed.lease_id).1 h.1)

-- What settling makes of a directory in which `current` stands under the claimed id.
pub record Settles (c : Config) (now : ℕ) (claimed : DeliveryRecord) (o : Outcome)
    (current : DeliveryRecord) (s t : Store) (result : DeliveryRecord) : Type 0 where
  pub progress : Progress c s t
  pub outcome :
      (Held claimed current
        × Ends c (max now current.updated_at) o current result
        × (t ≡ put result s))
      ⊎ (¬ Held claimed current × (result ≡ current) × (t ≡ s))
  pub stored : Current t result

pub settle_found-Settles :
    (c : Config) (now : ℕ) (claimed : DeliveryRecord) (o : Outcome) (current : DeliveryRecord)
    (s : Store)
    → IsSound s
    → Current s current
    → Ensures
        (λ out. Settles c now claimed o current s out.0 out.1)
        (settle_found c now claimed o current s)
unfolding settle_found holds
settle_found-Settles c now claimed o current s h here = elim (Bool-cases (holds claimed current)) [
  | inr e ↦
      let skip : (not (state_eq current.state sending)
            || not (lease_eq current.lease_id claimed.lease_id))
          ≡ true =
        ground arith in
      rw skip (record {
        progress = Progress-refl c s h;
        outcome = inr (lost claimed current e, refl, refl);
        stored = here;
      })
  | inl e ↦
      let go : (not (state_eq current.state sending)
            || not (lease_eq current.lease_id claimed.lease_id))
          ≡ false =
        ground arith in
      let is_sending : current.state ≡ sending = unfold state_eq in ground arith in
      let v = find-All IsValid current.delivery_id s current h.valid here in
      let late : current.updated_at ≤ max now current.updated_at = omega arith in
      let w = settled-IsValid c (max now current.updated_at) current late is_sending v o in
      let same = settled-Same c (max now current.updated_at) current late is_sending o in
      rw (go, replace-ok (settled c (max now current.updated_at) o current) s w)
        (record {
          progress =
              Progress-put c s current _ h here w same
                (settled-Move c (max now current.updated_at) current late is_sending o);
          outcome = inl (
            (is_sending, (lease_eq_iff current.lease_id claimed.lease_id).0 (ground arith)),
            settled-Ends c (max now current.updated_at) o current,
            refl,
          );
          stored = find-put_self _ s;
        })
]

-- Settling a claimed record that is in the directory never raises. While the claimed lease is held (the
-- record is being sent, with that lease), the result is stored: a receipt of success acknowledges it
-- with the receipt's message id; a receipt of a failure, whatever its error, fails it with the text
-- "transport failed", and an exception with its own text, or that one if it is empty, of at most 1000
-- characters. A failed record is a dead letter if its attempts are used up, else it is due again after
-- the backoff. Once the lease is lost, the directory stays as it is and the current record is returned.
-- Every delivery keeps its record or goes on in its life.
pub settle-Settles :
    (c : Config) (now : ℕ) (claimed : DeliveryRecord) (o : Outcome) (current : DeliveryRecord)
    (s : Store)
    → IsSound s
    → find claimed.delivery_id s ≡ some current
    → Ensures (λ out. Settles c now claimed o current s out.0 out.1) (settle c now claimed o s)
unfolding settle get
settle-Settles c now claimed o current s h f =
    let same = find-id claimed.delivery_id s current f in
    let v = find-All IsValid claimed.delivery_id s current h.valid f in
    let safe : safe_id claimed.delivery_id ≡ true = subst (λ x. safe_id x ≡ true) same v.path in
    rw (safe, f)
      (settle_found-Settles c now claimed o current s h
        (subst (λ x. find x s ≡ some current) (sym same) f))

pub settle-IfOk :
    (c : Config) (now : ℕ) (claimed : DeliveryRecord) (o : Outcome) (s : Store)
    → IsSound s
    → IfOk (λ out. Progress c s out.0) (settle c now claimed o s)
settle-IfOk c now claimed o s h = elim (Option-cases (find claimed.delivery_id s)) [
  | inl missing ↦
      unfold settle get in
      elim (Bool-cases (safe_id claimed.delivery_id)) [
        | inl safe ↦ rw (safe, missing) tt
        | inr unsafe ↦ rw unsafe tt
      ]
  | inr (current, found) ↦ IfOk-of-Ensures _ (settle c now claimed o s) (
      Ensures-map _ (λ out. Progress c s out.0) _ (settle-Settles c now claimed o current s h found)
        (λ out x. x.progress))
]
