-- ===== src/Outbox/Queue/Progress.antt =====
-- Enqueueing and requeueing keep the directory sound; enqueueing twice is enqueueing once.
use telegram_presence.Base.{
  ℕ, ◌≡◌, refl, sym, subst, inl, inr, true, none, some, arith, if◌then◌else◌, Bool-cases,
  Option-cases,
}
use telegram_presence.Base.Text.{Text, text_eq, text_eq_iff}
use telegram_presence.Base.Result.{ok, err, value_error}
use telegram_presence.Base.Loop.{IfOk}
use telegram_presence.Delivery.{pending, dead_letter, state_eq, identifier, optional_identifier}
use telegram_presence.Delivery.Receipt.{clip_error}
use telegram_presence.Delivery.Envelope.{MessageEnvelope}
use telegram_presence.Delivery.Record.{DeliveryRecord}
use telegram_presence.Delivery.Record.Laws.{Shape, post_init-IsWellFormed}
use telegram_presence.Outbox.{Config, Store, find, get, put, safe_id}
use telegram_presence.Outbox.Laws.{find-All, find-id, find-put, put-All, put-Apart, Current}
use telegram_presence.Outbox.Lifecycle.{
  Lifecycle, requeues, Same, here, Evolves, IsValid, IsSound, Progress, Progress-refl, Progress-put,
  write-ok,
}
use telegram_presence.Outbox.Queue.{
  same_request, delivery_name, new_record, enqueue_new, enqueue_again, delivery_id, enqueue,
  requeued, requeue_found, requeue_dead_letter,
}

requeued-IsValid :
    (now : ℕ) (r : DeliveryRecord) → r.state ≡ dead_letter → IsValid r → IsValid (requeued now r)
unfolding requeued optional_identifier clip_error
requeued-IsValid now r e v = record {
  form = record {
    id = v.form.id;
    lease = refl;
    clipped = refl;
    ordered = omega (arith, v.form.ordered);
    shape = ground (arith, subst (λ d. Shape d r) e v.form.shape);
  };
  path = v.path;
}

requeued-Same : (now : ℕ) (r : DeliveryRecord) → Same r (requeued now r)
unfolding requeued
requeued-Same now r = record { id = refl; envelope = refl; created = refl; later = omega arith }

requeue_found-ok :
    (now : ℕ) (s : Store) (r : DeliveryRecord)
    → IsSound s
    → Current s r
    → r.state ≡ dead_letter
    → requeue_found now r s ≡ ok (put (requeued now r) s, requeued now r)
unfolding requeue_found state_eq
requeue_found-ok now s r h f e =
    rw (e, post_init-IsWellFormed (requeued now r) v.form, write-ok (requeued now r) s v) refl
  where
    v : IsValid (requeued now r)
    v = requeued-IsValid now r e (find-All IsValid r.delivery_id s r h.valid f)

pub requeue_found-Progress :
    (c : Config) (now : ℕ) (s : Store) (r : DeliveryRecord)
    → IsSound s
    → Current s r
    → IfOk (λ out. Progress c s out.0) (requeue_found now r s)
requeue_found-Progress c now s r h f = elim (Bool-cases (state_eq r.state dead_letter)) [
  | inr other ↦ unfold requeue_found in rw other tt
  | inl dead ↦
      let e : r.state ≡ dead_letter = unfold state_eq in ground arith in
      rw (requeue_found-ok now s r h f e) (
        Progress-put c s r (requeued now r) h f
          (requeued-IsValid now r e (find-All IsValid r.delivery_id s r h.valid f))
          (requeued-Same now r) (unfold requeued in requeues e refl refl))
]

pub requeue_dead_letter-Progress :
    (c : Config) (id : Text) (now : ℕ) (s : Store)
    → IsSound s
    → IfOk (λ out. Progress c s out.0) (requeue_dead_letter id now s)
unfolding requeue_dead_letter get
requeue_dead_letter-Progress c id now s h = elim (Bool-cases (safe_id id)) [
  | inr unsafe ↦ rw unsafe tt
  | inl safe ↦ elim (Option-cases (find id s)) [
    | inl missing ↦ rw (safe, missing) tt
    | inr (r, found) ↦
        rw (safe, found)
          (requeue_found-Progress c now s r h
            (subst (λ x. find x s ≡ some r) (sym (find-id id s r found)) found))
  ]
]

-- What `uuid5(…).hex` returns: a text that the checks of an id and of a file name accept.
abbrev pub IsHexName : (Text → Text) → Type 0
IsHexName uuid5 = (t : Text) → (safe_id (uuid5 t) ≡ true) × (identifier (uuid5 t) ≡ ok (uuid5 t))

module _ (uuid5 : Text → Text) (hex : IsHexName uuid5) (e : MessageEnvelope) (now : ℕ)
    (s : Store) where
  abbrev pub fresh : DeliveryRecord
  fresh = new_record (delivery_id uuid5 e) e now

  fresh-IsValid : IsValid fresh
  unfolding new_record delivery_id optional_identifier clip_error
  fresh-IsValid = record {
    form = record {
      id = (hex (delivery_name e)).1;
      lease = refl;
      clipped = refl;
      ordered = omega arith;
      shape = (refl, refl, refl);
    };
    path = (hex (delivery_name e)).0;
  }

  fresh-id : fresh.delivery_id ≡ delivery_id uuid5 e
  unfolding new_record
  fresh-id = refl

  safe : safe_id (delivery_id uuid5 e) ≡ true
  unfolding delivery_id
  safe = (hex (delivery_name e)).0

  -- The first call for a delivery id.
  pub enqueue-new :
      find (delivery_id uuid5 e) s ≡ none → enqueue uuid5 e now s ≡ ok (put fresh s, fresh)
  unfolding enqueue get enqueue_new
  enqueue-new missing =
      rw
        (
          safe,
          missing,
          post_init-IsWellFormed fresh fresh-IsValid.form,
          write-ok fresh s fresh-IsValid,
        )
        refl

  -- A call for a delivery id that is known.
  pub enqueue-again :
      (r : DeliveryRecord)
      → find (delivery_id uuid5 e) s ≡ some r
      → enqueue uuid5 e now s ≡ (if same_request r.envelope e then ok (s, r) else err value_error)
  unfolding enqueue get enqueue_again
  enqueue-again r found = rw (safe, found) (ground arith)

  Evolves-new : (c : Config) → find (delivery_id uuid5 e) s ≡ none → Evolves c s (put fresh s)
  Evolves-new c missing = record {
    at = λ id r h. elim (Bool-cases (text_eq fresh.delivery_id id)) [
      | inl same ↦ absurd (ground (arith, (text_eq_iff fresh.delivery_id id).0 same, fresh-id))
      | inr other ↦ (r, rw (find-put id fresh s, other) h, here)
    ];
    back = λ id u h. elim (Bool-cases (text_eq fresh.delivery_id id)) [
      | inl same ↦
          let found : some fresh ≡ some u = rw (find-put id fresh s, same) at h in
          inr (fresh, fresh_state.0, fresh_state.1, subst (Lifecycle c fresh) (ground arith) here)
      | inr other ↦ inl (u, (rw (find-put id fresh s, other) at h), here)
    ];
  }
    where
      fresh_state : (fresh.state ≡ pending) × (fresh.attempts ≡ 0)
      fresh_state = unfold new_record in (refl, refl)

  pub enqueue-Progress :
      (c : Config) → IsSound s → IfOk (λ out. Progress c s out.0) (enqueue uuid5 e now s)
  enqueue-Progress c h = elim (Option-cases (find (delivery_id uuid5 e) s)) [
    | inl missing ↦ rw (enqueue-new missing) (record {
      sound = record {
        valid = put-All IsValid fresh s fresh-IsValid h.valid;
        distinct = put-Apart fresh s h.distinct;
      };
      evolves = Evolves-new c missing;
    })
    | inr (r, found) ↦ rw (enqueue-again r found) (elim (Bool-cases (same_request r.envelope e)) [
      | inl yes_same ↦ rw yes_same (Progress-refl c s h)
      | inr other ↦ rw other tt
    ])
  ]
