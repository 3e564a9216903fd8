-- ===== src/Outbox/History.antt =====
-- Histories of calls on one outbox, by any number of workers, and what they can make of a delivery.
use telegram_presence.Base.{
  ℕ, ◌≤◌, ◌≡◌, refl, Bool, Option, some, List, [], ◌∷◌, arith, All, ◌⊎◌, inl, inr, subst,
}
use telegram_presence.Base.Text.{Text}
use telegram_presence.Base.Result.{Result, ok, err}
use telegram_presence.Base.Loop.{Ensures-map, IfOk, IfOk-of-Ensures}
use telegram_presence.Delivery.{acked}
use telegram_presence.Delivery.Envelope.{MessageEnvelope}
use telegram_presence.Delivery.Record.{DeliveryRecord}
use telegram_presence.Outbox.{Config, Store, find}
use telegram_presence.Outbox.Lifecycle.{
  Lifecycle, here, next, Move, claims, acks, retries, gives_up, requeues, IsSound, Progress,
  Progress-refl, Began, Began-later, Lifecycle-trans,
}
use telegram_presence.Outbox.Queue.{enqueue, requeue_dead_letter, purge_acked}
use telegram_presence.Outbox.Queue.Progress.{
  IsHexName, enqueue-Progress, requeue_dead_letter-Progress,
}
use telegram_presence.Outbox.Queue.Purge.{Purged, IsPurged, IsPurged-acked, purge_acked-Purged}
use telegram_presence.Outbox.Lease.{
  claim_due_transports, claim_id, recover_inflight, enforce_attempt_limits,
}
use telegram_presence.Outbox.Lease.Progress.{
  IsIdentifier, recover_inflight-Progress, enforce_attempt_limits-Progress,
}
use telegram_presence.Outbox.Lease.Claims.{claim_due_transports-Leases, claim_id-Progress}
use telegram_presence.Outbox.Settle.{Outcome, settle}
use telegram_presence.Outbox.Settle.Progress.{settle-IfOk}

-- A call on the outbox, with the clock and the ids that it draws.
pub data Call : Type 0 where
  enqueues : MessageEnvelope → ℕ → Call
  claims_due : Option (List Text) → ℕ → Text → Call
  claims_id : Text → ℕ → Text → Call
  settles : ℕ → DeliveryRecord → Outcome → Call
  recovers : Bool → ℕ → Call
  enforces : ℕ → Call
  requeues_dead : Text → ℕ → Call
  purges_acked : Option ℕ → Call

-- The lease id that a call draws is an identifier, as `uuid4().hex` is.
abbrev pub Draws : Call → Type 0
Draws (claims_due transports now lease) = IsIdentifier lease
Draws (claims_id id now lease) = IsIdentifier lease
Draws _ = Unit

-- A call that raises has written nothing.
unfoldable pub after {ℓ} : {A : Type ℓ} → Store → Result (Store × A) → Store
after s (ok out) = out.0
after s (err e) = s

module _ (uuid5 : Text → Text) (c : Config) where
  unfoldable pub step : Store → Call → Store
  step s (enqueues e now) = after s (enqueue uuid5 e now s)
  step s (claims_due transports now lease) = after s (claim_due_transports c transports now lease s)
  step s (claims_id id now lease) = after s (claim_id c id now lease s)
  step s (settles now claimed o) = after s (settle c now claimed o s)
  step s (recovers force now) = after s (recover_inflight c force now s)
  step s (enforces now) = after s (enforce_attempt_limits c now s)
  step s (requeues_dead id now) = after s (requeue_dead_letter id now s)
  step s (purges_acked before) = (purge_acked before s).0

  unfoldable pub run : Store → List Call → Store
  run s [] = s
  run s (k ∷ ks) = run (step s k) ks

-- The call deletes this record, if it finds it.
abbrev pub Purges : DeliveryRecord → Call → Type 0
Purges r (purges_acked before) = IsPurged before r
Purges r _ = ⊥

abbrev pub AnyPurges : DeliveryRecord → List Call → Type 0
AnyPurges r [] = ⊥
AnyPurges r (k ∷ ks) = Purges r k ⊎ AnyPurges r ks

-- The delivery is in the directory, further on in its life than the record `r`.
abbrev pub Lives : Config → Text → DeliveryRecord → Store → Type 0
Lives c id r t = (u : DeliveryRecord) × (find id t ≡ some u) × Lifecycle c r u

-- The life of the record `r` ended acknowledged, and one of the calls deletes that record.
abbrev pub Gone : Config → List Call → DeliveryRecord → Type 0
Gone c calls r = (u : DeliveryRecord) × Lifecycle c r u × (u.state ≡ acked) × AnyPurges u calls

-- What a history of calls makes of a directory.
pub record Survives (c : Config) (calls : List Call) (s t : Store) : Type 0 where
  pub sound : IsSound t
  pub at : (id : Text) (r : DeliveryRecord) → find id s ≡ some r → Lives c id r t ⊎ Gone c calls r
  pub back :
      (id : Text) (u : DeliveryRecord)
      → find id t ≡ some u
      → ((r : DeliveryRecord) × (find id s ≡ some r) × Lifecycle c r u) ⊎ Began c u

Survives-refl : (c : Config) (s : Store) → IsSound s → Survives c [] s s
Survives-refl c s h = record {
  sound = h;
  at = λ id r f. inl (r, f, here);
  back = λ id r f. inl (r, f, here);
}

Survives-Progress :
    (c : Config) (calls : List Call) (s t : Store) → Progress c s t → Survives c calls s t
Survives-Progress c calls s t p = record {
  sound = p.sound;
  at = λ id r f. inl (p.evolves.at id r f);
  back = p.evolves.back;
}

Survives-Purged :
    (c : Config) (before : Option ℕ) (s t : Store)
    → Purged before s t
    → Survives c (purges_acked before ∷ []) s t
Survives-Purged c before s t p = record {
  sound = p.sound;
  at = λ id r f. elim (p.at id r f) [
    | inl found ↦ inl (r, found, here)
    | inr (gone, missing) ↦ inr (r, here, IsPurged-acked before r gone, inl gone)
  ];
  back = λ id u f. inl (u, p.back id u f, here);
}

-- What the first call makes of a directory, and then the others.
Survives-cons :
    (c : Config) (k : Call) (ks : List Call) (s t u : Store)
    → Survives c (k ∷ []) s t
    → Survives c ks t u
    → Survives c (k ∷ ks) s u
Survives-cons c k ks s t u p q = record {
  sound = q.sound;
  at = λ id r f. elim (p.at id r f) [
    | inr (x, lx, ended, inl first) ↦ inr (x, lx, ended, inl first)
    | inr (x, lx, ended, inr never) ↦ absurd never
    | inl (x, hx, lx) ↦ elim (q.at id x hx) [
      | inl (y, hy, ly) ↦ inl (y, hy, Lifecycle-trans c r lx ly)
      | inr (y, ly, ended, later) ↦ inr (y, Lifecycle-trans c r lx ly, ended, inr later)
    ]
  ];
  back = λ id y f. elim (q.back id y f) [
    | inr b ↦ inr b
    | inl (x, hx, lx) ↦ elim (p.back id x hx) [
      | inr b ↦ inr (Began-later c x y b lx)
      | inl (r, hr, lr) ↦ inl (r, hr, Lifecycle-trans c r lr lx)
    ]
  ];
}

after-Survives {ℓ} :
    {A : Type ℓ} (c : Config) (s : Store) (m : Result (Store × A)) (calls : List Call)
    → IsSound s
    → IfOk (λ out. Progress c s out.0) m
    → Survives c calls s (after s m)
unfolding after
after-Survives c s (ok out) calls h p = Survives-Progress c calls s out.0 p
after-Survives c s (err e) calls h p = Survives-Progress c calls s s (Progress-refl c s h)

module _ (uuid5 : Text → Text) (c : Config) (hex : IsHexName uuid5) (k : 1 ≤ c.max_attempts) where
  step-Survives :
      (s : Store) (call : Call)
      → Draws call
      → IsSound s
      → Survives c (call ∷ []) s (step uuid5 c s call)
  unfolding step
  step-Survives s (enqueues e now) d h =
      after-Survives c s (enqueue uuid5 e now s) _ h (enqueue-Progress uuid5 hex e now s c h)
  step-Survives s (claims_due transports now lease) d h =
      after-Survives c s (claim_due_transports c transports now lease s) _ h (
        IfOk-of-Ensures _ (claim_due_transports c transports now lease s) (
          Ensures-map _ (λ out. Progress c s out.0) _
            (claim_due_transports-Leases c transports now lease s k d h) (λ out x. x.progress)))
  step-Survives s (claims_id id now lease) d h =
      after-Survives c s (claim_id c id now lease s) _ h (claim_id-Progress c id now lease s k d h)
  step-Survives s (settles now claimed o) d h =
      after-Survives c s (settle c now claimed o s) _ h (settle-IfOk c now claimed o s h)
  step-Survives s (recovers force now) d h =
      after-Survives c s (recover_inflight c force now s) _ h (
        IfOk-of-Ensures _ (recover_inflight c force now s)
          (recover_inflight-Progress c force now s h))
  step-Survives s (enforces now) d h = after-Survives c s (enforce_attempt_limits c now s) _ h (
      IfOk-of-Ensures _ (enforce_attempt_limits c now s)
        (enforce_attempt_limits-Progress c now s k h))
  step-Survives s (requeues_dead id now) d h =
      after-Survives c s (requeue_dead_letter id now s) _ h
        (requeue_dead_letter-Progress c id now s h)
  step-Survives s (purges_acked before) d h =
      Survives-Purged c before s _ (purge_acked-Purged before s h)

  pub run-Survives :
      (s : Store) (calls : List Call)
      → All Draws calls
      → IsSound s
      → Survives c calls s (run uuid5 c s calls)
  unfolding run
  run-Survives s [] d h = Survives-refl c s h
  run-Survives s (call ∷ calls) d h =
      let p = step-Survives s call d.0 h in
      Survives-cons c call calls s (step uuid5 c s call) _ p
        (run-Survives (step uuid5 c s call) calls d.1 p.sound)

-- An acknowledged delivery has no further step.
Lifecycle-acked :
    (c : Config) (r : DeliveryRecord) {t : DeliveryRecord}
    → r.state ≡ acked
    → Lifecycle c r t
    → t ≡ r
Lifecycle-acked c r e here = refl
Lifecycle-acked c r e (next {t = t} l same move) = absurd (stuck t (Lifecycle-acked c r e l) move)
  where
    stuck : (t : DeliveryRecord) → t ≡ r → {u : DeliveryRecord} → Move c t u → ⊥
    stuck t same (claims (inl p) lt s a) = ground arith
    stuck t same (claims (inr p) lt s a) = ground arith
    stuck t same (acks p s a) = ground arith
    stuck t same (retries p lt s a) = ground arith
    stuck t same (gives_up p q le s a) = p (ground arith)
    stuck t same (requeues p s a) = ground arith

Lifecycle-attempts :
    (c : Config) (r : DeliveryRecord) {t : DeliveryRecord}
    → r.attempts ≤ c.max_attempts
    → Lifecycle c r t
    → t.attempts ≤ c.max_attempts
Lifecycle-attempts c r h here = h
Lifecycle-attempts c r h (next l same (claims p lt s a)) = omega arith
Lifecycle-attempts c r h (next l same (acks p s a)) = omega (arith, Lifecycle-attempts c r h l)
Lifecycle-attempts c r h (next l same (retries p lt s a)) = omega arith
Lifecycle-attempts c r h (next l same (gives_up p q le s a)) =
    omega (arith, Lifecycle-attempts c r h l)
Lifecycle-attempts c r h (next l same (requeues p s a)) = omega arith

-- An acknowledged delivery is settled for good: later calls of the operations listed in `Call`, in any
-- order and by any workers of one configuration, leave its record as it is, unless one of them is a
-- call of `purge_acked` for which this very record is to be deleted: it names no time, or one after the
-- record's acknowledgement.
pub acked-run :
    (uuid5 : Text → Text) (c : Config) (s : Store) (calls : List Call) (id : Text)
    (r : DeliveryRecord)
    → IsHexName uuid5
    → 1 ≤ c.max_attempts
    → All Draws calls
    → IsSound s
    → find id s ≡ some r
    → r.state ≡ acked
    → (find id (run uuid5 c s calls) ≡ some r) ⊎ AnyPurges r calls
acked-run uuid5 c s calls id r hex k d h found e =
    let p = run-Survives uuid5 c hex k s calls d h in
    elim (p.at id r found) [
      | inl (u, hu, l) ↦ inl (rw (Lifecycle-acked c r e l) at hu)
      | inr (u, l, ended, some_call) ↦
          inr (subst (λ x. AnyPurges x calls) (Lifecycle-acked c r e l) some_call)
    ]

-- No delivery is attempted more often than the limit: in whatever directory the operations listed in
-- `Call`, by workers of one configuration, lead to from an empty outbox, each record has at most
-- `max_attempts` attempts since it was enqueued or requeued.
pub attempts-run :
    (uuid5 : Text → Text) (c : Config) (calls : List Call) (id : Text) (u : DeliveryRecord)
    → IsHexName uuid5
    → 1 ≤ c.max_attempts
    → All Draws calls
    → find id (run uuid5 c [] calls) ≡ some u
    → u.attempts ≤ c.max_attempts
attempts-run uuid5 c calls id u hex k d found = elim (p.back id u found) [
  | inl (r, hr, l) ↦ unfold find in cc
  | inr (b, fresh, zero_attempts, l) ↦ Lifecycle-attempts c b (omega arith) l
]
  where
    p : Survives c calls [] (run uuid5 c [] calls)
    p = run-Survives uuid5 c hex k [] calls d (record { valid = tt; distinct = tt })
