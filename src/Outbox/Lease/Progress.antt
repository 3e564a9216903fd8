-- ===== src/Outbox/Lease/Progress.antt =====
-- Claims, dead letters and recoveries keep the directory sound and follow the life of a delivery.
use telegram_presence.Base.{
  ℕ, ◌≤◌, ◌<◌, ◌≡◌, refl, subst, ◌⊎◌, inl, inr, Bool, true, not, ◌&&◌, some, List, [], ◌∷◌, arith,
  Bool-cases, All, leb, take, take-all, length-take,
}
use telegram_presence.Base.Text.{Text}
use telegram_presence.Base.Result.{ok}
use telegram_presence.Base.Loop.{for_each_inv, Ensures, Ensures-map}
use telegram_presence.Base.Sort.{Apart}
use telegram_presence.Delivery.{pending, sending, failed, state_eq, identifier, optional_identifier}
use telegram_presence.Delivery.Receipt.{clip_error}
use telegram_presence.Delivery.Record.{DeliveryRecord}
use telegram_presence.Delivery.Record.Laws.{Shape}
use telegram_presence.Outbox.{Config, Store, put, records}
use telegram_presence.Outbox.Laws.{
  find-All, Different, Current, put-Current, records-Current, records-Apart,
}
use telegram_presence.Outbox.Lifecycle.{
  Move, claims, retries, gives_up, Same, IsValid, IsSound, Progress, Progress-refl, Progress-trans,
  Progress-put, replace-ok,
}
use telegram_presence.Outbox.Lease.{
  retryable, claimed, limit_detail, exhausted_record, dead_letter_exhausted, Scan, collect,
  enforce_one, enforce_attempt_limits, stale, recovered, recover_one, recover_inflight,
}

-- An identifier that the checks leave as it is.
abbrev pub IsIdentifier : Text → Type 0
IsIdentifier t = identifier t ≡ ok t

take-take : (n : ℕ) (t : Text) → take n (take n t) ≡ take n t
take-take n t = take-all n (take n t) (omega (arith, length-take n t))

pub clip-take : (t : Text) → clip_error (some (take 1000 t)) ≡ some (take 1000 t)
unfolding clip_error
clip-take t = rw (take-take 1000 t)

retryable_cases :
    (r : DeliveryRecord) → retryable r ≡ true → (r.state ≡ pending) ⊎ (r.state ≡ failed)
unfolding retryable state_eq
retryable_cases r h = ground arith

pub claimed-IsValid :
    (now : ℕ) (lease : Text) (r : DeliveryRecord)
    → IsIdentifier lease
    → IsValid r
    → IsValid (claimed now lease r)
unfolding claimed optional_identifier clip_error
claimed-IsValid now lease r l v = record {
  form = record {
    id = v.form.id;
    lease = rw l refl;
    clipped = refl;
    ordered = omega (arith, v.form.ordered);
    shape = ground arith;
  };
  path = v.path;
}

pub claimed-Same : (now : ℕ) (lease : Text) (r : DeliveryRecord) → Same r (claimed now lease r)
unfolding claimed
claimed-Same now lease r = record {
  id = refl;
  envelope = refl;
  created = refl;
  later = omega arith;
}

pub claimed-Move :
    (c : Config) (now : ℕ) (lease : Text) (r : DeliveryRecord)
    → retryable r ≡ true
    → r.attempts < c.max_attempts
    → Move c r (claimed now lease r)
unfolding claimed
claimed-Move c now lease r h lt = claims (retryable_cases r h) lt refl (omega arith)

pub exhausted-IsValid :
    (c : Config) (now : ℕ) (r : DeliveryRecord)
    → 1 ≤ r.attempts
    → IsValid r
    → IsValid (exhausted_record c now r)
unfolding exhausted_record optional_identifier
exhausted-IsValid c now r n v = record {
  form = record {
    id = v.form.id;
    lease = refl;
    clipped = clip-take (limit_detail c r);
    ordered = omega (arith, v.form.ordered);
    shape = ground arith;
  };
  path = v.path;
}

pub exhausted-Same : (c : Config) (now : ℕ) (r : DeliveryRecord) → Same r (exhausted_record c now r)
unfolding exhausted_record
exhausted-Same c now r = record { id = refl; envelope = refl; created = refl; later = omega arith }

pub exhausted-Move :
    (c : Config) (now : ℕ) (r : DeliveryRecord)
    → retryable r ≡ true
    → c.max_attempts ≤ r.attempts
    → Move c r (exhausted_record c now r)
unfolding exhausted_record
exhausted-Move c now r h le =
    gives_up (ground (arith, retryable_cases r h)) (ground (arith, retryable_cases r h)) le refl
      refl

recovered-IsValid :
    (c : Config) (now : ℕ) (r : DeliveryRecord)
    → r.state ≡ sending
    → IsValid r
    → IsValid (recovered c now r)
unfolding recovered optional_identifier clip_error
recovered-IsValid c now r e v = record {
  form = record {
    id = v.form.id;
    lease = refl;
    clipped = refl;
    ordered = omega (arith, v.form.ordered);
    shape = recovered_shape;
  };
  path = v.path;
}
  where
    before : Shape sending r
    before = subst (λ d. Shape d r) e v.form.shape

    recovered_shape : Shape (recovered c now r).state (recovered c now r)
    recovered_shape = elim (Bool-cases (leb c.max_attempts r.attempts)) [
      | inl h ↦ rw h (before.0, refl, refl, before.4, refl)
      | inr h ↦ rw h (ground arith, refl, before.4, refl)
    ]

recovered-Same : (c : Config) (now : ℕ) (r : DeliveryRecord) → Same r (recovered c now r)
unfolding recovered
recovered-Same c now r = record { id = refl; envelope = refl; created = refl; later = omega arith }

recovered-Move :
    (c : Config) (now : ℕ) (r : DeliveryRecord) → r.state ≡ sending → Move c r (recovered c now r)
unfolding recovered
recovered-Move c now r e = elim (Bool-cases (leb c.max_attempts r.attempts)) [
  | inl h ↦ gives_up (ground arith) (ground arith) (ground arith) (rw h) refl
  | inr h ↦ retries e (ground arith) (rw h) refl
]

-- In a loop over a snapshot: what the rounds so far made of the directory, in which the records
-- still to come stand as the snapshot has them.
pub record Ahead (c : Config) (start : Store) (rs : List DeliveryRecord) (s : Store) : Type 0 where
  pub progress : Progress c start s
  pub current : All (Current s) rs
  pub apart : Apart Different rs

pub Ahead-IsValid :
    (c : Config) (start : Store) (x : DeliveryRecord) (xs : List DeliveryRecord) (s : Store)
    → Ahead c start (x ∷ xs) s
    → IsValid x
Ahead-IsValid c start x xs s h =
    find-All IsValid x.delivery_id s x h.progress.sound.valid h.current.0

pub Ahead-skip :
    (c : Config) (start : Store) (x : DeliveryRecord) (xs : List DeliveryRecord) (s : Store)
    → Ahead c start (x ∷ xs) s
    → Ahead c start xs s
Ahead-skip c start x xs s h = record {
  progress = h.progress;
  current = h.current.1;
  apart = h.apart.1;
}

pub Ahead-put :
    (c : Config) (start : Store) (x t : DeliveryRecord) (xs : List DeliveryRecord) (s : Store)
    → Ahead c start (x ∷ xs) s
    → IsValid t
    → Same x t
    → Move c x t
    → Ahead c start xs (put t s)
Ahead-put c start x t xs s h v same move = record {
  progress =
      Progress-trans c start s (put t s) h.progress
        (Progress-put c s x t h.progress.sound h.current.0 v same move);
  current = put-Current x t s xs same.id h.apart.0 h.current.1;
  apart = h.apart.1;
}

pub Ahead-start : (c : Config) (s : Store) → IsSound s → Ahead c s (records s) s
Ahead-start c s h = record {
  progress = Progress-refl c s h;
  current = records-Current s h.distinct;
  apart = records-Apart s h.distinct;
}

module _ (c : Config) (start : Store) (x : DeliveryRecord) (xs : List DeliveryRecord) (p : Scan)
    (h : Ahead c start (x ∷ xs) p.0) where
  state_sending : state_eq x.state sending ≡ true → x.state ≡ sending
  unfolding state_eq
  state_sending e = ground arith

  recover_one-Ahead :
      (force : Bool) (now : ℕ) → Ensures (λ q. Ahead c start xs q.0) (recover_one c force now x p)
  unfolding recover_one collect
  recover_one-Ahead force now = elim (Bool-cases (state_eq x.state sending)) [
    | inr e ↦ rw e (Ahead-skip c start x xs p.0 h)
    | inl e ↦ elim (Bool-cases (not force && not (stale c now x))) [
      | inl f ↦ rw (e, f) (Ahead-skip c start x xs p.0 h)
      | inr f ↦
          let v = recovered-IsValid c now x (state_sending e) (Ahead-IsValid c start x xs p.0 h) in
          rw (e, f, replace-ok (recovered c now x) p.0 v)
            (Ahead-put c start x (recovered c now x) xs p.0 h v (recovered-Same c now x)
              (recovered-Move c now x (state_sending e)))
    ]
  ]

  pub dead_letter-ok :
      (now : ℕ)
      → 1 ≤ c.max_attempts
      → c.max_attempts ≤ x.attempts
      → dead_letter_exhausted c now x p.0
        ≡ ok (put (exhausted_record c now x) p.0, exhausted_record c now x)
  unfolding dead_letter_exhausted
  dead_letter-ok now k le =
      replace-ok (exhausted_record c now x) p.0
        (exhausted-IsValid c now x (omega arith) (Ahead-IsValid c start x xs p.0 h))

  pub dead_letter-Ahead :
      (now : ℕ)
      → 1 ≤ c.max_attempts
      → retryable x ≡ true
      → c.max_attempts ≤ x.attempts
      → Ahead c start xs (put (exhausted_record c now x) p.0)
  dead_letter-Ahead now k e le =
      Ahead-put c start x (exhausted_record c now x) xs p.0 h
        (exhausted-IsValid c now x (omega arith) (Ahead-IsValid c start x xs p.0 h))
        (exhausted-Same c now x) (exhausted-Move c now x e le)

  enforce_one-Ahead :
      (now : ℕ) → 1 ≤ c.max_attempts → Ensures (λ q. Ahead c start xs q.0) (enforce_one c now x p)
  unfolding enforce_one collect
  enforce_one-Ahead now k = elim (Bool-cases (retryable x)) [
    | inr e ↦ rw e (Ahead-skip c start x xs p.0 h)
    | inl e ↦ elim (Bool-cases (leb c.max_attempts x.attempts)) [
      | inr f ↦ rw (e, f) (Ahead-skip c start x xs p.0 h)
      | inl f ↦
          rw (e, f, dead_letter-ok now k (ground arith)) (dead_letter-Ahead now k e (ground arith))
    ]
  ]

pub recover_inflight-Progress :
    (c : Config) (force : Bool) (now : ℕ) (s : Store)
    → IsSound s
    → Ensures (λ p. Progress c s p.0) (recover_inflight c force now s)
unfolding recover_inflight
recover_inflight-Progress c force now s h =
    Ensures-map (λ p. Ahead c s [] p.0) (λ p. Progress c s p.0) _
      (for_each_inv (λ xs p. Ahead c s xs p.0) (recover_one c force now)
        (λ x xs p a. recover_one-Ahead c s x xs p a force now) (records s) (s, [])
        (Ahead-start c s h))
      (λ p a. a.progress)

pub enforce_attempt_limits-Progress :
    (c : Config) (now : ℕ) (s : Store)
    → 1 ≤ c.max_attempts
    → IsSound s
    → Ensures (λ p. Progress c s p.0) (enforce_attempt_limits c now s)
unfolding enforce_attempt_limits
enforce_attempt_limits-Progress c now s k h =
    Ensures-map (λ p. Ahead c s [] p.0) (λ p. Progress c s p.0) _
      (for_each_inv (λ xs p. Ahead c s xs p.0) (enforce_one c now)
        (λ x xs p a. enforce_one-Ahead c s x xs p a now k) (records s) (s, []) (Ahead-start c s h))
      (λ p a. a.progress)
