-- ===== src/Outbox/Lifecycle.antt =====
-- The life of one delivery as a step relation, and directories of well-formed records.
use telegram_presence.Base.{
  suc, ◌≤◌, ◌<◌, ◌≡◌, ◌≢◌, refl, sym, ◌∙◌, subst, ◌⊎◌, inl, inr, true, false, some, arith,
  Bool-cases, All,
}
use telegram_presence.Base.Text.{Text, text_eq, text_eq_iff}
use telegram_presence.Base.Result.{ok}
use telegram_presence.Base.Sort.{Apart}
use telegram_presence.Delivery.{pending, sending, acked, failed, dead_letter}
use telegram_presence.Delivery.Record.{DeliveryRecord}
use telegram_presence.Delivery.Record.Laws.{IsWellFormed, post_init-IsWellFormed}
use telegram_presence.Outbox.{Config, Store, find, put, write, safe_id, replace}
use telegram_presence.Outbox.Laws.{find-put, put-All, put-Apart, Different, Current}

-- One step in the life of a delivery, on its state and its attempts.
pub data Move (c : Config) (r t : DeliveryRecord) : Type 0 where
  claims :
      (r.state ≡ pending) ⊎ (r.state ≡ failed)
      → r.attempts < c.max_attempts
      → t.state ≡ sending
      → t.attempts ≡ suc r.attempts
      → Move c r t
  acks : r.state ≡ sending → t.state ≡ acked → t.attempts ≡ r.attempts → Move c r t
  retries :
      r.state ≡ sending
      → r.attempts < c.max_attempts
      → t.state ≡ failed
      → t.attempts ≡ r.attempts
      → Move c r t
  gives_up :
      r.state ≢ acked
      → r.state ≢ dead_letter
      → c.max_attempts ≤ r.attempts
      → t.state ≡ dead_letter
      → t.attempts ≡ r.attempts
      → Move c r t
  requeues : r.state ≡ dead_letter → t.state ≡ failed → t.attempts ≡ 0 → Move c r t

-- What a step never changes, and the time that it does not turn back.
pub record Same (r t : DeliveryRecord) : Type 0 where
  pub id : t.delivery_id ≡ r.delivery_id
  pub envelope : t.envelope ≡ r.envelope
  pub created : t.created_at ≡ r.created_at
  pub later : r.updated_at ≤ t.updated_at

pub data Lifecycle (c : Config) (r : DeliveryRecord) : DeliveryRecord → Type 0 where
  here : Lifecycle c r r
  next : {t u : DeliveryRecord} → Lifecycle c r t → Same t u → Move c t u → Lifecycle c r u

pub Lifecycle-trans :
    (c : Config) (r : DeliveryRecord) {t u : DeliveryRecord}
    → Lifecycle c r t
    → Lifecycle c t u
    → Lifecycle c r u
Lifecycle-trans c r l here = l
Lifecycle-trans c r l (next m same move) = next (Lifecycle-trans c r l m) same move

-- A life that began with an enqueued record, never attempted.
abbrev pub Began : Config → DeliveryRecord → Type 0
Began c u = (b : DeliveryRecord) × (b.state ≡ pending) × (b.attempts ≡ 0) × Lifecycle c b u

-- Every delivery of the first directory is in the second, further on in its life, and what the second
-- directory has beside these began in between.
pub record Evolves (c : Config) (s t : Store) : Type 0 where
  pub at :
      (id : Text) (r : DeliveryRecord)
      → find id s ≡ some r
      → (u : DeliveryRecord) × (find id t ≡ some u) × Lifecycle c r u
  pub back :
      (id : Text) (u : DeliveryRecord)
      → find id t ≡ some u
      → ((r : DeliveryRecord) × (find id s ≡ some r) × Lifecycle c r u) ⊎ Began c u

pub Evolves-refl : (c : Config) (s : Store) → Evolves c s s
Evolves-refl c s = record { at = λ id r h. (r, h, here); back = λ id r h. inl (r, h, here) }

pub Began-later : (c : Config) (t u : DeliveryRecord) → Began c t → Lifecycle c t u → Began c u
Began-later c t u b l = (b.0, b.1, b.2, Lifecycle-trans c b.0 b.3 l)

pub Evolves-trans : (c : Config) (s t u : Store) → Evolves c s t → Evolves c t u → Evolves c s u
Evolves-trans c s t u e f = record {
  at = λ id r h.
      let (x, hx, lx) = e.at id r h in
      let (y, hy, ly) = f.at id x hx in (y, hy, Lifecycle-trans c r lx ly);
  back = λ id y h. elim (f.back id y h) [
    | inr b ↦ inr b
    | inl (x, hx, lx) ↦ elim (e.back id x hx) [
      | inr b ↦ inr (Began-later c x y b lx)
      | inl (r, hr, lr) ↦ inl (r, hr, Lifecycle-trans c r lr lx)
    ]
  ];
}

module _ (c : Config) (s : Store) (r t : DeliveryRecord) (now : Current s r) (same : Same r t)
    (move : Move c r t) where
  put_at :
      (id : Text) (x : DeliveryRecord)
      → find id s ≡ some x
      → (u : DeliveryRecord) × (find id (put t s) ≡ some u) × Lifecycle c x u
  put_at id x h = elim (Bool-cases (text_eq r.delivery_id id)) [
    | inl e ↦
        let same_id : r.delivery_id ≡ id = (text_eq_iff r.delivery_id id).0 e in
        let found : some r ≡ some x = sym now ∙ (rw same_id h) in
        (
          t,
          rw (find-put id t s, same.id, e) refl,
          next (subst (λ y. Lifecycle c x y) (ground arith) here) same move,
        )
    | inr e ↦ (x, rw (find-put id t s, same.id, e) h, here)
  ]

  put_back :
      (id : Text) (u : DeliveryRecord)
      → find id (put t s) ≡ some u
      → ((x : DeliveryRecord) × (find id s ≡ some x) × Lifecycle c x u) ⊎ Began c u
  put_back id u h = elim (Bool-cases (text_eq r.delivery_id id)) [
    | inl e ↦
        let same_id : r.delivery_id ≡ id = (text_eq_iff r.delivery_id id).0 e in
        let test : text_eq t.delivery_id id ≡ true =
          subst (λ x. text_eq x id ≡ true) (sym same.id) e in
        let found : some t ≡ some u = rw (find-put id t s, test) at h in
        inl (
          r,
          subst (λ x. find x s ≡ some r) same_id now,
          subst (λ y. Lifecycle c r y) (ground arith) (next here same move),
        )
    | inr e ↦
        let test : text_eq t.delivery_id id ≡ false =
          subst (λ x. text_eq x id ≡ false) (sym same.id) e in
        let found : find id s ≡ some u = rw (find-put id t s, test) at h in inl (u, found, here)
  ]

  Evolves-put : Evolves c s (put t s)
  Evolves-put = record { at = put_at; back = put_back }

pub record IsValid (r : DeliveryRecord) : Type 0 where
  pub form : IsWellFormed r
  pub path : safe_id r.delivery_id ≡ true

-- A directory that the outbox wrote: one well-formed record for each delivery id.
pub record IsSound (s : Store) : Type 0 where
  pub valid : All IsValid s
  pub distinct : Apart Different s

-- What every operation makes of a sound directory.
pub record Progress (c : Config) (s t : Store) : Type 0 where
  pub sound : IsSound t
  pub evolves : Evolves c s t

pub Progress-refl : (c : Config) (s : Store) → IsSound s → Progress c s s
Progress-refl c s h = record { sound = h; evolves = Evolves-refl c s }

pub Progress-trans : (c : Config) (s t u : Store) → Progress c s t → Progress c t u → Progress c s u
Progress-trans c s t u p q = record {
  sound = q.sound;
  evolves = Evolves-trans c s t u p.evolves q.evolves;
}

pub write-ok : (r : DeliveryRecord) (s : Store) → IsValid r → write r s ≡ ok (put r s)
unfolding write
write-ok r s v = rw v.path refl

pub replace-ok : (r : DeliveryRecord) (s : Store) → IsValid r → replace r s ≡ ok (put r s, r)
unfolding replace
replace-ok r s v = rw (post_init-IsWellFormed r v.form, write-ok r s v) refl

-- A replacement that is a step of the delivery's life.
pub Progress-put :
    (c : Config) (s : Store) (r t : DeliveryRecord)
    → IsSound s
    → Current s r
    → IsValid t
    → Same r t
    → Move c r t
    → Progress c s (put t s)
Progress-put c s r t h now v same move = record {
  sound = record { valid = put-All IsValid t s v h.valid; distinct = put-Apart t s h.distinct };
  evolves = Evolves-put c s r t now same move;
}
