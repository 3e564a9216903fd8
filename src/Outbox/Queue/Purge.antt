-- ===== src/Outbox/Queue/Purge.antt =====
-- `purge_acked` deletes the acknowledged records that it names, and no other.
use telegram_presence.Base.{
  ℕ, ◌+◌, ◌<◌, ◌≡◌, refl, sym, ◌∙◌, subst, inl, inr, ◌⊎◌, true, false, ◌&&◌, Option, none, some,
  List, [], ◌∷◌, arith, if◌then◌else◌, Bool-cases, Option-cases, All, ltb,
}
use telegram_presence.Base.Text.{Text, text_eq, text_eq_iff}
use telegram_presence.Base.Sort.{Apart}
use telegram_presence.Delivery.{acked, state_eq}
use telegram_presence.Delivery.Record.{DeliveryRecord}
use telegram_presence.Outbox.{Store, find, unlink, records}
use telegram_presence.Outbox.Laws.{Different, Current, records-Current, records-Apart}
use telegram_presence.Outbox.Lifecycle.{IsValid, IsSound}
use telegram_presence.Outbox.Queue.{purges, purge_loop, purge_acked}

-- An acknowledged record, from before the given time if there is one.
abbrev pub IsPurged : Option ℕ → DeliveryRecord → Type 0
IsPurged none r = r.state ≡ acked
IsPurged (some before) r = (r.state ≡ acked) × (t : ℕ) × (r.acked_at ≡ some t) × (t < before)

purges-IsPurged :
    (before : Option ℕ) (r : DeliveryRecord) → purges before r ≡ true → IsPurged before r
unfolding purges state_eq
purges-IsPurged none r e = ground arith
purges-IsPurged (some before) r e = elim (Option-cases r.acked_at) [
  | inl missing ↦ ground (arith, missing)
  | inr (t, found) ↦
      let both : (state_eq r.state acked && ltb t before) ≡ true = rw found at e in
      (ground arith, t, found, ground arith)
]

pub IsPurged-acked : (before : Option ℕ) (r : DeliveryRecord) → IsPurged before r → r.state ≡ acked
IsPurged-acked none r h = h
IsPurged-acked (some before) r h = h.0

unlink-All : (P : DeliveryRecord → Type 0) (id : Text) (s : Store) → All P s → All P (unlink id s)
unfolding unlink
unlink-All P id [] h = tt
unlink-All P id (q ∷ s) h = elim (Bool-cases (text_eq q.delivery_id id)) [
  | inl e ↦ rw e h.1
  | inr e ↦ rw e (h.0, unlink-All P id s h.1)
]

unlink-Apart : (id : Text) (s : Store) → Apart Different s → Apart Different (unlink id s)
unfolding unlink
unlink-Apart id [] h = tt
unlink-Apart id (q ∷ s) h = elim (Bool-cases (text_eq q.delivery_id id)) [
  | inl e ↦ rw e h.1
  | inr e ↦ rw e (unlink-All (Different q) id s h.0, unlink-Apart id s h.1)
]

find-missing : (q : DeliveryRecord) (s : Store) → All (Different q) s → find q.delivery_id s ≡ none
unfolding find
find-missing q [] h = refl
find-missing q (x ∷ s) h =
    let other : text_eq x.delivery_id q.delivery_id ≡ false = ground (
      arith,
      h.0,
      text_eq_iff x.delivery_id q.delivery_id,
      text_eq_iff q.delivery_id x.delivery_id,
    ) in
    rw other (find-missing q s h.1)

-- A deletion removes the record of its id and leaves the others.
find-unlink :
    (j id : Text) (s : Store)
    → Apart Different s
    → find j (unlink id s) ≡ (if text_eq id j then none else find j s)
unfolding find unlink
find-unlink j id [] h = ground arith
find-unlink j id (q ∷ s) h = elim (Bool-cases (text_eq q.delivery_id id)) [
  | inl e ↦
      let same : q.delivery_id ≡ id = (text_eq_iff q.delivery_id id).0 e in
      elim (Bool-cases (text_eq id j)) [
        | inl f ↦
            let here : q.delivery_id ≡ j = ground (arith, (text_eq_iff id j).0 f) in
            let missing : find j s ≡ none =
              subst (λ x. find x s ≡ none) here (find-missing q s h.0) in
            rw (e, f) missing
        | inr f ↦
            let other : text_eq q.delivery_id j ≡ false =
              subst (λ x. text_eq x j ≡ false) (sym same) f in
            rw (e, f, other) refl
      ]
  | inr e ↦
      let rest = find-unlink j id s h.1 in
      elim (Bool-cases (text_eq q.delivery_id j)) [
        | inl g ↦
            let here : q.delivery_id ≡ j = (text_eq_iff q.delivery_id j).0 g in
            let other : text_eq id j ≡ false =
              ground (arith, text_eq_iff id j, text_eq_iff q.delivery_id id) in
            rw (e, g, other) refl
        | inr g ↦ rw (e, g) rest
      ]
]

-- What deletions make of a directory: of its records the deleted ones are missing, with no new ones.
pub record Purged (before : Option ℕ) (s t : Store) : Type 0 where
  pub sound : IsSound t
  pub at :
      (id : Text) (r : DeliveryRecord)
      → find id s ≡ some r
      → (find id t ≡ some r) ⊎ (IsPurged before r × (find id t ≡ none))
  pub back : (id : Text) (r : DeliveryRecord) → find id t ≡ some r → find id s ≡ some r

Purged-refl : (before : Option ℕ) (s : Store) → IsSound s → Purged before s s
Purged-refl before s h = record { sound = h; at = λ id r f. inl f; back = λ id r f. f }

Purged-trans :
    (before : Option ℕ) (s t u : Store) → Purged before s t → Purged before t u → Purged before s u
Purged-trans before s t u p q = record {
  sound = q.sound;
  at = λ id r f. elim (p.at id r f) [
    | inl here ↦ q.at id r here
    | inr (gone, missing) ↦ inr (gone, still id missing)
  ];
  back = λ id r f. p.back id r (q.back id r f);
}
  where
    still : (id : Text) → find id t ≡ none → find id u ≡ none
    still id missing = elim (Option-cases (find id u)) [
      | inl e ↦ e
      | inr (r, e) ↦ absurd (ground (arith, q.back id r e))
    ]

unlink-Purged :
    (before : Option ℕ) (x : DeliveryRecord) (s : Store)
    → IsSound s
    → Current s x
    → IsPurged before x
    → Purged before s (unlink x.delivery_id s)
unlink-Purged before x s h here gone = record {
  sound = record {
    valid = unlink-All IsValid x.delivery_id s h.valid;
    distinct = unlink-Apart x.delivery_id s h.distinct;
  };
  at = λ id r f. elim (Bool-cases (text_eq x.delivery_id id)) [
    | inl e ↦
        let same : x.delivery_id ≡ id = (text_eq_iff x.delivery_id id).0 e in
        let found : some x ≡ some r = sym here ∙ (rw same f) in
        inr (
          subst (IsPurged before) (ground arith) gone,
          rw (find-unlink id x.delivery_id s h.distinct, e) refl,
        )
    | inr e ↦ inl (rw (find-unlink id x.delivery_id s h.distinct, e) f)
  ];
  back = λ id r f. elim (Bool-cases (text_eq x.delivery_id id)) [
    | inl e ↦
        let none_left : none ≡ some r = rw (find-unlink id x.delivery_id s h.distinct, e) at f in
        absurd (cc)
    | inr e ↦ rw (find-unlink id x.delivery_id s h.distinct, e) at f
  ];
}

unlink-Current :
    (x : DeliveryRecord) (s rs : Store)
    → Apart Different s
    → All (Different x) rs
    → All (Current s) rs
    → All (Current (unlink x.delivery_id s)) rs
unlink-Current x s [] a d h = tt
unlink-Current x s (r ∷ rs) a d h =
    (rw (find-unlink r.delivery_id x.delivery_id s a, d.0) h.0, unlink-Current x s rs a d.1 h.1)

purge_loop-Purged :
    (before : Option ℕ) (rs : List DeliveryRecord) (out : Store × ℕ)
    → IsSound out.0
    → Apart Different rs
    → All (Current out.0) rs
    → Purged before out.0 (purge_loop before rs out).0
unfolding purge_loop
purge_loop-Purged before [] out h a k = Purged-refl before out.0 h
purge_loop-Purged before (r ∷ rs) out h a k = elim (Bool-cases (purges before r)) [
  | inr e ↦ rw (purge_loop, e) (purge_loop-Purged before rs out h a.1 k.1)
  | inl e ↦
      let p = unlink-Purged before r out.0 h k.0 (purges-IsPurged before r e) in
      rw (purge_loop, e)
        (Purged-trans before out.0 (unlink r.delivery_id out.0) _ p (
          purge_loop-Purged before rs (unlink r.delivery_id out.0, out.1 + 1) p.sound a.1
            (unlink-Current r out.0 rs h.distinct a.0 k.1)))
]

pub purge_acked-Purged :
    (before : Option ℕ) (s : Store) → IsSound s → Purged before s (purge_acked before s).0
unfolding purge_acked
purge_acked-Purged before s h =
    purge_loop-Purged before (records s) (s, 0) h (records-Apart s h.distinct)
      (records-Current s h.distinct)
