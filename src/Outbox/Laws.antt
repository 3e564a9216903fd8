-- ===== src/Outbox/Laws.antt =====
-- The directory as a map from delivery ids to records, and the records that a loop over it meets.
use telegram_presence.Base.{
  ◌≡◌, refl, subst, inl, inr, false, some, [], ◌∷◌, arith, if◌then◌else◌, Bool-cases, All,
}
use telegram_presence.Base.Text.{Text, text_eq, text_eq_iff, text_eq_refl}
use telegram_presence.Base.Sort.{Apart, sort-All, sort-Apart}
use telegram_presence.Delivery.Record.{DeliveryRecord}
use telegram_presence.Outbox.{Store, find, put, records, created_before}

-- A write replaces the record of its id and leaves the others.
pub find-put :
    (j : Text) (r : DeliveryRecord) (s : Store)
    → find j (put r s) ≡ (if text_eq r.delivery_id j then some r else find j s)
unfolding find put
find-put j r [] = refl
find-put j r (q ∷ s) = ground (
  arith,
  find-put j r s,
  text_eq_iff q.delivery_id r.delivery_id,
  text_eq_iff q.delivery_id j,
  text_eq_iff r.delivery_id j,
)

pub find-put_self : (r : DeliveryRecord) (s : Store) → find r.delivery_id (put r s) ≡ some r
find-put_self r s = rw (find-put r.delivery_id r s, text_eq_refl r.delivery_id)

pub find-id : (id : Text) (s : Store) (r : DeliveryRecord) → find id s ≡ some r → r.delivery_id ≡ id
unfolding find
find-id id [] r h = cc
find-id id (q ∷ s) r h = ground (arith, find-id id s r, text_eq_iff q.delivery_id id)

pub find-All :
    (P : DeliveryRecord → Type 0) (id : Text) (s : Store) (r : DeliveryRecord)
    → All P s
    → find id s ≡ some r
    → P r
unfolding find
find-All P id [] r a h = cc
find-All P id (q ∷ s) r a h = elim (Bool-cases (text_eq q.delivery_id id)) [
  | inl e ↦ subst P (ground arith) a.0
  | inr e ↦ find-All P id s r a.1 (ground arith)
]

pub put-All :
    (P : DeliveryRecord → Type 0) (r : DeliveryRecord) (s : Store) → P r → All P s → All P (put r s)
unfolding put
put-All P r [] p a = (p, tt)
put-All P r (q ∷ s) p a = elim (Bool-cases (text_eq q.delivery_id r.delivery_id)) [
  | inl e ↦ rw e (p, a.1)
  | inr e ↦ rw e (a.0, put-All P r s p a.1)
]

-- Two records of different deliveries.
abbrev pub Different : DeliveryRecord → DeliveryRecord → Type 0
Different a b = text_eq a.delivery_id b.delivery_id ≡ false

pub Different-symm : (a b : DeliveryRecord) → Different a b → Different b a
Different-symm a b h =
    ground (arith, text_eq_iff a.delivery_id b.delivery_id, text_eq_iff b.delivery_id a.delivery_id)

pub Different-same :
    (a b d : DeliveryRecord) → a.delivery_id ≡ b.delivery_id → Different a d → Different b d
Different-same a b d e h = rw (← e) h

All-Different :
    (a b : DeliveryRecord) (s : Store)
    → a.delivery_id ≡ b.delivery_id
    → All (Different a) s
    → All (Different b) s
All-Different a b [] e h = tt
All-Different a b (x ∷ s) e h = (Different-same a b x e h.0, All-Different a b s e h.1)

pub put-Apart : (r : DeliveryRecord) (s : Store) → Apart Different s → Apart Different (put r s)
unfolding put
put-Apart r [] d = (tt, tt)
put-Apart r (q ∷ s) d = elim (Bool-cases (text_eq q.delivery_id r.delivery_id)) [
  | inl e ↦ rw e (All-Different q r s ((text_eq_iff _ _).0 e) d.0, d.1)
  | inr e ↦ rw e (put-All (Different q) r s e d.0, put-Apart r s d.1)
]

-- The directory holds this record under its id.
abbrev pub Current : Store → DeliveryRecord → Type 0
Current s r = find r.delivery_id s ≡ some r

Current-cons :
    (q : DeliveryRecord) (s rs : Store)
    → All (Different q) rs
    → All (Current s) rs
    → All (Current (q ∷ s)) rs
unfolding find
Current-cons q s [] d a = tt
Current-cons q s (r ∷ rs) d a = (rw d.0 a.0, Current-cons q s rs d.1 a.1)

All-Current : (s : Store) → Apart Different s → All (Current s) s
unfolding find
All-Current [] d = tt
All-Current (r ∷ s) d =
    (rw (text_eq_refl r.delivery_id) refl, Current-cons r s s d.0 (All-Current s d.1))

pub records-Current : (s : Store) → Apart Different s → All (Current s) (records s)
unfolding records
records-Current s d = sort-All created_before (Current s) s (All-Current s d)

pub records-Apart : (s : Store) → Apart Different s → Apart Different (records s)
unfolding records
records-Apart s d = sort-Apart created_before Different Different-symm s d

-- What other deliveries' records are, a write does not change.
pub put-Current :
    (r r' : DeliveryRecord) (s rs : Store)
    → r'.delivery_id ≡ r.delivery_id
    → All (Different r) rs
    → All (Current s) rs
    → All (Current (put r' s)) rs
put-Current r r' s [] e d a = tt
put-Current r r' s (x ∷ rs) e d a =
    (rw (find-put x.delivery_id r' s, e, d.0) a.0, put-Current r r' s rs e d.1 a.1)
