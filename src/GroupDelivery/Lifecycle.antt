-- ===== src/GroupDelivery/Lifecycle.antt =====
-- What the calls of `GroupActionOutbox` between two prunings do to the rows.
pub mod History
use telegram_presence.Base.{
  ℕ, zero, suc, ◌+◌, ◌-◌, ◌*◌, ◌/◌, ◌%◌, ◌^◌, ◌≤◌, ◌<◌, min, max, ◌≡◌, refl, sym, ap, ◌∙◌, subst,
  ◌≢◌, ◌↔◌, ◌⊎◌, inl, inr, Bool, true, false, not, ◌&&◌, ◌||◌, Option, none, some, List, [], ◌∷◌,
  ◌++◌, map, arith, ltb, leb, ◌==◌, if◌then◌else◌, ltb→lt, lt→ltb, leb→le, ==_iff, Bool-cases,
  Option-cases, is_none, is_some, length, length-append, take, drop, length-take, length-drop,
  take-all, keep, length-keep-le, All, All-append, All-map,
}
use telegram_presence.Base.Int.{ℤ}
use telegram_presence.Base.Text.{Text, text_eq, text_eq_iff, text_eq_refl}
use telegram_presence.Base.Result.{Result, ok, err, runtime_error, ◌>>=◌, raise_if}
use telegram_presence.GroupDelivery.{
  Row, Settings, Sha256, Status, pending, sending, retry, acked, dead, superseded, is_superseded,
}
use telegram_presence.GroupDelivery.Answers.{
  Resolution, ack, failure, resolve_transport_ack, extract_telegram_message_ids,
}
use telegram_presence.GroupDelivery.Table.{
  Table, NaturalKey, find, find_key, update, replace, insert_or_ignore,
}
use telegram_presence.GroupDelivery.Table.Laws.{IsValid, insert-IsValid, find-insert}
use telegram_presence.GroupDelivery.Table.Updates.{SameIntent, Updated, update-Keeps}
use telegram_presence.GroupDelivery.Queue.{
  Request, natural_key, new_row, known_action, inserted, enqueue,
}
use telegram_presence.GroupDelivery.Deliver.{
  Sender, Delivered, Claim, to_send, stops, begun, unsent, sent, written, overflows, finish,
  claim_read, by_status, begin_row, begin_send, invoke_sender, send_begun, deliver,
}
use telegram_presence.GroupDelivery.Deliver.Outcomes.{found-Updated, claim_read-found}

-- `acked` or `dead`: the states that a delivery does not leave
unfoldable pub is_settled : Status → Bool
is_settled acked = true
is_settled dead = true
is_settled _ = false

-- The row stays, if it was settled.
abbrev pub Fixed : Bool → Row → Row → Type 0
Fixed true q r = r ≡ q
Fixed false q r = Unit

-- How a row may move: it stays the same intent, its attempts never fall, a settled row stays as it is.
abbrev pub Moved : Row → Row → Type 0
Moved q r = SameIntent q r × (q.attempts ≤ r.attempts) × Fixed (is_settled q.status) q r

-- A later table is valid and has every row of the earlier one, moved as allowed.
abbrev pub Kept : Table → Table → Type 0
Kept t t' =
    IsValid t'
    × ((j : Text) (q : Row) → find j t ≡ some q → (r : Row) × (find j t' ≡ some r) × Moved q r)

Fixed-refl : (b : Bool) (q : Row) → Fixed b q q
Fixed-refl true q = refl
Fixed-refl false q = tt

pub Moved-refl : (q : Row) → Moved q q
Moved-refl q = let fixed = Fixed-refl (is_settled q.status) q in (ground arith, omega arith, fixed)

pub Fixed-trans :
    (b : Bool) (p q r : Row)
    → is_settled p.status ≡ b
    → Fixed b p q
    → Fixed (is_settled q.status) q r
    → Fixed b p r
Fixed-trans true p q r e f g =
    let settled : is_settled q.status ≡ true = rw f e in
    let same : r ≡ q = subst (λ b. Fixed b q r) settled g in same ∙ f
Fixed-trans false p q r e f g = tt

pub SameIntent-trans : (p q r : Row) → SameIntent p q → SameIntent q r → SameIntent p r
SameIntent-trans p q r f g = (
  g.0 ∙ f.0,
  g.1 ∙ f.1,
  g.2 ∙ f.2,
  g.3 ∙ f.3,
  g.4 ∙ f.4,
  g.5 ∙ f.5,
  g.6 ∙ f.6,
  g.7 ∙ f.7,
  g.8 ∙ f.8,
)

Moved-trans : (p q r : Row) → Moved p q → Moved q r → Moved p r
Moved-trans p q r f g = (
  SameIntent-trans p q r f.0 g.0,
  omega (arith, f.1, g.1),
  Fixed-trans (is_settled p.status) p q r refl f.2 g.2,
)

pub Kept-refl : (t : Table) → IsValid t → Kept t t
Kept-refl t v = (v, λ j q h. (q, h, Moved-refl q))

pub Kept-trans : (t t' t'' : Table) → Kept t t' → Kept t' t'' → Kept t t''
Kept-trans t t' t'' k l = (
  l.0,
  λ j p h. let m = k.1 j p h in let n = l.1 j m.0 m.1 in (n.0, n.1, Moved-trans p m.0 n.0 m.2 n.2),
)

some_inj : (a b : Row) → ◌≡◌ {A = Option Row} (some a) (some b) → a ≡ b
some_inj a b w = cc

Kept-of-Updated :
    (id : Text) (q r : Row) (t t' : Table)
    → find id t ≡ some q
    → Moved q r
    → Updated id r t t'
    → Kept t t'
Kept-of-Updated id q r t t' h m u = (u.0, found)
  where
    found :
        (j : Text) (p : Row) → find j t ≡ some p → (p' : Row) × (find j t' ≡ some p') × Moved p p'
    found j p e = elim (Bool-cases (text_eq id j)) [
      | inl f ↦
          let same : p ≡ q = some_inj p q (sym e ∙ (rw (← (text_eq_iff id j).0 f) h)) in
          (r, rw (u.1 j, f) refl, subst (λ x. Moved x r) (sym same) m)
      | inr f ↦ (p, rw (u.1 j, f) e, Moved-refl p)
    ]

begun-Moved : (now : ℕ) (q : Row) → is_settled q.status ≡ false → Moved q (begun now q)
unfolding begun
begun-Moved now q f = rw f (ground arith, omega arith, tt)

-- What every settlement keeps: the intent and the attempts.
abbrev pub Steady : Row → Row → Type 0
Steady q r = SameIntent q r × (q.attempts ≤ r.attempts)

sent-Steady : (later : ℕ) (ids : List ℤ) (q : Row) → Steady q (sent later ids q)
unfolding sent
sent-Steady later ids q = (ground arith, omega arith)

unsent-Steady : (c : Settings) (now : ℕ) (e : Text) (x q : Row) → Steady q (unsent c now e x q)
unfolding unsent
unsent-Steady c now e x q = (ground arith, omega arith)

-- The table after an update of one row: as before, or with this row changed and no other.
abbrev pub Changed : Text → Row → Table → Table → Type 0
Changed id q t t' = (t' ≡ t) ⊎ ((r : Row) × Steady q r × Updated id r t t')

-- A settlement of a row that is not there.
pub finish_missing :
    (c : Settings) (now later : ℕ) (id : Text) (x : Row) (a : Resolution) (t : Table)
    → find id t ≡ none
    → (finish c now later id x a t).0 ≡ t
unfolding finish update written
finish_missing c now later id x (ack a) t e = rw (update, e) refl
finish_missing c now later id x (failure b) t e = rw (update, e) (ground arith)

module _ (id : Text) (q : Row) (t : Table) (v : IsValid t) (h : find id t ≡ some q) where
  written-Changed :
      (f : Row → Row) (d : Delivered)
      → Steady q (f q)
      → Changed id q t (written t (update f id t) d).0
  unfolding written
  written-Changed f d steady = elim (update-Keeps f id q t v h steady.0.0) [
    | inl e ↦ rw e (inl refl)
    | inr u ↦ rw u.0 (inr (f q, steady, u.1))
  ]

  -- A settlement, whatever the table that it meets and the row that was read before it.
  pub finish-Changed :
      (c : Settings) (now later : ℕ) (x : Row) (a : Resolution)
      → Changed id q t (finish c now later id x a t).0
  unfolding finish
  finish-Changed c now later x (ack a) =
      written-Changed _ _ (sent-Steady later (extract_telegram_message_ids a) q)
  finish-Changed c now later x (failure e) = elim (Bool-cases (overflows x.attempts)) [
    | inl f ↦ rw f (inl refl)
    | inr f ↦ rw f (written-Changed _ _ (unsent-Steady c now e x q))
  ]

  finish-Kept :
      (c : Settings) (now later : ℕ) (x : Row) (a : Resolution)
      → is_settled q.status ≡ false
      → Kept t (finish c now later id x a t).0
  finish-Kept c now later x a f = elim (finish-Changed c now later x a) [
    | inl e ↦ subst (Kept t) (sym e) (Kept-refl t v)
    | inr (r, steady, u) ↦
        let fixed : Fixed (is_settled q.status) q r = subst (λ b. Fixed b q r) (sym f) tt in
        Kept-of-Updated id q r t _ h (steady.0, steady.1, fixed) u
  ]

-- What the first transaction makes of a table: nothing, or the claim of a row that is not settled.
abbrev pub Claimed : ℕ → Text → Table → Table × Claim → Type 0
Claimed now id t (t', stops d) = t' ≡ t
Claimed now id t (t', to_send x) =
    (q : Row) × (find id t ≡ some q)
    × (is_settled q.status ≡ false)
    × (x ≡ begun now q)
    × Updated id (begun now q) t t'

begun_same_id : (now : ℕ) (r : Row) → (begun now r).action_id ≡ r.action_id
unfolding begun
begun_same_id now r = refl

-- A claim of a row that is not settled, a superseded one included.
claim_read-Claimed :
    (now : ℕ) (id : Text) (q : Row) (t : Table)
    → IsValid t
    → find id t ≡ some q
    → is_settled q.status ≡ false
    → Claimed now id t (claim_read id t (update (begun now) id t))
unfolding claim_read
claim_read-Claimed now id q t v h f =
    elim (update-Keeps (begun now) id q t v h (begun_same_id now q)) [
      | inl e ↦ rw e refl
      | inr u ↦
          let t' = replace (begun now q) t in
          rw (u.0, claim_read-found id (begun now q) t t' (found-Updated id (begun now q) t t' u.1))
            (q, h, f, refl, u.1)
    ]

by_status-Claimed :
    (st : Status) (attempt : Table × Claim) (r : Row) (t : Table) (now : ℕ) (id : Text)
    → (is_settled st ≡ false → Claimed now id t attempt)
    → Claimed now id t (by_status st attempt r t)
unfolding by_status is_settled
by_status-Claimed acked a r t now id f = refl
by_status-Claimed dead a r t now id f = refl
by_status-Claimed sending a r t now id f = refl
by_status-Claimed pending a r t now id f = f refl
by_status-Claimed retry a r t now id f = f refl
by_status-Claimed superseded a r t now id f = f refl

pub begin_send-Claimed :
    (now : ℕ) (id : Text) (t : Table) → IsValid t → Claimed now id t (begin_send now id t)
unfolding begin_send begin_row
begin_send-Claimed now id t v = elim (Option-cases (find id t)) [
  | inl e ↦ rw (begin_send, e) refl
  | inr (r, e) ↦
      rw (begin_send, e)
        (by_status-Claimed r.status _ r t now id (λ f.
          elim (Bool-cases (ltb now r.next_attempt_at)) [
            | inl d ↦ rw d refl
            | inr d ↦ rw d (claim_read-Claimed now id r t v e f)
          ]))
]

pub Claimed-Kept :
    (now : ℕ) (id : Text) (t : Table) (out : Table × Claim)
    → IsValid t
    → Claimed now id t out
    → Kept t out.0
Claimed-Kept now id t (t', stops d) v e = subst (Kept t) (sym e) (Kept-refl t v)
Claimed-Kept now id t (t', to_send x) v (q, h, f, e, u) =
    Kept-of-Updated id q (begun now q) t t' h (begun-Moved now q f) u

-- A claimed row is no settled one.
sending_now : (now : ℕ) (q : Row) → is_settled (begun now q).status ≡ false
unfolding begun is_settled
sending_now now q = refl

send_begun-Kept :
    (c : Settings) (now later : ℕ) (id : Text) (s : Sender) (t : Table) (out : Table × Claim)
    → IsValid t
    → Claimed now id t out
    → Kept t (send_begun c now later id s out).0
unfolding send_begun
send_begun-Kept c now later id s t (t', stops d) v e = subst (Kept t) (sym e) (Kept-refl t v)
send_begun-Kept c now later id s t (t', to_send x) v (q, h, f, e, u) =
    let first = Claimed-Kept now id t (t', to_send x) v (q, h, f, e, u) in
    Kept-trans t t' _ first (
      finish-Kept id (begun now q) t' u.0 (found-Updated id (begun now q) t t' u) c now later x
        (resolve_transport_ack (invoke_sender x s)) (sending_now now q))

pub deliver-Kept :
    (c : Settings) (now later : ℕ) (id : Text) (s : Sender) (t : Table)
    → IsValid t
    → Kept t (deliver c now later id s t).0
unfolding deliver
deliver-Kept c now later id s t v =
    send_begun-Kept c now later id s t (begin_send now id t) v (begin_send-Claimed now id t v)
