-- ===== src/GroupDelivery/Lifecycle/History.antt =====
-- Histories of calls on one table of group actions.
use telegram_presence.Base.{
  ℕ, ◌≡◌, refl, sym, ap, ◌∙◌, subst, ◌⊎◌, inl, inr, false, some, List, [], ◌∷◌, arith,
  if◌then◌else◌, Bool-cases, Option-cases, All,
}
use telegram_presence.Base.Text.{Text, text_eq, text_eq_iff}
use telegram_presence.Base.Result.{Result, ok, err}
use telegram_presence.Base.Loop.{IfOk}
use telegram_presence.GroupDelivery.{Row, Settings, Sha256, is_superseded}
use telegram_presence.GroupDelivery.Table.{
  Table, NaturalKey, has_key, key_of, find, find_key, insert_or_ignore,
}
use telegram_presence.GroupDelivery.Table.Laws.{
  clash, Compatible, IsValid, insert-IsValid, find-insert, find-id,
}
use telegram_presence.GroupDelivery.Queue.{
  Request, natural_key, new_row, known_action, inserted, enqueue,
}
use telegram_presence.GroupDelivery.Answers.{Resolution}
use telegram_presence.GroupDelivery.Deliver.{Sender, finish, begin_send, deliver}
use telegram_presence.GroupDelivery.Prune.{recovered, is_stale_send, recover_stale}
use telegram_presence.GroupDelivery.Lifecycle.{
  is_settled, Fixed, Fixed-trans, SameIntent-trans, Steady, finish-Changed, finish_missing,
  begin_send-Claimed, Claimed-Kept, Moved, Kept, Moved-refl, Kept-refl, deliver-Kept,
}

inserted-Table :
    (k : NaturalKey) (id : Text) (t : Table) → IfOk (λ out. out.0 ≡ t) (inserted k id t)
unfolding inserted
inserted-Table k id t = elim (Option-cases (find id t)) [
  | inr (r, e) ↦ rw (inserted, e) refl
  | inl e ↦ elim (Option-cases (find_key k t)) [
    | inr (r, f) ↦ rw (inserted, e, f) refl
    | inl f ↦ rw (inserted, e, f) tt
  ]
]

IfOk-map {ℓ} :
    {A : Type ℓ} (P Q : A → Type 0) (m : Result A) → IfOk P m → ((a : A) → P a → Q a) → IfOk Q m
IfOk-map P Q (ok a) h f = f a h
IfOk-map P Q (err e) h f = tt

insert-Kept : (r : Row) (t : Table) → IsValid t → Kept t (insert_or_ignore r t)
insert-Kept r t v = (insert-IsValid r t v, λ j q h. (q, find-insert j r t q h, Moved-refl q))

enqueue-Kept :
    (sha : Sha256) (c : Settings) (now : ℕ) (q : Request) (t : Table)
    → IsValid t
    → IfOk (λ out. Kept t out.0) (enqueue sha c now q t)
unfolding enqueue
enqueue-Kept sha c now q t v = elim (Bool-cases (known_action q.action)) [
  | inr a ↦ rw (enqueue, a) tt
  | inl a ↦ elim (Option-cases (find_key (natural_key sha q) t)) [
    | inr (r, e) ↦ rw (enqueue, a, e) (Kept-refl t v)
    | inl e ↦
        let new = new_row sha c now q in
        let k = natural_key sha q in
        rw (enqueue, a, e)
          (IfOk-map (λ out. out.0 ≡ insert_or_ignore new t) (λ out. Kept t out.0)
            (inserted k new.action_id (insert_or_ignore new t))
            (inserted-Table k new.action_id (insert_or_ignore new t))
            (λ out same. subst (Kept t) (sym same) (insert-Kept new t v)))
  ]
]

-- The row that the recovery at a start leaves for a row.
recovered_one : ℕ → Row → Row
recovered_one now r = if is_stale_send now r then recovered now r else r

recovered-Moved : (now : ℕ) (r : Row) → Moved r (recovered_one now r)
unfolding recovered_one recovered is_stale_send is_settled
recovered-Moved now r = elim (Bool-cases (is_stale_send now r)) [
  | inr e ↦ rw e (Moved-refl r)
  | inl e ↦
      let open_row : is_settled r.status ≡ false = ground arith in
      rw (e, open_row) (ground arith, omega arith, tt)
]

recovered_clash :
    (now : ℕ) (a b : Row) → clash (recovered_one now a) (recovered_one now b) ≡ clash a b
unfolding recovered_one recovered is_stale_send clash has_key key_of is_superseded
recovered_clash now a b = ground arith

recover-All :
    (now : ℕ) (a : Row) (t : Table)
    → All (Compatible a) t
    → All (Compatible (recovered_one now a)) (recover_stale now t)
unfolding recover_stale recovered_one
recover-All now a [] h = tt
recover-All now a (b ∷ t) h =
    let ma = recovered-Moved now a in
    let mb = recovered-Moved now b in
    let same_a = ma.0.0 in
    let same_b = mb.0.0 in
    (
      (
        ap (λ z. text_eq z (recovered_one now b).action_id) same_a
            ∙ (ap (text_eq a.action_id) same_b ∙ h.0.0),
        recovered_clash now a b ∙ h.0.1,
      ),
      recover-All now a t h.1,
    )

recover-IsValid : (now : ℕ) (t : Table) → IsValid t → IsValid (recover_stale now t)
unfolding recover_stale recovered_one
recover-IsValid now [] v = tt
recover-IsValid now (a ∷ t) v = (recover-All now a t v.0, recover-IsValid now t v.1)

find-recover :
    (now : ℕ) (j : Text) (t : Table) (q : Row)
    → find j t ≡ some q
    → find j (recover_stale now t) ≡ some (recovered_one now q)
unfolding recover_stale recovered_one find
find-recover now j [] q h = cc
find-recover now j (r ∷ t) q h =
    let m = recovered-Moved now r in
    let same : (recovered_one now r).action_id ≡ r.action_id = m.0.0 in
    let test : text_eq (recovered_one now r).action_id j ≡ text_eq r.action_id j =
      ap (λ z. text_eq z j) same in
    elim (Bool-cases (text_eq r.action_id j)) [
      | inl e ↦
          let it : r ≡ q = ground arith in rw (test ∙ e) (ap (λ z. some (recovered_one now z)) it)
      | inr e ↦ rw (test ∙ e) (find-recover now j t q (ground arith))
    ]

recover-Kept : (now : ℕ) (t : Table) → IsValid t → Kept t (recover_stale now t)
recover-Kept now t v = (
  recover-IsValid now t v,
  λ j q h. (recovered_one now q, find-recover now j t q h, recovered-Moved now q),
)

-- What processes do between two prunings: `enqueue`; the first transaction of `deliver`; the settlement
-- of a send at any later time, with the row that it read before and the transport's answer; a whole
-- `deliver` with nothing in between; the recovery of a start.
pub data Call : Type 0 where
  enqueue_call : Settings → ℕ → Request → Call
  begin_call : ℕ → Text → Call
  finish_call : Settings → ℕ → ℕ → Text → Row → Resolution → Call
  deliver_call : Settings → ℕ → ℕ → Text → Sender → Call
  recover_call : ℕ → Call

-- The table that a call leaves; a call that raises before its first write leaves the table.
unfoldable pub after : Result (Table × Row) → Table → Table
after (ok out) t = out.0
after (err e) t = t

unfoldable pub step : Sha256 → Call → Table → Table
unfolding after
step sha (enqueue_call c now q) t = after (enqueue sha c now q t) t
step sha (begin_call now id) t = (begin_send now id t).0
step sha (finish_call c now later id current a) t = (finish c now later id current a t).0
step sha (deliver_call c now later id s) t = (deliver c now later id s t).0
step sha (recover_call now) t = recover_stale now t

unfoldable pub run : Sha256 → List Call → Table → Table
unfolding step
run sha [] t = t
run sha (k ∷ ks) t = run sha ks (step sha k t)

-- The call settles a send of this row that was claimed before.
abbrev pub Finishes : Text → Call → Type 0
Finishes id (finish_call c now later j current a) = j ≡ id
Finishes id _ = ⊥

abbrev pub AnyFinishes : Text → List Call → Type 0
AnyFinishes id [] = ⊥
AnyFinishes id (k ∷ ks) = Finishes id k ⊎ AnyFinishes id ks

-- A row after some calls: the same intent, its attempts never fewer, and unchanged if it was settled,
-- unless one of the calls settles an earlier send of it.
abbrev pub Held : List Call → Row → Row → Type 0
Held ks q r = Steady q r × (Fixed (is_settled q.status) q r ⊎ AnyFinishes q.action_id ks)

abbrev pub AllHeld : List Call → Table → Table → Type 0
AllHeld ks t t' =
    IsValid t'
    × ((j : Text) (q : Row) → find j t ≡ some q → (r : Row) × (find j t' ≡ some r) × Held ks q r)

AllHeld-Kept : (ks : List Call) (t t' : Table) → Kept t t' → AllHeld ks t t'
AllHeld-Kept ks t t' k =
    (k.0, λ j q h. let (r, found, m) = k.1 j q h in (r, found, ((m.0, m.1), inl m.2)))

Held-trans :
    (k : Call) (ks : List Call) (p q r : Row) → Held (k ∷ []) p q → Held ks q r → Held (k ∷ ks) p r
Held-trans k ks p q r f g =
    let steady : Steady p r = (SameIntent-trans p q r f.0.0 g.0.0, omega (arith, f.0.1, g.0.1)) in
    let same : q.action_id ≡ p.action_id = f.0.0.0 in
    elim f.1 [
      | inr (inl first) ↦ (steady, inr (inl first))
      | inr (inr never) ↦ absurd never
      | inl fixed ↦ elim g.1 [
        | inr later ↦ (steady, inr (inr (subst (λ j. AnyFinishes j ks) same later)))
        | inl fixed' ↦ (steady, inl (Fixed-trans (is_settled p.status) p q r refl fixed fixed'))
      ]
    ]

-- The settlement of a send, whoever has settled the row meanwhile.
finish-AllHeld :
    (c : Settings) (now later : ℕ) (id : Text) (current : Row) (a : Resolution) (t : Table)
    → IsValid t
    → AllHeld (finish_call c now later id current a ∷ []) t (finish c now later id current a t).0
finish-AllHeld c now later id current a t v = elim (Option-cases (find id t)) [
  | inl e ↦
      subst (AllHeld (finish_call c now later id current a ∷ []) t)
        (sym (finish_missing c now later id current a t e))
        (AllHeld-Kept (finish_call c now later id current a ∷ []) t t (Kept-refl t v))
  | inr (q, h) ↦ elim (finish-Changed id q t v h c now later current a) [
    | inl e ↦
        subst (AllHeld (finish_call c now later id current a ∷ []) t) (sym e)
          (AllHeld-Kept (finish_call c now later id current a ∷ []) t t (Kept-refl t v))
    | inr (r, steady, u) ↦ (
      u.0,
      λ j p e. elim (Bool-cases (text_eq id j)) [
        | inl f ↦
            let there : j ≡ id = sym ((text_eq_iff id j).0 f) in
            let found : some p ≡ some q = sym e ∙ (ap (λ z. find z t) there ∙ h) in
            let same : q ≡ p = cc in
            let named : id ≡ p.action_id = sym there ∙ sym (find-id j t p e) in
            (r, rw (u.1 j, f) refl, (subst (λ x. Steady x r) same steady, inr (inl named)))
        | inr f ↦
            let still = Moved-refl p in (p, rw (u.1 j, f) e, ((still.0, still.1), inl still.2))
      ],
    )
  ]
]

after-Kept :
    (m : Result (Table × Row)) (t : Table)
    → IsValid t
    → IfOk (λ out. Kept t out.0) m
    → Kept t (after m t)
unfolding after
after-Kept (ok out) t v h = h
after-Kept (err e) t v h = Kept-refl t v

step-AllHeld : (sha : Sha256) (k : Call) (t : Table) → IsValid t → AllHeld (k ∷ []) t (step sha k t)
unfolding step
step-AllHeld sha (enqueue_call c now q) t v =
    AllHeld-Kept (enqueue_call c now q ∷ []) t _
      (after-Kept (enqueue sha c now q t) t v (enqueue-Kept sha c now q t v))
step-AllHeld sha (begin_call now id) t v =
    AllHeld-Kept (begin_call now id ∷ []) t _
      (Claimed-Kept now id t (begin_send now id t) v (begin_send-Claimed now id t v))
step-AllHeld sha (finish_call c now later id current a) t v =
    finish-AllHeld c now later id current a t v
step-AllHeld sha (deliver_call c now later id s) t v =
    AllHeld-Kept (deliver_call c now later id s ∷ []) t _ (deliver-Kept c now later id s t v)
step-AllHeld sha (recover_call now) t v =
    AllHeld-Kept (recover_call now ∷ []) t _ (recover-Kept now t v)

run-AllHeld : (sha : Sha256) (ks : List Call) (t : Table) → IsValid t → AllHeld ks t (run sha ks t)
unfolding run
run-AllHeld sha [] t v = AllHeld-Kept [] t t (Kept-refl t v)
run-AllHeld sha (k ∷ ks) t v =
    let t' = step sha k t in
    let first = step-AllHeld sha k t v in
    let rest = run-AllHeld sha ks t' first.0 in
    (
      rest.0,
      λ j p h.
          let (q, hq, f) = first.1 j p h in
          let (r, hr, g) = rest.1 j q hq in (r, hr, Held-trans k ks p q r f g),
    )

-- Any history of enqueueing, claims, settlements, deliveries and recoveries, with the transactions of
-- several deliveries in any order, keeps a valid table valid: no two rows share an action id, and no two
-- rows that are not superseded share a natural key.
pub run-IsValid : (sha : Sha256) (ks : List Call) (t : Table) → IsValid t → IsValid (run sha ks t)
run-IsValid sha ks t v = (run-AllHeld sha ks t v).0

-- Any history of enqueueing, claims, settlements, deliveries and recoveries on a valid table, with the
-- transactions of several deliveries in any order, keeps every row, as the same intent, with its attempts
-- never fewer. A row that is acknowledged or dead stays as it is, unless one of the calls is the
-- settlement, apart from its claim, of a send under the same action id.
pub run-Held :
    (sha : Sha256) (ks : List Call) (t : Table) (id : Text) (q : Row)
    → IsValid t
    → find id t ≡ some q
    → (r : Row) × (find id (run sha ks t) ≡ some r) × Held ks q r
run-Held sha ks t id q v h = (run-AllHeld sha ks t v).1 id q h
