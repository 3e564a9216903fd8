-- ===== src/GroupDelivery/Queue/Idempotence.antt =====
-- Enqueueing again for the same natural key.
use telegram_presence.Base.{
  ℕ, ◌≡◌, refl, sym, ap, ◌∙◌, subst, ◌⊎◌, inl, inr, true, false, none, some, [], ◌∷◌, ◌++◌, arith,
  Option-cases,
}
use telegram_presence.Base.Text.{Text, text_eq_refl}
use telegram_presence.Base.Result.{ok}
use telegram_presence.GroupDelivery.{Row, Settings, Sha256, is_superseded}
use telegram_presence.GroupDelivery.Table.{
  Table, NaturalKey, has_key, key_of, find, find_key, collides, conflict, insert_or_ignore,
}
use telegram_presence.GroupDelivery.Queue.{
  Request, natural_key, new_row, known_action, inserted, enqueue, action_id_of,
}

find_key-none-conflict : (r : Row) (t : Table) → find_key (key_of r) t ≡ none → conflict r t ≡ false
unfolding conflict collides find_key
find_key-none-conflict r [] h = ground arith
find_key-none-conflict r (x ∷ t) h = ground (arith, find_key-none-conflict r t)

find-appended :
    (r : Row) (t : Table) → find r.action_id t ≡ none → find r.action_id (t ++ r ∷ []) ≡ some r
unfolding find
find-appended r [] h = rw (text_eq_refl r.action_id) refl
find-appended r (x ∷ t) h = ground (arith, find-appended r t)

own_key : (r : Row) → is_superseded r.status ≡ false → has_key (key_of r) r ≡ true
unfolding has_key key_of
own_key r h =
    rw (text_eq_refl r.chat, text_eq_refl r.action, text_eq_refl r.intent_key, h) (ground arith)

find_key-appended :
    (r : Row) (t : Table)
    → is_superseded r.status ≡ false
    → find_key (key_of r) t ≡ none
    → find_key (key_of r) (t ++ r ∷ []) ≡ some r
unfolding find_key
find_key-appended r [] a h = rw (own_key r a) refl
find_key-appended r (x ∷ t) a h = ground (arith, find_key-appended r t a)

new_row_key :
    (sha : Sha256) (c : Settings) (now : ℕ) (q : Request)
    → key_of (new_row sha c now q) ≡ natural_key sha q
unfolding new_row key_of
new_row_key sha c now q = refl

new_row_active :
    (sha : Sha256) (c : Settings) (now : ℕ) (q : Request)
    → is_superseded (new_row sha c now q).status ≡ false
unfolding new_row is_superseded
new_row_active sha c now q = refl

pub new_row_id :
    (sha : Sha256) (c : Settings) (now : ℕ) (q : Request)
    → (new_row sha c now q).action_id ≡ action_id_of sha (natural_key sha q)
unfolding new_row
new_row_id sha c now q = refl

-- A table in which the natural key leads to this row, directly or by the action id.
Leads : Sha256 → NaturalKey → Row → Table → Type 0
Leads sha k r t =
    (find_key k t ≡ some r) ⊎ ((find_key k t ≡ none) × (find (action_id_of sha k) t ≡ some r))

enqueue_new :
    (sha : Sha256) (c : Settings) (now : ℕ) (q : Request) (t : Table)
    → known_action q.action ≡ true
    → find_key (natural_key sha q) t ≡ none
    → enqueue sha c now q t
      ≡ inserted
          (natural_key sha q)
          (new_row sha c now q).action_id
          (insert_or_ignore (new_row sha c now q) t)
unfolding enqueue
enqueue_new sha c now q t a h = rw (enqueue, a, h) refl

insert-ignored : (r x : Row) (t : Table) → find r.action_id t ≡ some x → insert_or_ignore r t ≡ t
unfolding insert_or_ignore
insert-ignored r x t h = rw (insert_or_ignore, h) refl

insert-appended :
    (r : Row) (t : Table)
    → find r.action_id t ≡ none
    → find_key (key_of r) t ≡ none
    → insert_or_ignore r t ≡ t ++ r ∷ []
unfolding insert_or_ignore
insert-appended r t h k = rw (insert_or_ignore, h, find_key-none-conflict r t k) refl

inserted-found :
    (k : NaturalKey) (id : Text) (r : Row) (t : Table)
    → find id t ≡ some r
    → inserted k id t ≡ ok (t, r)
unfolding inserted
inserted-found k id r t h = rw (inserted, h) refl

enqueue-found :
    (sha : Sha256) (c : Settings) (now : ℕ) (q : Request) (r : Row) (t : Table)
    → known_action q.action ≡ true
    → Leads sha (natural_key sha q) r t
    → enqueue sha c now q t ≡ ok (t, r)
unfolding enqueue Leads
enqueue-found sha c now q r t a (inl h) = rw (enqueue, a, h) refl
enqueue-found sha c now q r t a (inr h) =
    let k = natural_key sha q in
    let new = new_row sha c now q in
    let id = new_row_id sha c now q in
    let met : find new.action_id t ≡ some r = ap (λ z. find z t) id ∙ h.1 in
    enqueue_new sha c now q t a h.0
    ∙ (ap (inserted k new.action_id) (insert-ignored new r t met)
        ∙ inserted-found k new.action_id r t met)

-- The table and the row that an accepted request comes to.
enqueue-Leads :
    (sha : Sha256) (c : Settings) (now : ℕ) (q : Request) (t : Table)
    → known_action q.action ≡ true
    → (out : Table × Row) × (enqueue sha c now q t ≡ ok out)
      × Leads sha (natural_key sha q) out.1 out.0
unfolding Leads
enqueue-Leads sha c now q t a = elim (Option-cases (find_key (natural_key sha q) t)) [
  | inr (r, e) ↦ ((t, r), enqueue-found sha c now q r t a (inl e), inl e)
  | inl e ↦ elim (Option-cases (find (action_id_of sha (natural_key sha q)) t)) [
    | inr (r, f) ↦ ((t, r), enqueue-found sha c now q r t a (inr (e, f)), inr (e, f))
    | inl f ↦
        let k = natural_key sha q in
        let new = new_row sha c now q in
        let free : find new.action_id t ≡ none = ap (λ z. find z t) (new_row_id sha c now q) ∙ f in
        let own = new_row_key sha c now q in
        let open_key : find_key (key_of new) t ≡ none = ap (λ z. find_key z t) own ∙ e in
        let added = insert-appended new t free open_key in
        let met = find-appended new t free in
        (
          (t ++ new ∷ [], new),
          enqueue_new sha c now q t a e
              ∙ (ap (inserted k new.action_id) added
                  ∙ inserted-found k new.action_id new (t ++ new ∷ []) met),
          inl (
              ap (λ z. find_key z (t ++ new ∷ [])) (sym own)
              ∙ find_key-appended new t (new_row_active sha c now q) open_key),
        )
  ]
]

-- An accepted request returns a row, and a second accepted request of the same natural key, with other
-- settings, another time or another payload, returns the same row and leaves the table as it is: one
-- inbound message and action is one durable intent.
pub enqueue-enqueue_same :
    (sha : Sha256) (c c' : Settings) (now now' : ℕ) (q q' : Request) (t : Table)
    → known_action q.action ≡ true
    → known_action q'.action ≡ true
    → natural_key sha q' ≡ natural_key sha q
    → (out : Table × Row) × (enqueue sha c now q t ≡ ok out)
      × (enqueue sha c' now' q' out.0 ≡ ok out)
enqueue-enqueue_same sha c c' now now' q q' t a a' e =
    let w = enqueue-Leads sha c now q t a in
    let r = w.0.1 in
    let leads = subst (λ k. Leads sha k r w.0.0) (sym e) w.2 in
    (w.0, w.1, enqueue-found sha c' now' q' r w.0.0 a' leads)
