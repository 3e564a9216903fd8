-- ===== src/GroupDelivery/Table/Laws.antt =====
-- The table's constraints, kept by its statements, and what a statement leaves of the other rows.
use telegram_presence.Base.{
  ◌≡◌, ◌∙◌, inl, inr, Bool, false, not, ◌&&◌, ◌||◌, none, some, [], ◌∷◌, ◌++◌, arith, if◌then◌else◌,
  Bool-cases, Option-cases, is_some, All, All-append,
}
use telegram_presence.Base.Text.{Text, text_eq, text_eq_iff}
use telegram_presence.Base.Sort.{Apart}
use telegram_presence.GroupDelivery.{Row, is_superseded}
use telegram_presence.GroupDelivery.Table.{
  Table, has_key, key_of, find, collides, conflict, replace, insert_or_ignore,
}

-- Both rows are active and have one natural key.
unfoldable pub clash : Row → Row → Bool
clash a b = not (is_superseded a.status) && has_key (key_of a) b

pub clash_symm : (a b : Row) → clash a b ≡ clash b a
unfolding clash has_key key_of
clash_symm a b = ground (
  arith,
  text_eq_iff a.chat b.chat,
  text_eq_iff b.chat a.chat,
  text_eq_iff a.action b.action,
  text_eq_iff b.action a.action,
  text_eq_iff a.intent_key b.intent_key,
  text_eq_iff b.intent_key a.intent_key,
)

-- Two rows that the constraints allow beside each other.
abbrev pub Compatible : Row → Row → Type 0
Compatible a b = (text_eq a.action_id b.action_id ≡ false) × (clash a b ≡ false)

-- The primary key and the unique index hold.
abbrev pub IsValid : Table → Type 0
IsValid t = Apart Compatible t

id_symm :
    (a b : Row) → text_eq a.action_id b.action_id ≡ false → text_eq b.action_id a.action_id ≡ false
id_symm a b h =
    ground (arith, text_eq_iff a.action_id b.action_id, text_eq_iff b.action_id a.action_id)

pub Compatible-symm : (a b : Row) → Compatible a b → Compatible b a
Compatible-symm a b h = (id_symm a b h.0, clash_symm b a ∙ h.1)

-- The unique index lets `r` stand beside `x`.
abbrev pub Beside : Row → Row → Type 0
Beside r x = (not (text_eq x.action_id r.action_id) && clash r x) ≡ false

pub conflict-Beside : (r : Row) (t : Table) → conflict r t ≡ false → All (Beside r) t
unfolding conflict collides clash
conflict-Beside r [] h = tt
conflict-Beside r (x ∷ t) h = (ground arith, conflict-Beside r t (ground arith))

pub conflict-of-Beside : (r : Row) (t : Table) → All (Beside r) t → conflict r t ≡ false
unfolding conflict collides clash
conflict-of-Beside r [] h = ground arith
conflict-of-Beside r (x ∷ t) h = let ih = conflict-of-Beside r t h.1 in let h0 = h.0 in ground arith

pub find-replace :
    (j : Text) (r : Row) (t : Table)
    → find j (replace r t)
      ≡ (if text_eq r.action_id j && is_some (find j t) then some r else find j t)
unfolding find replace
find-replace j r [] = ground arith
find-replace j r (q ∷ t) = ground (
  arith,
  find-replace j r t,
  text_eq_iff q.action_id r.action_id,
  text_eq_iff q.action_id j,
  text_eq_iff r.action_id j,
)

pub find-id : (id : Text) (t : Table) (r : Row) → find id t ≡ some r → r.action_id ≡ id
unfolding find
find-id id [] r h = cc
find-id id (q ∷ t) r h = ground (arith, find-id id t r, text_eq_iff q.action_id id)

pub replace-All : (P : Row → Type 0) (r : Row) (t : Table) → P r → All P t → All P (replace r t)
unfolding replace
replace-All P r [] p a = tt
replace-All P r (q ∷ t) p a = elim (Bool-cases (text_eq q.action_id r.action_id)) [
  | inl e ↦ rw e (p, a.1)
  | inr e ↦ rw e (a.0, replace-All P r t p a.1)
]

Compatible-of-Beside :
    (q r : Row) (t : Table)
    → q.action_id ≡ r.action_id
    → All (Compatible q) t
    → All (Beside r) t
    → All (Compatible r) t
Compatible-of-Beside q r [] e a b = tt
Compatible-of-Beside q r (x ∷ t) e a b =
    let different : text_eq r.action_id x.action_id ≡ false = rw (← e) a.0.0 in
    let flipped = id_symm r x different in
    let beside = b.0 in ((different, ground arith), Compatible-of-Beside q r t e a.1 b.1)

pub replace-IsValid : (r : Row) (t : Table) → IsValid t → All (Beside r) t → IsValid (replace r t)
unfolding replace
replace-IsValid r [] v b = tt
replace-IsValid r (q ∷ t) v b = elim (Bool-cases (text_eq q.action_id r.action_id)) [
  | inl e ↦ rw e (Compatible-of-Beside q r t ((text_eq_iff _ _).0 e) v.0 b.1, v.1)
  | inr e ↦
      let beside = b.0 in
      let apart : Compatible r q = (id_symm q r e, ground arith) in
      rw e (
        replace-All (Compatible q) r t (Compatible-symm r q apart) v.0,
        replace-IsValid r t v.1 b.1,
      )
]

find-none-All :
    (r : Row) (t : Table)
    → find r.action_id t ≡ none
    → All (λ x. text_eq x.action_id r.action_id ≡ false) t
unfolding find
find-none-All r [] h = tt
find-none-All r (x ∷ t) h = elim (Bool-cases (text_eq x.action_id r.action_id)) [
  | inl e ↦ ground arith
  | inr e ↦ (e, find-none-All r t (ground arith))
]

append-IsValid :
    (r : Row) (t : Table)
    → IsValid t
    → All (λ x. text_eq x.action_id r.action_id ≡ false) t
    → All (Beside r) t
    → IsValid (t ++ r ∷ [])
append-IsValid r [] v a b = (tt, tt)
append-IsValid r (x ∷ t) v a b =
    let beside = b.0 in
    let new = a.0 in
    let apart : Compatible r x = (id_symm x r a.0, ground arith) in
    (
      All-append (Compatible x) t (r ∷ []) v.0 (Compatible-symm r x apart, tt),
      append-IsValid r t v.1 a.1 b.1,
    )

pub insert-IsValid : (r : Row) (t : Table) → IsValid t → IsValid (insert_or_ignore r t)
unfolding insert_or_ignore
insert-IsValid r t v = elim (Option-cases (find r.action_id t)) [
  | inr (q, e) ↦ rw e v
  | inl e ↦ elim (Bool-cases (conflict r t)) [
    | inl f ↦ rw (e, f) v
    | inr f ↦ rw (e, f) (append-IsValid r t v (find-none-All r t e) (conflict-Beside r t f))
  ]
]

find-append : (j : Text) (t u : Table) (q : Row) → find j t ≡ some q → find j (t ++ u) ≡ some q
unfolding find
find-append j [] u q h = cc
find-append j (x ∷ t) u q h = ground (arith, find-append j t u q)

-- An insertion leaves the rows of the table.
pub find-insert :
    (j : Text) (r : Row) (t : Table) (q : Row)
    → find j t ≡ some q
    → find j (insert_or_ignore r t) ≡ some q
unfolding insert_or_ignore
find-insert j r t q h = elim (Bool-cases (is_some (find r.action_id t) || conflict r t)) [
  | inl e ↦ rw e h
  | inr e ↦ rw e (find-append j t (r ∷ []) q h)
]
