-- ===== src/GroupDelivery/Table/Updates.antt =====
-- Updates of a row that keep what its send is about.
use telegram_presence.Base.{
  ◌≡◌, refl, ap, ◌∙◌, subst, ◌⊎◌, inl, inr, false, ◌&&◌, none, some, [], ◌∷◌, arith, if◌then◌else◌,
  Bool-cases, is_some, All, All-map,
}
use telegram_presence.Base.Text.{Text, text_eq, text_eq_iff, text_eq_refl}
use telegram_presence.GroupDelivery.{Row, is_superseded}
use telegram_presence.GroupDelivery.Table.{Table, has_key, key_of, find, conflict, replace, update}
use telegram_presence.GroupDelivery.Table.Laws.{
  clash, clash_symm, Compatible, IsValid, Beside, conflict-of-Beside, conflict-Beside, find-replace,
  find-id, replace-IsValid,
}

-- The two rows are one intent: its ids, its natural key, its payload, its limit, its birth.
abbrev pub SameIntent : Row → Row → Type 0
SameIntent q r =
    (r.action_id ≡ q.action_id)
    × (r.chat ≡ q.chat)
    × (r.msg_id ≡ q.msg_id)
    × (r.action ≡ q.action)
    × (r.intent_key ≡ q.intent_key)
    × (r.transport_random_id ≡ q.transport_random_id)
    × (r.payload ≡ q.payload)
    × (r.max_attempts ≡ q.max_attempts)
    × (r.created_at ≡ q.created_at)

pub find-All :
    (P : Row → Type 0) (id : Text) (t : Table) (r : Row) → All P t → find id t ≡ some r → P r
unfolding find
find-All P id [] r a h = cc
find-All P id (q ∷ t) r a h = elim (Bool-cases (text_eq q.action_id id)) [
  | inl e ↦ subst P (ground arith) a.0
  | inr e ↦ find-All P id t r a.1 (ground arith)
]

-- A row of a valid table stands beside the table's rows.
pub find-Beside :
    (id : Text) (t : Table) (r : Row) → IsValid t → find id t ≡ some r → All (Beside r) t
unfolding find
find-Beside id [] r v h = tt
find-Beside id (q ∷ t) r v h = elim (Bool-cases (text_eq q.action_id id)) [
  | inl e ↦
      let same : q ≡ r = ground arith in
      subst (λ y. All (Beside y) (q ∷ t)) same
        (
          rw (text_eq_refl q.action_id) refl,
          All-map (Compatible q) (Beside q) t (λ x c. let unlike = c.1 in ground arith) v.0,
        )
  | inr e ↦
      let later : find id t ≡ some r = ground arith in
      let apart = find-All (Compatible q) id t r v.0 later in
      let flip = clash_symm r q in
      let unlike = apart.1 in (ground arith, find-Beside id t r v.1 later)
]

module _ (q r : Row) (same : SameIntent q r) (active : is_superseded q.status ≡ false) where
  clash-same : (x : Row) → clash q x ≡ false → clash r x ≡ false
  unfolding clash has_key key_of
  clash-same x h = rw (same.1, same.2, same.3, same.4) (ground arith)

  Beside-same : (x : Row) → Beside q x → Beside r x
  Beside-same x h =
      let test : text_eq x.action_id r.action_id ≡ text_eq x.action_id q.action_id =
        ap (text_eq x.action_id) same.0 in
      elim (Bool-cases (text_eq x.action_id q.action_id)) [
        | inl e ↦ rw (test ∙ e) refl
        | inr e ↦ rw (test ∙ e) (clash-same x (ground arith))
      ]

  -- An active row's update meets no other row of its natural key.
  pub replace-Beside : (id : Text) (t : Table) → IsValid t → find id t ≡ some q → All (Beside r) t
  replace-Beside id t v h = All-map (Beside q) (Beside r) t Beside-same (find-Beside id t q v h)

-- What an update does to a valid table, where it does not raise: a valid table again, the updated row
-- under its id, the other rows as they were.
abbrev pub Updated : Text → Row → Table → Table → Type 0
Updated id r t t' =
    IsValid t' × ((j : Text) → find j t' ≡ (if text_eq id j then some r else find j t))

replace-Updated :
    (id : Text) (q r : Row) (t : Table)
    → r.action_id ≡ q.action_id
    → IsValid t
    → find id t ≡ some q
    → All (Beside r) t
    → Updated id r t (replace r t)
replace-Updated id q r t e v h b =
    (replace-IsValid r t v b, λ j. find-replace j r t ∙ (rw (test j) (found j)))
  where
    test : (j : Text) → text_eq r.action_id j ≡ text_eq id j
    test j = ap (λ z. text_eq z j) (e ∙ find-id id t q h)

    found :
        (j : Text)
        → (if text_eq id j && is_some (find j t) then some r else find j t)
          ≡ (if text_eq id j then some r else find j t)
    found j = elim (Bool-cases (text_eq id j)) [
      | inl f ↦ rw (f, ← (text_eq_iff id j).0 f, h) refl
      | inr f ↦ rw f refl
    ]

-- The update of an active row by a row of the same intent succeeds.
pub update-Updated :
    (f : Row → Row) (id : Text) (q : Row) (t : Table)
    → IsValid t
    → find id t ≡ some q
    → SameIntent q (f q)
    → is_superseded q.status ≡ false
    → (update f id t ≡ some (replace (f q) t)) × Updated id (f q) t (replace (f q) t)
unfolding update
update-Updated f id q t v h same active =
    let beside = replace-Beside q (f q) same active id t v h in
    let free = conflict-of-Beside (f q) t beside in
    (rw (update, h, free) refl, replace-Updated id q (f q) t same.0 v h beside)

-- Any update by a row of the same id keeps the table valid, where it does not raise.
pub update-Keeps :
    (f : Row → Row) (id : Text) (q : Row) (t : Table)
    → IsValid t
    → find id t ≡ some q
    → (f q).action_id ≡ q.action_id
    → (update f id t ≡ none)
      ⊎ ((update f id t ≡ some (replace (f q) t)) × Updated id (f q) t (replace (f q) t))
unfolding update
update-Keeps f id q t v h e = elim (Bool-cases (conflict (f q) t)) [
  | inl c ↦ inl (rw (update, h, c) refl)
  | inr c ↦
      inr (rw (update, h, c) refl, replace-Updated id q (f q) t e v h (conflict-Beside (f q) t c))
]
