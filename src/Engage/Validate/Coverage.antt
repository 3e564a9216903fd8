-- ===== src/Engage/Validate/Coverage.antt =====
-- Work that fits is carried out or deferred, never dropped.
use telegram_presence.Base.{
  ℕ, ◌+◌, ◌≡◌, refl, sym, ◌∙◌, subst, ◌⊎◌, inl, inr, Bool, true, false, not, ◌&&◌, ◌||◌, List, [],
  ◌∷◌, ◌++◌, arith, ltb, leb, ◌==◌, if◌then◌else◌, Bool-cases, take, All,
}
use telegram_presence.Base.Text.{Text, strip, is_empty}
use telegram_presence.Engage.{
  ActionPlan, Action, reply, react, notify_owner, ignore, wait, remember, remember_entity, delegate,
  is_delegate, is_memory, member, plan_ids,
}
use telegram_presence.Engage.Validate.{
  Cycle, start, count, append_plan, defer, fits, as_reply, admit_reply, admit_memory,
  admit_fallback, admit_delegate, by_action, validate_one, validate_each, validate_actions,
  is_paused, text_in, emoji_allowlist, addressed_replies_per_cycle, remember_per_cycle,
  delegate_per_cycle,
}

-- The message is acted on or deferred.
unfoldable pub handled : ℕ → Cycle → Bool
handled n s = member n (plan_ids s.out) || member n s.deferred

-- A plan whose work the cycle may not drop: a reply that fits, a delegation whose draft fits or is
-- missing, a memory with its note.
unfoldable pub due_work : Action → ActionPlan → Bool
due_work reply p = fits p
due_work delegate p = fits p || is_empty (strip p.text)
due_work remember p = not (is_empty (strip p.note))
due_work remember_entity p = not (is_empty (strip p.note)) && not (is_empty (strip p.entity))
due_work _ p = false

-- What a step on a plan does to the handled messages: nothing, or it adds the plan's.
abbrev Adds : ActionPlan → Cycle → Cycle → Type 0
Adds p s s' = (n : ℕ) → handled n s' ≡ (handled n s || (p.message_id == n))

abbrev Keeps : Cycle → Cycle → Type 0
Keeps s s' = (n : ℕ) → handled n s' ≡ handled n s

abbrev Grows : ActionPlan → Cycle → Cycle → Type 0
Grows p s s' = Adds p s s' ⊎ Keeps s s'

member-append :
    (n : ℕ) (out : List ActionPlan) (p : ActionPlan)
    → member n (plan_ids (out ++ p ∷ [])) ≡ (member n (plan_ids out) || (p.message_id == n))
unfolding member plan_ids
member-append n [] p = ground arith
member-append n (q ∷ out) p = ground (arith, member-append n out p)

append-Adds : (p : ActionPlan) (s : Cycle) → Adds p s (append_plan p s)
unfolding append_plan handled
append-Adds p s n = ground (arith, member-append n s.out p)

defer-Adds : (p : ActionPlan) (s : Cycle) → Adds p s (defer p s)
unfolding defer handled member
defer-Adds p s n = ground arith

reply-Adds : (p : ActionPlan) (s : Cycle) → Adds p s (append_plan (as_reply p) s)
unfolding append_plan as_reply handled
reply-Adds p s n = ground (arith, member-append n s.out (as_reply p))

admit_reply-Adds :
    (addressed : List ℕ) (p : ActionPlan) (s : Cycle)
    → fits p ≡ true
    → Adds p s (admit_reply addressed p s).0
unfolding admit_reply handled
admit_reply-Adds addressed p s f = elim (Bool-cases (member p.message_id addressed)) [
  | inl m ↦ elim (Bool-cases (leb addressed_replies_per_cycle s.addressed_replies)) [
    | inl l ↦ rw (admit_reply, f, m, l) (defer-Adds p s)
    | inr l ↦
        rw (admit_reply, f, m, l)
          (reply-Adds p (record s { addressed_replies = s.addressed_replies + 1 }))
  ]
  | inr m ↦ elim (Bool-cases s.unaddressed_reply_used) [
    | inl l ↦ let d = defer-Adds p s in rw (admit_reply, f, m, l) (λ n. d n)
    | inr l ↦ rw (admit_reply, f, m, l) (reply-Adds p (record s { unaddressed_reply_used = true }))
  ]
]

admit_reply-refused :
    (addressed : List ℕ) (p : ActionPlan) (s : Cycle)
    → fits p ≡ false
    → admit_reply addressed p s ≡ (s, false)
unfolding admit_reply
admit_reply-refused addressed p s f = rw (admit_reply, f) refl

admit_reply-Grows :
    (addressed : List ℕ) (p : ActionPlan) (s : Cycle) → Grows p s (admit_reply addressed p s).0
admit_reply-Grows addressed p s = elim (Bool-cases (fits p)) [
  | inl f ↦ inl (admit_reply-Adds addressed p s f)
  | inr f ↦ inr (rw (admit_reply-refused addressed p s f) (λ n. refl))
]

admit_memory-Adds : (p : ActionPlan) (s : Cycle) → Adds p s (admit_memory p s)
unfolding admit_memory
admit_memory-Adds p s = elim (Bool-cases (leb remember_per_cycle (count is_memory s.out))) [
  | inl e ↦ rw (admit_memory, e) (defer-Adds p s)
  | inr e ↦ rw (admit_memory, e) (append-Adds p s)
]

fits-text : (p : ActionPlan) → fits p ≡ true → is_empty (strip p.text) ≡ false
unfolding fits
fits-text p f = ground arith

fallback-Adds :
    (addressed : List ℕ) (p : ActionPlan) (s : Cycle)
    → (fits p || is_empty (strip p.text)) ≡ true
    → Adds p s (admit_fallback addressed p s)
unfolding admit_fallback
fallback-Adds addressed p s w = elim (Bool-cases (fits p)) [
  | inl f ↦
      let text = fits-text p f in
      let kept : (not (admit_reply addressed p s).1 && is_empty (strip p.text)) ≡ false =
        ground (arith, text) in
      rw (admit_fallback, kept) (admit_reply-Adds addressed p s f)
  | inr f ↦
      let empty : is_empty (strip p.text) ≡ true = ground (arith, w, f) in
      rw (admit_fallback, admit_reply-refused addressed p s f, empty) (defer-Adds p s)
]

fallback-Grows :
    (addressed : List ℕ) (p : ActionPlan) (s : Cycle) → Grows p s (admit_fallback addressed p s)
unfolding admit_fallback
fallback-Grows addressed p s = elim (Bool-cases (fits p || is_empty (strip p.text))) [
  | inl w ↦ inl (fallback-Adds addressed p s w)
  | inr w ↦
      let unfit : fits p ≡ false = ground (arith, w) in
      let text : is_empty (strip p.text) ≡ false = ground (arith, w) in
      inr (rw (admit_fallback, admit_reply-refused addressed p s unfit, text) (λ n. refl))
]

by_action-Adds :
    (a : Action) (addressed : List ℕ) (p : ActionPlan) (s : Cycle)
    → due_work a p ≡ true
    → Adds p s (by_action a addressed p s)
unfolding by_action due_work admit_delegate
by_action-Adds reply addressed p s w = admit_reply-Adds addressed p s w
by_action-Adds delegate addressed p s w =
    elim (Bool-cases (ltb (count is_delegate s.out) delegate_per_cycle)) [
      | inl e ↦ rw (by_action, e) (append-Adds p s)
      | inr e ↦ rw (by_action, e) (fallback-Adds addressed p s w)
    ]
by_action-Adds remember addressed p s w =
    let note : is_empty (strip p.note) ≡ false = ground arith in
    rw (by_action, note) (admit_memory-Adds p s)
by_action-Adds remember_entity addressed p s w =
    let named : (is_empty (strip p.note) || is_empty (strip p.entity)) ≡ false = ground arith in
    rw (by_action, named) (admit_memory-Adds p s)
by_action-Adds react addressed p s w = cc
by_action-Adds notify_owner addressed p s w = cc
by_action-Adds ignore addressed p s w = cc
by_action-Adds wait addressed p s w = cc

Grows-if :
    (b : Bool) (p : ActionPlan) (s s' s'' : Cycle)
    → Grows p s s'
    → Grows p s s''
    → Grows p s (if b then s' else s'')
Grows-if true p s s' s'' g h = g
Grows-if false p s s' s'' g h = h

notice-Adds :
    (p : ActionPlan) (s : Cycle) → Adds p s (append_plan (record p { text = take 600 p.text }) s)
unfolding append_plan handled
notice-Adds p s n = member-notice n s.out
  where
    member-notice :
        (n : ℕ) (out : List ActionPlan)
        → (member n (plan_ids (out ++ record p { text = take 600 p.text } ∷ []))
            || member n s.deferred)
          ≡ (member n (plan_ids out) || member n s.deferred || (p.message_id == n))
    member-notice n out = ground (arith, member-append n out (record p { text = take 600 p.text }))

by_action-Grows :
    (a : Action) (addressed : List ℕ) (p : ActionPlan) (s : Cycle)
    → Grows p s (by_action a addressed p s)
unfolding by_action admit_delegate
by_action-Grows reply addressed p s = admit_reply-Grows addressed p s
by_action-Grows delegate addressed p s =
    Grows-if (ltb (count is_delegate s.out) delegate_per_cycle) p s _ _ (inl (append-Adds p s))
      (fallback-Grows addressed p s)
by_action-Grows remember addressed p s =
    Grows-if (is_empty (strip p.note)) p s _ _ (inr (λ n. refl)) (inl (admit_memory-Adds p s))
by_action-Grows remember_entity addressed p s =
    Grows-if (is_empty (strip p.note) || is_empty (strip p.entity)) p s _ _ (inr (λ n. refl))
      (inl (admit_memory-Adds p s))
by_action-Grows react addressed p s =
    Grows-if (text_in p.emoji emoji_allowlist) p s _ _ (inl (append-Adds p s)) (inr (λ n. refl))
by_action-Grows notify_owner addressed p s = inl (notice-Adds p s)
by_action-Grows ignore addressed p s = inr (λ n. refl)
by_action-Grows wait addressed p s = inr (λ n. refl)

grown :
    (p : ActionPlan) (s s' : Cycle) (n : ℕ)
    → Grows p s s'
    → handled n s ≡ true
    → handled n s' ≡ true
grown p s s' n (inl a) h = let e = a n in ground (arith, e, h)
grown p s s' n (inr k) h = k n ∙ h

validate_each-handled :
    (pauses : List (Text × Bool)) (addressed : List ℕ) (ps : List ActionPlan) (s : Cycle) (n : ℕ)
    → handled n s ≡ true
    → handled n (validate_each pauses addressed ps s) ≡ true
unfolding validate_each validate_one
validate_each-handled pauses addressed [] s n h = h
validate_each-handled pauses addressed (p ∷ ps) s n h = elim (Bool-cases (is_paused pauses p)) [
  | inl e ↦ rw (validate_each, e) (validate_each-handled pauses addressed ps s n h)
  | inr e ↦
      rw (validate_each, e)
        (validate_each-handled pauses addressed ps (by_action p.action addressed p s) n
          (grown p s _ n (by_action-Grows p.action addressed p s) h))
]

-- The plan's chat is paused, it asks for no work that fits, or its message is handled.
abbrev pub Covered : List (Text × Bool) → Cycle → ActionPlan → Type 0
Covered pauses s p =
    (is_paused pauses p || not (due_work p.action p) || handled p.message_id s) ≡ true

validate_each-paused :
    (pauses : List (Text × Bool)) (addressed : List ℕ) (p : ActionPlan) (ps : List ActionPlan)
    (s : Cycle)
    → is_paused pauses p ≡ true
    → validate_each pauses addressed (p ∷ ps) s ≡ validate_each pauses addressed ps s
unfolding validate_each validate_one
validate_each-paused pauses addressed p ps s e = rw (validate_each, e) refl

validate_each-taken :
    (pauses : List (Text × Bool)) (addressed : List ℕ) (p : ActionPlan) (ps : List ActionPlan)
    (s : Cycle)
    → is_paused pauses p ≡ false
    → validate_each pauses addressed (p ∷ ps) s
      ≡ validate_each pauses addressed ps (by_action p.action addressed p s)
unfolding validate_each validate_one
validate_each-taken pauses addressed p ps s e = rw (validate_each, e) refl

validate_each-Covered :
    (pauses : List (Text × Bool)) (addressed : List ℕ) (ps : List ActionPlan) (s : Cycle)
    → All (Covered pauses (validate_each pauses addressed ps s)) ps
validate_each-Covered pauses addressed [] s = tt
validate_each-Covered pauses addressed (p ∷ ps) s = elim (Bool-cases (is_paused pauses p)) [
  | inl e ↦
      subst (λ z. All (Covered pauses z) (p ∷ ps))
        (sym (validate_each-paused pauses addressed p ps s e))
        (ground (arith, e), validate_each-Covered pauses addressed ps s)
  | inr e ↦
      let next = by_action p.action addressed p s in
      let rest = validate_each-Covered pauses addressed ps next in
      subst (λ z. All (Covered pauses z) (p ∷ ps))
        (sym (validate_each-taken pauses addressed p ps s e))
        (elim (Bool-cases (due_work p.action p)) [
          | inr w ↦ (ground (arith, w), rest)
          | inl w ↦
              let now = by_action-Adds p.action addressed p s w p.message_id in
              let done : handled p.message_id next ≡ true = ground (arith, now) in
              let last = validate_each-handled pauses addressed ps next p.message_id done in
              (ground (arith, last), rest)
        ])
]

-- No work is dropped: whatever the ceilings, the message of every plan that asks for a reply that fits,
-- for a delegation whose draft fits or is missing, or for a memory with its note, in a chat that is not
-- paused, is among the plans carried out or among the deferred messages.
pub validate_actions-Covered :
    (pauses : List (Text × Bool)) (addressed : List ℕ) (plans : List ActionPlan)
    → All (Covered pauses (validate_actions pauses addressed plans)) plans
unfolding validate_actions
validate_actions-Covered pauses addressed plans = validate_each-Covered pauses addressed plans start
