-- ===== src/Engage/Validate/Ceilings.antt =====
-- The ceilings hold on what `validate_actions` returns.
use telegram_presence.Base.{
  ℕ, ◌+◌, ◌≤◌, ◌≡◌, refl, ap, ◌∙◌, inl, inr, Bool, true, false, not, ◌&&◌, ◌||◌, List, [], ◌∷◌,
  ◌++◌, arith, ltb, leb, if◌then◌else◌, Bool-cases, length, take, length-take, All, All-append,
}
use telegram_presence.Base.Text.{Text, strip, is_empty}
use telegram_presence.Engage.{
  ActionPlan, Action, reply, react, notify_owner, ignore, wait, remember, remember_entity, delegate,
  is_reply, is_delegate, is_memory, member,
}
use telegram_presence.Engage.Validate.{
  Cycle, start, count, append_plan, defer, fits, as_reply, admit_reply, admit_memory,
  admit_fallback, admit_delegate, by_action, validate_one, validate_each, validate_actions,
  is_paused, text_in, emoji_allowlist, max_reply_chars, addressed_replies_per_cycle,
  remember_per_cycle, delegate_per_cycle,
}

-- What a plan that is carried out looks like, by its action.
unfoldable pub carried : Action → ActionPlan → Bool
carried reply p = not (is_empty p.text) && leb (length p.text) max_reply_chars
carried react p = text_in p.emoji emoji_allowlist
carried notify_owner p = leb (length p.text) 600
carried remember p = not (is_empty (strip p.note))
carried remember_entity p = not (is_empty (strip p.note)) && not (is_empty (strip p.entity))
carried delegate p = true
carried ignore p = false
carried wait p = false

abbrev pub Carried : ActionPlan → Type 0
Carried p = carried p.action p ≡ true

unfoldable pub addressed_reply : List ℕ → ActionPlan → Bool
addressed_reply addressed p = is_reply p && member p.message_id addressed

unfoldable pub unaddressed_reply : List ℕ → ActionPlan → Bool
unaddressed_reply addressed p = is_reply p && not (member p.message_id addressed)

-- The plans keep to the ceilings of one call.
abbrev pub WithinCeilings : List ℕ → List ActionPlan → Type 0
WithinCeilings addressed out =
    (count (addressed_reply addressed) out ≤ addressed_replies_per_cycle)
    × (count (unaddressed_reply addressed) out ≤ 1)
    × (count is_delegate out ≤ delegate_per_cycle)
    × (count is_memory out ≤ remember_per_cycle)
    × All Carried out

-- The loop's variables count the replies.
abbrev Counted : List ℕ → Cycle → Type 0
Counted addressed s =
    (count (addressed_reply addressed) s.out ≡ s.addressed_replies)
    × (s.addressed_replies ≤ addressed_replies_per_cycle)
    × (count (unaddressed_reply addressed) s.out ≡ (if s.unaddressed_reply_used then 1 else 0))
    × (count is_delegate s.out ≤ delegate_per_cycle)
    × (count is_memory s.out ≤ remember_per_cycle)
    × All Carried s.out

count-append :
    (f : ActionPlan → Bool) (out : List ActionPlan) (p : ActionPlan)
    → count f (out ++ p ∷ []) ≡ count f out + (if f p then 1 else 0)
unfolding count
count-append f [] p = ground arith
count-append f (q ∷ out) p = ground (arith, count-append f out p)

append-Carried :
    (out : List ActionPlan) (p : ActionPlan)
    → All Carried out
    → Carried p
    → All Carried (out ++ p ∷ [])
append-Carried out p h c = All-append Carried out (p ∷ []) h (c, tt)

-- A plan that is no reply.
append-Counted :
    (addressed : List ℕ) (p : ActionPlan) (s : Cycle)
    → Counted addressed s
    → is_reply p ≡ false
    → count is_delegate s.out + (if is_delegate p then 1 else 0) ≤ delegate_per_cycle
    → count is_memory s.out + (if is_memory p then 1 else 0) ≤ remember_per_cycle
    → Carried p
    → Counted addressed (append_plan p s)
unfolding append_plan addressed_reply unaddressed_reply
append-Counted addressed p s h r d m c =
    let a = count-append (addressed_reply addressed) s.out p in
    let u = count-append (unaddressed_reply addressed) s.out p in
    let cd = count-append is_delegate s.out p in
    let cm = count-append is_memory s.out p in
    (
      ground (arith, a, h.0, r),
      h.1,
      ground (arith, u, h.2, r),
      ground (arith, cd, d),
      ground (arith, cm, m),
      append-Carried s.out p h.5 c,
    )

as_reply-Carried : (p : ActionPlan) → fits p ≡ true → Carried (as_reply p)
unfolding fits as_reply carried
as_reply-Carried p h = h

-- The four counts after a reply was appended.
reply_counts :
    (addressed : List ℕ) (p : ActionPlan) (out : List ActionPlan)
    → (count (addressed_reply addressed) (out ++ as_reply p ∷ [])
        ≡ count (addressed_reply addressed) out + (if member p.message_id addressed then 1 else 0))
      × (count (unaddressed_reply addressed) (out ++ as_reply p ∷ [])
          ≡ count (unaddressed_reply addressed) out
            + (if member p.message_id addressed then 0 else 1))
      × (count is_delegate (out ++ as_reply p ∷ []) ≡ count is_delegate out)
      × (count is_memory (out ++ as_reply p ∷ []) ≡ count is_memory out)
unfolding as_reply addressed_reply unaddressed_reply is_reply is_delegate is_memory
reply_counts addressed p out =
    let a = count-append (addressed_reply addressed) out (as_reply p) in
    let u = count-append (unaddressed_reply addressed) out (as_reply p) in
    let d = count-append is_delegate out (as_reply p) in
    let m = count-append is_memory out (as_reply p) in
    (a, ground (arith, u), ground (arith, d), ground (arith, m))

admit_reply-Counted :
    (addressed : List ℕ) (p : ActionPlan) (s : Cycle)
    → Counted addressed s
    → Counted addressed (admit_reply addressed p s).0
unfolding admit_reply append_plan defer
admit_reply-Counted addressed p s h = elim (Bool-cases (fits p)) [
  | inr f ↦ rw (admit_reply, f) h
  | inl f ↦
      let n = reply_counts addressed p s.out in
      let c = append-Carried s.out (as_reply p) h.5 (as_reply-Carried p f) in
      elim (Bool-cases (member p.message_id addressed)) [
        | inl m ↦ elim (Bool-cases (leb addressed_replies_per_cycle s.addressed_replies)) [
          | inl l ↦ rw (admit_reply, f, m, l) h
          | inr l ↦
              let na : count (addressed_reply addressed) (s.out ++ as_reply p ∷ [])
                  ≡ s.addressed_replies + 1 =
                ground (arith, n.0, h.0, m) in
              let nu : count (unaddressed_reply addressed) (s.out ++ as_reply p ∷ [])
                  ≡ (if s.unaddressed_reply_used then 1 else 0) =
                ground (arith, n.1, h.2, m) in
              rw (admit_reply, f, m, l)
                (na, ground arith, nu, omega (arith, n.2, h.3), omega (arith, n.3, h.4), c)
        ]
        | inr m ↦ elim (Bool-cases s.unaddressed_reply_used) [
          | inl l ↦
              let one : count (unaddressed_reply addressed) s.out ≡ 1 = ground (arith, h.2, l) in
              rw (admit_reply, f, m, l) (h.0, h.1, one, h.3, h.4, h.5)
          | inr l ↦
              let na : count (addressed_reply addressed) (s.out ++ as_reply p ∷ [])
                  ≡ s.addressed_replies =
                ground (arith, n.0, h.0, m) in
              let nu : count (unaddressed_reply addressed) (s.out ++ as_reply p ∷ []) ≡ 1 =
                ground (arith, n.1, h.2, m, l) in
              rw (admit_reply, f, m, l)
                (na, h.1, nu, omega (arith, n.2, h.3), omega (arith, n.3, h.4), c)
        ]
      ]
]

-- A plan of another action than `reply`, by that action.
plain-Counted :
    (a : Action) (addressed : List ℕ) (p : ActionPlan) (s : Cycle)
    → p.action ≡ a
    → elim a [ react ↦ true | notify_owner ↦ true | _ ↦ false ] ≡ true
    → carried a p ≡ true
    → Counted addressed s
    → Counted addressed (append_plan p s)
unfolding is_reply is_delegate is_memory
plain-Counted a addressed p s e k c h =
    append-Counted addressed p s h (ground (arith, e, k)) (ground (arith, e, k, h.3))
      (ground (arith, e, k, h.4)) (ap (λ z. carried z p) e ∙ c)

memory-Counted :
    (addressed : List ℕ) (p : ActionPlan) (s : Cycle)
    → is_memory p ≡ true
    → Carried p
    → Counted addressed s
    → Counted addressed (admit_memory p s)
unfolding admit_memory defer is_memory is_reply is_delegate
memory-Counted addressed p s k c h =
    elim (Bool-cases (leb remember_per_cycle (count is_memory s.out))) [
      | inl e ↦ rw (admit_memory, e) h
      | inr e ↦
          rw (admit_memory, e)
            (append-Counted addressed p s h (ground (arith, k)) (ground (arith, k, h.3))
              (ground (arith, e, h.4)) c)
    ]

fallback-Counted :
    (addressed : List ℕ) (p : ActionPlan) (s : Cycle)
    → Counted addressed s
    → Counted addressed (admit_fallback addressed p s)
unfolding admit_fallback defer
fallback-Counted addressed p s h =
    let admitted = admit_reply-Counted addressed p s h in
    elim (Bool-cases (not (admit_reply addressed p s).1 && is_empty (strip p.text))) [
      | inl e ↦ rw (admit_fallback, e) admitted
      | inr e ↦ rw (admit_fallback, e) admitted
    ]

delegate-Counted :
    (addressed : List ℕ) (p : ActionPlan) (s : Cycle)
    → is_delegate p ≡ true
    → Carried p
    → Counted addressed s
    → Counted addressed (admit_delegate addressed p s)
unfolding admit_delegate is_memory is_reply is_delegate
delegate-Counted addressed p s k c h =
    elim (Bool-cases (ltb (count is_delegate s.out) delegate_per_cycle)) [
      | inr e ↦ rw (admit_delegate, e) (fallback-Counted addressed p s h)
      | inl e ↦
          rw (admit_delegate, e)
            (append-Counted addressed p s h (ground (arith, k)) (ground (arith, e, h.3))
              (ground (arith, k, h.4)) c)
    ]

take-short : (n : ℕ) (t : Text) → leb (length (take n t)) n ≡ true
take-short n t = let bound = length-take n t in ground arith

by_action-Counted :
    (a : Action) (addressed : List ℕ) (p : ActionPlan) (s : Cycle)
    → p.action ≡ a
    → Counted addressed s
    → Counted addressed (by_action a addressed p s)
unfolding by_action carried is_memory is_delegate
by_action-Counted reply addressed p s e h = admit_reply-Counted addressed p s h
by_action-Counted react addressed p s e h = elim (Bool-cases (text_in p.emoji emoji_allowlist)) [
  | inl f ↦ rw (by_action, f) (plain-Counted react addressed p s e refl f h)
  | inr f ↦ rw (by_action, f) h
]
by_action-Counted notify_owner addressed p s e h =
    let q = record p { text = take 600 p.text } in
    let short : carried notify_owner q ≡ true = take-short 600 p.text in
    plain-Counted notify_owner addressed q s e refl short h
by_action-Counted remember addressed p s e h = elim (Bool-cases (is_empty (strip p.note))) [
  | inl f ↦ rw (by_action, f) h
  | inr f ↦
      rw (by_action, f)
        (memory-Counted addressed p s (ground (arith, e)) (rw e (ground (arith, f))) h)
]
by_action-Counted remember_entity addressed p s e h =
    elim (Bool-cases (is_empty (strip p.note) || is_empty (strip p.entity))) [
      | inl f ↦ rw (by_action, f) h
      | inr f ↦
          rw (by_action, f)
            (memory-Counted addressed p s (ground (arith, e)) (rw e (ground (arith, f))) h)
    ]
by_action-Counted delegate addressed p s e h =
    delegate-Counted addressed p s (ground (arith, e)) (rw e refl) h
by_action-Counted ignore addressed p s e h = h
by_action-Counted wait addressed p s e h = h

validate_each-Counted :
    (pauses : List (Text × Bool)) (addressed : List ℕ) (ps : List ActionPlan) (s : Cycle)
    → Counted addressed s
    → Counted addressed (validate_each pauses addressed ps s)
unfolding validate_each validate_one
validate_each-Counted pauses addressed [] s h = h
validate_each-Counted pauses addressed (p ∷ ps) s h = elim (Bool-cases (is_paused pauses p)) [
  | inl e ↦ rw (validate_each, e) (validate_each-Counted pauses addressed ps s h)
  | inr e ↦
      rw (validate_each, e)
        (validate_each-Counted pauses addressed ps (by_action p.action addressed p s)
          (by_action-Counted p.action addressed p s refl h))
]

-- Whatever plans the model returns for a chat, one call of `validate_actions` admits at most three replies
-- to addressed messages, one other reply, two delegations and two memories; a plan that is admitted as a
-- reply has a text of at most 600 characters, a reaction an allowed emoji, a memory a note and, of an
-- entity, its name; no plan to ignore or to wait is admitted.
pub validate_actions-WithinCeilings :
    (pauses : List (Text × Bool)) (addressed : List ℕ) (plans : List ActionPlan)
    → WithinCeilings addressed (validate_actions pauses addressed plans).out
unfolding validate_actions count
validate_actions-WithinCeilings pauses addressed plans =
    let h =
      validate_each-Counted pauses addressed plans start
        (refl, omega arith, refl, omega arith, omega arith, tt) in
    (omega (arith, h.0, h.1), ground (arith, h.2), h.3, h.4, h.5)
