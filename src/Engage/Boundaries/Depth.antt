-- ===== src/Engage/Boundaries/Depth.antt =====
-- What the depth policy stops and what it hands to the delegate, said without the code's own tests.
use telegram_presence.Base.{
  ℕ, ◌≤◌, ◌≡◌, ◌≢◌, refl, ◌⊎◌, inl, inr, true, false, ◌&&◌, ◌==◌, Option, none, some, List, [], ◌∷◌,
  arith, Bool-cases, subst, ◌↔◌, length, leb,
}
use telegram_presence.Base.Text.{Text, codes, text_eq, text_eq_iff, strip}
use telegram_presence.Engage.{
  ActionPlan, Action, reply, react, notify_owner, ignore, wait, remember, remember_entity, delegate,
  member, is_reply,
}
use telegram_presence.Engage.Boundaries.{
  TraceRow, want_no, to_delegate, Candidate, has_question, substantive, candidate_reason,
  wants_desire, depth_reason, depth_plan, depth_one, apply_depth_policy,
}
use telegram_presence.Engage.Boundaries.Paused.{In, member-In, absent-In}

-- An action that the agent must want, on a plan that says it does not.
abbrev pub Unwanted : ActionPlan → Type 0
Unwanted p =
    ((p.action ≡ reply) ⊎ (p.action ≡ delegate) ⊎ (p.action ≡ react) ⊎ (p.action ≡ notify_owner))
    × (p.want ≡ codes "no")

-- A text of 180 code points, or of 60 with a question mark (63) among them.
abbrev pub Substantive : Text → Type 0
Substantive t = (180 ≤ length t) ⊎ ((60 ≤ length t) × In 63 t)

-- Why a message is too much for a short reply.
abbrev pub Heavy : Candidate → Text → Type 0
Heavy c why =
    ((c.truncated ≡ true) × (why ≡ codes "truncated_addressed_question"))
    ⊎ ((c.truncated ≡ false) × Substantive (strip c.snippet) × (why ≡ codes "substantive"))

-- Why a plan for a reply is to go deep: the agent's own choice, or its addressed message.
abbrev pub Deep : (ℕ → Option Candidate) → List ℕ → ActionPlan → Text → Type 0
Deep cand_by_id addressed p why =
    ((p.depth ≡ codes "deep") × (why ≡ codes "depth_deep"))
    ⊎ ((p.depth ≢ codes "deep")
        × In p.message_id addressed
        × (c : Candidate) × (cand_by_id p.message_id ≡ some c)
        × Heavy c why)

-- The plans that the policy gets, what goes on of them, and the trace of its interventions.
pub data Deepened (cand_by_id : ℕ → Option Candidate) (addressed : List ℕ)
    : List ActionPlan → List ActionPlan → List TraceRow → Type 0 where
  done : Deepened cand_by_id addressed [] [] []
  unwanted :
      {ps out : List ActionPlan} {trace : List TraceRow} (p : ActionPlan)
      → Unwanted p
      → Deepened cand_by_id addressed ps out trace
      → Deepened cand_by_id addressed (p ∷ ps) out (want_no p.message_id p.action ∷ trace)
  goes_deep :
      {ps out : List ActionPlan} {trace : List TraceRow} (p : ActionPlan) (why : Text)
      → ¬ Unwanted p
      → p.action ≡ reply
      → Deep cand_by_id addressed p why
      → Deepened cand_by_id addressed ps out trace
      → Deepened cand_by_id addressed
          (p ∷ ps)
          (record p { action = delegate } ∷ out)
          (to_delegate p.message_id why ∷ trace)
  goes_on :
      {ps out : List ActionPlan} {trace : List TraceRow} (p : ActionPlan)
      → ¬ Unwanted p
      → (p.action ≢ reply) ⊎ ((why : Text) → ¬ Deep cand_by_id addressed p why)
      → Deepened cand_by_id addressed ps out trace
      → Deepened cand_by_id addressed (p ∷ ps) (p ∷ out) trace

has_question-In : (t : Text) → (has_question t ≡ true) ↔ In 63 t
unfolding has_question
has_question-In [] = (λ e. cc, λ h. absurd h)
has_question-In (c ∷ t) = (
  λ e. elim (Bool-cases (c == 63)) [
    | inl f ↦ inl (ground arith)
    | inr f ↦ inr ((has_question-In t).0 (rw f at e))
  ],
  λ h. elim h [ inl f ↦ ground arith | inr g ↦ ground (arith, (has_question-In t).1 g) ],
)

substantive_yes : (t : Text) → substantive t ≡ true → Substantive (strip t)
unfolding substantive
substantive_yes t e = elim (Bool-cases (leb 180 (length (strip t)))) [
  | inl f ↦ inl (ground arith)
  | inr f ↦
      let both : (has_question (strip t) && leb 60 (length (strip t))) ≡ true = rw f at e in
      inr (ground arith, (has_question-In (strip t)).0 (ground arith))
]

substantive_no : (t : Text) → substantive t ≡ false → ¬ Substantive (strip t)
unfolding substantive
substantive_no t e (inl long) = ground arith
substantive_no t e (inr (long, question)) = ground (arith, (has_question-In (strip t)).1 question)

-- A reason with what it says, or no reason, with nothing to say.
abbrev Reasoned : (Text → Type 0) → Option Text → Type 0
Reasoned P found =
    ((why : Text) × (found ≡ some why) × P why) ⊎ ((found ≡ none) × ((why : Text) → ¬ P why))

candidate_reason-Reasoned : (c : Candidate) → Reasoned (Heavy c) (candidate_reason c)
unfolding candidate_reason
candidate_reason-Reasoned c = elim (Bool-cases c.truncated) [
  | inl e ↦ inl (codes "truncated_addressed_question", ground (arith, e), inl (e, refl))
  | inr e ↦ elim (Bool-cases (substantive c.snippet)) [
    | inl f ↦
        inl (codes "substantive", ground (arith, e, f), inr (e, substantive_yes c.snippet f, refl))
    | inr f ↦ inr (
      ground (arith, e, f),
      λ why h. elim h [
        | inl (g, _) ↦ ground (arith, e)
        | inr (_, s, _) ↦ substantive_no c.snippet f s
      ],
    )
  ]
]

module _ (cand_by_id : ℕ → Option Candidate) (addressed : List ℕ) (p : ActionPlan) where
  candidate-Reasoned :
      p.depth ≢ codes "deep"
      → In p.message_id addressed
      → (found : Option Candidate) → cand_by_id p.message_id ≡ found
      → Reasoned
          (Deep cand_by_id addressed p)
          (elim found [ none ↦ none | some c ↦ candidate_reason c ])
  candidate-Reasoned shallow asked none e = inr (
    refl,
    λ why h. elim h [ inl (g, _) ↦ shallow g | inr (_, _, c, found, _) ↦ ground (arith, e, found) ],
  )
  candidate-Reasoned shallow asked (some c) e = elim (candidate_reason-Reasoned c) [
    | inl (why, f, heavy) ↦ inl (why, f, inr (shallow, asked, c, e, heavy))
    | inr (f, never) ↦ inr (
      f,
      λ why h. elim h [
        | inl (g, _) ↦ shallow g
        | inr (_, _, c', found, heavy) ↦
            let same : c' ≡ c = ground (arith, e, found) in
            never why (subst (λ x. Heavy x why) same heavy)
      ],
    )
  ]

  depth_reason-Reasoned :
      Reasoned (Deep cand_by_id addressed p) (depth_reason cand_by_id addressed p)
  unfolding depth_reason
  depth_reason-Reasoned = elim (Bool-cases (text_eq p.depth (codes "deep"))) [
    | inl e ↦
        let chosen : p.depth ≡ codes "deep" = (text_eq_iff p.depth (codes "deep")).0 e in
        rw (depth_reason, e) (inl (codes "depth_deep", refl, inl (chosen, refl)))
    | inr e ↦
        let shallow : p.depth ≢ codes "deep" =
          λ g. ground (arith, e, (text_eq_iff p.depth (codes "deep")).1 g) in
        elim (Bool-cases (member p.message_id addressed)) [
          | inr f ↦
              rw (depth_reason, e, f)
                (inr (
                  refl,
                  λ why h. elim h [
                    | inl (g, _) ↦ shallow g
                    | inr (_, asked, _, _, _) ↦ absent-In p.message_id addressed f asked
                  ],
                ))
          | inl f ↦
              rw (depth_reason, e, f)
                (candidate-Reasoned shallow ((member-In p.message_id addressed).0 f)
                  (cand_by_id p.message_id) refl)
        ]
  ]

wants_desire_iff :
    (a : Action)
    → (wants_desire a ≡ true) ↔ ((a ≡ reply) ⊎ (a ≡ delegate) ⊎ (a ≡ react) ⊎ (a ≡ notify_owner))
unfolding wants_desire
wants_desire_iff reply = (λ e. inl refl, λ h. refl)
wants_desire_iff delegate = (λ e. inr (inl refl), λ h. refl)
wants_desire_iff react = (λ e. inr (inr (inl refl)), λ h. refl)
wants_desire_iff notify_owner = (λ e. inr (inr (inr refl)), λ h. refl)
wants_desire_iff ignore = (λ e. cc, λ h. ground arith)
wants_desire_iff wait = (λ e. cc, λ h. ground arith)
wants_desire_iff remember = (λ e. cc, λ h. ground arith)
wants_desire_iff remember_entity = (λ e. cc, λ h. ground arith)

wanted_not :
    (p : ActionPlan) → (wants_desire p.action && text_eq p.want (codes "no")) ≡ false → ¬ Unwanted p
wanted_not p e h =
    ground (arith, (wants_desire_iff p.action).1 h.0, (text_eq_iff p.want (codes "no")).1 h.1)

wanted_yes :
    (p : ActionPlan) → (wants_desire p.action && text_eq p.want (codes "no")) ≡ true → Unwanted p
wanted_yes p e = (
  (wants_desire_iff p.action).0 (ground arith),
  (text_eq_iff p.want (codes "no")).0 (ground arith),
)

reply_or_not :
    (p : ActionPlan)
    → ((is_reply p ≡ true) × (p.action ≡ reply)) ⊎ ((is_reply p ≡ false) × (p.action ≢ reply))
unfolding is_reply
reply_or_not p = ground arith

-- The depth policy goes through the plans in their order. A reply, delegation, reaction or owner's notice
-- that the agent does not want is left out and traced. Of the others, a reply becomes a delegation,
-- traced with its reason, if the agent chose depth, or if its message is addressed and either was cut
-- short or has a snippet of 180 code points, or of 60 with a question mark, without the space around it;
-- every other plan goes on unchanged and untraced.
pub apply_depth_policy-Deepened :
    (cand_by_id : ℕ → Option Candidate) (addressed : List ℕ) (plans : List ActionPlan)
    → Deepened cand_by_id addressed plans
        (apply_depth_policy cand_by_id addressed plans).0
        (apply_depth_policy cand_by_id addressed plans).1
unfolding apply_depth_policy depth_plan
apply_depth_policy-Deepened cand_by_id addressed [] = done
apply_depth_policy-Deepened cand_by_id addressed (p ∷ ps) =
    let rest = apply_depth_policy-Deepened cand_by_id addressed ps in
    elim (Bool-cases (wants_desire p.action && text_eq p.want (codes "no"))) [
      | inl e ↦ rw (depth_one, e) (unwanted p (wanted_yes p e) rest)
      | inr e ↦ elim (reply_or_not p) [
        | inr (f, other) ↦ rw (depth_one, e, f) (goes_on p (wanted_not p e) (inl other) rest)
        | inl (f, is_a_reply) ↦ elim (depth_reason-Reasoned cand_by_id addressed p) [
          | inl (why, g, deep) ↦
              rw (depth_one, e, f, g) (goes_deep p why (wanted_not p e) is_a_reply deep rest)
          | inr (g, never) ↦ rw (depth_one, e, f, g) (goes_on p (wanted_not p e) (inr never) rest)
        ]
      ]
    ]
