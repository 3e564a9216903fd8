-- ===== src/Engage/Boundaries/Paused.antt =====
-- What a paused presence lets through, said without the code's own tests.
use telegram_presence.Base.{
  ℕ, ◌≡◌, refl, ◌⊎◌, inl, inr, true, false, ◌==◌, List, [], ◌∷◌, arith, Bool-cases, ◌↔◌,
}
use telegram_presence.Engage.{
  ActionPlan, Action, reply, react, notify_owner, ignore, wait, remember, remember_entity, delegate,
  member,
}
use telegram_presence.Engage.Boundaries.{
  TraceRow, proactive_presence_paused, is_outward, boundary_each, apply_autonomy_boundary,
}

-- The number stands in the list.
abbrev pub In : ℕ → List ℕ → Type 0
In n [] = ⊥
In n (m ∷ ms) = (m ≡ n) ⊎ In n ms

pub member-In : (n : ℕ) (ms : List ℕ) → (member n ms ≡ true) ↔ In n ms
unfolding member
member-In n [] = (λ e. cc, λ h. absurd h)
member-In n (m ∷ ms) = (
  λ e. elim (Bool-cases (m == n)) [
    | inl f ↦ inl (ground arith)
    | inr f ↦ inr ((member-In n ms).0 (rw f at e))
  ],
  λ h. elim h [ inl f ↦ ground arith | inr g ↦ ground (arith, (member-In n ms).1 g) ],
)

pub absent-In : (n : ℕ) (ms : List ℕ) → member n ms ≡ false → ¬ In n ms
absent-In n ms e h = ground (arith, (member-In n ms).1 h)

-- The two actions that do nothing outward, and the six others.
abbrev pub Inert : Action → Type 0
Inert a = (a ≡ ignore) ⊎ (a ≡ wait)

abbrev pub Outward : Action → Type 0
Outward a =
    (a ≡ reply)
    ⊎ (a ≡ delegate)
    ⊎ (a ≡ react)
    ⊎ (a ≡ notify_owner)
    ⊎ (a ≡ remember)
    ⊎ (a ≡ remember_entity)

-- The plans of a paused presence, what goes on of them, and the trace of the rest.
pub data Paused (addressed : List ℕ)
    : List ActionPlan → List ActionPlan → List TraceRow → Type 0 where
  done : Paused addressed [] [] []
  goes_on :
      {ps out : List ActionPlan} {trace : List TraceRow} (p : ActionPlan)
      → Inert p.action ⊎ In p.message_id addressed
      → Paused addressed ps out trace
      → Paused addressed (p ∷ ps) (p ∷ out) trace
  stops :
      {ps out : List ActionPlan} {trace : List TraceRow} (p : ActionPlan)
      → Outward p.action
      → ¬ In p.message_id addressed
      → Paused addressed ps out trace
      → Paused addressed (p ∷ ps) out (proactive_presence_paused p.message_id p.action ∷ trace)

is_outward_lem :
    (a : Action) → ((is_outward a ≡ true) × Outward a) ⊎ ((is_outward a ≡ false) × Inert a)
unfolding is_outward
is_outward_lem reply = inl (refl, inl refl)
is_outward_lem delegate = inl (refl, inr (inl refl))
is_outward_lem react = inl (refl, inr (inr (inl refl)))
is_outward_lem notify_owner = inl (refl, inr (inr (inr (inl refl))))
is_outward_lem remember = inl (refl, inr (inr (inr (inr (inl refl)))))
is_outward_lem remember_entity = inl (refl, inr (inr (inr (inr (inr refl)))))
is_outward_lem ignore = inr (refl, inl refl)
is_outward_lem wait = inr (refl, inr refl)

-- With proactive presence paused, the boundary goes through the plans in their order: a plan goes on
-- unchanged if its action is ignore or wait or its message is addressed; any other, a reply, a delegation,
-- a reaction, a notice or a memory for a message that is not addressed, is left out and traced by its
-- message and its action, and the trace has no other rows.
pub apply_autonomy_boundary-Paused :
    (addressed : List ℕ) (plans : List ActionPlan)
    → Paused addressed plans
        (apply_autonomy_boundary addressed false plans).0
        (apply_autonomy_boundary addressed false plans).1
unfolding apply_autonomy_boundary boundary_each
apply_autonomy_boundary-Paused addressed [] = done
apply_autonomy_boundary-Paused addressed (p ∷ ps) =
    let rest = apply_autonomy_boundary-Paused addressed ps in
    elim (is_outward_lem p.action) [
      | inr (e, inert) ↦ rw (boundary_each, e) (goes_on p (inl inert) rest)
      | inl (e, outward) ↦ elim (Bool-cases (member p.message_id addressed)) [
        | inl f ↦
            rw (boundary_each, e, f) (goes_on p (inr ((member-In p.message_id addressed).0 f)) rest)
        | inr f ↦
            rw (boundary_each, e, f) (stops p outward (absent-In p.message_id addressed f) rest)
      ]
    ]
