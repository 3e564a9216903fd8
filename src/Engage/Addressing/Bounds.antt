-- ===== src/Engage/Addressing/Bounds.antt =====
-- A reply that is sent is within its limit.
use telegram_presence.Base.{
  ℕ, suc, ◌+◌, ◌-◌, ◌≤◌, ◌≡◌, refl, ◌⊎◌, inl, inr, Bool, true, false, Option, none, some, List, [],
  ◌∷◌, arith, leb, leb→le, Bool-cases, Option-cases, length, length-append, take, length-take,
}
use telegram_presence.Base.Text.{Text, codes, strip, rstrip_by, rstrip_put, is_space}
use telegram_presence.Engage.{ActionPlan, is_reply}
use telegram_presence.Engage.Boundaries.{Candidate}
use telegram_presence.Engage.Addressing.{
  delegate_max_reply_chars, engage_max_reply_chars, cut_at, shortened, cap_delegate_reply, capped,
  addressed_text, address_one, apply_reply_addressing, last_sentence_end, last_word_end,
  last_paragraph_end, later, is_mark,
}

length-rstrip : (p : ℕ → Bool) (t : Text) → length (rstrip_by p t) ≤ length t
unfolding rstrip_by rstrip_put
length-rstrip p [] = omega arith
length-rstrip p (c ∷ t) = put (rstrip_by p t) (length-rstrip p t)
  where
    put : (s : Text) → length s ≤ length t → length (rstrip_put p c s) ≤ suc (length t)
    put [] h = elim (Bool-cases (p c)) [ inl e ↦ rw e (omega arith) | inr e ↦ rw e (omega arith) ]
    put (d ∷ s) h = omega (arith, h)

length-cut_at : (o : Option ℕ) (t : Text) → length (cut_at o t) ≤ length t
unfolding cut_at
length-cut_at none t = omega arith
length-cut_at (some n) t = omega (arith, length-rstrip is_space (take n t), length-take n t)

length-shortened : (t : Text) → length (shortened t) ≤ length t + 2
unfolding shortened
length-shortened t = elim (Option-cases (last_sentence_end 0 t)) [
  | inl e ↦
      rw (shortened, e)
        (let found = later (last_word_end 0 t) (last_paragraph_end 0 t) in
          omega (
            arith,
            length-append (rstrip_by is_mark (cut_at found t)) (codes "…"),
            length-rstrip is_mark (cut_at found t),
            length-cut_at found t,
          ))
  | inr (n, e) ↦
      rw (shortened, e)
        (omega (arith, length-append (cut_at (some n) t) (codes " …"), length-cut_at (some n) t))
]

length-cap_delegate_reply : (t : Text) → length (cap_delegate_reply t) ≤ delegate_max_reply_chars
unfolding cap_delegate_reply
length-cap_delegate_reply t = elim (Bool-cases (leb (length (strip t)) delegate_max_reply_chars)) [
  | inl e ↦ rw (cap_delegate_reply, e) (leb→le (length (strip t)) delegate_max_reply_chars e)
  | inr e ↦
      let candidate = rstrip_by is_space (take (delegate_max_reply_chars - 2) (strip t)) in
      rw (cap_delegate_reply, e)
        (omega (
          arith,
          length-shortened candidate,
          length-rstrip is_space (take (delegate_max_reply_chars - 2) (strip t)),
          length-take (delegate_max_reply_chars - 2) (strip t),
        ))
]

-- The limit of a reply, by whether the delegate composed it.
abbrev pub reply_limit : Bool → ℕ
reply_limit true = delegate_max_reply_chars
reply_limit false = engage_max_reply_chars

length-capped : (delegated : Bool) (t : Text) → length (capped delegated t) ≤ reply_limit delegated
unfolding capped
length-capped true t = length-cap_delegate_reply t
length-capped false t = omega (
  arith,
  length-rstrip is_space (take engage_max_reply_chars t),
  length-take engage_max_reply_chars t,
)

-- A plan that is a reply is within its limit.
abbrev pub Capped : ActionPlan → Type 0
Capped p = (is_reply p ≡ false) ⊎ (length p.text ≤ reply_limit p.delegated)

address_one-Capped : (cands : ℕ → Option Candidate) (p : ActionPlan) → Capped (address_one cands p)
unfolding address_one
address_one-Capped cands p = elim (Bool-cases (is_reply p)) [
  | inl e ↦
      rw (address_one, e) (inr (length-capped p.delegated (addressed_text p (cands p.message_id))))
  | inr e ↦ rw (address_one, e) (inl e)
]

-- What addressing leaves as it is: all but the text, which only a reply gets anew.
abbrev pub SamePlan : ActionPlan → ActionPlan → Type 0
SamePlan p q =
    (q.message_id ≡ p.message_id)
    × (q.action ≡ p.action)
    × (q.delegated ≡ p.delegated)
    × ((is_reply p ≡ true) ⊎ (q ≡ p))

address_one-SamePlan :
    (cands : ℕ → Option Candidate) (p : ActionPlan) → SamePlan p (address_one cands p)
unfolding address_one
address_one-SamePlan cands p = elim (Bool-cases (is_reply p)) [
  | inl e ↦ rw (address_one, e) (refl, refl, refl, inl refl)
  | inr e ↦ rw (address_one, e) (refl, refl, refl, inr refl)
]

abbrev pub Addressed : List ActionPlan → List ActionPlan → Type 0
Addressed [] [] = Unit
Addressed (p ∷ ps) (q ∷ qs) = (SamePlan p q × Capped q) × Addressed ps qs
Addressed _ _ = ⊥

-- Addressing keeps the plans in their order, with their messages and actions; every reply is then within
-- its limit, 3500 code points if the delegate composed it and 600 if not, with the handle that may be
-- put before it, and every other plan is as it was.
pub apply_reply_addressing-Addressed :
    (cands : ℕ → Option Candidate) (ps : List ActionPlan)
    → Addressed ps (apply_reply_addressing cands ps)
unfolding apply_reply_addressing
apply_reply_addressing-Addressed cands [] = tt
apply_reply_addressing-Addressed cands (p ∷ ps) = (
  (address_one-SamePlan cands p, address_one-Capped cands p),
  apply_reply_addressing-Addressed cands ps,
)
