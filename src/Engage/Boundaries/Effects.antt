-- ===== src/Engage/Boundaries/Effects.antt =====
-- The passes that hold a topic.
use telegram_presence.Base.{
  ℕ, ◌+◌, ◌≤◌, ◌≡◌, refl, ◌⊎◌, inl, inr, true, false, some, List, [], arith, leb, Bool-cases,
}
use telegram_presence.Engage.{ActionPlan}
use telegram_presence.Engage.Boundaries.{TopicWait, hold_topic, next_count}

held_none :
    (plans : List ActionPlan) (w : TopicWait) (anchor : ℕ)
    → leb 3 (next_count anchor w) ≡ true
    → (hold_topic plans w anchor).held ≡ []
unfolding hold_topic
held_none plans w anchor e = rw (hold_topic, e) refl

next_count-pos : (anchor : ℕ) (w : TopicWait) → 1 ≤ next_count anchor w
unfolding next_count
next_count-pos anchor w = ground arith

again :
    (anchor n : ℕ)
    → next_count anchor (record { social_wait_anchor = some anchor; social_wait_count = n }) ≡ n + 1
unfolding next_count
again anchor n = ground arith

reaches : (a b c : ℕ) → 1 ≤ a → b ≡ a + 1 → c ≡ b + 1 → leb 3 c ≡ true
reaches a b c h k l = ground arith

next_count-hold_topic :
    (plans : List ActionPlan) (w : TopicWait) (anchor : ℕ)
    → leb 3 (next_count anchor w) ≡ false
    → next_count anchor (hold_topic plans w anchor).topic ≡ next_count anchor w + 1
unfolding hold_topic
next_count-hold_topic plans w anchor e = rw (hold_topic, e) (again anchor (next_count anchor w))

-- Whatever a topic's entry says of earlier waits, three passes in a row that hold the topic at the same
-- anchor are too many: one of the three holds no message.
pub hold_topic-thrice :
    (first second third : List ActionPlan) (w : TopicWait) (anchor : ℕ)
    → ((hold_topic first w anchor).held ≡ [])
      ⊎ (((hold_topic second (hold_topic first w anchor).topic anchor).held ≡ [])
          ⊎ ((hold_topic third
                (hold_topic second (hold_topic first w anchor).topic anchor).topic
                anchor).held
              ≡ []))
hold_topic-thrice first second third w anchor =
    let once = (hold_topic first w anchor).topic in
    let twice = (hold_topic second once anchor).topic in
    elim (Bool-cases (leb 3 (next_count anchor w))) [
      | inl e ↦ inl (held_none first w anchor e)
      | inr e ↦ elim (Bool-cases (leb 3 (next_count anchor once))) [
        | inl f ↦ inr (inl (held_none second once anchor f))
        | inr f ↦
            let n = next_count-hold_topic first w anchor e in
            let m = next_count-hold_topic second once anchor f in
            let full : leb 3 (next_count anchor twice) ≡ true =
              reaches (next_count anchor w) (next_count anchor once) (next_count anchor twice)
                (next_count-pos anchor w) n m in
            inr (inr (held_none third twice anchor full))
      ]
    ]
