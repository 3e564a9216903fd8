-- ===== src/Engage/Topics/Progress.antt =====
-- A topic's cursor moves past what was handled and no further; its failures end in a quarantine.
use telegram_presence.Base.{
  ℕ, zero, suc, ◌+◌, ◌*◌, ◌≤◌, ◌<◌, min, max, ◌≡◌, refl, sym, ap, ◌∙◌, subst, ◌↔◌, inl, inr, Bool,
  true, false, ◌&&◌, ◌||◌, Option, none, some, List, [], ◌∷◌, map, arith, ltb, leb, ltb→lt, lt→ltb,
  Option-cases, is_some, All,
}
use telegram_presence.Base.Value.{tick_rate}
use telegram_presence.Engage.Boundaries.{Candidate, sequence_numbers}
use telegram_presence.Engage.Topics.{
  TopicEntry, after_ts, after_cursor, candidate_after_topic_cursor, raised_to, advance_topic_cursor,
  note_topic_failure,
}

-- Whether a number is at least those of a list.
abbrev pub AtLeast : Option ℕ → ℕ → Type 0
AtLeast none n = ⊥
AtLeast (some m) n = n ≤ m

raised_to-old :
    (m : ℕ) (ns : List ℕ)
    → (k : ℕ) × ((raised_to (some m) ns ≡ some k) × (m ≤ k) × All (λ n. n ≤ k) ns)
unfolding raised_to
raised_to-old m [] = (m, (refl, omega arith, tt))
raised_to-old m (n ∷ ns) =
    let rest = raised_to-old (max m n) ns in
    (rest.0, (rest.1.0, omega (arith, rest.1.1), (omega (arith, rest.1.1), rest.1.2)))

-- The new cursor lies before a number exactly if the old one and every number of the list do.
raised_to-below :
    (cursor_ts : Option ℕ) (ts m s : ℕ) (ns : List ℕ)
    → (after_cursor (raised_to (some m) ns) (some s) cursor_ts ts ≡ true)
      ↔ ((m < s) × All (λ n. n < s) ns)
unfolding raised_to after_cursor
raised_to-below cursor_ts ts m s [] = ground arith
raised_to-below cursor_ts ts m s (n ∷ ns) =
    let rest = raised_to-below cursor_ts ts (max m n) s ns in
    (
      λ h. let r = rest.0 h in (omega (arith, r.0), (omega (arith, r.0), r.1)),
      λ h. rest.1 (omega (arith, h.0, h.1.0), h.1.1),
    )

advanced_seq :
    (entry : TopicEntry) (cs : List Candidate) (now : ℕ) (clear : Bool)
    → (advance_topic_cursor entry cs now clear).spool_consumed_seq
      ≡ raised_to entry.spool_consumed_seq (sequence_numbers cs)
unfolding advance_topic_cursor
advanced_seq entry cs now true = refl
advanced_seq entry cs now false = refl

advanced_ts :
    (entry : TopicEntry) (cs : List Candidate) (now : ℕ) (clear : Bool)
    → (advance_topic_cursor entry cs now clear).spool_consumed_ts
      ≡ raised_to entry.spool_consumed_ts (map (λ c. c.ts) cs)
unfolding advance_topic_cursor
advanced_ts entry cs now true = refl
advanced_ts entry cs now false = refl

-- In a topic whose cursor is a sequence, a candidate with a sequence is still ahead of the cursor after
-- it moved if and only if it was ahead of it before and its sequence is beyond those of all candidates
-- that were handled: nothing else is skipped.
pub advance_topic_cursor_exact :
    (entry : TopicEntry) (cs : List Candidate) (now : ℕ) (clear : Bool) (d : Candidate) (m s : ℕ)
    → entry.spool_consumed_seq ≡ some m
    → d.spool_seq ≡ some s
    → (candidate_after_topic_cursor d (advance_topic_cursor entry cs now clear) ≡ true)
      ↔ ((candidate_after_topic_cursor d entry ≡ true) × All (λ n. n < s) (sequence_numbers cs))
unfolding candidate_after_topic_cursor after_cursor
advance_topic_cursor_exact entry cs now clear d m s e f =
    let moved : candidate_after_topic_cursor d (advance_topic_cursor entry cs now clear)
        ≡ after_cursor (raised_to (some m) (sequence_numbers cs)) (some s)
            (advance_topic_cursor entry cs now clear).spool_consumed_ts d.ts =
      ap
        (λ q.
          after_cursor q d.spool_seq (advance_topic_cursor entry cs now clear).spool_consumed_ts
            d.ts)
        (advanced_seq entry cs now clear ∙ ap (λ q. raised_to q (sequence_numbers cs)) e)
      ∙ ap
          (λ q.
            after_cursor (raised_to (some m) (sequence_numbers cs)) q
              (advance_topic_cursor entry cs now clear).spool_consumed_ts d.ts)
          f in
    let before : candidate_after_topic_cursor d entry ≡ ltb m s =
      ap (λ q. after_cursor q d.spool_seq entry.spool_consumed_ts d.ts) e
      ∙ ap (λ q. after_cursor (some m) q entry.spool_consumed_ts d.ts) f in
    let both =
      raised_to-below (advance_topic_cursor entry cs now clear).spool_consumed_ts d.ts m s
        (sequence_numbers cs) in
    (
      λ h. let r = both.0 (sym moved ∙ h) in (before ∙ lt→ltb m s r.0, r.1),
      λ h. moved ∙ both.1 (ltb→lt m s (sym before ∙ h.0), h.1),
    )

-- Whether a candidate has a sequence or a time by which it can be told from handled ones.
unfoldable pub is_dated : Candidate → Bool
is_dated c = is_some c.spool_seq || ltb 0 c.ts

raised_to-AtLeast : (old : Option ℕ) (ns : List ℕ) → All (AtLeast (raised_to old ns)) ns
unfolding raised_to
raised_to-AtLeast old [] = tt
raised_to-AtLeast none (n ∷ ns) =
    let r = raised_to-old n ns in subst (λ q. All (AtLeast q) (n ∷ ns)) (sym r.1.0) (r.1.1, r.1.2)
raised_to-AtLeast (some m) (n ∷ ns) =
    let r = raised_to-old (max m n) ns in
    subst (λ q. All (AtLeast q) (n ∷ ns)) (sym r.1.0) (omega (arith, r.1.1), r.1.2)

abbrev SeqAtLeast : Option ℕ → Option ℕ → Type 0
SeqAtLeast q none = Unit
SeqAtLeast q (some s) = AtLeast q s

one_past :
    (q t seq : Option ℕ) (ts : ℕ)
    → SeqAtLeast q seq
    → AtLeast t ts
    → (after_cursor q seq t ts && (is_some seq || ltb 0 ts)) ≡ false
unfolding after_cursor after_ts
one_past (some k) t (some s) ts h g = ground (arith, h)
one_past none t (some s) ts h g = absurd h
one_past none (some k) none ts h g = ground (arith, g)
one_past (some j) (some k) none ts h g = ground (arith, g)
one_past none none none ts h g = absurd g
one_past (some j) none none ts h g = absurd g

All-past :
    (q t : Option ℕ) (cs : List Candidate)
    → All (AtLeast q) (sequence_numbers cs)
    → All (AtLeast t) (map (λ c. c.ts) cs)
    → All (λ c. (after_cursor q c.spool_seq t c.ts && is_dated c) ≡ false) cs
unfolding sequence_numbers is_dated
All-past q t [] h g = tt
All-past q t (c ∷ cs) h g = elim (Option-cases c.spool_seq) [
  | inl e ↦
      let rest : All (AtLeast q) (sequence_numbers cs) = rw (sequence_numbers, e) at h in
      (
        one_past q t c.spool_seq c.ts (subst (SeqAtLeast q) (sym e) tt) g.0,
        All-past q t cs rest g.1,
      )
  | inr (s, e) ↦
      let both : AtLeast q s × All (AtLeast q) (sequence_numbers cs) =
        rw (sequence_numbers, e) at h in
      (
        one_past q t c.spool_seq c.ts (subst (SeqAtLeast q) (sym e) both.0) g.0,
        All-past q t cs both.1 g.1,
      )
]

-- Once the cursor moved past some candidates, none of them is ahead of it, unless it has neither a
-- sequence nor a time: no message is judged twice.
pub advance_topic_cursor_handled :
    (entry : TopicEntry) (cs : List Candidate) (now : ℕ) (clear : Bool)
    → All
        (λ c.
          (candidate_after_topic_cursor c (advance_topic_cursor entry cs now clear) && is_dated c)
          ≡ false)
        cs
unfolding candidate_after_topic_cursor
advance_topic_cursor_handled entry cs now clear =
    let next = advance_topic_cursor entry cs now clear in
    All-past next.spool_consumed_seq next.spool_consumed_ts cs
      (subst (λ q. All (AtLeast q) (sequence_numbers cs)) (sym (advanced_seq entry cs now clear))
        (raised_to-AtLeast entry.spool_consumed_seq (sequence_numbers cs)))
      (subst (λ q. All (AtLeast q) (map (λ c. c.ts) cs)) (sym (advanced_ts entry cs now clear))
        (raised_to-AtLeast entry.spool_consumed_ts (map (λ c. c.ts) cs)))

-- The seconds that a topic rests after a failure, by the failures before it: none after the third.
abbrev pub rest_seconds : ℕ → Option ℕ
rest_seconds zero = some 15
rest_seconds (suc zero) = some 30
rest_seconds (suc (suc n)) = none

-- The entry after a failure, the attempts and the quarantine, by the failures before it.
abbrev pub Noted : TopicEntry → ℕ → ℕ → TopicEntry × ℕ × Bool → Type 0
Noted entry now n out =
    (out.0.retry_not_before_ts ≡ elim (rest_seconds n) as (λ x. Option ℕ) [
      | none ↦ none
      | some s ↦ some (now + s * tick_rate)
    ])
    × (out.0.retry_failure_count ≡ out.1)
    × (out.1 ≡ min 3 (n + 1))
    × (out.2 ≡ leb 2 n)

Noted-after :
    (entry : TopicEntry) (now n : ℕ)
    → entry.retry_failure_count ≡ n
    → Noted entry now n (note_topic_failure entry now)
unfolding note_topic_failure
Noted-after entry now zero e = rw (note_topic_failure, e) (refl, refl, refl, refl)
Noted-after entry now (suc zero) e = rw (note_topic_failure, e) (refl, refl, refl, refl)
Noted-after entry now (suc (suc n)) e =
    let three : min 3 (suc (suc n) + 1) ≡ 3 = omega arith in
    let two : leb 2 (suc (suc n)) ≡ true = ground arith in
    rw (note_topic_failure, e, three, two) (refl, refl, refl, refl)

-- A failure counts up to three. The first rests its topic for 15 seconds, the second for 30; the third,
-- and each after it, quarantines the topic and leaves it no time to retry at.
pub note_topic_failure_table :
    (entry : TopicEntry) (now : ℕ)
    → Noted entry now entry.retry_failure_count (note_topic_failure entry now)
note_topic_failure_table entry now = Noted-after entry now entry.retry_failure_count refl
