-- ===== src/Engage/Topics.antt =====
-- The cursor and the failures of one topic: `_topic_state` and what the engage cycle does with its entry.
pub mod Progress
pub mod Tests
use telegram_presence.Base.{
  ℕ, zero, suc, ◌+◌, ◌-◌, ◌*◌, ◌/◌, ◌%◌, ◌^◌, ◌≤◌, ◌<◌, min, max, ◌≡◌, refl, sym, ap, ◌∙◌, subst,
  ◌≢◌, ◌↔◌, ◌⊎◌, inl, inr, Bool, true, false, not, ◌&&◌, ◌||◌, Option, none, some, List, [], ◌∷◌,
  ◌++◌, map, arith, ltb, leb, ◌==◌, if◌then◌else◌, ltb→lt, lt→ltb, leb→le, ==_iff, Bool-cases,
  Option-cases, is_none, is_some, length, length-append, take, drop, length-take, length-drop,
  take-all, keep, length-keep-le, All, All-append, All-map,
}
use telegram_presence.Base.Value.{tick_rate}
use telegram_presence.Engage.Boundaries.{Candidate, sequence_numbers}

abbrev pub topic_invalid_max_attempts : ℕ
topic_invalid_max_attempts = 3

abbrev pub throttle_seconds : ℕ
throttle_seconds = 300

abbrev pub retry_backoff_base_seconds : ℕ
retry_backoff_base_seconds = 15

-- The entry of a topic, by the keys that these functions read and write.
pub record TopicEntry : Type 0 where
  pub spool_consumed_ts : Option ℕ
  pub spool_consumed_seq : Option ℕ
  pub retry_not_before_ts : Option ℕ
  pub retry_failure_count : ℕ
  pub updated_ts : Option ℕ

-- `_candidate_after_topic_cursor`
unfoldable pub after_ts : Option ℕ → ℕ → Bool
after_ts none ts = true
after_ts (some cursor) ts = if ltb 0 ts then ltb cursor ts else true

unfoldable pub after_cursor : Option ℕ → Option ℕ → Option ℕ → ℕ → Bool
unfolding after_ts
after_cursor (some cursor) (some seq) cursor_ts ts = ltb cursor seq
after_cursor none seq cursor_ts ts = after_ts cursor_ts ts
after_cursor (some cursor) none cursor_ts ts = after_ts cursor_ts ts

unfoldable pub candidate_after_topic_cursor : Candidate → TopicEntry → Bool
unfolding after_cursor
candidate_after_topic_cursor c entry =
    after_cursor entry.spool_consumed_seq c.spool_seq entry.spool_consumed_ts c.ts

-- The greatest of some numbers and an older one, if there is one among them.
unfoldable pub raised_to : Option ℕ → List ℕ → Option ℕ
raised_to old [] = old
raised_to none (n ∷ ns) = raised_to (some n) ns
raised_to (some m) (n ∷ ns) = raised_to (some (max m n)) ns

-- `_advance_topic_cursor`
unfoldable pub advance_topic_cursor : TopicEntry → List Candidate → ℕ → Bool → TopicEntry
unfolding raised_to
advance_topic_cursor entry candidates now clear_failure =
    let moved : TopicEntry = record entry {
      spool_consumed_seq = raised_to entry.spool_consumed_seq (sequence_numbers candidates);
      spool_consumed_ts = raised_to entry.spool_consumed_ts (map (λ c. c.ts) candidates);
      updated_ts = some now;
    } in
    if clear_failure
    then record moved { retry_failure_count = 0; retry_not_before_ts = none }
    else moved

-- `_topic_retry_active`
unfoldable pub topic_retry_active : TopicEntry → ℕ → Bool
topic_retry_active entry now = elim entry.retry_not_before_ts [ none ↦ false | some t ↦ ltb now t ]

-- `_note_topic_failure`: the entry, the attempts, and whether the topic is quarantined
unfoldable pub note_topic_failure : TopicEntry → ℕ → TopicEntry × ℕ × Bool
note_topic_failure entry now =
    let attempts = min topic_invalid_max_attempts (entry.retry_failure_count + 1) in
    let delay =
      min throttle_seconds (retry_backoff_base_seconds * 2 ^ (attempts - 1)) * tick_rate in
    let counted : TopicEntry = record entry {
      retry_failure_count = attempts;
      updated_ts = some now;
    } in
    if leb topic_invalid_max_attempts attempts
    then (record counted { retry_not_before_ts = none }, attempts, true)
    else (record counted { retry_not_before_ts = some (now + delay) }, attempts, false)
