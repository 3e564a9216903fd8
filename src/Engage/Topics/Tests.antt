-- ===== src/Engage/Topics/Tests.antt =====
-- A topic with two messages.
use telegram_presence.Base.{
  ℕ, ◌<◌, ◌≡◌, refl, ◌↔◌, true, false, ◌&&◌, none, some, List, [], ◌∷◌, All,
}
use telegram_presence.Base.Text.{Text, codes}
use telegram_presence.Base.Int.{pos}
use telegram_presence.Engage.Boundaries.{Candidate, sequence_numbers}
use telegram_presence.Engage.Topics.{
  TopicEntry, candidate_after_topic_cursor, advance_topic_cursor, note_topic_failure,
}
use telegram_presence.Engage.Topics.Progress.{
  is_dated, Noted, advance_topic_cursor_exact, advance_topic_cursor_handled,
  note_topic_failure_table,
}

abbrev pub message : ℕ → ℕ → ℕ → Text → Candidate
message id seq ts snippet = record {
  message_id = id;
  addressed = false;
  snippet = snippet;
  sender_id = some (pos 9);
  from_me = false;
  sender_username = none;
  chat = codes "@club";
  sender_name = none;
  addressed_kind = codes "none";
  mentions_other = false;
  reply_to_username = none;
  reply_to_me = false;
  ts = ts;
  full_text = [];
  truncated = false;
  original_chars = 0;
  topic_id = none;
  spool_seq = some seq;
  reply_to_message_id = none;
  mentioned_handles = [];
}

abbrev handled : List Candidate
handled = message 5 3 100 (codes "hey") ∷ message 6 4 101 (codes "there") ∷ []

abbrev entry : TopicEntry
entry = record {
  spool_consumed_ts = some 90;
  spool_consumed_seq = some 2;
  retry_not_before_ts = none;
  retry_failure_count = 1;
  updated_ts = none;
}

advance_topic_cursor_exact_example :
    (candidate_after_topic_cursor
        (message 7 5 99 (codes "late"))
        (advance_topic_cursor entry handled 200 true)
      ≡ true)
    ↔ ((candidate_after_topic_cursor (message 7 5 99 (codes "late")) entry ≡ true)
        × All (λ n. n < 5) (sequence_numbers handled))
advance_topic_cursor_exact_example =
    advance_topic_cursor_exact entry handled 200 true (message 7 5 99 (codes "late")) 2 5 refl refl

advance_topic_cursor_handled_example :
    All
      (λ c.
        (candidate_after_topic_cursor c (advance_topic_cursor entry handled 200 true) && is_dated c)
        ≡ false)
      handled
advance_topic_cursor_handled_example = advance_topic_cursor_handled entry handled 200 true

note_topic_failure_table_example : Noted entry 200 1 (note_topic_failure entry 200)
note_topic_failure_table_example = note_topic_failure_table entry 200
