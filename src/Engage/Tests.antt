-- ===== src/Engage/Tests.antt =====
-- The policies of the engage cycle on concrete plans.
use telegram_presence.Base.{
  ℕ, zero, suc, ◌≡◌, refl, ◌⊎◌, true, false, Option, none, some, List, [], ◌∷◌, ◌==◌, if◌then◌else◌,
  All,
}
use telegram_presence.Base.Text.{Text, codes, strip, is_empty}
use telegram_presence.Engage.{ignore}
use telegram_presence.Engage.Addressing.{apply_reply_addressing}
use telegram_presence.Engage.Addressing.Bounds.{Addressed, apply_reply_addressing-Addressed}
use telegram_presence.Engage.{ActionPlan, Action, reply, wait, remember, delegate, is_delegate}
use telegram_presence.Engage.Validate.{validate_actions}
use telegram_presence.Engage.Validate.Ceilings.{WithinCeilings, validate_actions-WithinCeilings}
use telegram_presence.Engage.Validate.Coverage.{Covered, validate_actions-Covered}
use telegram_presence.Engage.Boundaries.{
  apply_autonomy_boundary, apply_depth_policy, Candidate, TopicWait, hold_topic,
}
use telegram_presence.Engage.Boundaries.Effects.{hold_topic-thrice}
use telegram_presence.Engage.Boundaries.Paused.{Paused, apply_autonomy_boundary-Paused}
use telegram_presence.Engage.Boundaries.Depth.{Deepened, apply_depth_policy-Deepened}

abbrev plan : ℕ → Action → Text → ActionPlan
plan id a text = record {
  message_id = id;
  action = a;
  text = text;
  emoji = codes "🔥";
  reason = [];
  note = codes "likes chess";
  chat_id = codes "@chat";
  delegated = false;
  want = [];
  depth = [];
  entity = [];
  referent = [];
  addressed_to = [];
  addressed_to_entity = [];
  self_is_addressee = [];
  self_is_referent = [];
  address_confidence = none;
  context_sufficient = none;
  inner_thought = [];
  motivation = [];
  memory_kind = [];
}

abbrev plans : List ActionPlan
plans =
    plan 1 reply (codes "yes ")
    ∷ plan 2 reply (codes "no")
    ∷ plan 3 reply (codes "why?")
    ∷ plan 4 delegate []
    ∷ plan 5 delegate []
    ∷ plan 6 delegate []
    ∷ plan 7 remember []
    ∷ plan 8 wait []
    ∷ []

validate_actions-WithinCeilings_example :
    WithinCeilings (1 ∷ []) (validate_actions [] (1 ∷ []) plans).out
validate_actions-WithinCeilings_example = validate_actions-WithinCeilings [] (1 ∷ []) plans

validate_actions-Covered_example : All (Covered [] (validate_actions [] (1 ∷ []) plans)) plans
validate_actions-Covered_example = validate_actions-Covered [] (1 ∷ []) plans

apply_autonomy_boundary-Paused_example :
    Paused
      (1 ∷ [])
      plans
      (apply_autonomy_boundary (1 ∷ []) false plans).0
      (apply_autonomy_boundary (1 ∷ []) false plans).1
apply_autonomy_boundary-Paused_example = apply_autonomy_boundary-Paused (1 ∷ []) plans

abbrev candidate : Candidate
candidate = record {
  message_id = 1;
  addressed = true;
  snippet = codes "what is this?";
  sender_id = none;
  from_me = false;
  sender_username = none;
  chat = codes "@chat";
  sender_name = none;
  addressed_kind = codes "mention";
  mentions_other = false;
  reply_to_username = none;
  reply_to_me = false;
  ts = 0;
  full_text = [];
  truncated = true;
  original_chars = 13;
  topic_id = none;
  spool_seq = some 4;
  reply_to_message_id = none;
  mentioned_handles = [];
}

abbrev candidates : ℕ → Option Candidate
candidates n = if n == 1 then some candidate else none

apply_depth_policy-Deepened_example :
    Deepened candidates
      (1 ∷ [])
      plans
      (apply_depth_policy candidates (1 ∷ []) plans).0
      (apply_depth_policy candidates (1 ∷ []) plans).1
apply_depth_policy-Deepened_example = apply_depth_policy-Deepened candidates (1 ∷ []) plans

abbrev waited : TopicWait
waited = record { social_wait_anchor = some 4; social_wait_count = 1 }

hold_topic-thrice_example :
    ((hold_topic plans waited 4).held ≡ [])
    ⊎ (((hold_topic plans (hold_topic plans waited 4).topic 4).held ≡ [])
        ⊎ ((hold_topic plans (hold_topic plans (hold_topic plans waited 4).topic 4).topic 4).held
            ≡ []))
hold_topic-thrice_example = hold_topic-thrice plans plans plans waited 4

-- The third delegation's draft is over the limit: the plan is neither carried out nor deferred.
abbrev long_draft : ℕ → Text
long_draft zero = []
long_draft (suc n) = b'a' ∷ long_draft n

lost_draft :
    (validate_actions [] []
      (plan 4 delegate [] ∷ plan 5 delegate [] ∷ plan 6 delegate (long_draft 601) ∷ [])).deferred
    ≡ []
unfolding validate_actions strip is_empty is_delegate
lost_draft = refl

apply_reply_addressing-Addressed_example :
    Addressed
      (plan 7 reply (long_draft 700) ∷ plan 8 ignore [] ∷ [])
      (apply_reply_addressing candidates (plan 7 reply (long_draft 700) ∷ plan 8 ignore [] ∷ []))
apply_reply_addressing-Addressed_example =
    apply_reply_addressing-Addressed candidates
      (plan 7 reply (long_draft 700) ∷ plan 8 ignore [] ∷ [])
