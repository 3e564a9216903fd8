-- ===== src/Engage/Boundaries.antt =====
-- The policies on a cycle's plans: `apply_autonomy_boundary`, `expand_memory_side_effects`,
-- `apply_wait_policy`, `apply_depth_policy`.
pub mod Effects
pub mod Paused
pub mod Depth
use telegram_presence.Base.{
  ℕ, zero, suc, ◌+◌, ◌-◌, ◌*◌, ◌/◌, ◌%◌, ◌^◌, ◌≤◌, ◌<◌, min, max, ◌≡◌, refl, sym, ap, ◌∙◌, subst,
  ◌≢◌, ◌↔◌, ◌⊎◌, inl, inr, Bool, true, false, not, ◌&&◌, ◌||◌, Option, none, some, List, [], ◌∷◌,
  ◌++◌, map, arith, ltb, leb, ◌==◌, if◌then◌else◌, ltb→lt, lt→ltb, leb→le, ==_iff, Bool-cases,
  Option-cases, is_none, is_some, length, length-append, take, drop, length-take, length-drop,
  take-all, keep, length-keep-le, All, All-append, All-map,
}
use telegram_presence.Base.Int.{ℤ}
use telegram_presence.Base.Text.{Text, codes, text_eq, strip, is_empty}
use telegram_presence.Base.Result.{Result, ok, err, value_error, ◌>>=◌}
use telegram_presence.Engage.{
  ActionPlan, Action, reply, react, notify_owner, ignore, wait, remember, remember_entity, delegate,
  is_reply, member, plan_ids,
}

-- The rows of a decision trace, by their `why`; `to_delegate` has the `why` as its text.
pub data TraceRow : Type 0 where
  proactive_presence_paused want_no : ℕ → Action → TraceRow
  to_delegate : ℕ → Text → TraceRow
  wait_expired_to_silence wait_for_more_context : ℕ → ℕ → TraceRow

abbrev pub Traced : Type 0
Traced = List ActionPlan × List TraceRow

-- The set `outward` of `apply_autonomy_boundary`
unfoldable pub is_outward : Action → Bool
is_outward ignore = false
is_outward wait = false
is_outward _ = true

unfoldable pub boundary_each : List ℕ → List ActionPlan → Traced
unfolding is_outward
boundary_each addressed [] = ([], [])
boundary_each addressed (p ∷ ps) =
    let rest = boundary_each addressed ps in
    if is_outward p.action && not (member p.message_id addressed)
    then (rest.0, proactive_presence_paused p.message_id p.action ∷ rest.1)
    else (p ∷ rest.0, rest.1)

-- `apply_autonomy_boundary`
unfoldable pub apply_autonomy_boundary : List ℕ → Bool → List ActionPlan → Traced
unfolding boundary_each
apply_autonomy_boundary addressed proactive_ok plans =
    if proactive_ok then (plans, []) else boundary_each addressed plans

unfoldable pub companion : Action → ActionPlan → ActionPlan
companion a p = record p { action = a; text = []; emoji = []; memory_kind = [] }

unfoldable pub companions : ActionPlan → List ActionPlan
unfolding companion
companions p =
    let is_remember : Bool = elim p.action [ remember ↦ true | _ ↦ false ] in
    let is_entity : Bool = elim p.action [ remember_entity ↦ true | _ ↦ false ] in
    if text_eq p.memory_kind (codes "sender") && not (is_empty p.note) && not is_remember
    then companion remember p ∷ []
    else if text_eq p.memory_kind (codes "entity")
        && not (is_empty p.entity)
        && not (is_empty p.note)
        && not is_entity
    then companion remember_entity p ∷ []
    else []

-- `expand_memory_side_effects`
unfoldable pub expand_memory_side_effects : List ActionPlan → List ActionPlan
unfolding companions
expand_memory_side_effects [] = []
expand_memory_side_effects (p ∷ ps) = p ∷ companions p ++ expand_memory_side_effects ps

pub record Candidate : Type 0 where
  pub message_id : ℕ
  pub addressed : Bool
  pub snippet : Text
  pub sender_id : Option ℤ
  pub from_me : Bool
  pub sender_username : Option Text
  pub chat : Text
  pub sender_name : Option Text
  pub addressed_kind : Text
  pub mentions_other : Bool
  pub reply_to_username : Option Text
  pub reply_to_me : Bool
  pub ts : ℕ
  pub full_text : Text
  pub truncated : Bool
  pub original_chars : ℕ
  pub topic_id : Option ℤ
  pub spool_seq : Option ℕ
  pub reply_to_message_id : Option ℕ
  pub mentioned_handles : List Text

abbrev pub wait_max_attempts : ℕ
wait_max_attempts = 3

-- `social_wait_anchor` and `social_wait_count` of a topic's entry, 0 where the count is missing
pub record TopicWait : Type 0 where
  pub social_wait_anchor : Option ℕ
  pub social_wait_count : ℕ

unfoldable pub is_wait : ActionPlan → Bool
is_wait p = elim p.action [ wait ↦ true | _ ↦ false ]

unfoldable pub not_wait : ActionPlan → Bool
unfolding is_wait
not_wait p = not (is_wait p)

unfoldable pub sequence_numbers : List Candidate → List ℕ
sequence_numbers [] = []
sequence_numbers (c ∷ cs) = elim c.spool_seq [
  | none ↦ sequence_numbers cs
  | some n ↦ n ∷ sequence_numbers cs
]

unfoldable pub candidate_ids : List Candidate → List ℕ
candidate_ids [] = []
candidate_ids (c ∷ cs) = c.message_id ∷ candidate_ids cs

-- `max`, which raises on an empty sequence
unfoldable pub maximum : List ℕ → Result ℕ
maximum [] = err value_error
maximum (n ∷ []) = ok n
maximum (n ∷ m ∷ ns) = do rest ← maximum (m ∷ ns); ok (max n rest)

unfoldable pub wait_anchor : List Candidate → Result ℕ
unfolding maximum sequence_numbers candidate_ids
wait_anchor cs = elim (sequence_numbers cs) [
  | [] ↦ maximum (candidate_ids cs)
  | n ∷ ns ↦ maximum (n ∷ ns)
]

unfoldable pub next_count : ℕ → TopicWait → ℕ
next_count anchor w = elim w.social_wait_anchor [
  | none ↦ 1
  | some prior ↦ if prior == anchor then w.social_wait_count + 1 else 1
]

unfoldable pub trace_waits : (ℕ → ℕ → TraceRow) → ℕ → List ActionPlan → List TraceRow
trace_waits row count [] = []
trace_waits row count (p ∷ ps) = row p.message_id count ∷ trace_waits row count ps

-- What `apply_wait_policy` returns, with the topic's entry that it leaves.
pub record WaitOutcome : Type 0 where
  pub kept : List ActionPlan
  pub held : List ℕ
  pub trace : List TraceRow
  pub topic : TopicWait

abbrev pub no_wait : TopicWait
no_wait = record { social_wait_anchor = none; social_wait_count = 0 }

unfoldable pub hold_topic : List ActionPlan → TopicWait → ℕ → WaitOutcome
unfolding next_count trace_waits plan_ids not_wait
hold_topic plans w anchor =
    let waits = keep is_wait plans in
    let count = next_count anchor w in
    if leb wait_max_attempts count
    then record {
      kept = keep not_wait plans;
      held = [];
      trace = trace_waits wait_expired_to_silence count waits;
      topic = no_wait;
    }
    else record {
      kept = keep not_wait plans;
      held = plan_ids waits;
      trace = trace_waits wait_for_more_context count waits;
      topic = record { social_wait_anchor = some anchor; social_wait_count = count };
    }

-- `apply_wait_policy`
unfoldable pub apply_wait_policy : List ActionPlan → TopicWait → List Candidate → Result WaitOutcome
unfolding hold_topic wait_anchor
apply_wait_policy plans w cs = elim (keep is_wait plans) [
  | [] ↦ ok (record { kept = plans; held = []; trace = []; topic = no_wait })
  | p ∷ ps ↦ (do anchor ← wait_anchor cs; ok (hold_topic plans w anchor))
]

unfoldable pub has_question : Text → Bool
has_question [] = false
has_question (c ∷ t) = (c == b'?') || has_question t

-- `_substantive`
unfoldable pub substantive : Text → Bool
unfolding has_question
substantive text = let t = strip text in leb 180 (length t) || (has_question t && leb 60 (length t))

-- The actions that an explicit no-desire signal stops.
unfoldable pub wants_desire : Action → Bool
wants_desire reply = true
wants_desire delegate = true
wants_desire react = true
wants_desire notify_owner = true
wants_desire _ = false

unfoldable pub candidate_reason : Candidate → Option Text
unfolding substantive
candidate_reason c =
    if c.truncated
    then some (codes "truncated_addressed_question")
    else if substantive c.snippet
    then some (codes "substantive")
    else none

-- Why a reply goes to the delegate, if it does.
unfoldable pub depth_reason : (ℕ → Option Candidate) → List ℕ → ActionPlan → Option Text
unfolding candidate_reason
depth_reason cand_by_id addressed p =
    let found : Option Text = elim (cand_by_id p.message_id) [
      | none ↦ none
      | some c ↦ candidate_reason c
    ] in
    if text_eq p.depth (codes "deep")
    then some (codes "depth_deep")
    else if not (member p.message_id addressed)
    then none
    else found

unfoldable pub depth_plan : Option Text → ActionPlan → Traced → Traced
depth_plan none p rest = (p ∷ rest.0, rest.1)
depth_plan (some why) p rest =
    (record p { action = delegate } ∷ rest.0, to_delegate p.message_id why ∷ rest.1)

unfoldable pub depth_one : (ℕ → Option Candidate) → List ℕ → ActionPlan → Traced → Traced
unfolding wants_desire depth_plan depth_reason
depth_one cand_by_id addressed p rest =
    if wants_desire p.action && text_eq p.want (codes "no")
    then (rest.0, want_no p.message_id p.action ∷ rest.1)
    else depth_plan (if is_reply p then depth_reason cand_by_id addressed p else none) p rest

-- `apply_depth_policy`
unfoldable pub apply_depth_policy : (ℕ → Option Candidate) → List ℕ → List ActionPlan → Traced
unfolding depth_one
apply_depth_policy cand_by_id addressed [] = ([], [])
apply_depth_policy cand_by_id addressed (p ∷ ps) =
    depth_one cand_by_id addressed p (apply_depth_policy cand_by_id addressed ps)
