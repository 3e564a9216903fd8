-- ===== src/Engage/Validate.antt =====
-- `validate_actions`: the ceilings on what one cycle does.
pub mod Ceilings
pub mod Coverage
use telegram_presence.Base.{
  ℕ, zero, suc, ◌+◌, ◌-◌, ◌*◌, ◌/◌, ◌%◌, ◌^◌, ◌≤◌, ◌<◌, min, max, ◌≡◌, refl, sym, ap, ◌∙◌, subst,
  ◌≢◌, ◌↔◌, ◌⊎◌, inl, inr, Bool, true, false, not, ◌&&◌, ◌||◌, Option, none, some, List, [], ◌∷◌,
  ◌++◌, map, arith, ltb, leb, ◌==◌, if◌then◌else◌, ltb→lt, lt→ltb, leb→le, ==_iff, Bool-cases,
  Option-cases, is_none, is_some, length, length-append, take, drop, length-take, length-drop,
  take-all, keep, length-keep-le, All, All-append, All-map,
}
use telegram_presence.Base.Text.{Text, codes, text_eq, strip, is_empty, lstrip_at}
use telegram_presence.Engage.{
  ActionPlan, Action, reply, react, notify_owner, ignore, wait, remember, remember_entity, delegate,
  is_delegate, is_memory, member,
}

abbrev pub max_reply_chars : ℕ
max_reply_chars = 600

abbrev pub addressed_replies_per_cycle : ℕ
addressed_replies_per_cycle = 3

abbrev pub remember_per_cycle : ℕ
remember_per_cycle = 2

abbrev pub delegate_per_cycle : ℕ
delegate_per_cycle = 2

abbrev pub emoji_allowlist : List Text
emoji_allowlist =
    codes "👍"
    ∷ codes "🔥"
    ∷ (0x2764 ∷ 0xfe0f ∷ [])
    ∷ codes "😁"
    ∷ codes "🤔"
    ∷ codes "👀"
    ∷ codes "🙏"
    ∷ []

unfoldable pub text_in : Text → List Text → Bool
text_in t [] = false
text_in t (u ∷ us) = text_eq t u || text_in t us

-- The state's `telegram_chat_pauses`: whether `paused` is set, by chat.
unfoldable pub pause_of : Text → List (Text × Bool) → Bool
pause_of key [] = false
pause_of key (entry ∷ entries) = if text_eq entry.0 key then entry.1 else pause_of key entries

-- `p.chat_id and chat_pauses.get(str(p.chat_id).lstrip("@"), {}).get('paused')`
unfoldable pub is_paused : List (Text × Bool) → ActionPlan → Bool
unfolding pause_of
is_paused pauses p = not (is_empty p.chat_id) && pause_of (lstrip_at p.chat_id) pauses

-- The variables of `validate_actions`; `deferred` lists what was added to the set.
pub record Cycle : Type 0 where
  pub out : List ActionPlan
  pub deferred : List ℕ
  pub addressed_replies : ℕ
  pub unaddressed_reply_used : Bool

-- `sum(1 for q in out if …)`
unfoldable pub count : (ActionPlan → Bool) → List ActionPlan → ℕ
count f out = length (keep f out)

unfoldable pub append_plan : ActionPlan → Cycle → Cycle
append_plan p s = record s { out = s.out ++ p ∷ [] }

unfoldable pub defer : ActionPlan → Cycle → Cycle
defer p s = record s { deferred = p.message_id ∷ s.deferred }

-- `not text or len(text) > ENGAGE_MAX_REPLY_CHARS`, negated, of the stripped text
unfoldable pub fits : ActionPlan → Bool
fits p = not (is_empty (strip p.text)) && leb (length (strip p.text)) max_reply_chars

unfoldable pub as_reply : ActionPlan → ActionPlan
as_reply p = record p { action = reply; text = strip p.text }

-- `_admit_reply`, with whether it admitted the plan
unfoldable pub admit_reply : List ℕ → ActionPlan → Cycle → Cycle × Bool
unfolding fits as_reply append_plan defer
admit_reply addressed p s =
    if not (fits p)
    then (s, false)
    else if member p.message_id addressed
    then (if leb addressed_replies_per_cycle s.addressed_replies then (defer p s, false) else (
      append_plan (as_reply p) (record s { addressed_replies = s.addressed_replies + 1 }),
      true,
    ))
    else (if s.unaddressed_reply_used
        then (defer p s, false)
        else (append_plan (as_reply p) (record s { unaddressed_reply_used = true }), true))

unfoldable pub admit_memory : ActionPlan → Cycle → Cycle
unfolding count append_plan defer
admit_memory p s =
    if leb remember_per_cycle (count is_memory s.out) then defer p s else append_plan p s

-- A delegate over the budget falls back to its draft, and is deferred if it has none.
unfoldable pub admit_fallback : List ℕ → ActionPlan → Cycle → Cycle
unfolding admit_reply defer
admit_fallback addressed p s =
    let admitted = admit_reply addressed p s in
    if not admitted.1 && is_empty (strip p.text) then defer p admitted.0 else admitted.0

unfoldable pub admit_delegate : List ℕ → ActionPlan → Cycle → Cycle
unfolding count append_plan admit_fallback
admit_delegate addressed p s =
    if ltb (count is_delegate s.out) delegate_per_cycle
    then append_plan p s
    else admit_fallback addressed p s

unfoldable pub by_action : Action → List ℕ → ActionPlan → Cycle → Cycle
unfolding admit_reply admit_memory admit_delegate append_plan
by_action reply addressed p s = (admit_reply addressed p s).0
by_action react addressed p s = if text_in p.emoji emoji_allowlist then append_plan p s else s
by_action notify_owner addressed p s = append_plan (record p { text = take 600 p.text }) s
by_action remember addressed p s = if is_empty (strip p.note) then s else admit_memory p s
by_action remember_entity addressed p s =
    if is_empty (strip p.note) || is_empty (strip p.entity) then s else admit_memory p s
by_action delegate addressed p s = admit_delegate addressed p s
by_action ignore addressed p s = s
by_action wait addressed p s = s

unfoldable pub validate_one : List (Text × Bool) → List ℕ → ActionPlan → Cycle → Cycle
unfolding is_paused by_action
validate_one pauses addressed p s =
    if is_paused pauses p then s else by_action p.action addressed p s

unfoldable pub validate_each : List (Text × Bool) → List ℕ → List ActionPlan → Cycle → Cycle
unfolding validate_one
validate_each pauses addressed [] s = s
validate_each pauses addressed (p ∷ ps) s =
    validate_each pauses addressed ps (validate_one pauses addressed p s)

abbrev pub start : Cycle
start = record { out = []; deferred = []; addressed_replies = 0; unaddressed_reply_used = false }

-- `validate_actions`, with the state's pauses; `out` and `deferred` of the result are what it returns
unfoldable pub validate_actions : List (Text × Bool) → List ℕ → List ActionPlan → Cycle
unfolding validate_each
validate_actions pauses addressed plans = validate_each pauses addressed plans start
