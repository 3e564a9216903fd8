-- ===== src/Engage/Ledger.antt =====
-- The gate of the engage cycle, its caps for a day, and the cursors of a chat's entry in the ledger.
mod Tests
use telegram_presence.Base.{
  ℕ, zero, suc, ◌+◌, ◌-◌, ◌*◌, ◌/◌, ◌%◌, ◌^◌, ◌≤◌, ◌<◌, min, max, ◌≡◌, refl, sym, ap, ◌∙◌, subst,
  ◌≢◌, ◌↔◌, ◌⊎◌, inl, inr, Bool, true, false, not, ◌&&◌, ◌||◌, Option, none, some, List, [], ◌∷◌,
  ◌++◌, map, arith, ltb, leb, ◌==◌, if◌then◌else◌, ltb→lt, lt→ltb, leb→le, ==_iff, Bool-cases,
  Option-cases, is_none, is_some, length, length-append, take, drop, length-take, length-drop,
  take-all, keep, length-keep-le, All, All-append, All-map,
}
use telegram_presence.Base.Int.{ℤ, pos, negsuc}
use telegram_presence.Base.Text.{Text, codes, text_eq}
use telegram_presence.Base.Value.{tick_rate}
use telegram_presence.Inbox.Peers.{canonical_chat_peer}

abbrev pub engage_min_gap : ℕ
engage_min_gap = 120 * tick_rate

-- What `gate_open` reads of the state; a time of 0 stands for one that is missing.
pub record GateState : Type 0 where
  pub telegram_engage_enabled : Bool
  pub autonomy_enabled : Bool
  pub last_action_ts : ℕ

-- The kill files that exist, in the order in which they are looked for.
pub record KillFiles : Type 0 where
  pub engage_off : Bool
  pub autonomy_off : Bool
  pub panic_stop : Bool

pub data GateReason : Type 0 where
  engage_disabled kill_file opened autonomy_master_off min_gap : GateReason

pub record GateVerdict : Type 0 where
  pub addressed_ok : Bool
  pub proactive_ok : Bool
  pub addressed_reason : GateReason
  pub proactive_reason : GateReason

unfoldable pub verdict : Bool → Bool → GateReason → GateReason → GateVerdict
verdict addressed proactive why_addressed why_proactive = record {
  addressed_ok = addressed;
  proactive_ok = proactive;
  addressed_reason = why_addressed;
  proactive_reason = why_proactive;
}

unfoldable pub recent_action : GateState → ℕ → Bool
recent_action st now = not (st.last_action_ts == 0) && ltb (now - st.last_action_ts) engage_min_gap

-- `gate_open`
unfoldable pub gate_open : GateState → KillFiles → ℕ → GateVerdict
unfolding verdict recent_action
gate_open st files now =
    if not st.telegram_engage_enabled
    then verdict false false engage_disabled engage_disabled
    else if files.engage_off || files.autonomy_off || files.panic_stop
    then verdict false false kill_file kill_file
    else if not st.autonomy_enabled
    then verdict true false opened autonomy_master_off
    else if recent_action st now
    then verdict true false opened min_gap
    else verdict true true opened opened

-- An override of the two caps; a cap is `none` where it is missing or `int` raises on it.
pub record Caps : Type 0 where
  pub reply : Option ℤ
  pub addressed : Option ℤ

-- `max(0, min(most, int(value)))`, or the default
unfoldable pub clamped : ℕ → ℕ → Option ℤ → ℕ
clamped most default none = default
clamped most default (some (pos n)) = min most n
clamped most default (some (negsuc n)) = 0

unfoldable pub caps : ℕ → ℕ → ℕ → Option Caps → ℕ × ℕ
unfolding clamped
caps most reply addressed none = (reply, addressed)
caps most reply addressed (some c) = (clamped most reply c.reply, clamped 100 addressed c.addressed)

-- `_global_caps`
unfoldable pub global_caps : Option Caps → ℕ × ℕ
unfolding caps
global_caps raw = caps 20 8 40 raw

-- The first entry whose key is a spelling of the chat.
unfoldable pub entry_of {ℓ} : {A : Type ℓ} → Text → List (Text × A) → Option A
entry_of chat [] = none
entry_of chat (e ∷ es) =
    let rest = entry_of chat es in
    if text_eq (canonical_chat_peer e.0) (canonical_chat_peer chat) then some e.1 else rest

-- `_chat_caps`
unfoldable pub chat_caps : List (Text × Caps) → Text → ℕ × ℕ
unfolding caps entry_of
chat_caps raw chat = caps 50 3 12 (entry_of chat raw)

-- The keys of a chat's entry that the cursors read.
pub record ChatEntry : Type 0 where
  pub spool_consumed_ts : Option ℕ
  pub spool_consumed_seq : Option ℕ
  pub retry_not_before_ts : Option ℕ

-- The ledger: the older cursors of all chats, and the entries by canonical chat.
pub record Ledger : Type 0 where
  pub spool_consumed_ts : Option ℕ
  pub spool_consumed_seq : Option ℕ
  pub retry_not_before_ts : Option ℕ
  pub per_chat : List (Text × ChatEntry)

unfoldable pub keyed {ℓ} : {A : Type ℓ} → Text → List (Text × A) → Option A
keyed key [] = none
keyed key (e ∷ es) = let rest = keyed key es in if text_eq e.0 key then some e.1 else rest

-- A field of the chat's entry, or the ledger's where the entry does not have it.
unfoldable pub own_or : (ChatEntry → Option ℕ) → Option ℕ → Option ChatEntry → Option ℕ
own_or field fallback none = fallback
own_or field fallback (some e) = elim (field e) [ none ↦ fallback | some n ↦ some n ]

unfoldable pub or_zero : Option ℕ → ℕ
or_zero none = 0
or_zero (some n) = n

-- `_chat_cursor`
unfoldable pub chat_cursor : Ledger → Text → ℕ
unfolding keyed own_or or_zero
chat_cursor led chat = or_zero (
    own_or (λ e. e.spool_consumed_ts) led.spool_consumed_ts
      (keyed (canonical_chat_peer chat) led.per_chat))

-- `_chat_seq_cursor`
unfoldable pub chat_seq_cursor : Ledger → Text → Option ℕ
unfolding keyed own_or
chat_seq_cursor led chat =
    own_or (λ e. e.spool_consumed_seq) led.spool_consumed_seq
      (keyed (canonical_chat_peer chat) led.per_chat)

-- `_chat_retry_not_before`
unfoldable pub chat_retry_not_before : Ledger → Text → ℕ
unfolding keyed own_or or_zero
chat_retry_not_before led chat = or_zero (
    own_or (λ e. e.retry_not_before_ts) led.retry_not_before_ts
      (keyed (canonical_chat_peer chat) led.per_chat))
