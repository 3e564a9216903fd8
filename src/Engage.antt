-- ===== src/Engage.antt =====
-- `engage.py`: the plans of the engage cycle and the policies that bound them.
pub mod Ledger
pub mod Addressing
pub mod Coalesce
pub mod Topics
pub mod Validate
pub mod Boundaries
mod Tests
use telegram_presence.Base.{ℕ, Bool, true, false, ◌||◌, ◌==◌, Option, List, [], ◌∷◌}
use telegram_presence.Base.Text.{Text}
use telegram_presence.Base.Value.{Float}

-- The values of the field `action`.
pub data Action : Type 0 where
  reply react notify_owner ignore wait remember remember_entity delegate : Action

pub record ActionPlan : Type 0 where
  pub message_id : ℕ
  pub action : Action
  pub text : Text
  pub emoji : Text
  pub reason : Text
  pub note : Text
  pub chat_id : Text
  pub delegated : Bool
  pub want : Text
  pub depth : Text
  pub entity : Text
  pub referent : Text
  pub addressed_to : Text
  pub addressed_to_entity : Text
  pub self_is_addressee : Text
  pub self_is_referent : Text
  pub address_confidence : Option Float
  pub context_sufficient : Option Float
  pub inner_thought : Text
  pub motivation : Text
  pub memory_kind : Text

unfoldable pub is_reply : ActionPlan → Bool
is_reply p = elim p.action [ reply ↦ true | _ ↦ false ]

unfoldable pub is_delegate : ActionPlan → Bool
is_delegate p = elim p.action [ delegate ↦ true | _ ↦ false ]

-- `q.action in ("remember", "remember_entity")`
unfoldable pub is_memory : ActionPlan → Bool
is_memory p = elim p.action [ remember ↦ true | remember_entity ↦ true | _ ↦ false ]

-- `message_id in ids`
unfoldable pub member : ℕ → List ℕ → Bool
member n [] = false
member n (m ∷ ms) = (m == n) || member n ms

unfoldable pub plan_ids : List ActionPlan → List ℕ
plan_ids [] = []
plan_ids (p ∷ ps) = p.message_id ∷ plan_ids ps
