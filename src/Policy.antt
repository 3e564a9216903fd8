-- ===== src/Policy.antt =====
-- telegram_presence/policy.py: authorization of the owner's private chat.
mod Tests
use telegram_presence.Base.{
  ℕ, zero, suc, ◌≤◌, ◌<◌, ◌≡◌, refl, ◌↔◌, Bool, true, false, not, ◌&&◌, ◌||◌, Option, none, some,
  arith, ==_iff, ◌==◌, if◌then◌else◌, Bool-cases, ltb,
}
use telegram_presence.Base.Int.{pos, negsuc}
use telegram_presence.Base.Text.{Text, codes, text_eq, text_eq_iff}
use telegram_presence.Base.Result.{Result, ok, err, value_error, permission_error, ◌>>=◌}
use telegram_presence.Base.Value.{Value, null, other, boolean, int, float, str, mapping}

-- `_numeric_user_id`: an `int` that is no `bool` and at least 1.
pub numeric_user_id : Value → Result ℕ
numeric_user_id (int (pos (suc n))) = ok (suc n)
numeric_user_id _ = err value_error

pub record OwnerPrivateChatPolicy : Type 0 where
  pub owner_user_id : ℕ
  pub enabled : Bool

pub bool_field : Value → Result Bool
bool_field (boolean b) = ok b
bool_field _ = err value_error

-- The constructor with `__post_init__`.
pub new : Value → Value → Result OwnerPrivateChatPolicy
unfolding numeric_user_id bool_field
new owner enabled = do
  owner_user_id ← numeric_user_id owner
  on ← bool_field enabled
  ok (record { owner_user_id = owner_user_id; enabled = on })

abbrev pub private_type : Text
private_type = codes "private"

pub matches_owner : ℕ → Result ℕ → Bool
matches_owner owner (ok sender) = sender == owner
matches_owner owner (err e) = false

pub allows_private : OwnerPrivateChatPolicy → Value → Text → Bool
allows_private p sender chat_type =
    if not p.enabled || not (text_eq chat_type private_type)
    then false
    else matches_owner p.owner_user_id (numeric_user_id sender)

pub require_private : OwnerPrivateChatPolicy → Value → Text → Result (Unit {0})
require_private p sender chat_type =
    if not (allows_private p sender chat_type) then err permission_error else ok tt

pub matches_owner-int :
    (owner : ℕ) (sender : Value)
    → matches_owner owner (numeric_user_id sender) ≡ true
    → sender ≡ int (pos owner)
unfolding matches_owner numeric_user_id
matches_owner-int owner (int (pos (suc n))) h = ground arith
matches_owner-int owner _ h = cc

pub matches_owner_self :
    (n : ℕ) (sender : Value)
    → sender ≡ int (pos (suc n))
    → matches_owner (suc n) (numeric_user_id sender) ≡ true
unfolding matches_owner numeric_user_id
matches_owner_self n sender e = rw e (ground arith)

pub require_private_iff :
    (p : OwnerPrivateChatPolicy) (n : ℕ) (sender : Value) (chat_type : Text)
    → p.owner_user_id ≡ suc n
    → (require_private p sender chat_type ≡ ok tt)
      ↔ ((p.enabled ≡ true) × (chat_type ≡ private_type) × (sender ≡ int (pos (suc n))))
unfolding require_private allows_private
require_private_iff p n sender chat_type e = ground (
  arith,
  text_eq_iff chat_type private_type,
  matches_owner-int (suc n) sender,
  matches_owner_self n sender,
)

-- Exactly the configured owner is let in: a policy that the constructor built from `owner` and
-- `enabled` lets a sender into a chat if and only if `enabled` is True, the chat type is "private"
-- and the sender is the integer `owner`.
pub require_private-new :
    (owner enabled : Value) (p : OwnerPrivateChatPolicy) (sender : Value) (chat_type : Text)
    → new owner enabled ≡ ok p
    → (require_private p sender chat_type ≡ ok tt)
      ↔ ((enabled ≡ boolean true) × (chat_type ≡ private_type) × (sender ≡ owner))
unfolding new
require_private-new (int (pos (suc n))) (boolean b) p sender chat_type h =
    ground (arith, require_private_iff p n sender chat_type)
require_private-new _ _ p sender chat_type h = cc
