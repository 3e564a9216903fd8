-- ===== src/Policy/Tests.antt =====
-- The owner policy of user 42.
use telegram_presence.Base.{◌≡◌, ◌↔◌, refl, true}
use telegram_presence.Base.Int.{pos}
use telegram_presence.Base.Result.{ok}
use telegram_presence.Base.Value.{int, boolean}
use telegram_presence.Policy.{
  OwnerPrivateChatPolicy, new, numeric_user_id, bool_field, require_private, private_type,
  require_private-new,
}

abbrev policy : OwnerPrivateChatPolicy
policy = record { owner_user_id = 42; enabled = true }

require_private-new_example : (require_private policy (int (pos 42)) private_type ≡ ok tt) ↔ (
    (boolean true ≡ boolean true) × (private_type ≡ private_type) × (int (pos 42) ≡ int (pos 42)))
unfolding new numeric_user_id bool_field
require_private-new_example =
    require_private-new (int (pos 42)) (boolean true) policy (int (pos 42)) private_type refl
