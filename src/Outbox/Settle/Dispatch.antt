-- ===== src/Outbox/Settle/Dispatch.antt =====
-- Dispatching due records: whatever the senders do, no round raises.
use telegram_presence.Base.{ℕ, ◌≤◌, length}
use telegram_presence.Base.Text.{Text}
use telegram_presence.Base.Result.{Result}
use telegram_presence.Outbox.{Config, Store}
use telegram_presence.Outbox.Lifecycle.{Progress}
use telegram_presence.Outbox.Lease.{Scan}

-- The rounds so far, and how many records they settled.
abbrev Rounds : Config → Store → ℕ → Scan → Type 0
Rounds c start n p = Progress c start p.0 × (length p.1 ≤ n)
