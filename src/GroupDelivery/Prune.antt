-- ===== src/GroupDelivery/Prune.antt =====
-- `_prune_terminal_actions`, `_maybe_prune_terminal_actions`, and the recovery of stale sends.
pub mod Bounds
use telegram_presence.Base.{
  ℕ, ◌+◌, Bool, false, ◌&&◌, ◌||◌, Option, none, some, List, [], ◌∷◌, ltb, leb, ◌==◌, if◌then◌else◌,
  keep,
}
use telegram_presence.Base.Text.{Text, codes, text_eq, is_empty}
use telegram_presence.Base.Sort.{sort}
use telegram_presence.GroupDelivery.{
  Row, sending, retry, is_terminal, sending_lease_seconds, terminal_retention_seconds,
  terminal_max_rows, prune_interval_seconds,
}
use telegram_presence.GroupDelivery.Table.{Table}

unfoldable pub terminal_row : Row → Bool
terminal_row r = is_terminal r.status

-- `ORDER BY updated_at DESC,created_at DESC`
unfoldable pub newest_first : Row → Row → Bool
newest_first a b =
    ltb b.updated_at a.updated_at
    || ((a.updated_at == b.updated_at) && leb b.created_at a.created_at)

-- `DELETE … WHERE action_id=? AND status IN ('acked','dead','superseded')`
unfoldable pub delete_terminal : Text → Table → Table
unfolding terminal_row
delete_terminal id [] = []
delete_terminal id (r ∷ t) =
    let rest = delete_terminal id t in
    if text_eq r.action_id id && terminal_row r then rest else r ∷ rest

-- The loop over the terminal rows: the table, the rows retained, the rows removed.
abbrev pub Counts : Type 0
Counts = Table × ℕ × ℕ

unfoldable pub prune_one : ℕ → ℕ → ℕ → Row → Counts → Counts
prune_one now retention max_rows r p =
    if leb now (r.updated_at + retention) && ltb p.1 max_rows
    then (p.0, p.1 + 1, p.2)
    else (delete_terminal r.action_id p.0, p.1, p.2 + 1)

unfoldable pub prune_each : ℕ → ℕ → ℕ → List Row → Counts → Counts
unfolding prune_one
prune_each now retention max_rows [] p = p
prune_each now retention max_rows (r ∷ rs) p =
    prune_each now retention max_rows rs (prune_one now retention max_rows r p)

-- `_prune_terminal_actions`
unfoldable pub prune_terminal_actions : ℕ → ℕ → ℕ → Table → Counts
unfolding prune_each
prune_terminal_actions now retention max_rows t =
    prune_each now retention max_rows (sort newest_first (keep terminal_row t)) (t, 0, 0)

-- `row is not None and 0 <= elapsed < GROUP_ACTION_PRUNE_INTERVAL_SECONDS`
unfoldable pub pruned_lately : ℕ → Option ℕ → Bool
pruned_lately now none = false
pruned_lately now (some last) = leb last now && ltb now (last + prune_interval_seconds)

-- `_maybe_prune_terminal_actions`, with the meta table's `last_terminal_prune_at`
unfoldable pub maybe_prune_terminal_actions : ℕ → Option ℕ → Table → Table × Option ℕ
unfolding pruned_lately prune_terminal_actions
maybe_prune_terminal_actions now last t =
    if pruned_lately now last
    then (t, last)
    else ((prune_terminal_actions now terminal_retention_seconds terminal_max_rows t).0, some now)

unfoldable pub recovered : ℕ → Row → Row
recovered now r = record r {
  status = retry;
  next_attempt_at = now;
  updated_at = now;
  last_error = if is_empty r.last_error then codes "process_restarted_inflight" else r.last_error;
}

unfoldable pub is_stale_send : ℕ → Row → Bool
is_stale_send now r = elim r.status [
  | sending ↦ leb (r.updated_at + sending_lease_seconds) now
  | _ ↦ false
]

-- `UPDATE … SET status='retry' … WHERE status='sending' AND updated_at<=?` of `__init__`
unfoldable pub recover_stale : ℕ → Table → Table
unfolding recovered is_stale_send
recover_stale now [] = []
recover_stale now (r ∷ t) =
    (if is_stale_send now r then recovered now r else r) ∷ recover_stale now t
