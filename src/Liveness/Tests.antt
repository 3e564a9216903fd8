-- ===== src/Liveness/Tests.antt =====
-- A worker that polls every 10 seconds and runs a cycle every 300.
use telegram_presence.Base.{◌+◌, ◌≤◌, ◌≡◌, refl, arith, ltb}
use telegram_presence.Base.Int.{pos}
use telegram_presence.Base.Result.{ok}
use telegram_presence.Base.Value.{int, null, as_number, float_of_int, finite_nonneg}
use telegram_presence.Liveness.{
  LivenessCadence, validate_liveness_cadence, positive_seconds, finite_number, or_value_error,
  current_time, is_stale, worst_case_processing_delay_seconds, is_stale_exact,
}

abbrev cadence : LivenessCadence
cadence = record {
  poll_interval_seconds = 10000000;
  cycle_interval_seconds = 300000000;
  stale_after_seconds = 400000000;
}

is_stale_example :
    (is_stale cadence (int (pos 1000)) null (int (pos 1401))
      ≡ ok (ltb (1000000000 + 400000000) 1401000000))
    × (worst_case_processing_delay_seconds cadence ≤ 400000000)
unfolding validate_liveness_cadence positive_seconds finite_number or_value_error as_number
    float_of_int finite_nonneg current_time
is_stale_example =
    is_stale_exact (int (pos 10)) (int (pos 300)) (int (pos 400)) cadence (int (pos 1000)) null
      (int (pos 1401)) 1000000000 1401000000 refl refl refl (omega arith)
