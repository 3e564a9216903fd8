-- ===== src/Liveness.antt =====
-- telegram_presence/liveness.py: the timing contract of a poller and a scheduler.
mod Tests
use telegram_presence.Base.{
  ℕ, zero, suc, ◌+◌, ◌-◌, ◌≤◌, ◌<◌, ◌≡◌, refl, ◌↔◌, Bool, true, false, not, ◌&&◌, ◌||◌, Option,
  none, some, arith, ==_iff, ◌==◌, if◌then◌else◌, Bool-cases, ltb, leb,
}
use telegram_presence.Base.Result.{Result, ok, err, value_error, ◌>>=◌, ◌>>◌, raise_if}
use telegram_presence.Base.Value.{Value, null, as_number, finite_nonneg}

-- What is left of a check: the number, or `ValueError`.
pub or_value_error : Option ℕ → Result ℕ
or_value_error none = err value_error
or_value_error (some n) = ok n

pub finite_number : Value → Option ℕ
finite_number v = elim (as_number v) [ none ↦ none | some x ↦ finite_nonneg x ]

-- `_positive_seconds`, in ticks
pub positive_seconds : Value → Result ℕ
unfolding or_value_error finite_number
positive_seconds v = do t ← or_value_error (finite_number v); raise_if (t == 0) value_error; ok t

pub record LivenessCadence : Type 0 where
  pub poll_interval_seconds : ℕ
  pub cycle_interval_seconds : ℕ
  pub stale_after_seconds : ℕ

-- `validate_liveness_cadence`, which is the constructor with `__post_init__`
pub validate_liveness_cadence : Value → Value → Value → Result LivenessCadence
unfolding positive_seconds
validate_liveness_cadence poll_interval cycle_interval stale_after = do
  poll ← positive_seconds poll_interval
  cycle ← positive_seconds cycle_interval
  stale ← positive_seconds stale_after
  raise_if (ltb stale (poll + cycle)) value_error
  ok (record {
    poll_interval_seconds = poll;
    cycle_interval_seconds = cycle;
    stale_after_seconds = stale;
  })

pub worst_case_processing_delay_seconds : LivenessCadence → ℕ
worst_case_processing_delay_seconds c = c.poll_interval_seconds + c.cycle_interval_seconds

-- the rest of `is_stale` for two timestamps that are numbers
pub stale_at : LivenessCadence → ℕ → ℕ → Result Bool
stale_at c last current = do
  raise_if (ltb current last) value_error
  ok (ltb c.stale_after_seconds (current - last))

pub stale_between : LivenessCadence → Value → Value → Result Bool
stale_between c last current = do
  now ← or_value_error (finite_number current)
  success ← or_value_error (finite_number last)
  stale_at c success now

pub current_time : Value → Value → Value
current_time null clock = clock
current_time now clock = now

-- `is_stale(last_success_at, now=now)`; `clock` is what `time.time()` returns.
pub is_stale : LivenessCadence → Value → Value → Value → Result Bool
is_stale c null now clock = ok true
is_stale c last now clock = stale_between c last (current_time now clock)

-- the contract that `validate_liveness_cadence` accepts
pub accepted :
    (poll cycle stale : Value) (c : LivenessCadence)
    → validate_liveness_cadence poll cycle stale ≡ ok c
    → (0 < c.poll_interval_seconds)
      × (0 < c.cycle_interval_seconds)
      × (worst_case_processing_delay_seconds c ≤ c.stale_after_seconds)
unfolding validate_liveness_cadence worst_case_processing_delay_seconds
accepted poll cycle stale c h = ground arith

pub stale_between-number :
    (c : LivenessCadence) (last current : Value) (s t : ℕ)
    → finite_number last ≡ some s
    → finite_number current ≡ some t
    → stale_between c last current ≡ stale_at c s t
unfolding stale_between or_value_error
stale_between-number c last current s t hs ht = rw (hs, ht)

pub is_stale-number :
    (c : LivenessCadence) (last now clock : Value) (s t : ℕ)
    → finite_number last ≡ some s
    → finite_number (current_time now clock) ≡ some t
    → is_stale c last now clock ≡ stale_at c s t
unfolding is_stale
is_stale-number c null now clock s t hs ht = absurd (null_number hs)
  where
    null_number : finite_number null ≡ some s → ⊥
    null_number h = unfold finite_number as_number in cc h
is_stale-number c last now clock s t hs ht =
    stale_between-number c _ (current_time now clock) s t hs ht

-- Under an accepted contract, and with both timestamps finite and in order, the worker is stale exactly
-- from the first tick after `stale_after_seconds` since its last success, and that is never before the
-- worst-case delay of one poll and one cycle has passed.
pub is_stale_exact :
    (poll cycle stale : Value) (c : LivenessCadence) (last now clock : Value) (s t : ℕ)
    → validate_liveness_cadence poll cycle stale ≡ ok c
    → finite_number last ≡ some s
    → finite_number (current_time now clock) ≡ some t
    → s ≤ t
    → (is_stale c last now clock ≡ ok (ltb (s + c.stale_after_seconds) t))
      × (worst_case_processing_delay_seconds c ≤ c.stale_after_seconds)
is_stale_exact poll cycle stale c last now clock s t made hs ht le = (
  rw (is_stale-number c last now clock s t hs ht) (unfold stale_at in ground arith),
  (accepted poll cycle stale c made).2,
)
