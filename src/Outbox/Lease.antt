-- ===== src/Outbox/Lease.antt =====
-- Leases of `DurableOutbox`: claiming a due record, dead-lettering an exhausted one, recovering an
-- abandoned lease.
pub mod Progress
pub mod Claims
use telegram_presence.Base.{
  ℕ, zero, suc, ◌+◌, ◌*◌, ◌/◌, ◌%◌, ◌≤◌, ◌<◌, ◌≡◌, refl, Bool, true, false, not, ◌&&◌, ◌||◌, Option,
  none, some, List, [], ◌∷◌, ◌++◌, arith, ◌==◌, if◌then◌else◌, ltb, leb, max, take,
}
use telegram_presence.Base.Text.{Text, codes, text_eq, text_leb, is_empty, strip, lower}
use telegram_presence.Base.Result.{Result, ok, err, value_error, ◌>>=◌, ◌>>◌, raise_if}
use telegram_presence.Base.Value.{Value, null, str}
use telegram_presence.Base.Loop.{for_each}
use telegram_presence.Base.Sort.{sort}
use telegram_presence.Delivery.{
  DeliveryState, pending, sending, acked, failed, dead_letter, state_eq,
}
use telegram_presence.Delivery.Record.{DeliveryRecord, post_init}
use telegram_presence.Outbox.{Config, Store, get, write, replace, records}

-- `str` of a count
unfoldable pub decimal_digits : ℕ → ℕ → Text
decimal_digits zero n = []
decimal_digits (suc f) n =
    let rest = decimal_digits f (n / 10) in
    if ltb n 10 then (b'0' + n) ∷ [] else rest ++ (b'0' + n % 10) ∷ []

unfoldable pub decimal : ℕ → Text
unfolding decimal_digits
decimal n = decimal_digits (n + 1) n

-- `record.state in (PENDING, FAILED)`
unfoldable pub retryable : DeliveryRecord → Bool
retryable r = state_eq r.state pending || state_eq r.state failed

unfoldable pub claimed : ℕ → Text → DeliveryRecord → DeliveryRecord
claimed now lease r =
    let t = max now r.updated_at in
    record r {
      state = sending;
      attempts = r.attempts + 1;
      next_attempt_at = none;
      updated_at = t;
      sending_started_at = some t;
      acked_at = none;
      last_error = none;
      lease_id = some lease;
    }

-- `_claim_unlocked`, with the lease id that `uuid4` draws
unfoldable pub claim_unlocked : ℕ → Text → DeliveryRecord → Store → Result (Store × DeliveryRecord)
unfolding claimed
claim_unlocked now lease r s = replace (claimed now lease r) s

unfoldable pub last_error_suffix : Option Text → Text
last_error_suffix none = []
last_error_suffix (some t) = if is_empty t then [] else codes "; last error: " ++ t

unfoldable pub limit_detail : Config → DeliveryRecord → Text
unfolding last_error_suffix
limit_detail c r =
    codes "attempt limit reached ("
    ++ (decimal r.attempts
        ++ (codes "/" ++ (decimal c.max_attempts ++ (codes ")" ++ last_error_suffix r.last_error))))

unfoldable pub exhausted_record : Config → ℕ → DeliveryRecord → DeliveryRecord
exhausted_record c now r = record r {
  state = dead_letter;
  next_attempt_at = none;
  updated_at = max now r.updated_at;
  sending_started_at = none;
  acked_at = none;
  last_error = some (take 1000 (limit_detail c r));
  lease_id = none;
}

-- `_dead_letter_exhausted_unlocked`
unfoldable pub dead_letter_exhausted :
    Config → ℕ → DeliveryRecord → Store → Result (Store × DeliveryRecord)
unfolding exhausted_record
dead_letter_exhausted c now r s = replace (exhausted_record c now r) s

-- The variables of a loop over the records: the directory, and the list that the loop collects.
abbrev pub Scan : Type 0
Scan = Store × List DeliveryRecord

unfoldable pub collect : List DeliveryRecord → Store × DeliveryRecord → Scan
collect found out = (out.0, found ++ out.1 ∷ [])

pub enforce_one : Config → ℕ → DeliveryRecord → Scan → Result Scan
enforce_one c now r p =
    if retryable r && leb c.max_attempts r.attempts
    then (do out ← dead_letter_exhausted c now r p.0; ok (collect p.1 out))
    else ok p

-- `_enforce_attempt_limits`
pub enforce_attempt_limits : Config → ℕ → Store → Result Scan
unfolding enforce_one
enforce_attempt_limits c now s = for_each (enforce_one c now) (records s) (s, [])

-- Whether a filter of transport names lets a name through.
unfoldable pub wanted : Option (List Text) → Text → Bool
wanted none t = true
wanted (some []) t = false
wanted (some (u ∷ us)) t = text_eq u t || wanted (some us) t

-- `next_attempt_at is None or next_attempt_at <= now`
unfoldable pub is_due : ℕ → DeliveryRecord → Bool
is_due now r = elim r.next_attempt_at [ none ↦ true | some t ↦ leb t now ]

unfoldable pub scan_one : Config → Option (List Text) → ℕ → DeliveryRecord → Scan → Result Scan
scan_one c transports now r p =
    if not (retryable r) || not (wanted transports r.envelope.transport)
    then ok p
    else if leb c.max_attempts r.attempts
    then (do out ← dead_letter_exhausted c now r p.0; ok (out.0, p.1))
    else if is_due now r
    then ok (p.0, p.1 ++ r ∷ [])
    else ok p

unfoldable pub due_time : DeliveryRecord → ℕ
due_time r = elim r.next_attempt_at [ none ↦ 0 | some t ↦ t ]

-- by `(next_attempt_at or 0, created_at, delivery_id)`
unfoldable pub due_before : DeliveryRecord → DeliveryRecord → Bool
unfolding due_time
due_before a b =
    ltb (due_time a) (due_time b)
    || ((due_time a == due_time b)
        && (ltb a.created_at b.created_at
            || ((a.created_at == b.created_at) && text_leb a.delivery_id b.delivery_id)))

abbrev pub Claim : Type 0
Claim = Store × Option DeliveryRecord

unfoldable pub some_claim : Store × DeliveryRecord → Claim
some_claim out = (out.0, some out.1)

unfoldable pub claim_first : ℕ → Text → List DeliveryRecord → Store → Result Claim
claim_first now lease [] s = ok (s, none)
claim_first now lease (r ∷ rs) s = do out ← claim_unlocked now lease r s; ok (some_claim out)

-- `_claim_due_transports`
unfoldable pub claim_due_transports : Config → Option (List Text) → ℕ → Text → Store → Result Claim
unfolding scan_one claim_first
claim_due_transports c transports now lease s = do
  p ← for_each (scan_one c transports now) (records s) (s, [])
  claim_first now lease (sort due_before p.1) p.0

pub transport_filter : Value → Result (Option (List Text))
transport_filter null = ok none
transport_filter (str t) = do
  raise_if (is_empty (strip t)) value_error
  ok (some (lower (strip t) ∷ []))
transport_filter _ = err value_error

-- `claim_due(transport=…)`
pub claim_due : Config → Value → ℕ → Text → Store → Result Claim
unfolding transport_filter
claim_due c transport now lease s = do
  transports ← transport_filter transport
  claim_due_transports c transports now lease s

pub claim_found : Config → ℕ → Text → DeliveryRecord → Store → Result Claim
claim_found c now lease r s =
    if not (retryable r)
    then ok (s, none)
    else if leb c.max_attempts r.attempts
    then (do out ← dead_letter_exhausted c now r s; ok (out.0, none))
    else if not (is_due now r)
    then ok (s, none)
    else (do out ← claim_unlocked now lease r s; ok (some_claim out))

-- `_claim_id`
pub claim_id : Config → Text → ℕ → Text → Store → Result Claim
unfolding claim_found
claim_id c id now lease s =
    get id s >>= elim [ none ↦ ok (s, none) | some r ↦ claim_found c now lease r s ]

-- `started is None or started <= now - timeout`
unfoldable pub stale : Config → ℕ → DeliveryRecord → Bool
stale c now r = elim r.sending_started_at [
  | none ↦ true
  | some t ↦ leb (t + c.sending_timeout_seconds) now
]

unfoldable pub recovered : Config → ℕ → DeliveryRecord → DeliveryRecord
recovered c now r =
    let t = max now r.updated_at in
    let exhausted = leb c.max_attempts r.attempts in
    record r {
      state = if exhausted then dead_letter else failed;
      next_attempt_at = if exhausted then none else some t;
      updated_at = t;
      sending_started_at = none;
      last_error = some (codes "recovered interrupted sending lease");
      lease_id = none;
    }

unfoldable pub recover_one : Config → Bool → ℕ → DeliveryRecord → Scan → Result Scan
unfolding recovered
recover_one c force now r p =
    if not (state_eq r.state sending)
    then ok p
    else if not force && not (stale c now r)
    then ok p
    else (do out ← replace (recovered c now r) p.0; ok (collect p.1 out))

-- `recover_inflight(force=…)`
unfoldable pub recover_inflight : Config → Bool → ℕ → Store → Result Scan
unfolding recover_one
recover_inflight c force now s = for_each (recover_one c force now) (records s) (s, [])
