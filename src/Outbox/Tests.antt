-- ===== src/Outbox/Tests.antt =====
-- An outbox with one delivery, as the package's own tests make it.
use telegram_presence.Base.{
  ◌*◌, ◌≤◌, ◌≡◌, refl, true, false, none, some, List, [], ◌∷◌, arith, All, ◌⊎◌, min,
}
use telegram_presence.Base.Int.{pos, negsuc}
use telegram_presence.Base.Text.{Text, codes, text_eq, strip, is_empty}
use telegram_presence.Base.Value.{int, as_number, finite_nonneg, float_of_int}
use telegram_presence.Base.Result.{ok, err, value_error}
use telegram_presence.Base.Loop.{Ensures, for_each}
use telegram_presence.Base.Sort.{sort, insert}
use telegram_presence.Delivery.{
  pending, sending, acked, dead_letter, state_eq, identifier, optional_identifier,
}
use telegram_presence.Delivery.Envelope.{MessageEnvelope, reply, number}
use telegram_presence.Delivery.Receipt.{TransportReceipt, clip_error}
use telegram_presence.Delivery.Record.{DeliveryRecord, post_init}
use telegram_presence.Outbox.{
  Config, find, put, get, write, replace, records, configure, positive_count, positive_ticks,
  duration, safe_id, retry_delay,
}
use telegram_presence.Outbox.Lifecycle.{IsSound, Progress}
use telegram_presence.Outbox.Queue.{
  enqueue, enqueue_new, enqueue_again, delivery_id, delivery_name, new_record,
}
use telegram_presence.Outbox.Queue.Progress.{IsHexName, fresh, enqueue-new}
use telegram_presence.Outbox.Queue.Idempotence.{enqueue-enqueue, enqueue_collision, resent}
use telegram_presence.Outbox.Lease.{
  claim_due_transports, claim_unlocked, claimed, retryable, wanted, is_due, due_before, some_claim,
  recover_inflight, stale, collect, recovered,
}
use telegram_presence.Outbox.Lease.Progress.{IsIdentifier}
use telegram_presence.Outbox.Lease.Claims.{Leases, candidates, head, claim_due_transports-Leases}
use telegram_presence.Outbox.Settle.{
  receipt_error, or_default, received, settle, settled, settle_found, succeeded, unsuccessful,
  failure_text, lease_eq, raised, boolean, Round,
}
use telegram_presence.Outbox.Settle.Progress.{Settles, settle-Settles}
use telegram_presence.Outbox.History.{
  Call, enqueues, claims_due, settles, recovers, purges_acked, AnyPurges, Draws, run, step, after,
  acked-run, attempts-run,
}
use telegram_presence.Outbox.Backoff.{retry_delay_exact}

-- A stand-in for `uuid5`: one hex name for every text.
abbrev hex_name : Text → Text
hex_name t = codes "0f3c"

hex_name-IsHexName : IsHexName hex_name
unfolding safe_id identifier strip is_empty
hex_name-IsHexName t = (refl, refl)

abbrev config : Config
config = record {
  max_attempts = 2;
  base_retry_seconds = 5;
  max_retry_seconds = 20;
  sending_timeout_seconds = 60;
}

abbrev envelope : MessageEnvelope
envelope = record {
  transport = codes "bot_api";
  peer = number (negsuc 1000);
  kind = reply;
  text = codes "hello";
  reply_to_message_id = some 42;
  media = none;
  correlation_id = codes "cycle-1";
  causation_id = none;
  idempotency_key = codes "reply-42";
  owner_user_id = none;
  metadata = codes "{}";
  created_at = 100;
  envelope_id = codes "e1";
}

abbrev queued : DeliveryRecord
queued = record {
  envelope = envelope;
  state = pending;
  attempts = 0;
  next_attempt_at = some 100;
  created_at = 100;
  updated_at = 100;
  sending_started_at = none;
  acked_at = none;
  last_error = none;
  transport_message_id = none;
  lease_id = none;
  delivery_id = codes "0f3c";
}

abbrev lease : Text
lease = codes "ab12"

abbrev leased : DeliveryRecord
leased = record queued {
  state = sending;
  attempts = 1;
  next_attempt_at = none;
  sending_started_at = some 100;
  lease_id = some lease;
}

abbrev acknowledged : DeliveryRecord
acknowledged = record queued {
  state = acked;
  attempts = 1;
  next_attempt_at = none;
  acked_at = some 101;
  updated_at = 101;
}

lease-IsIdentifier : IsIdentifier lease
unfolding identifier strip is_empty
lease-IsIdentifier = refl

queued-IsSound : IsSound (queued ∷ [])
unfolding safe_id identifier strip is_empty optional_identifier clip_error
queued-IsSound = record {
  valid = (
    record {
      form = record {
        id = refl;
        lease = refl;
        clipped = refl;
        ordered = omega arith;
        shape = (refl, refl, refl);
      };
      path = refl;
    },
    tt,
  );
  distinct = (tt, tt);
}

leased-IsSound : IsSound (leased ∷ [])
unfolding safe_id identifier strip is_empty optional_identifier clip_error
leased-IsSound = record {
  valid = (
    record {
      form = record {
        id = refl;
        lease = refl;
        clipped = refl;
        ordered = omega arith;
        shape = ground arith;
      };
      path = refl;
    },
    tt,
  );
  distinct = (tt, tt);
}

acknowledged-IsSound : IsSound (acknowledged ∷ [])
unfolding safe_id identifier strip is_empty optional_identifier clip_error
acknowledged-IsSound = record {
  valid = (
    record {
      form = record {
        id = refl;
        lease = refl;
        clipped = refl;
        ordered = omega arith;
        shape = ground arith;
      };
      path = refl;
    },
    tt,
  );
  distinct = (tt, tt);
}

abbrev calls : List Call
calls =
    enqueues envelope 100
    ∷ claims_due none 100 lease
    ∷ settles 102 leased (raised (codes "RuntimeError: down"))
    ∷ recovers true 200
    ∷ purges_acked (some 101)
    ∷ []

calls-Draws : All Draws calls
calls-Draws = (tt, (lease-IsIdentifier, (tt, (tt, (tt, tt)))))

acked-run_example :
    (find (codes "0f3c") (run hex_name config (acknowledged ∷ []) calls) ≡ some acknowledged)
    ⊎ AnyPurges acknowledged calls
unfolding find text_eq
acked-run_example =
    acked-run hex_name config (acknowledged ∷ []) calls (codes "0f3c") acknowledged
      hex_name-IsHexName (omega arith) calls-Draws acknowledged-IsSound refl refl

claim_example :
    Ensures
      (λ out.
        Leases config 100 lease
          (queued ∷ [])
          out.0
          (head (candidates config none 100 (queued ∷ [])))
          out.1)
      (claim_due_transports config none 100 lease (queued ∷ []))
claim_example =
    claim_due_transports-Leases config none 100 lease (queued ∷ []) (omega arith) lease-IsIdentifier
      queued-IsSound

settle_example :
    Ensures
      (λ out.
        Settles config 105 leased
          (raised (codes "RuntimeError: down"))
          leased
          (leased ∷ [])
          out.0
          out.1)
      (settle config 105 leased (raised (codes "RuntimeError: down")) (leased ∷ []))
unfolding find text_eq
settle_example =
    settle-Settles config 105 leased (raised (codes "RuntimeError: down")) leased (leased ∷ [])
      leased-IsSound refl

-- The error that a receipt of a failure reports does not reach the record.
abbrev refused : TransportReceipt
refused = record {
  success = false;
  transport = codes "bot_api";
  correlation_id = codes "cycle-1";
  transport_message_id = none;
  error = some (codes "chat not found");
}

refused_text :
    (settled config 105 (received refused) leased).last_error ≡ some (codes "transport failed")
unfolding settled unsuccessful failure_text receipt_error or_default
refused_text = refl

abbrev rounds : List Round
rounds =
    record { claim_time = 100; lease = lease; settle_time = 101; sender = λ e. boolean false } ∷ []

abbrev enqueued : DeliveryRecord
enqueued = fresh hex_name hex_name-IsHexName envelope 100 []

enqueue-enqueue_example :
    enqueue hex_name (resent envelope (codes "e2") (codes "cycle-2") 107) 107 (put enqueued [])
    ≡ ok (put enqueued [], enqueued)
unfolding find
enqueue-enqueue_example =
    enqueue-enqueue hex_name envelope 100 107 [] (put enqueued []) enqueued (codes "e2")
      (codes "cycle-2") 107 hex_name-IsHexName
      (enqueue-new hex_name hex_name-IsHexName envelope 100 [] refl)

abbrev split_first : MessageEnvelope
split_first = record envelope { transport = codes "a:b"; idempotency_key = codes "c" }

abbrev split_second : MessageEnvelope
split_second = record envelope { transport = codes "a"; idempotency_key = codes "b:c" }

abbrev split_record : DeliveryRecord
split_record = fresh hex_name hex_name-IsHexName split_first 100 []

enqueue_collision_example :
    enqueue hex_name split_second 101 (put split_record []) ≡ err value_error
unfolding find
enqueue_collision_example =
    enqueue_collision hex_name (codes "a") (codes "b") (codes "c") split_first split_second 100 101
      [] (put split_record []) split_record hex_name-IsHexName refl refl refl refl refl
      (enqueue-new hex_name hex_name-IsHexName split_first 100 [] refl)

abbrev built : Config
built = record {
  max_attempts = 5;
  base_retry_seconds = 1000000;
  max_retry_seconds = 300000000;
  sending_timeout_seconds = 60000000;
}

retry_delay_example :
    (1000000 ≤ retry_delay built 4)
    × (retry_delay built 4 ≤ 300000000)
    × (retry_delay built 1 ≡ 1000000)
    × (retry_delay built 6 ≡ min 300000000 (2 * retry_delay built 5))
unfolding configure positive_count duration as_number float_of_int finite_nonneg positive_ticks
retry_delay_example =
    retry_delay_exact (int (pos 5)) (int (pos 1)) (int (pos 300)) (int (pos 60)) built 4 refl

-- The first attempt fails, the second is claimed when the delay is over and then abandoned; recovery
-- finds the attempts used up.
abbrev failing : List Call
failing =
    enqueues envelope 100
    ∷ claims_due none 100 lease
    ∷ settles 102 leased (raised (codes "RuntimeError: down"))
    ∷ claims_due none 106 lease
    ∷ claims_due none 107 lease
    ∷ recovers false 167
    ∷ []

abbrev abandoned : DeliveryRecord
abandoned = record queued {
  state = dead_letter;
  attempts = 2;
  next_attempt_at = none;
  updated_at = 167;
  last_error = some (codes "recovered interrupted sending lease");
}

failing-Draws : All Draws failing
failing-Draws =
    (tt, (lease-IsIdentifier, (tt, (lease-IsIdentifier, (lease-IsIdentifier, (tt, tt))))))

abandoned_at_end : find (codes "0f3c") (run hex_name config [] failing) ≡ some abandoned
unfolding run step after find get put write replace safe_id text_eq identifier optional_identifier
    strip is_empty clip_error post_init records sort insert for_each enqueue enqueue_new
    enqueue_again new_record claim_due_transports claim_unlocked claimed retryable state_eq wanted
    is_due due_before some_claim settle settled settle_found succeeded unsuccessful failure_text
    retry_delay lease_eq recover_inflight stale collect recovered delivery_id delivery_name
abandoned_at_end = refl

attempts-run_example : 2 ≤ config.max_attempts
attempts-run_example =
    attempts-run hex_name config failing (codes "0f3c") abandoned hex_name-IsHexName (omega arith)
      failing-Draws abandoned_at_end
