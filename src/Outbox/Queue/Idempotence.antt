-- ===== src/Outbox/Queue/Idempotence.antt =====
-- Enqueueing twice is enqueueing once, and where two requests share a delivery id.
use telegram_presence.Base.{
  ℕ, ◌≡◌, refl, sym, ◌∙◌, ap, subst, inl, inr, true, false, Option, none, some, ◌++◌, arith,
  Bool-cases, Option-cases, ◌==◌, length, length-append,
}
use mathlib.Core.List.{append_assoc}
use telegram_presence.Base.Int.{pos, negsuc, int_eq}
use telegram_presence.Base.Text.{Text, codes, text_eq, text_eq_iff, text_eq_refl}
use telegram_presence.Base.Result.{ok, err, value_error, ok_pair}
use telegram_presence.Content.Media.{MediaDescriptor}
use telegram_presence.Delivery.Envelope.{
  MessageEnvelope, Kind, media, message, notification, reaction, reply, Peer, number, handle,
}
use telegram_presence.Delivery.Record.{DeliveryRecord}
use telegram_presence.Outbox.{Store, find, put}
use telegram_presence.Outbox.Laws.{find-put_self}
use telegram_presence.Outbox.Queue.{
  peer_eq, kind_eq, option_eq, media_eq, same_request, delivery_name, new_record, delivery_id,
  enqueue,
}
use telegram_presence.Outbox.Queue.Progress.{IsHexName, fresh, enqueue-new, enqueue-again}

text_option_refl : (o : Option Text) → option_eq text_eq o o ≡ true
unfolding option_eq
text_option_refl none = refl
text_option_refl (some t) = text_eq_refl t

count_option_refl : (o : Option ℕ) → option_eq ◌==◌ o o ≡ true
unfolding option_eq
count_option_refl none = refl
count_option_refl (some n) = ground arith

media_option_refl : (o : Option MediaDescriptor) → option_eq media_eq o o ≡ true
unfolding option_eq media_eq
media_option_refl none = refl
media_option_refl (some m) =
    ground (arith, text_eq_refl m.mime_type, text_eq_refl m.source, text_option_refl m.filename)

peer_refl : (p : Peer) → peer_eq p p ≡ true
unfolding peer_eq int_eq
peer_refl (number (pos n)) = ground arith
peer_refl (number (negsuc n)) = ground arith
peer_refl (handle t) = text_eq_refl t

kind_refl : (k : Kind) → kind_eq k k ≡ true
unfolding kind_eq
kind_refl media = refl
kind_refl message = refl
kind_refl notification = refl
kind_refl reaction = refl
kind_refl reply = refl

same_request_refl : (e : MessageEnvelope) → same_request e e ≡ true
unfolding same_request
same_request_refl e = rw (
  text_option_refl e.causation_id,
  text_eq_refl e.idempotency_key,
  text_eq_refl e.transport,
  peer_refl e.peer,
  kind_refl e.kind,
  text_eq_refl e.text,
  count_option_refl e.reply_to_message_id,
  media_option_refl e.media,
  count_option_refl e.owner_user_id,
  text_eq_refl e.metadata,
)

-- An envelope that makes the same request, with an id, a correlation and a time of its own.
pub resent : MessageEnvelope → Text → Text → ℕ → MessageEnvelope
resent e envelope_id correlation_id created_at = record e {
  envelope_id = envelope_id;
  correlation_id = correlation_id;
  created_at = created_at;
}

enqueue-resent :
    (uuid5 : Text → Text) (e e' : MessageEnvelope) (later : ℕ) (t : Store) (r : DeliveryRecord)
    → IsHexName uuid5
    → delivery_id uuid5 e' ≡ delivery_id uuid5 e
    → same_request r.envelope e' ≡ true
    → find (delivery_id uuid5 e) t ≡ some r
    → enqueue uuid5 e' later t ≡ ok (t, r)
enqueue-resent uuid5 e e' later t r hex id same found =
    enqueue-again uuid5 hex e' later t r (subst (λ x. find x t ≡ some r) (sym id) found) ∙ (rw same)

-- Enqueueing is idempotent: once an envelope is enqueued, a call with any envelope that makes the same
-- request under the same key (whatever its own id, correlation and time) returns the stored record
-- and leaves the directory as it is.
pub enqueue-enqueue :
    (uuid5 : Text → Text) (e : MessageEnvelope) (now later : ℕ) (s t : Store) (r : DeliveryRecord)
    (envelope_id correlation_id : Text) (created_at : ℕ)
    → IsHexName uuid5
    → enqueue uuid5 e now s ≡ ok (t, r)
    → enqueue uuid5 (resent e envelope_id correlation_id created_at) later t ≡ ok (t, r)
unfolding new_record
enqueue-enqueue uuid5 e now later s t r envelope_id correlation_id created_at hex h =
    elim (Option-cases (find (delivery_id uuid5 e) s)) [
      | inl missing ↦
          let made = fresh uuid5 hex e now s in
          let both =
            ok_pair (put made s) t made r (sym (enqueue-new uuid5 hex e now s missing) ∙ h) in
          enqueue-resent uuid5 e e' later t r hex same_id
            (subst (λ x. same_request x.envelope e' ≡ true) both.1
              (same_again e (same_request_refl e)))
            (subst (λ x. find (delivery_id uuid5 e) x ≡ some r) both.0
              (subst (λ x. find (delivery_id uuid5 e) (put made s) ≡ some x) both.1
                (find-put_self made s)))
      | inr (q, found) ↦
          let again = sym (enqueue-again uuid5 hex e now s q found) ∙ h in
          elim (Bool-cases (same_request q.envelope e)) [
            | inr other ↦ cc (rw other at again)
            | inl same ↦
                let both = ok_pair s t q r (rw same at again) in
                enqueue-resent uuid5 e e' later t r hex same_id
                  (subst (λ x. same_request x.envelope e' ≡ true) both.1
                    (same_again q.envelope same))
                  (subst (λ x. find (delivery_id uuid5 e) x ≡ some r) both.0
                    (found ∙ ap some both.1))
          ]
    ]
  where
    e' : MessageEnvelope
    e' = resent e envelope_id correlation_id created_at

    same_id : delivery_id uuid5 e' ≡ delivery_id uuid5 e
    same_id = unfold resent delivery_id delivery_name in refl

    same_again : (a : MessageEnvelope) → same_request a e ≡ true → same_request a e' ≡ true
    same_again a p = unfold resent same_request in p

longer : (b k : Text) → k ≡ b ++ (codes ":" ++ k) → ⊥
longer b k h = omega (arith, ap length h, length-append b (codes ":" ++ k))

-- The name that is hashed into a delivery id does not tell where the transport's name ends. Two
-- requests whose transports are different, "a:b" and "a", share their delivery id where the keys make
-- up for it, "c" and "b:c"; once the first is enqueued, the second is refused with ValueError,
-- whatever its other fields are, as if its key were bound to another request.
pub enqueue_collision :
    (uuid5 : Text → Text) (a b k : Text) (e f : MessageEnvelope) (now later : ℕ) (s t : Store)
    (r : DeliveryRecord)
    → IsHexName uuid5
    → e.transport ≡ a ++ (codes ":" ++ b)
    → e.idempotency_key ≡ k
    → f.transport ≡ a
    → f.idempotency_key ≡ b ++ (codes ":" ++ k)
    → find (delivery_id uuid5 e) s ≡ none
    → enqueue uuid5 e now s ≡ ok (t, r)
    → enqueue uuid5 f later t ≡ err value_error
unfolding new_record
enqueue_collision uuid5 a b k e f now later s t r hex et ek ft fk missing h =
    let made = fresh uuid5 hex e now s in
    let both = ok_pair (put made s) t made r (sym (enqueue-new uuid5 hex e now s missing) ∙ h) in
    subst (λ x. enqueue uuid5 f later x ≡ err value_error) both.0
      (enqueue-again uuid5 hex f later (put made s) made
          (subst (λ x. find x (put made s) ≡ some made) same_id (find-put_self made s))
        ∙ (rw other))
  where
    names : delivery_name e ≡ delivery_name f
    names = unfold delivery_name in rw (et, ek, ft, fk) (simp append_assoc)

    same_id : delivery_id uuid5 e ≡ delivery_id uuid5 f
    same_id = unfold delivery_id in ap uuid5 names

    other : same_request e f ≡ false
    other = elim (Bool-cases (text_eq e.idempotency_key f.idempotency_key)) [
      | inl same ↦ absurd (longer b k (sym ek ∙ ((text_eq_iff _ _).0 same ∙ fk)))
      | inr distinct ↦ unfold same_request in ground arith
    ]
