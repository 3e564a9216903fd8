-- ===== src/GroupDelivery/Drain.antt =====
-- `deliver_group_action` and `drain_group_actions`, on the table that the constructor leaves.
pub mod Bounds
use telegram_presence.Base.{
  ℕ, zero, suc, ◌+◌, ◌-◌, ◌*◌, ◌/◌, ◌%◌, ◌^◌, ◌≤◌, ◌<◌, min, max, ◌≡◌, refl, sym, ap, ◌∙◌, subst,
  ◌≢◌, ◌↔◌, ◌⊎◌, inl, inr, Bool, true, false, not, ◌&&◌, ◌||◌, Option, none, some, List, [], ◌∷◌,
  ◌++◌, map, arith, ltb, leb, ◌==◌, if◌then◌else◌, ltb→lt, lt→ltb, leb→le, ==_iff, Bool-cases,
  Option-cases, is_none, is_some, length, length-append, take, drop, length-take, length-drop,
  take-all, keep, length-keep-le, All, All-append, All-map,
}
use telegram_presence.Base.Int.{ℤ}
use telegram_presence.Base.Text.{Text, codes, text_eq, is_empty}
use telegram_presence.Base.Result.{Result, Error, ok, err}
use telegram_presence.Inbox.Peers.{canonical_chat_peer}
use telegram_presence.GroupDelivery.{Row, Settings, Sha256}
use telegram_presence.GroupDelivery.Table.{Table, find}
use telegram_presence.GroupDelivery.Queue.{Request, int_max, enqueue, due}
use telegram_presence.GroupDelivery.Deliver.{Sender, Delivered, already, acknowledged, deliver}

-- The two times that a delivery reads, at its claim and at its settlement.
abbrev pub Clock : Type 0
Clock = ℕ × ℕ

-- What `deliver_group_action` returns or raises: that the queued row is missing, that it does not match
-- the event, an error of `enqueue`, or what `deliver` does.
pub data Dispatched : Type 0 where
  queued_missing mismatch : Dispatched
  rejected : Error → Dispatched
  dispatched : Row → Delivered → Dispatched

-- `actual != expected`, negated
unfoldable pub matches : Request → Row → Bool
matches q r =
    text_eq r.chat (canonical_chat_peer q.chat)
    && (r.msg_id == int_max 0 q.msg_id)
    && text_eq r.action q.action
    && text_eq r.payload q.payload

unfoldable pub dispatch_row : Settings → Clock → Sender → Row → Table → Table × Dispatched
dispatch_row c clock s r t =
    let out = deliver c clock.0 clock.1 r.action_id s t in (out.0, dispatched r out.1)

unfoldable pub dispatch_new :
    Settings → Clock → Sender → Result (Table × Row) → Table → Table × Dispatched
unfolding dispatch_row
dispatch_new c clock s (ok out) t = dispatch_row c clock s out.1 out.0
dispatch_new c clock s (err e) t = (t, rejected e)

unfoldable pub dispatch_queued :
    Settings → Clock → Sender → Request → Option Row → Table → Table × Dispatched
unfolding dispatch_row matches
dispatch_queued c clock s q none t = (t, queued_missing)
dispatch_queued c clock s q (some r) t =
    if matches q r then dispatch_row c clock s r t else (t, mismatch)

-- `deliver_group_action`; `queued_at` is the time that `enqueue` reads
unfoldable pub deliver_group_action :
    Sha256 → Settings → ℕ → Clock → Text → Sender → Request → Table → Table × Dispatched
unfolding dispatch_new dispatch_queued
deliver_group_action sha c queued_at clock action_id s q t =
    if is_empty action_id
    then dispatch_new c clock s (enqueue sha c queued_at q t) t
    else dispatch_queued c clock s q (find action_id t) t

-- Whether `deliver` returned.
unfoldable pub completed : Delivered → Bool
completed (already ids) = true
completed (acknowledged a) = true
completed _ = false

unfoldable pub sender_for : Sender → Sender → Row → Sender
sender_for do_reply do_react r = if text_eq r.action (codes "reply") then do_reply else do_react

unfoldable pub drain_one : Settings → (Text → Clock) → Sender → Sender → Row → Table × ℕ → Table × ℕ
unfolding completed sender_for
drain_one c clock do_reply do_react r p =
    let times = clock r.action_id in
    let out = deliver c times.0 times.1 r.action_id (sender_for do_reply do_react r) p.0 in
    (out.0, if completed out.1 then p.1 + 1 else p.1)

unfoldable pub drain_each :
    Settings → (Text → Clock) → Sender → Sender → List Row → Table × ℕ → Table × ℕ
unfolding drain_one
drain_each c clock do_reply do_react [] p = p
drain_each c clock do_reply do_react (r ∷ rs) p =
    drain_each c clock do_reply do_react rs (drain_one c clock do_reply do_react r p)

-- `drain_group_actions`; `now` is the time that `due` reads, `clock` has the times of each delivery
unfoldable pub drain_group_actions :
    Settings → ℕ → (Text → Clock) → Sender → Sender → ℤ → Table → Table × ℕ
unfolding drain_each
drain_group_actions c now clock do_reply do_react limit t =
    drain_each c clock do_reply do_react (due now limit t) (t, 0)
