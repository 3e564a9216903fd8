-- ===== src/GroupDelivery/Drain/Bounds.antt =====
-- What a drain does to the table, and how much it does.
use telegram_presence.Base.{ℕ, ◌+◌, ◌≤◌, List, [], ◌∷◌, arith, length, length-take, keep}
use telegram_presence.Base.Int.{ℤ}
use telegram_presence.Base.Text.{Text}
use telegram_presence.Base.Sort.{sort}
use telegram_presence.GroupDelivery.{Row, Settings}
use telegram_presence.GroupDelivery.Table.{Table}
use telegram_presence.GroupDelivery.Table.Laws.{IsValid}
use telegram_presence.GroupDelivery.Queue.{int_max, due, created_first, row_due}
use telegram_presence.GroupDelivery.Deliver.{Sender}
use telegram_presence.GroupDelivery.Lifecycle.{Kept, Kept-refl, Kept-trans, deliver-Kept}
use telegram_presence.GroupDelivery.Drain.{
  Clock, sender_for, drain_one, drain_each, drain_group_actions,
}

module _ (c : Settings) (clock : Text → Clock) (do_reply do_react : Sender) where
  drain_one-Kept :
      (r : Row) (p : Table × ℕ) → IsValid p.0 → Kept p.0 (drain_one c clock do_reply do_react r p).0
  unfolding drain_one
  drain_one-Kept r p v =
      deliver-Kept c (clock r.action_id).0 (clock r.action_id).1 r.action_id
        (sender_for do_reply do_react r) p.0 v

  drain_one_count :
      (r : Row) (p : Table × ℕ) → (drain_one c clock do_reply do_react r p).1 ≤ p.1 + 1
  unfolding drain_one
  drain_one_count r p = ground arith

  drain_each-Kept :
      (rs : List Row) (p : Table × ℕ)
      → IsValid p.0
      → Kept p.0 (drain_each c clock do_reply do_react rs p).0
  unfolding drain_each
  drain_each-Kept [] p v = Kept-refl p.0 v
  drain_each-Kept (r ∷ rs) p v =
      let next = drain_one c clock do_reply do_react r p in
      let k = drain_one-Kept r p v in Kept-trans p.0 next.0 _ k (drain_each-Kept rs next k.0)

  drain_each_count :
      (rs : List Row) (p : Table × ℕ)
      → (drain_each c clock do_reply do_react rs p).1 ≤ p.1 + length rs
  unfolding drain_each
  drain_each_count [] p = omega arith
  drain_each_count (r ∷ rs) p =
      omega
        (arith, drain_one_count r p, drain_each_count rs (drain_one c clock do_reply do_react r p))

length-due : (now : ℕ) (limit : ℤ) (t : Table) → length (due now limit t) ≤ int_max 1 limit
unfolding due
length-due now limit t =
    omega (arith, length-take (int_max 1 limit) (sort created_first (keep (row_due now) t)))

-- A drain of a valid table leaves a valid table and completes at most as many deliveries as its limit,
-- which counts as one if it is less.
pub drain_group_actions-IsValid :
    (c : Settings) (now : ℕ) (clock : Text → Clock) (do_reply do_react : Sender) (limit : ℤ)
    (t : Table)
    → IsValid t
    → IsValid (drain_group_actions c now clock do_reply do_react limit t).0
      × ((drain_group_actions c now clock do_reply do_react limit t).1 ≤ int_max 1 limit)
unfolding drain_group_actions
drain_group_actions-IsValid c now clock do_reply do_react limit t v =
    let count = drain_each_count c clock do_reply do_react (due now limit t) (t, 0) in
    (
      (drain_each-Kept c clock do_reply do_react (due now limit t) (t, 0) v).0,
      omega (arith, count, length-due now limit t),
    )
