-- ===== src/Inbox/Ingest/Seen.antt =====
-- The memory of seen ids: the set and the deque agree, and both are bounded.
use telegram_presence.Base.{
  ◌≤◌, ◌≡◌, refl, sym, ap, ◌∙◌, inl, inr, true, false, ◌||◌, List, [], ◌∷◌, ◌++◌, arith, ltb, ◌==◌,
  Bool-cases, length, length-append, All, All-append,
}
use telegram_presence.Base.Text.{text_eq_iff, text_eq_refl}
use telegram_presence.Base.Sort.{Apart}
use telegram_presence.Inbox.Spool.{
  Content, row, keyless, garbage, Line, Disk, Key, key_eq, row_key, read_lines,
}
use telegram_presence.Inbox.Ingest.{
  Inbox, max_seen_ids, key_in, discard, push_bounded, forget_first, remember_seen, last_of, recall,
  hydrate, open_inbox,
}

abbrev pub KeyDiff : Key → Key → Type 0
KeyDiff a b = key_eq a b ≡ false

key_eq_symm : (a b : Key) → key_eq a b ≡ key_eq b a
unfolding key_eq
key_eq_symm a b = ground (arith, text_eq_iff a.0 b.0, text_eq_iff b.0 a.0)

pub key_eq_refl : (k : Key) → key_eq k k ≡ true
unfolding key_eq
key_eq_refl k = ground (arith, text_eq_refl k.0)

-- The set holds what the deque holds, each key once, and no more than its bound.
abbrev pub Cached : List Key → List Key → Type 0
Cached seen order = (seen ≡ order) × Apart KeyDiff order × (length order ≤ max_seen_ids)

discard-apart : (k : Key) (ks : List Key) → All (KeyDiff k) ks → discard k ks ≡ ks
unfolding discard
discard-apart k [] h = refl
discard-apart k (x ∷ ks) h = rw (key_eq_symm x k, h.0) (ap (x ∷◌) (discard-apart k ks h.1))

key_in-append : (k j : Key) (ks : List Key) → key_in k (ks ++ j ∷ []) ≡ (key_in k ks || key_eq j k)
unfolding key_in
key_in-append k j [] = ground arith
key_in-append k j (x ∷ ks) = ground (arith, key_in-append k j ks)

append-Apart :
    (k : Key) (ks : List Key)
    → key_in k ks ≡ false
    → Apart KeyDiff ks
    → Apart KeyDiff (ks ++ k ∷ [])
unfolding key_in
append-Apart k [] h a = (tt, tt)
append-Apart k (x ∷ ks) h a =
    let head : key_eq x k ≡ false = ground arith in
    (All-append (KeyDiff x) ks (k ∷ []) a.0 (head, tt), append-Apart k ks (ground arith) a.1)

key_in-tail : (k x : Key) (ks : List Key) → key_in k (x ∷ ks) ≡ false → key_in k ks ≡ false
unfolding key_in
key_in-tail k x ks h = ground arith

forget-Cached :
    (k : Key) (ks : List Key)
    → key_in k ks ≡ false
    → Apart KeyDiff ks
    → length ks ≤ max_seen_ids
    → Cached (forget_first ks ks ++ k ∷ []) (push_bounded max_seen_ids k ks)
unfolding forget_first push_bounded
forget-Cached k [] h a b = (refl, (tt, tt), omega arith)
forget-Cached k (x ∷ ks) h a b = elim (Bool-cases (ltb (length (x ∷ ks)) max_seen_ids)) [
  | inl e ↦
      let open_place : (length (x ∷ ks) == max_seen_ids) ≡ false = ground arith in
      rw (push_bounded, e, forget_first, open_place)
        (refl, append-Apart k (x ∷ ks) h a, ground (arith, length-append (x ∷ ks) (k ∷ [])))
  | inr e ↦
      let full : (length (x ∷ ks) == max_seen_ids) ≡ true = ground arith in
      rw (push_bounded, e, forget_first, full, key_eq_refl x, discard-apart x ks a.0)
        (
          refl,
          append-Apart k ks (key_in-tail k x ks h) a.1,
          omega (arith, length-append ks (k ∷ []), b),
        )
]

-- An inbox whose cache is sound.
abbrev pub IsCached : Inbox → Type 0
IsCached b = Cached b.seen b.seen_order

pub remember_seen-IsCached : (k : Key) (b : Inbox) → IsCached b → IsCached (remember_seen k b)
unfolding remember_seen
remember_seen-IsCached k b h = elim (Bool-cases (key_in k b.seen)) [
  | inl e ↦ rw (remember_seen, e) h
  | inr e ↦
      let new : key_in k b.seen_order ≡ false = ap (key_in k) (sym h.0) ∙ e in
      let kept = forget-Cached k b.seen_order new h.1 h.2 in
      rw (remember_seen, e)
        (ap (λ z. forget_first b.seen_order z ++ k ∷ []) h.0 ∙ kept.0, kept.1, kept.2)
]

-- A key is seen once it is remembered.
pub remember_seen-key_in : (k : Key) (b : Inbox) → key_in k (remember_seen k b).seen ≡ true
unfolding remember_seen
remember_seen-key_in k b = elim (Bool-cases (key_in k b.seen)) [
  | inl e ↦ rw (remember_seen, e) e
  | inr e ↦
      rw (remember_seen, e)
        (ground (arith, key_in-append k k (forget_first b.seen_order b.seen), key_eq_refl k))
]

recall-IsCached : (c : Content) (b : Inbox) → IsCached b → IsCached (recall c b)
unfolding recall
recall-IsCached (row r) b h = remember_seen-IsCached (row_key r) b h
recall-IsCached (keyless o) b h = h
recall-IsCached garbage b h = h

hydrate-IsCached : (ls : List Line) (b : Inbox) → IsCached b → IsCached (hydrate ls b)
unfolding hydrate
hydrate-IsCached [] b h = h
hydrate-IsCached (l ∷ ls) b h =
    hydrate-IsCached ls (recall l.content b) (recall-IsCached l.content b h)

recall-disk : (c : Content) (b : Inbox) → (recall c b).disk ≡ b.disk
unfolding recall remember_seen
recall-disk (row r) b = ground arith
recall-disk (keyless o) b = refl
recall-disk garbage b = refl

hydrate-disk : (ls : List Line) (b : Inbox) → (hydrate ls b).disk ≡ b.disk
unfolding hydrate
hydrate-disk [] b = refl
hydrate-disk (l ∷ ls) b = hydrate-disk ls (recall l.content b) ∙ recall-disk l.content b

-- Opening an inbox gives a sound cache and leaves the files.
pub open_inbox-IsCached : (d : Disk) → IsCached (open_inbox d) × ((open_inbox d).disk ≡ d)
unfolding open_inbox
open_inbox-IsCached d =
    let blank : Inbox = record { disk = d; seen = []; seen_order = []; own_ids = [] } in
    let lines = last_of max_seen_ids (read_lines d) in
    (hydrate-IsCached lines blank (refl, tt, omega arith), hydrate-disk lines blank)
