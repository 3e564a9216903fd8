-- ===== src/Inbox/Spool/Bounds.antt =====
-- The size of the spool, and the keys that it holds, after an append.
use telegram_presence.Base.{
  ℕ, ◌+◌, ◌-◌, ◌≤◌, ◌≡◌, refl, ap, subst, max, ◌∙◌, inl, inr, true, List, [], ◌∷◌, ◌++◌, arith, ltb,
  leb, Bool-cases, take,
}
use telegram_presence.Base.Text.{text_eq_refl}
use telegram_presence.Inbox.Peers.{chat_key}
use telegram_presence.Inbox.Spool.{
  SpoolRow, row, Line, Disk, Key, repair_torn_tail, next_seq, retain, rotate, max_spool_retain_rows,
  max_spool_bytes, total_bytes, Fault, no_fault, at_lock, after_repair, after_sequence,
  after_rotation, unterminated, after_write, torn, torn_inside, Appended, appended, duplicate,
  raised, numbered, write_line, append_new, append_found, append_repaired, append, any_key, has_key,
  key_eq, row_key, current_seq,
}
use mathlib.Core.List.{reverse, reverse-append}

total_bytes-append : (ls ms : List Line) → total_bytes (ls ++ ms) ≡ total_bytes ls + total_bytes ms
unfolding total_bytes
total_bytes-append [] ms = omega arith
total_bytes-append (l ∷ ls) ms = omega (arith, total_bytes-append ls ms)

total_bytes-reverse : (ls : List Line) → total_bytes (reverse ls) ≡ total_bytes ls
unfolding total_bytes
total_bytes-reverse [] = refl
total_bytes-reverse (l ∷ ls) =
    ap total_bytes (reverse-append (l ∷ []) ls)
    ∙ (total_bytes-append (reverse ls) (l ∷ []) ∙ (omega (arith, total_bytes-reverse ls)))

total_bytes-retain :
    (budget kept : ℕ) (ls : List Line)
    → kept ≤ budget
    → kept + total_bytes (retain budget kept ls) ≤ budget
unfolding total_bytes retain
total_bytes-retain budget kept [] h = omega (arith, h)
total_bytes-retain budget kept (l ∷ ls) h = elim (Bool-cases (ltb budget (kept + l.size))) [
  | inl e ↦ rw (retain, e) (omega (arith, h))
  | inr e ↦
      let more : kept + l.size ≤ budget = ground (arith, e) in
      rw (retain, e) (omega (arith, total_bytes-retain budget (kept + l.size) ls more))
]

-- Rotation makes room for the incoming bytes, which may be over the limit themselves.
rotate_bytes :
    (incoming : ℕ) (d : Disk)
    → total_bytes (rotate incoming d).lines + incoming ≤ max max_spool_bytes incoming
unfolding rotate
rotate_bytes incoming d = elim (Bool-cases (leb (total_bytes d.lines + incoming) max_spool_bytes)) [
  | inl e ↦ rw (rotate, e) (ground (arith, e))
  | inr e ↦
      let newest = take max_spool_retain_rows (reverse d.lines) in
      let kept = total_bytes-retain (max_spool_bytes - incoming) 0 newest (omega arith) in
      let same = total_bytes-reverse (retain (max_spool_bytes - incoming) 0 newest) in
      rw (rotate, e) (omega (arith, kept, same))
]

-- The row with the sequence that it is written with.
abbrev pub stamped : SpoolRow → Disk → SpoolRow
stamped r d = numbered (current_seq (repair_torn_tail d) + 1) r

-- The outcome of an append that returns: the row is written under its key, with the spool within the
-- size limit or, where this row alone is larger, within its size; or the key is there already, and only
-- a torn tail was repaired.
abbrev pub Returned : (SpoolRow → ℕ) → SpoolRow → Disk → Disk → Appended → Type 0
Returned size r d d' appended =
    (any_key (row_key r) d'.lines ≡ true)
    × (total_bytes d'.lines ≤ max max_spool_bytes (size (stamped r d)))
Returned size r d d' duplicate = (any_key (row_key r) d'.lines ≡ true) × (d' ≡ repair_torn_tail d)
Returned size r d d' raised = Unit

any_key-append :
    (k : Key) (ls : List Line) (l : Line)
    → has_key k l.content ≡ true
    → any_key k (ls ++ l ∷ []) ≡ true
unfolding any_key
any_key-append k [] l h = ground arith
any_key-append k (x ∷ ls) l h = ground (arith, any_key-append k ls l h)

own_key : (n : ℕ) (r : SpoolRow) → has_key (row_key r) (row (numbered n r)) ≡ true
unfolding has_key row_key numbered key_eq
own_key n r = ground (arith, text_eq_refl (chat_key r.chat))

module _ (size : SpoolRow → ℕ) (r : SpoolRow) where
  append_new-Returned :
      (fault : Fault) (d d' : Disk)
      → d' ≡ repair_torn_tail d
      → Returned size r d (append_new size r fault d').0 (append_new size r fault d').1
  unfolding append_new next_seq write_line numbered total_bytes
  append_new-Returned no_fault d d' e =
      let counted = (next_seq d').0 in
      let r' = numbered (current_seq d' + 1) r in
      let l : Line = record { content = row r'; size = size r' } in
      let kept = (rotate (size r') counted).lines in
      let bytes = rotate_bytes (size r') counted in
      let added = total_bytes-append kept (l ∷ []) in
      let bound : total_bytes (kept ++ l ∷ []) ≤ max max_spool_bytes (size r') =
        omega (arith, added, bytes) in
      (
        any_key-append (row_key r) kept l (own_key (current_seq d' + 1) r),
        subst
            (λ z.
              total_bytes (kept ++ l ∷ [])
              ≤ max max_spool_bytes (size (numbered (current_seq z + 1) r)))
            e bound,
      )
  append_new-Returned _ d d' e = tt

  append_found-Returned :
      (fault : Fault) (d d' : Disk)
      → any_key (row_key r) d'.lines ≡ true
      → d' ≡ repair_torn_tail d
      → Returned size r d (append_found fault d').0 (append_found fault d').1
  unfolding append_found
  append_found-Returned no_fault d d' h e = (h, e)
  append_found-Returned _ d d' h e = tt

  append_repaired-Returned :
      (fault : Fault) (d d' : Disk)
      → d' ≡ repair_torn_tail d
      → Returned size r d (append_repaired size r fault d').0 (append_repaired size r fault d').1
  unfolding append_repaired
  append_repaired-Returned fault d d' e = elim (Bool-cases (any_key (row_key r) d'.lines)) [
    | inl h ↦ rw (append_repaired, h) (append_found-Returned fault d d' h e)
    | inr h ↦ rw (append_repaired, h) (written fault)
  ]
    where
      written :
          (fault : Fault)
          → Returned size r d (append_new size r fault d').0 (append_new size r fault d').1
      written no_fault = append_new-Returned no_fault d d' e
      written at_lock = tt
      written after_repair = tt
      written after_sequence = tt
      written after_rotation = tt
      written unterminated = tt
      written after_write = tt
      written (torn n) = tt
      written (torn_inside n) = tt

  -- What an append comes to, where it returns.
  pub append-Returned :
      (fault : Fault) (d : Disk)
      → Returned size r d (append size r fault d).0 (append size r fault d).1
  unfolding append
  append-Returned at_lock d = tt
  append-Returned no_fault d = append_repaired-Returned no_fault d _ refl
  append-Returned after_repair d = append_repaired-Returned after_repair d _ refl
  append-Returned after_sequence d = append_repaired-Returned after_sequence d _ refl
  append-Returned after_rotation d = append_repaired-Returned after_rotation d _ refl
  append-Returned unterminated d = append_repaired-Returned unterminated d _ refl
  append-Returned after_write d = append_repaired-Returned after_write d _ refl
  append-Returned (torn n) d = append_repaired-Returned (torn n) d _ refl
  append-Returned (torn_inside n) d = append_repaired-Returned (torn_inside n) d _ refl
