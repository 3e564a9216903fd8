-- ===== src/Inbox/Spool/Sequence/Append.antt =====
-- An append keeps the sequences rising, and so does the loss of the sequence file.
use telegram_presence.Base.{
  ℕ, ◌+◌, ◌≤◌, max, ◌≡◌, refl, sym, ◌∙◌, subst, inl, inr, none, some, List, [], ◌∷◌, ◌++◌, arith,
  Bool-cases,
}
use telegram_presence.Inbox.Spool.{
  SpoolRow, Content, row, keyless, garbage, Line, Disk, repair_tail, repair_torn_tail, seq_or,
  scan_seq, current_seq, next_seq, rotate, Fault, no_fault, at_lock, after_repair, after_sequence,
  after_rotation, unterminated, after_write, torn, torn_inside, numbered, write_line, append_new,
  append_found, append_repaired, append, any_key, row_key,
}
use telegram_presence.Inbox.Spool.Sequence.{
  content_seq, line_seq, Upto, Below, Numbered, Sequenced, Upto-le, Below-rotate, Below-append,
  repair_keeps_tail, repaired_tail, rotate_tail, rotate_seq, Sequenced-clean, Sequenced-torn,
  Sequenced-undecodable, Sequenced-unterminated,
}

module _ (size : SpoolRow → ℕ) (r : SpoolRow) (d : Disk) (clean : d.tail ≡ none)
    (h : Numbered d) where
  seq : ℕ
  seq = current_seq d

  counted : Disk
  unfolding next_seq
  counted = (next_seq d).0

  stamped : SpoolRow
  unfolding numbered
  stamped = numbered (seq + 1) r

  rotated : Disk
  rotated = rotate (size stamped) counted

  rotated_facts :
      (rotated.tail ≡ none) × (rotated.last_seq ≡ some (seq + 1)) × Below seq rotated.lines
  unfolding rotated counted next_seq seq
  rotated_facts = (
    rotate_tail (size stamped) counted ∙ clean,
    rotate_seq (size stamped) counted,
    Below-rotate (current_seq d) (size stamped) counted h,
  )

  Below-more : Below (seq + 1) rotated.lines
  Below-more =
      (rotated_facts.2.0, Upto-le seq (seq + 1) rotated.lines (omega arith) rotated_facts.2.1)

  counted-Sequenced : Sequenced counted
  unfolding counted next_seq seq
  counted-Sequenced =
      Sequenced-clean counted (seq + 1) clean refl
        (h.0, Upto-le (current_seq d) (current_seq d + 1) d.lines (omega arith) h.1)

  rotated-Sequenced : Sequenced rotated
  rotated-Sequenced = Sequenced-clean rotated (seq + 1) rotated_facts.0 rotated_facts.1 Below-more

  written_line : Line
  written_line = record { content = row stamped; size = size stamped }

  Below-written : Below (seq + 1) (rotated.lines ++ written_line ∷ [])
  unfolding written_line stamped numbered line_seq
  Below-written = Below-append seq written_line rotated.lines refl rotated_facts.2

  written-Sequenced : Sequenced (write_line written_line rotated)
  unfolding write_line
  written-Sequenced =
      Sequenced-clean (write_line written_line rotated) (seq + 1) rotated_facts.0 rotated_facts.1
        Below-written

  append_new-Sequenced : (fault : Fault) → Sequenced (append_new size r fault d).0
  unfolding append_new next_seq rotated counted stamped seq written_line
  append_new-Sequenced no_fault = written-Sequenced
  append_new-Sequenced at_lock = subst Numbered (sym (repair_keeps_tail d clean)) h
  append_new-Sequenced after_repair = subst Numbered (sym (repair_keeps_tail d clean)) h
  append_new-Sequenced after_sequence = counted-Sequenced
  append_new-Sequenced after_rotation = rotated-Sequenced
  append_new-Sequenced unterminated =
      Sequenced-unterminated rotated (seq + 1) (size stamped) stamped rotated_facts.1 Below-written
  append_new-Sequenced after_write = written-Sequenced
  append_new-Sequenced (torn n) = Sequenced-torn rotated (seq + 1) n rotated_facts.1 Below-more
  append_new-Sequenced (torn_inside n) =
      Sequenced-undecodable rotated (seq + 1) n rotated_facts.1 Below-more

append_found_disk : (fault : Fault) (d : Disk) → (append_found fault d).0 ≡ d
unfolding append_found
append_found_disk no_fault d = refl
append_found_disk _ d = refl

append_repaired-Sequenced :
    (size : SpoolRow → ℕ) (r : SpoolRow) (fault : Fault) (d : Disk)
    → d.tail ≡ none
    → Numbered d
    → Sequenced (append_repaired size r fault d).0
unfolding append_repaired
append_repaired-Sequenced size r fault d clean h = elim (Bool-cases (any_key (row_key r) d.lines)) [
  | inl e ↦ rw (append_repaired, e, append_found_disk fault d, repair_keeps_tail d clean) h
  | inr e ↦ rw (append_repaired, e) (append_new-Sequenced size r d clean h fault)
]

-- Appending a row keeps the sequences of the spool rising, from line to line and up to the number that
-- the next one is counted from, wherever the append raises: before its first write, between the files, or
-- in the write of the row, with a torn or an unterminated line left behind.
pub append-Sequenced :
    (size : SpoolRow → ℕ) (r : SpoolRow) (fault : Fault) (d : Disk)
    → Sequenced d
    → Sequenced (append size r fault d).0
unfolding append
append-Sequenced size r at_lock d h = h
append-Sequenced size r no_fault d h =
    append_repaired-Sequenced size r no_fault _ (repaired_tail d) h
append-Sequenced size r after_repair d h =
    append_repaired-Sequenced size r after_repair _ (repaired_tail d) h
append-Sequenced size r after_sequence d h =
    append_repaired-Sequenced size r after_sequence _ (repaired_tail d) h
append-Sequenced size r after_rotation d h =
    append_repaired-Sequenced size r after_rotation _ (repaired_tail d) h
append-Sequenced size r unterminated d h =
    append_repaired-Sequenced size r unterminated _ (repaired_tail d) h
append-Sequenced size r after_write d h =
    append_repaired-Sequenced size r after_write _ (repaired_tail d) h
append-Sequenced size r (torn n) d h =
    append_repaired-Sequenced size r (torn n) _ (repaired_tail d) h
append-Sequenced size r (torn_inside n) d h =
    append_repaired-Sequenced size r (torn_inside n) _ (repaired_tail d) h

row_bound :
    (ordinal n : ℕ) (r : SpoolRow) → content_seq (row r) ≤ max (seq_or (ordinal + 1) r.spool_seq) n
unfolding content_seq seq_or
row_bound ordinal n r = ground arith

content-Upto :
    (ordinal size : ℕ) (c : Content) (ls : List Line)
    → Upto (scan_seq (ordinal + 1) ls) ls
    → Upto (scan_seq ordinal ls) ls
    → Upto
        (scan_seq ordinal (record { content = c; size = size } ∷ ls))
        (record { content = c; size = size } ∷ ls)
unfolding scan_seq line_seq
content-Upto ordinal size (row r) ls next here =
    (row_bound ordinal (scan_seq (ordinal + 1) ls) r, Upto-le _ _ ls (omega arith) next)
content-Upto ordinal size (keyless o) ls next here =
    (omega arith, Upto-le _ _ ls (omega arith) next)
content-Upto ordinal size garbage ls next here = (omega arith, here)

scan_seq-Upto : (ordinal : ℕ) (ls : List Line) → Upto (scan_seq ordinal ls) ls
scan_seq-Upto ordinal [] = tt
scan_seq-Upto ordinal (l ∷ ls) =
    content-Upto ordinal l.size l.content ls (scan_seq-Upto (ordinal + 1) ls)
      (scan_seq-Upto ordinal ls)

-- The disk whose sequence file is lost or cannot be read.
unfoldable pub lose_seq : Disk → Disk
lose_seq d = record d { last_seq = none }

pub lost_lines : (d : Disk) → (repair_torn_tail (lose_seq d)).lines ≡ (repair_torn_tail d).lines
unfolding repair_torn_tail repair_tail lose_seq
lost_lines d = ground arith

lost_number :
    (d : Disk) → current_seq (repair_torn_tail (lose_seq d)) ≡ scan_seq 0 (repair_torn_tail d).lines
unfolding repair_torn_tail repair_tail lose_seq current_seq
lost_number d = ground arith

-- The sequences still rise where the sequence file is lost: they are counted from the spool again.
pub lose_seq-Sequenced : (d : Disk) → Sequenced d → Sequenced (lose_seq d)
lose_seq-Sequenced d h =
    subst (λ ls. Below (current_seq (repair_torn_tail (lose_seq d))) ls) (sym (lost_lines d))
      (
        h.0,
        subst (λ n. Upto n (repair_torn_tail d).lines) (sym (lost_number d)) (scan_seq-Upto 0 _),
      )
