-- ===== src/Inbox/Spool/Unique.antt =====
-- A message stands in the spool at most once, whatever faults an append meets.
use telegram_presence.Base.{
  ℕ, ◌+◌, ◌≡◌, refl, sym, ap, ◌∙◌, subst, inl, inr, Bool, false, none, some, List, [], ◌∷◌, ◌++◌,
  arith, Bool-cases, All-append,
}
use telegram_presence.Base.Text.{text_eq_iff}
use telegram_presence.Base.Sort.{Apart}
use telegram_presence.Inbox.Peers.{chat_key}
use telegram_presence.Inbox.Spool.{
  SpoolRow, Content, row, keyless, garbage, Line, Disk, Key, repair_tail, repair_torn_tail,
  next_seq, rotate, Fault, no_fault, at_lock, after_repair, after_sequence, after_rotation,
  unterminated, after_write, torn, torn_inside, unended, undecodable, numbered, write_line,
  append_new, append_found, append_repaired, append, any_key, has_key, key_eq, row_key, current_seq,
}
use telegram_presence.Inbox.Spool.Sequence.{
  rotate_suffix, rotate_tail, repair_keeps_tail, repaired_tail,
}

-- Whether two lines are rows of one message.
unfoldable pub same_content : Content → Content → Bool
same_content (row r) c = has_key (row_key r) c
same_content (keyless o) c = false
same_content garbage c = false

unfoldable pub same_message : Line → Line → Bool
unfolding same_content
same_message a b = same_content a.content b.content

abbrev pub Different : Line → Line → Type 0
Different a b = same_message a b ≡ false

-- No two lines are of one message.
abbrev pub Unique : List Line → Type 0
Unique ls = Apart Different ls

-- The lines are unique once a torn tail is repaired.
abbrev pub UniqueRows : Disk → Type 0
UniqueRows d = Unique (repair_torn_tail d).lines

Unique-suffix : (p s : List Line) → Unique (p ++ s) → Unique s
Unique-suffix [] s h = h
Unique-suffix (l ∷ p) s h = Unique-suffix p s h.1

any_key-suffix : (k : Key) (p s : List Line) → any_key k (p ++ s) ≡ false → any_key k s ≡ false
unfolding any_key
any_key-suffix k [] s h = h
any_key-suffix k (l ∷ p) s h = any_key-suffix k p s (ground arith)

-- A row whose key is not among the lines is different from each.
unlike_content :
    (n : ℕ) (r : SpoolRow) (c : Content)
    → has_key (row_key r) c ≡ false
    → same_content c (row (numbered n r)) ≡ false
unfolding same_content has_key key_eq row_key numbered
unlike_content n r (row q) h = ground (
  arith,
  text_eq_iff (chat_key q.chat) (chat_key r.chat),
  text_eq_iff (chat_key r.chat) (chat_key q.chat),
)
unlike_content n r (keyless o) h = refl
unlike_content n r garbage h = refl

unlike :
    (n : ℕ) (r : SpoolRow) (size : ℕ) (l : Line)
    → has_key (row_key r) l.content ≡ false
    → Different l (record { content = row (numbered n r); size = size })
unfolding same_message
unlike n r size l h = unlike_content n r l.content h

Unique-append :
    (n : ℕ) (r : SpoolRow) (size : ℕ) (ls : List Line)
    → any_key (row_key r) ls ≡ false
    → Unique ls
    → Unique (ls ++ record { content = row (numbered n r); size = size } ∷ [])
unfolding any_key
Unique-append n r size [] h u = (tt, tt)
Unique-append n r size (l ∷ ls) h u =
    let apart : has_key (row_key r) l.content ≡ false = ground arith in
    let line : Line = record { content = row (numbered n r); size = size } in
    (
      All-append (Different l) ls (line ∷ []) u.0 (unlike n r size l apart, tt),
      Unique-append n r size ls (ground arith) u.1,
    )

clean-UniqueRows : (d : Disk) → d.tail ≡ none → Unique d.lines → UniqueRows d
clean-UniqueRows d e h = subst UniqueRows-of (sym (repair_keeps_tail d e)) h
  where
    UniqueRows-of : Disk → Type 0
    UniqueRows-of z = Unique z.lines

torn-UniqueRows :
    (d : Disk) (size : ℕ)
    → Unique d.lines
    → UniqueRows (record d { tail = some (unended (record { content = garbage; size = size })) })
unfolding repair_torn_tail repair_tail
torn-UniqueRows d size h = h

undecodable-UniqueRows :
    (d : Disk) (size : ℕ)
    → Unique d.lines
    → UniqueRows (record d { tail = some (undecodable size) })
unfolding repair_torn_tail repair_tail
undecodable-UniqueRows d size h = h

unterminated-UniqueRows :
    (d : Disk) (size : ℕ) (r : SpoolRow)
    → Unique (d.lines ++ record { content = row r; size = size } ∷ [])
    → UniqueRows (record d { tail = some (unended (record { content = row r; size = size })) })
unfolding repair_torn_tail repair_tail
unterminated-UniqueRows d size r h = h

module _ (size : SpoolRow → ℕ) (r : SpoolRow) (d : Disk) (clean : d.tail ≡ none)
    (new : any_key (row_key r) d.lines ≡ false) (h : Unique d.lines) where
  stamped : SpoolRow
  stamped = numbered (current_seq d + 1) r

  counted : Disk
  unfolding next_seq
  counted = (next_seq d).0

  rotated : Disk
  rotated = rotate (size stamped) counted

  line : Line
  line = record { content = row stamped; size = size stamped }

  rotated-Unique : Unique rotated.lines
  unfolding rotated counted next_seq
  rotated-Unique =
      let s = rotate_suffix (size stamped) counted in
      Unique-suffix s.0 rotated.lines (subst Unique (sym s.1) h)

  rotated_new : any_key (row_key r) rotated.lines ≡ false
  unfolding rotated counted next_seq
  rotated_new =
      let s = rotate_suffix (size stamped) counted in
      any_key-suffix (row_key r) s.0 rotated.lines (ap (any_key (row_key r)) s.1 ∙ new)

  rotated_clean : rotated.tail ≡ none
  unfolding rotated counted next_seq
  rotated_clean = rotate_tail (size stamped) counted ∙ clean

  written-Unique : Unique (rotated.lines ++ line ∷ [])
  unfolding line stamped
  written-Unique =
      Unique-append (current_seq d + 1) r (size stamped) rotated.lines rotated_new rotated-Unique

  append_new-UniqueRows : (fault : Fault) → UniqueRows (append_new size r fault d).0
  unfolding append_new next_seq rotated counted stamped line write_line
  append_new-UniqueRows no_fault =
      clean-UniqueRows (write_line line rotated) rotated_clean written-Unique
  append_new-UniqueRows at_lock = clean-UniqueRows d clean h
  append_new-UniqueRows after_repair = clean-UniqueRows d clean h
  append_new-UniqueRows after_sequence = clean-UniqueRows counted clean h
  append_new-UniqueRows after_rotation = clean-UniqueRows rotated rotated_clean rotated-Unique
  append_new-UniqueRows unterminated =
      unterminated-UniqueRows rotated (size stamped) stamped written-Unique
  append_new-UniqueRows after_write =
      clean-UniqueRows (write_line line rotated) rotated_clean written-Unique
  append_new-UniqueRows (torn n) = torn-UniqueRows rotated n rotated-Unique
  append_new-UniqueRows (torn_inside n) = undecodable-UniqueRows rotated n rotated-Unique

append_found-UniqueRows :
    (fault : Fault) (d : Disk) → UniqueRows d → UniqueRows (append_found fault d).0
unfolding append_found
append_found-UniqueRows no_fault d h = h
append_found-UniqueRows _ d h = h

append_repaired-UniqueRows :
    (size : SpoolRow → ℕ) (r : SpoolRow) (fault : Fault) (d : Disk)
    → d.tail ≡ none
    → Unique d.lines
    → UniqueRows (append_repaired size r fault d).0
unfolding append_repaired
append_repaired-UniqueRows size r fault d clean h =
    elim (Bool-cases (any_key (row_key r) d.lines)) [
      | inl e ↦
          rw (append_repaired, e) (append_found-UniqueRows fault d (clean-UniqueRows d clean h))
      | inr e ↦ rw (append_repaired, e) (append_new-UniqueRows size r d clean e h fault)
    ]

-- Appending keeps every message in the spool at most once, wherever the append raises.
pub append-UniqueRows :
    (size : SpoolRow → ℕ) (r : SpoolRow) (fault : Fault) (d : Disk)
    → UniqueRows d
    → UniqueRows (append size r fault d).0
unfolding append
append-UniqueRows size r at_lock d h = h
append-UniqueRows size r no_fault d h =
    append_repaired-UniqueRows size r no_fault _ (repaired_tail d) h
append-UniqueRows size r after_repair d h =
    append_repaired-UniqueRows size r after_repair _ (repaired_tail d) h
append-UniqueRows size r after_sequence d h =
    append_repaired-UniqueRows size r after_sequence _ (repaired_tail d) h
append-UniqueRows size r after_rotation d h =
    append_repaired-UniqueRows size r after_rotation _ (repaired_tail d) h
append-UniqueRows size r unterminated d h =
    append_repaired-UniqueRows size r unterminated _ (repaired_tail d) h
append-UniqueRows size r after_write d h =
    append_repaired-UniqueRows size r after_write _ (repaired_tail d) h
append-UniqueRows size r (torn n) d h =
    append_repaired-UniqueRows size r (torn n) _ (repaired_tail d) h
append-UniqueRows size r (torn_inside n) d h =
    append_repaired-UniqueRows size r (torn_inside n) _ (repaired_tail d) h
