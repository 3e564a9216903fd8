-- ===== src/Inbox/Spool/Sequence.antt =====
-- The sequence numbers of the spool rise, whatever faults an append meets.
pub mod Append
use telegram_presence.Base.{
  ℕ, zero, suc, ◌+◌, ◌-◌, ◌≤◌, ◌<◌, max, ◌≡◌, refl, sym, ap, ◌∙◌, subst, inl, inr, none, some, List,
  [], ◌∷◌, ◌++◌, arith, ltb, leb, Bool-cases, take, All, All-append,
}
use telegram_presence.Inbox.Spool.{
  SpoolRow, Content, row, keyless, garbage, Line, Disk, repair_tail, repair_torn_tail, seq_or,
  scan_seq, current_seq, next_seq, retain, rotate, max_spool_retain_rows, max_spool_bytes,
  total_bytes, Fault, no_fault, at_lock, after_repair, after_sequence, after_rotation, unterminated,
  after_write, torn, unended, undecodable, numbered, write_line, append_new, append_found,
  append_repaired, append, any_key, row_key,
}
use mathlib.Core.List.{reverse, reverse-append, reverse-reverse, append_assoc}

-- The sequence of a row, 0 for any other line.
unfoldable pub content_seq : Content → ℕ
content_seq (row r) = elim r.spool_seq [ none ↦ 0 | some n ↦ n ]
content_seq (keyless o) = 0
content_seq garbage = 0

unfoldable pub line_seq : Line → ℕ
unfolding content_seq
line_seq l = content_seq l.content

-- Every line is a row, with a greater sequence than those before it.
abbrev pub Ascending : ℕ → List Line → Type 0
Ascending low [] = Unit
Ascending low (l ∷ ls) = (low < line_seq l) × Ascending (line_seq l) ls

abbrev pub Upto : ℕ → List Line → Type 0
Upto n ls = All (λ l. line_seq l ≤ n) ls

-- The lines ascend up to a number.
abbrev pub Below : ℕ → List Line → Type 0
Below n ls = Ascending 0 ls × Upto n ls

-- No line is beyond the number that the next sequence is counted from.
abbrev pub Numbered : Disk → Type 0
Numbered d = Below (current_seq d) d.lines

-- So they do once a torn tail is repaired.
abbrev pub Sequenced : Disk → Type 0
Sequenced d = Numbered (repair_torn_tail d)

pub Upto-le : (m n : ℕ) (ls : List Line) → m ≤ n → Upto m ls → Upto n ls
Upto-le m n [] h u = tt
Upto-le m n (l ∷ ls) h u = (omega (arith, h, u.0), Upto-le m n ls h u.1)

Ascending-append :
    (low n : ℕ) (l : Line) (ls : List Line)
    → low ≤ n
    → n < line_seq l
    → Upto n ls
    → Ascending low ls
    → Ascending low (ls ++ l ∷ [])
Ascending-append low n l [] h k u a = (omega (arith, h, k), tt)
Ascending-append low n l (x ∷ ls) h k u a =
    (a.0, Ascending-append (line_seq x) n l ls u.0 k u.1 a.1)

Ascending-low : (low : ℕ) (ls : List Line) → Ascending low ls → Ascending 0 ls
Ascending-low low [] a = tt
Ascending-low low (l ∷ ls) a = (omega (arith, a.0), a.1)

Ascending-suffix : (low : ℕ) (p s : List Line) → Ascending low (p ++ s) → Ascending 0 s
Ascending-suffix low [] s a = Ascending-low low s a
Ascending-suffix low (l ∷ p) s a = Ascending-suffix (line_seq l) p s a.1

Upto-suffix : (n : ℕ) (p s : List Line) → Upto n (p ++ s) → Upto n s
Upto-suffix n [] s u = u
Upto-suffix n (l ∷ p) s u = Upto-suffix n p s u.1

-- What a loop that takes from the front leaves.
retain_prefix :
    (budget kept : ℕ) (ls : List Line) → (q : List Line) × (retain budget kept ls ++ q ≡ ls)
unfolding retain
retain_prefix budget kept [] = ([], refl)
retain_prefix budget kept (l ∷ ls) = elim (Bool-cases (ltb budget (kept + l.size))) [
  | inl e ↦ (l ∷ ls, rw (retain, e) refl)
  | inr e ↦
      let rest = retain_prefix budget (kept + l.size) ls in
      (rest.0, rw (retain, e) (ap (l ∷◌) rest.1))
]

take_prefix : (n : ℕ) (ls : List Line) → (q : List Line) × (take n ls ++ q ≡ ls)
take_prefix zero ls = (ls, refl)
take_prefix (suc n) [] = ([], refl)
take_prefix (suc n) (l ∷ ls) = let rest = take_prefix n ls in (rest.0, ap (l ∷◌) rest.1)

-- A front of the reversed lines is a back of the lines.
reversed_suffix :
    (front q ls : List Line) → front ++ q ≡ reverse ls → (p : List Line) × (p ++ reverse front ≡ ls)
reversed_suffix front q ls e =
    (reverse q, sym (reverse-append front q) ∙ (ap reverse e ∙ reverse-reverse ls))

pub rotate_suffix :
    (incoming : ℕ) (d : Disk) → (p : List Line) × (p ++ (rotate incoming d).lines ≡ d.lines)
unfolding rotate
rotate_suffix incoming d =
    elim (Bool-cases (leb (total_bytes d.lines + incoming) max_spool_bytes)) [
      | inl e ↦ ([], rw (rotate, e) refl)
      | inr e ↦
          let newest = take max_spool_retain_rows (reverse d.lines) in
          let front = retain (max_spool_bytes - incoming) 0 newest in
          let a = retain_prefix (max_spool_bytes - incoming) 0 newest in
          let b = take_prefix max_spool_retain_rows (reverse d.lines) in
          let whole = sym (append_assoc front a.0 b.0) ∙ (ap (λ z. z ++ b.0) a.1 ∙ b.1) in
          let back = reversed_suffix front (a.0 ++ b.0) d.lines whole in
          (back.0, rw (rotate, e) back.1)
    ]

pub Below-rotate : (n incoming : ℕ) (d : Disk) → Below n d.lines → Below n (rotate incoming d).lines
Below-rotate n incoming d h =
    let s = rotate_suffix incoming d in
    (
      Ascending-suffix 0 s.0 (rotate incoming d).lines (subst (Ascending 0) (sym s.1) h.0),
      Upto-suffix n s.0 (rotate incoming d).lines (subst (Upto n) (sym s.1) h.1),
    )

pub Below-append :
    (n : ℕ) (l : Line) (ls : List Line)
    → line_seq l ≡ n + 1
    → Below n ls
    → Below (n + 1) (ls ++ l ∷ [])
Below-append n l ls e h = (
  Ascending-append 0 n l ls (omega arith) (omega (arith, e)) h.1 h.0,
  All-append (λ x. line_seq x ≤ n + 1) ls (l ∷ []) (Upto-le n (n + 1) ls (omega arith) h.1)
      (omega (arith, e), tt),
)

pub repair_keeps_tail : (d : Disk) → d.tail ≡ none → repair_torn_tail d ≡ d
unfolding repair_torn_tail repair_tail
repair_keeps_tail d e = rw (repair_torn_tail, e) refl

-- The disk with new lines and a new number, its tail repaired.
pub repaired_tail : (d : Disk) → (repair_torn_tail d).tail ≡ none
unfolding repair_torn_tail repair_tail
repaired_tail d = ground arith

pub rotate_tail : (incoming : ℕ) (d : Disk) → (rotate incoming d).tail ≡ d.tail
unfolding rotate
rotate_tail incoming d = ground arith

pub rotate_seq : (incoming : ℕ) (d : Disk) → (rotate incoming d).last_seq ≡ d.last_seq
unfolding rotate
rotate_seq incoming d = ground arith

pub Sequenced-clean :
    (d : Disk) (n : ℕ) → d.tail ≡ none → d.last_seq ≡ some n → Below n d.lines → Sequenced d
unfolding repair_torn_tail repair_tail current_seq
Sequenced-clean d n e f h = rw (repair_torn_tail, e, current_seq, f) h

pub Sequenced-torn :
    (d : Disk) (n size : ℕ)
    → d.last_seq ≡ some n
    → Below n d.lines
    → Sequenced (record d { tail = some (unended (record { content = garbage; size = size })) })
unfolding repair_torn_tail repair_tail current_seq
Sequenced-torn d n size f h = rw (current_seq, f) h

pub Sequenced-undecodable :
    (d : Disk) (n size : ℕ)
    → d.last_seq ≡ some n
    → Below n d.lines
    → Sequenced (record d { tail = some (undecodable size) })
unfolding repair_torn_tail repair_tail current_seq
Sequenced-undecodable d n size f h = rw (current_seq, f) h

pub Sequenced-unterminated :
    (d : Disk) (n size : ℕ) (r : SpoolRow)
    → d.last_seq ≡ some n
    → Below n (d.lines ++ record { content = row r; size = size } ∷ [])
    → Sequenced (record d { tail = some (unended (record { content = row r; size = size })) })
unfolding repair_torn_tail repair_tail current_seq
Sequenced-unterminated d n size r f h = rw (current_seq, f) h
