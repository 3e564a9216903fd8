-- ===== src/Inbox/Reader/Paging.antt =====
-- Reading the spool page by page, from the oldest row on.
use telegram_presence.Base.{
  ℕ, zero, suc, ◌+◌, ◌*◌, ◌≤◌, ◌<◌, ◌≡◌, refl, sym, ap, ◌∙◌, subst, inl, inr, Bool, true, false,
  ◌&&◌, Option, none, some, List, [], ◌∷◌, ◌++◌, arith, ltb, if◌then◌else◌, lt→ltb, Bool-cases,
  length, take, drop, length-drop, take-append-drop,
}
use telegram_presence.Base.Text.{Text}
use telegram_presence.Inbox.Spool.{Content, row, keyless, garbage, Line, Disk, seq_or, read_lines}
use telegram_presence.Inbox.Spool.Sequence.{content_seq, line_seq, Ascending}
use telegram_presence.Inbox.Reader.{
  after_seq, is_after, in_chat, Entry, taken, collect, unread, pending,
}

-- The cursor behind a page: the sequence of its last entry.
unfoldable pub page_end : ℕ → List Entry → ℕ
page_end c [] = c
page_end c (e ∷ es) = page_end e.seq es

-- So many pages of a queue consumer, each from the cursor behind the one before.
unfoldable pub pages : ℕ → ℕ → Option Text → Disk → ℕ → List Entry
unfolding page_end pending
pages zero bound chat d c = []
pages (suc k) bound chat d c =
    let page = pending (after_seq c) bound chat true d in
    page ++ pages k bound chat d (page_end c page)

-- Whether an object is of the chat that is read.
wanted : Option Text → Content → Bool
wanted chat (row r) = in_chat chat r.chat
wanted chat (keyless o) = in_chat chat o.chat
wanted chat garbage = false

own_seq :
    (o : ℕ) (s : Option ℕ) (low : ℕ)
    → low < elim s [ none ↦ 0 | some n ↦ n ]
    → seq_or o s ≡ elim s [ none ↦ 0 | some n ↦ n ]
unfolding seq_or
own_seq o none low h = absurd (omega (arith, h))
own_seq o (some zero) low h = absurd (omega (arith, h))
own_seq o (some (suc n)) low h = refl

still_past : (c n s : ℕ) (w : Bool) → c < n → (ltb c s && w) ≡ false → (ltb n s && w) ≡ false
still_past c n s w h t = ground (arith, h, t)

fits {ℓ} : {A : Type ℓ} → (xs : List A) (m n : ℕ) → length xs ≤ n + m → length (drop n xs) ≤ m
fits xs m n h = omega (arith, h, length-drop n xs)

module _ (chat : Option Text) where
  -- An object with a sequence of its own is read by it.
  numbered_collect :
      (c low o : ℕ) (x : Content) (here next : List Entry)
      → low < content_seq x
      → collect (after_seq c) chat o x here next
        ≡ taken (ltb c (content_seq x) && wanted chat x) (content_seq x) x next
  unfolding collect content_seq is_after wanted
  numbered_collect c low o (row r) here next h =
      ap (λ s. taken (ltb c s && in_chat chat r.chat) s (row r) next)
        (own_seq (o + 1) r.spool_seq low h)
  numbered_collect c low o (keyless x) here next h = absurd (omega (arith, h))
  numbered_collect c low o garbage here next h = absurd (omega (arith, h))

  entry : Content → Entry
  entry x = record { seq = content_seq x; content = x }

  unread_step :
      (c low o : ℕ) (l : Line) (ls : List Line)
      → low < content_seq l.content
      → unread (after_seq c) chat o (l ∷ ls) ≡ (
          if ltb c (content_seq l.content) && wanted chat l.content
          then entry l.content ∷ unread (after_seq c) chat (o + 1) ls
          else unread (after_seq c) chat (o + 1) ls)
  unfolding unread taken entry
  unread_step c low o l ls h =
      numbered_collect c low o l.content (unread (after_seq c) chat o ls)
        (unread (after_seq c) chat (o + 1) ls) h

  -- Two cursors before every line read the same.
  same_unread :
      (c c' low o : ℕ) (ls : List Line)
      → Ascending low ls
      → c ≤ low
      → c' ≤ low
      → unread (after_seq c) chat o ls ≡ unread (after_seq c') chat o ls
  unfolding unread line_seq
  same_unread c c' low o [] a k k' = refl
  same_unread c c' low o (l ∷ ls) a k k' =
      let s = content_seq l.content in
      let rest =
        same_unread c c' s (o + 1) ls a.1 (omega (arith, a.0, k)) (omega (arith, a.0, k')) in
      let here : ltb c s ≡ true = lt→ltb c s (omega (arith, a.0, k)) in
      let there : ltb c' s ≡ true = lt→ltb c' s (omega (arith, a.0, k')) in
      unread_step c low o l ls a.0
      ∙ (rw (rest, here, there) refl ∙ sym (unread_step c' low o l ls a.0))

  unread_skip :
      (c low o : ℕ) (l : Line) (ls : List Line)
      → low < content_seq l.content
      → (ltb c (content_seq l.content) && wanted chat l.content) ≡ false
      → unread (after_seq c) chat o (l ∷ ls) ≡ unread (after_seq c) chat (o + 1) ls
  unread_skip c low o l ls h t = unread_step c low o l ls h ∙ rw t refl

  -- Behind the first entry that is read stand the others.
  unread_next :
      (c low o : ℕ) (ls : List Line) (e : Entry) (es : List Entry)
      → Ascending low ls
      → unread (after_seq c) chat o ls ≡ e ∷ es
      → (c < e.seq) × (unread (after_seq e.seq) chat o ls ≡ es)
  unfolding unread line_seq entry
  unread_next c low o [] e es a h = absurd cc
  unread_next c low o (l ∷ ls) e es a h =
      let s = content_seq l.content in
      let x = entry l.content in
      let here = sym (unread_step c low o l ls a.0) ∙ h in
      elim (Bool-cases (ltb c s && wanted chat l.content)) [
        | inl t ↦
            let split : x ∷ unread (after_seq c) chat (o + 1) ls ≡ e ∷ es = rw t at here in
            let head : x ≡ e = cc in
            let tail : unread (after_seq c) chat (o + 1) ls ≡ es = cc in
            let low_c : c < s = ground (arith, t) in
            let behind : unread (after_seq s) chat o (l ∷ ls) ≡ es =
              unread_skip s low o l ls a.0 (ground arith)
              ∙ (same_unread s c s (o + 1) ls a.1 (omega arith) (omega (arith, low_c)) ∙ tail) in
            subst (λ y. (c < y.seq) × (unread (after_seq y.seq) chat o (l ∷ ls) ≡ es)) head
              (low_c, behind)
        | inr t ↦
            let skipped : unread (after_seq c) chat (o + 1) ls ≡ e ∷ es = rw t at here in
            let rest = unread_next c s (o + 1) ls e es a.1 skipped in
            let past : (ltb e.seq s && wanted chat l.content) ≡ false =
              still_past c e.seq s (wanted chat l.content) rest.0 t in
            (rest.0, unread_skip e.seq low o l ls a.0 past ∙ rest.1)
      ]

  unread_page :
      (n c : ℕ) (ls : List Line) (es : List Entry)
      → Ascending 0 ls
      → unread (after_seq c) chat 0 ls ≡ es
      → unread (after_seq (page_end c (take n es))) chat 0 ls ≡ drop n es
  unfolding page_end
  unread_page zero c ls es a h = h
  unread_page (suc n) c ls [] a h = h
  unread_page (suc n) c ls (e ∷ es) a h =
      unread_page n e.seq ls es a (unread_next c 0 0 ls e es a h).1

  pages_from :
      (k n c : ℕ) (d : Disk) (es : List Entry)
      → Ascending 0 (read_lines d)
      → unread (after_seq c) chat 0 (read_lines d) ≡ es
      → length es ≤ k * n
      → pages k n chat d c ≡ es
  unfolding pages pending
  pages_from zero n c d [] a h b = refl
  pages_from zero n c d (e ∷ es) a h b = absurd (omega (arith, b))
  pages_from (suc k) n c d es a h b =
      let page : pending (after_seq c) n chat true d ≡ take n es = ap (take n) h in
      let rest =
        pages_from k n (page_end c (take n es)) d (drop n es) a
          (unread_page n c (read_lines d) es a h) (fits es (k * n) n (omega (arith, b))) in
      rw (pages, page) (ap (take n es ++◌) rest ∙ take-append-drop n es)

-- A queue consumer that reads pages of rows, oldest first, and continues each time behind the last row
-- of the page before, gets every unread row of its chat that can be read once and in order, if the spool's
-- sequences rise and its pages are enough for their number.
pub pages-unread :
    (chat : Option Text) (k n c : ℕ) (d : Disk)
    → Ascending 0 (read_lines d)
    → length (unread (after_seq c) chat 0 (read_lines d)) ≤ k * n
    → pages k n chat d c ≡ unread (after_seq c) chat 0 (read_lines d)
pages-unread chat k n c d a b =
    pages_from chat k n c d (unread (after_seq c) chat 0 (read_lines d)) a refl b
