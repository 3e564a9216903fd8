-- ===== src/GroupDelivery/Prune/Bounds.antt =====
-- What pruning removes and what it leaves.
use telegram_presence.Base.{
  ℕ, ◌+◌, ◌≤◌, ◌<◌, ◌≡◌, refl, ap, ◌∙◌, inl, inr, Bool, true, false, ◌&&◌, some, [], ◌∷◌, arith,
  ltb, leb, Bool-cases, length, keep, All,
}
use telegram_presence.Base.Text.{Text, text_eq, text_eq_iff, text_eq_refl}
use telegram_presence.Base.Sort.{Apart, sort, sort-All, sort-Apart, length-sort}
use telegram_presence.GroupDelivery.{Row}
use telegram_presence.GroupDelivery.Table.{Table, find}
use telegram_presence.GroupDelivery.Table.Laws.{Compatible, Compatible-symm, IsValid}
use telegram_presence.GroupDelivery.Prune.{
  Counts, terminal_row, newest_first, delete_terminal, prune_one, prune_each,
  prune_terminal_actions,
}

delete-All : (P : Row → Type 0) (id : Text) (t : Table) → All P t → All P (delete_terminal id t)
unfolding delete_terminal
delete-All P id [] h = tt
delete-All P id (r ∷ t) h = elim (Bool-cases (text_eq r.action_id id && terminal_row r)) [
  | inl e ↦ rw e (delete-All P id t h.1)
  | inr e ↦ rw e (h.0, delete-All P id t h.1)
]

delete-IsValid : (id : Text) (t : Table) → IsValid t → IsValid (delete_terminal id t)
unfolding delete_terminal
delete-IsValid id [] v = tt
delete-IsValid id (r ∷ t) v = elim (Bool-cases (text_eq r.action_id id && terminal_row r)) [
  | inl e ↦ rw e (delete-IsValid id t v.1)
  | inr e ↦ rw e (delete-All (Compatible r) id t v.0, delete-IsValid id t v.1)
]

-- A deletion leaves the rows of other ids, and the rows that are not terminal.
find-delete :
    (id j : Text) (t : Table) (r : Row)
    → find j t ≡ some r
    → (text_eq j id && terminal_row r) ≡ false
    → find j (delete_terminal id t) ≡ some r
unfolding delete_terminal find
find-delete id j [] r h f = cc
find-delete id j (q ∷ t) r h f = ground (
  arith,
  find-delete id j t r,
  text_eq_iff q.action_id j,
  text_eq_iff q.action_id id,
  text_eq_iff j id,
)

-- The number of terminal rows.
abbrev pub terminal_count : Table → ℕ
terminal_count t = length (keep terminal_row t)

delete_count : (id : Text) (t : Table) → terminal_count (delete_terminal id t) ≤ terminal_count t
unfolding delete_terminal
delete_count id [] = omega arith
delete_count id (q ∷ t) = ground (arith, delete_count id t)

delete_one :
    (id : Text) (t : Table) (r : Row)
    → find id t ≡ some r
    → terminal_row r ≡ true
    → terminal_count (delete_terminal id t) < terminal_count t
unfolding delete_terminal find
delete_one id [] r h f = cc
delete_one id (q ∷ t) r h f = elim (Bool-cases (text_eq q.action_id id)) [
  | inl e ↦
      let it : q ≡ r = ground arith in
      let ended : terminal_row q ≡ true = ap terminal_row it ∙ f in
      rw (e, ended) (omega (arith, delete_count id t))
  | inr e ↦ rw e (count_cons q t (delete_terminal id t) (delete_one id t r (ground arith) f))
]
  where
    count_cons :
        (q : Row) (t u : Table)
        → terminal_count u < terminal_count t
        → terminal_count (q ∷ u) < terminal_count (q ∷ t)
    count_cons q t u h = ground arith

-- A terminal row that the table holds under its id.
abbrev pub Listed : Table → Row → Type 0
Listed t r = (find r.action_id t ≡ some r) × (terminal_row r ≡ true)

Listed-delete :
    (r : Row) (t rs : Table)
    → All (Compatible r) rs
    → All (Listed t) rs
    → All (Listed (delete_terminal r.action_id t)) rs
Listed-delete r t [] c h = tt
Listed-delete r t (x ∷ rs) c h =
    let apart = Compatible-symm r x c.0 in
    let unlike = apart.0 in
    (
      (find-delete r.action_id x.action_id t x h.0.0 (ground arith), h.0.1),
      Listed-delete r t rs c.1 h.1,
    )

module _ (now retention max_rows : ℕ) where
  prune_each_lem :
      (rs : Table) (p : Counts)
      → IsValid p.0
      → Apart Compatible rs
      → All (Listed p.0) rs
      → p.1 ≤ max_rows
      → terminal_count p.0 ≤ p.1 + length rs
      → IsValid (prune_each now retention max_rows rs p).0
        × (terminal_count (prune_each now retention max_rows rs p).0 ≤ max_rows)
  unfolding prune_each prune_one
  prune_each_lem [] p v a l b n = (v, omega (arith, b, n))
  prune_each_lem (r ∷ rs) p v a l b n =
      elim (Bool-cases (leb now (r.updated_at + retention) && ltb p.1 max_rows)) [
        | inl e ↦
            rw (prune_each, e)
              (prune_each_lem rs (p.0, p.1 + 1, p.2) v a.1 l.1 (ground arith) (omega (arith, n)))
        | inr e ↦
            let fewer = delete_one r.action_id p.0 r l.0.0 l.0.1 in
            rw (prune_each, e)
              (prune_each_lem rs (delete_terminal r.action_id p.0, p.1, p.2 + 1)
                (delete-IsValid r.action_id p.0 v) a.1 (Listed-delete r p.0 rs a.0 l.1) b
                (omega (arith, n, fewer)))
      ]

  prune_each-active :
      (rs : Table) (p : Counts) (j : Text) (r : Row)
      → find j p.0 ≡ some r
      → terminal_row r ≡ false
      → find j (prune_each now retention max_rows rs p).0 ≡ some r
  unfolding prune_each prune_one
  prune_each-active [] p j r h f = h
  prune_each-active (x ∷ rs) p j r h f =
      elim (Bool-cases (leb now (x.updated_at + retention) && ltb p.1 max_rows)) [
        | inl e ↦ rw (prune_each, e) (prune_each-active rs (p.0, p.1 + 1, p.2) j r h f)
        | inr e ↦
            let kept = find-delete x.action_id j p.0 r h (ground arith) in
            rw (prune_each, e)
              (prune_each-active rs (delete_terminal x.action_id p.0, p.1, p.2 + 1) j r kept f)
      ]

keep-All : (P : Row → Type 0) (p : Row → Bool) (t : Table) → All P t → All P (keep p t)
keep-All P p [] h = tt
keep-All P p (r ∷ t) h = elim (Bool-cases (p r)) [
  | inl e ↦ rw e (h.0, keep-All P p t h.1)
  | inr e ↦ rw e (keep-All P p t h.1)
]

keep-IsValid : (p : Row → Bool) (t : Table) → IsValid t → IsValid (keep p t)
keep-IsValid p [] v = tt
keep-IsValid p (r ∷ t) v = elim (Bool-cases (p r)) [
  | inl e ↦ rw e (keep-All (Compatible r) p t v.0, keep-IsValid p t v.1)
  | inr e ↦ rw e (keep-IsValid p t v.1)
]

Listed-cons :
    (r : Row) (t rs : Table) → All (Compatible r) rs → All (Listed t) rs → All (Listed (r ∷ t)) rs
unfolding find
Listed-cons r t [] c h = tt
Listed-cons r t (x ∷ rs) c h = ((rw c.0.0 h.0.0, h.0.1), Listed-cons r t rs c.1 h.1)

terminal-Listed : (t : Table) → IsValid t → All (Listed t) (keep terminal_row t)
unfolding find
terminal-Listed [] v = tt
terminal-Listed (r ∷ t) v =
    let later =
      Listed-cons r t (keep terminal_row t) (keep-All (Compatible r) terminal_row t v.0)
        (terminal-Listed t v.1) in
    elim (Bool-cases (terminal_row r)) [
      | inl e ↦ rw e ((rw (text_eq_refl r.action_id) refl, e), later)
      | inr e ↦ rw e later
    ]

-- Pruning a valid table leaves a valid table with at most `max_rows` terminal rows.
pub prune_bounds :
    (now retention max_rows : ℕ) (t : Table)
    → IsValid t
    → IsValid (prune_terminal_actions now retention max_rows t).0
      × (terminal_count (prune_terminal_actions now retention max_rows t).0 ≤ max_rows)
unfolding prune_terminal_actions
prune_bounds now retention max_rows t v =
    let ended = keep terminal_row t in
    let rs = sort newest_first ended in
    let apart =
      sort-Apart newest_first Compatible Compatible-symm ended (keep-IsValid terminal_row t v) in
    let listed = sort-All newest_first (Listed t) ended (terminal-Listed t v) in
    prune_each_lem now retention max_rows rs (t, 0, 0) v apart listed (omega arith)
      (omega (arith, length-sort newest_first ended))

-- Pruning leaves every row that waits or is in flight as it is.
pub prune_active :
    (now retention max_rows : ℕ) (t : Table) (j : Text) (r : Row)
    → find j t ≡ some r
    → terminal_row r ≡ false
    → find j (prune_terminal_actions now retention max_rows t).0 ≡ some r
unfolding prune_terminal_actions
prune_active now retention max_rows t j r h f =
    prune_each-active now retention max_rows (sort newest_first (keep terminal_row t)) (t, 0, 0) j r
      h f
