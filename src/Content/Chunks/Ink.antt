-- ===== src/Content/Chunks/Ink.antt =====
-- Chunks keep every code point that is not white space, in order.
pub mod Fill
use telegram_presence.Base.{
  ℕ, zero, suc, ◌≡◌, refl, sym, ap, ◌∙◌, subst, inl, inr, Bool, true, false, not, ◌&&◌, ◌||◌, List,
  [], ◌∷◌, ◌++◌, map, arith, ltb, leb, ◌==◌, if◌then◌else◌, Bool-cases, length, take, drop,
  take-append-drop, keep, All,
}
use telegram_presence.Base.Text.{
  Text, codes, strip, is_empty, is_space, lstrip_by, rstrip_by, rstrip_put,
}
use telegram_presence.Content.Chunks.{
  Scan, Splitter, scan, at_start, read, behind_cut, sentence_step, breaks, paragraph_step,
  word_step, some_chars, words, hard_split, if_any, glued, grown, add_word, add_words,
  split_long_unit, Unit_, sentence_parts, part_units, sentence_units, sentences, is_none_yet,
  paragraph_units, fill, chunks_of,
}
use mathlib.Core.List.{append_assoc, append-nil}

-- A text without its white space.
unfoldable pub squeeze : Text → Text
squeeze t = keep (λ c. not (is_space c)) t

-- What some texts hold beside white space.
unfoldable pub ink : List Text → Text
unfolding squeeze
ink [] = []
ink (t ∷ ts) = squeeze t ++ ink ts

pub squeeze-append : (s t : Text) → squeeze (s ++ t) ≡ squeeze s ++ squeeze t
unfolding squeeze
squeeze-append [] t = refl
squeeze-append (c ∷ s) t = elim (Bool-cases (is_space c)) [
  | inl e ↦ rw e (squeeze-append s t)
  | inr e ↦ rw e (ap (c ∷◌) (squeeze-append s t))
]

pub ink-append : (xs ys : List Text) → ink (xs ++ ys) ≡ ink xs ++ ink ys
unfolding ink
ink-append [] ys = refl
ink-append (x ∷ xs) ys =
    ap (λ z. squeeze x ++ z) (ink-append xs ys) ∙ sym (append_assoc (squeeze x) (ink xs) (ink ys))

squeeze-lstrip : (t : Text) → squeeze (lstrip_by is_space t) ≡ squeeze t
unfolding squeeze lstrip_by
squeeze-lstrip [] = refl
squeeze-lstrip (c ∷ t) = elim (Bool-cases (is_space c)) [
  | inl e ↦ rw e (squeeze-lstrip t)
  | inr e ↦ rw e (rw e refl)
]

squeeze-rstrip_put : (c : ℕ) (t : Text) → squeeze (rstrip_put is_space c t) ≡ squeeze (c ∷ t)
unfolding squeeze rstrip_put
squeeze-rstrip_put c [] = elim (Bool-cases (is_space c)) [
  | inl e ↦ rw e refl
  | inr e ↦ rw e (rw e refl)
]
squeeze-rstrip_put c (d ∷ t) = refl

squeeze-rstrip : (t : Text) → squeeze (rstrip_by is_space t) ≡ squeeze t
unfolding rstrip_by
squeeze-rstrip [] = refl
squeeze-rstrip (c ∷ t) =
    squeeze-rstrip_put c (rstrip_by is_space t)
    ∙ (squeeze-append (c ∷ []) (rstrip_by is_space t)
        ∙ (ap (λ z. squeeze (c ∷ []) ++ z) (squeeze-rstrip t) ∙ sym (squeeze-append (c ∷ []) t)))

pub squeeze-strip : (t : Text) → squeeze (strip t) ≡ squeeze t
unfolding strip
squeeze-strip t = squeeze-rstrip (lstrip_by is_space t) ∙ squeeze-lstrip t

ink-strip : (ts : List Text) → ink (map strip ts) ≡ ink ts
unfolding ink
ink-strip [] = refl
ink-strip (t ∷ ts) = rw (squeeze-strip t, ink-strip ts) refl

ink-some_chars : (ts : List Text) → ink (keep some_chars ts) ≡ ink ts
unfolding ink some_chars is_empty squeeze
ink-some_chars [] = refl
ink-some_chars ([] ∷ ts) = ink-some_chars ts
ink-some_chars ((c ∷ t) ∷ ts) = ap (λ z. squeeze (c ∷ t) ++ z) (ink-some_chars ts)

-- A splitter that drops white space only.
abbrev pub Keeps : Splitter → Type 0
Keeps step =
    (s : Scan) (c : ℕ) (t : Text)
    → ink (step s c t).0 ++ squeeze (step s c t).1.piece ≡ squeeze s.piece ++ squeeze (c ∷ [])

pub scan-ink :
    (step : Splitter)
    → Keeps step
    → (s : Scan) (t : Text) → ink (scan step s t) ≡ squeeze s.piece ++ squeeze t
unfolding scan ink
scan-ink step k s [] = refl
scan-ink step k s (c ∷ t) =
    let out = step s c t in
    ink-append out.0 (scan step out.1 t)
    ∙ (ap (λ z. ink out.0 ++ z) (scan-ink step k out.1 t)
        ∙ (sym (append_assoc (ink out.0) (squeeze out.1.piece) (squeeze t))
            ∙ (ap (λ z. z ++ squeeze t) (k s c t)
                ∙ (append_assoc (squeeze s.piece) (squeeze (c ∷ [])) (squeeze t)
                    ∙ ap (λ z. squeeze s.piece ++ z) (sym (squeeze-append (c ∷ []) t))))))

squeeze-space : (c : ℕ) → is_space c ≡ true → squeeze (c ∷ []) ≡ []
unfolding squeeze
squeeze-space c e = rw e refl

squeeze-char : (c : ℕ) → is_space c ≡ false → squeeze (c ∷ []) ≡ c ∷ []
unfolding squeeze
squeeze-char c e = rw e refl

-- A code point that is read, dropped, or the end of a piece.
read-Keeps : (s : Scan) (c : ℕ) → squeeze (read c s).piece ≡ squeeze s.piece ++ squeeze (c ∷ [])
unfolding read
read-Keeps s c = squeeze-append s.piece (c ∷ [])

dropped :
    (s : Scan) (c : ℕ) → is_space c ≡ true → squeeze s.piece ≡ squeeze s.piece ++ squeeze (c ∷ [])
dropped s c e =
    sym (append-nil (squeeze s.piece)) ∙ ap (λ z. squeeze s.piece ++ z) (sym (squeeze-space c e))

ended :
    (s : Scan) (c : ℕ)
    → is_space c ≡ true
    → ink (s.piece ∷ []) ++ [] ≡ squeeze s.piece ++ squeeze (c ∷ [])
unfolding ink
ended s c e =
    append-nil (squeeze s.piece ++ []) ∙ ap (λ z. squeeze s.piece ++ z) (sym (squeeze-space c e))

cut-Keeps :
    (s : Scan) (c : ℕ)
    → is_space c ≡ true
    → ink (s.piece ∷ []) ++ squeeze behind_cut.piece ≡ squeeze s.piece ++ squeeze (c ∷ [])
unfolding squeeze
cut-Keeps s c e = ended s c e

sentence_step-Keeps : Keeps sentence_step
unfolding sentence_step ink
sentence_step-Keeps s c t = elim (Bool-cases (is_space c && s.skipping)) [
  | inl e ↦ rw (sentence_step, e) (dropped s c (ground (arith, e)))
  | inr e ↦ elim (Bool-cases (is_space c && s.ended)) [
    | inl f ↦ rw (sentence_step, e, f) (cut-Keeps s c (ground (arith, f)))
    | inr f ↦ rw (sentence_step, e, f) (read-Keeps s c)
  ]
]

line_feed : (c : ℕ) → (c == 10) ≡ true → is_space c ≡ true
unfolding is_space
line_feed c e = ground (arith, e)

pub paragraph_step-Keeps : Keeps paragraph_step
unfolding paragraph_step ink
paragraph_step-Keeps s c t =
    elim (Bool-cases (is_space c && s.skipping && ((c == 10) || breaks t))) [
      | inl e ↦ rw (paragraph_step, e) (dropped s c (ground (arith, e)))
      | inr e ↦ elim (Bool-cases ((c == 10) && breaks t)) [
        | inl f ↦ rw (paragraph_step, e, f) (cut-Keeps s c (line_feed c (ground (arith, f))))
        | inr f ↦ rw (paragraph_step, e, f) (read-Keeps s c)
      ]
    ]

word_step-Keeps : Keeps word_step
unfolding word_step ink
word_step-Keeps s c t = elim (Bool-cases (is_space c)) [
  | inl e ↦ rw (word_step, e) (append-nil (squeeze s.piece ++ []))
  | inr e ↦ rw (word_step, e) (read-Keeps s c ∙ ap (λ z. squeeze s.piece ++ z) (squeeze-char c e))
]

pub words-ink : (t : Text) → ink (words t) ≡ squeeze t
unfolding words squeeze
words-ink t =
    ink-some_chars (scan word_step at_start t) ∙ scan-ink word_step word_step-Keeps at_start t

pub sentences-ink : (t : Text) → ink (sentences t) ≡ squeeze t
unfolding sentences squeeze
sentences-ink t =
    ink-some_chars (map strip (scan sentence_step at_start t))
    ∙ (ink-strip (scan sentence_step at_start t)
        ∙ scan-ink sentence_step sentence_step-Keeps at_start t)
