-- ===== src/Content/Chunks/Ink/Fill.antt =====
-- Filling keeps what the words, the sentences and the paragraphs hold.
use telegram_presence.Base.{
  ℕ, zero, suc, ◌≡◌, refl, sym, ap, ◌∙◌, subst, inl, inr, Bool, true, false, List, [], ◌∷◌, ◌++◌,
  map, ltb, leb, if◌then◌else◌, Bool-cases, length, take, drop, take-append-drop, All,
}
use telegram_presence.Base.Text.{Text, codes, strip, is_empty, is_space}
use telegram_presence.Content.Chunks.{
  scan, at_start, paragraph_step, some_chars, words, hard_split, if_any, glued, grown, add_word,
  add_words, split_long_unit, Unit_, sentence_parts, part_units, sentence_units, sentences,
  is_none_yet, paragraph_units, fill, chunks_of,
}
use mathlib.Core.List.{append_assoc, append-nil}
use telegram_presence.Content.Chunks.Ink.{
  squeeze, ink, squeeze-append, ink-append, squeeze-strip, scan-ink, paragraph_step-Keeps,
  words-ink, sentences-ink,
}

if_any-ink : (t : Text) → ink (if_any t) ≡ squeeze t
unfolding if_any some_chars is_empty ink squeeze
if_any-ink [] = refl
if_any-ink (c ∷ t) = append-nil (squeeze (c ∷ t))

squeeze-cut : (n : ℕ) (t : Text) → squeeze (take n t) ++ squeeze (drop n t) ≡ squeeze t
squeeze-cut n t = sym (squeeze-append (take n t) (drop n t)) ∙ ap squeeze (take-append-drop n t)

hard_split-ink :
    (f limit : ℕ) (word : Text)
    → ink (hard_split f limit word).0 ++ squeeze (hard_split f limit word).1 ≡ squeeze word
unfolding hard_split ink
hard_split-ink zero limit word = refl
hard_split-ink (suc f) limit word = elim (Bool-cases (ltb limit (length word))) [
  | inl e ↦
      let rest = hard_split f limit (drop limit word) in
      rw (hard_split, e)
        (append_assoc (squeeze (take limit word)) (ink rest.0) (squeeze rest.1)
          ∙ (ap (λ z. squeeze (take limit word) ++ z) (hard_split-ink f limit (drop limit word))
              ∙ squeeze-cut limit word))
  | inr e ↦ rw (hard_split, e) refl
]

-- A separator that is white space.
abbrev Blank : Text → Type 0
Blank t = squeeze t ≡ []

glued-ink :
    (current separator t : Text)
    → Blank separator
    → squeeze (glued current separator t) ≡ squeeze current ++ squeeze t
unfolding glued squeeze
glued-ink [] separator t b = refl
glued-ink (c ∷ s) separator t b =
    squeeze-append ((c ∷ s) ++ separator) t
    ∙ ap (λ z. z ++ squeeze t)
        (squeeze-append (c ∷ s) separator
          ∙ (ap (λ z. squeeze (c ∷ s) ++ z) b ∙ append-nil (squeeze (c ∷ s))))

grown-ink :
    (limit : ℕ) (current separator t : Text)
    → Blank separator
    → ink (grown limit current separator t).0 ++ squeeze (grown limit current separator t).1
      ≡ squeeze current ++ squeeze t
unfolding grown ink
grown-ink limit current separator t b =
    elim (Bool-cases (leb (length (glued current separator t)) limit)) [
      | inl e ↦ rw (grown, e) (glued-ink current separator t b)
      | inr e ↦ rw (grown, e) (ap (λ z. z ++ squeeze t) (if_any-ink current))
    ]

hard_split_short :
    (f limit : ℕ) (word : Text)
    → ltb limit (length word) ≡ false
    → hard_split f limit word ≡ ([], word)
unfolding hard_split
hard_split_short zero limit word e = refl
hard_split_short (suc f) limit word e = rw (hard_split, e) refl

space-Blank : Blank (codes " ")
unfolding squeeze is_space
space-Blank = refl

add_word-ink :
    (limit : ℕ) (current word : Text)
    → ink (add_word limit current word).0 ++ squeeze (add_word limit current word).1
      ≡ squeeze current ++ squeeze word
unfolding add_word ink
add_word-ink limit current word = elim (Bool-cases (ltb limit (length word))) [
  | inl e ↦
      let cut = hard_split (length word) limit word in
      let out = grown limit [] (codes " ") cut.1 in
      let first =
        ink-append (if_any current ++ cut.0) out.0
        ∙ ap (λ z. z ++ ink out.0)
            (ink-append (if_any current) cut.0 ∙ ap (λ z. z ++ ink cut.0) (if_any-ink current)) in
      let last : ink out.0 ++ squeeze out.1 ≡ squeeze cut.1 =
        grown-ink limit [] (codes " ") cut.1 space-Blank in
      rw (add_word, e)
        (ap (λ z. z ++ squeeze out.1) first
          ∙ (append_assoc (squeeze current ++ ink cut.0) (ink out.0) (squeeze out.1)
              ∙ (ap (λ z. (squeeze current ++ ink cut.0) ++ z) last
                  ∙ (append_assoc (squeeze current) (ink cut.0) (squeeze cut.1)
                      ∙ ap (λ z. squeeze current ++ z) (hard_split-ink (length word) limit word)))))
  | inr e ↦
      rw (add_word, e, hard_split_short (length word) limit word e)
        (grown-ink limit current (codes " ") word space-Blank)
]

add_words-ink :
    (limit : ℕ) (current : Text) (ws : List Text)
    → ink (add_words limit current ws) ≡ squeeze current ++ ink ws
unfolding add_words ink
add_words-ink limit current [] = if_any-ink current ∙ sym (append-nil (squeeze current))
add_words-ink limit current (w ∷ ws) =
    let out = add_word limit current w in
    ink-append out.0 (add_words limit out.1 ws)
    ∙ (ap (λ z. ink out.0 ++ z) (add_words-ink limit out.1 ws)
        ∙ (sym (append_assoc (ink out.0) (squeeze out.1) (ink ws))
            ∙ (ap (λ z. z ++ ink ws) (add_word-ink limit current w)
                ∙ append_assoc (squeeze current) (squeeze w) (ink ws))))

sentence_parts-ink : (limit : ℕ) (t : Text) → ink (sentence_parts limit t) ≡ squeeze t
unfolding sentence_parts split_long_unit ink
sentence_parts-ink limit t = elim (Bool-cases (leb (length t) limit)) [
  | inl e ↦ rw (sentence_parts, e) (append-nil (squeeze t))
  | inr e ↦ rw (sentence_parts, e) (add_words-ink limit [] (words t) ∙ words-ink t)
]

-- Units with separators that are white space.
abbrev pub Separated : List Unit_ → Type 0
Separated us = All (λ u. Blank u.1) us

unfoldable pub texts : List Unit_ → List Text
texts us = map (λ u. u.0) us

fill-ink :
    (limit : ℕ) (current : Text) (us : List Unit_)
    → Separated us
    → ink (fill limit current us) ≡ squeeze current ++ ink (texts us)
unfolding fill ink texts
fill-ink limit current [] b = if_any-ink current ∙ sym (append-nil (squeeze current))
fill-ink limit current (u ∷ us) b =
    let out = grown limit current u.1 u.0 in
    ink-append out.0 (fill limit out.1 us)
    ∙ (ap (λ z. ink out.0 ++ z) (fill-ink limit out.1 us b.1)
        ∙ (sym (append_assoc (ink out.0) (squeeze out.1) (ink (texts us)))
            ∙ (ap (λ z. z ++ ink (texts us)) (grown-ink limit current u.1 u.0 b.0)
                ∙ append_assoc (squeeze current) (squeeze u.0) (ink (texts us)))))

-- What a list of units has: the given ink, and white space between.
abbrev Holds : List Unit_ → Text → Type 0
Holds us t = (ink (texts us) ≡ t) × Separated us

Holds-append :
    (us vs : List Unit_) (s t : Text) → Holds us s → Holds vs t → Holds (us ++ vs) (s ++ t)
unfolding ink texts
Holds-append [] vs s t h k = (k.0 ∙ ap (λ z. z ++ t) h.0, k.1)
Holds-append (u ∷ us) vs s t h k =
    let rest = Holds-append us vs (ink (texts us)) t (refl, h.1.1) k in
    (
      ap (λ z. squeeze u.0 ++ z) rest.0
          ∙ (sym (append_assoc (squeeze u.0) (ink (texts us)) t) ∙ ap (λ z. z ++ t) h.0),
      (h.1.0, rest.1),
    )

part_units-Holds :
    (separator : Text) (ps : List Text) → Blank separator → Holds (part_units separator ps) (ink ps)
unfolding part_units ink texts
part_units-Holds separator [] b = (refl, tt)
part_units-Holds separator (p ∷ ps) b =
    let rest = part_units-Holds (codes " ") ps space-Blank in
    (ap (λ z. squeeze p ++ z) rest.0, (b, rest.1))

sentence_units-Holds :
    (limit : ℕ) (separator : Text) (ss : List Text)
    → Blank separator
    → Holds (sentence_units limit separator ss) (ink ss)
unfolding sentence_units ink texts
sentence_units-Holds limit separator [] b = (refl, tt)
sentence_units-Holds limit separator (s ∷ ss) b =
    subst (λ z. Holds (sentence_units limit separator (s ∷ ss)) (z ++ ink ss))
      (sentence_parts-ink limit s)
      (Holds-append (part_units separator (sentence_parts limit s))
        (sentence_units limit (codes " ") ss) (ink (sentence_parts limit s)) (ink ss)
        (part_units-Holds separator (sentence_parts limit s) b)
        (sentence_units-Holds limit (codes " ") ss space-Blank))

separator-Blank : (a b : Bool) → Blank (if a then [] else if b then codes " " else codes "\n\n")
unfolding squeeze is_space
separator-Blank true b = refl
separator-Blank false true = refl
separator-Blank false false = refl

paragraph_units-Holds :
    (limit : ℕ) (first : Bool) (made : List Unit_) (s : Text) (ps : List Text)
    → Holds made s
    → Holds (paragraph_units limit first made ps) (s ++ ink ps)
unfolding paragraph_units ink
paragraph_units-Holds limit first made s [] h = subst (Holds made) (sym (append-nil s)) h
paragraph_units-Holds limit first made s (p ∷ ps) h =
    let separator = if is_none_yet made then [] else if first then codes " " else codes "\n\n" in
    let us = sentence_units limit separator (sentences (strip p)) in
    let same : ink (sentences (strip p)) ≡ squeeze p = sentences-ink (strip p) ∙ squeeze-strip p in
    let here : Holds us (squeeze p) = subst (Holds us) same (
      sentence_units-Holds limit separator (sentences (strip p))
        (separator-Blank (is_none_yet made) first)) in
    subst (Holds (paragraph_units limit first made (p ∷ ps))) (append_assoc s (squeeze p) (ink ps))
      (paragraph_units-Holds limit false (made ++ us) (s ++ squeeze p) ps
        (Holds-append made us s (squeeze p) h here))

-- The chunks hold what the text holds beside white space.
pub chunks_of-ink : (limit : ℕ) (t : Text) → ink (chunks_of limit t) ≡ squeeze t
unfolding chunks_of is_empty squeeze ink texts
chunks_of-ink limit [] = refl
chunks_of-ink limit (c ∷ t) = elim (Bool-cases (leb (length (c ∷ t)) limit)) [
  | inl e ↦ rw (chunks_of, e) (append-nil (squeeze (c ∷ t)))
  | inr e ↦
      let pieces = scan paragraph_step at_start (c ∷ t) in
      let units = paragraph_units-Holds limit true [] [] pieces (refl, tt) in
      rw (chunks_of, e)
        (fill-ink limit [] (paragraph_units limit true [] pieces) units.1
          ∙ (units.0 ∙ scan-ink paragraph_step paragraph_step-Keeps at_start (c ∷ t)))
]
