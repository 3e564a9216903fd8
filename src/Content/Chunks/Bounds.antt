-- ===== src/Content/Chunks/Bounds.antt =====
-- No chunk is empty or over the limit.
use telegram_presence.Base.{
  ℕ, zero, suc, ◌≤◌, ◌<◌, ◌≡◌, refl, ◌∙◌, inl, inr, Bool, true, false, Option, List, [], ◌∷◌, arith,
  ltb, leb, if◌then◌else◌, ltb→lt, leb→le, Bool-cases, length, drop, length-take, length-drop, All,
  All-append, All-map,
}
use telegram_presence.Base.Text.{Text, codes, strip, is_empty}
use telegram_presence.Base.Result.{ok, err, value_error, ◌>>◌, raise_if}
use telegram_presence.Base.Int.{pos, negsuc}
use telegram_presence.Base.Value.{Value, null, other, boolean, int, float, str, mapping}
use telegram_presence.Content.Media.{positive}
use telegram_presence.Content.Chunks.{
  scan, at_start, paragraph_step, some_chars, words, hard_split, if_any, glued, grown, add_word,
  add_words, split_long_unit, Unit_, sentence_parts, part_units, sentence_units, sentences,
  paragraph_units, fill, chunks_of, checked_chunks, too_many, semantic_chunks,
}
use telegram_presence.Content.Chunks.Ink.{squeeze, ink, squeeze-strip}
use telegram_presence.Content.Chunks.Ink.Fill.{chunks_of-ink}

module _ (limit : ℕ) where
  abbrev pub Fits : Text → Type 0
  Fits t = (1 ≤ length t) × (length t ≤ limit)

  abbrev Short : Text → Type 0
  Short t = length t ≤ limit

  if_any-Fits : (t : Text) → Short t → All Fits (if_any t)
  unfolding if_any some_chars is_empty
  if_any-Fits [] h = tt
  if_any-Fits (c ∷ t) h = ((omega arith, h), tt)

  grown-Fits :
      (current separator t : Text)
      → Short current
      → Short t
      → All Fits (grown limit current separator t).0 × Short (grown limit current separator t).1
  unfolding grown
  grown-Fits current separator t h k =
      elim (Bool-cases (leb (length (glued current separator t)) limit)) [
        | inl e ↦ rw (grown, e) (tt, leb→le (length (glued current separator t)) limit e)
        | inr e ↦ rw (grown, e) (if_any-Fits current h, k)
      ]

  hard_split-Fits :
      (f : ℕ) (word : Text)
      → 1 ≤ limit
      → length word ≤ f
      → All Fits (hard_split f limit word).0 × Short (hard_split f limit word).1
  unfolding hard_split
  hard_split-Fits zero word p h = (tt, omega (arith, h))
  hard_split-Fits (suc f) word p h = elim (Bool-cases (ltb limit (length word))) [
    | inl e ↦
        let long : limit < length word = ltb→lt limit (length word) e in
        let rest =
          hard_split-Fits f (drop limit word) p (omega (arith, length-drop limit word, h, p)) in
        rw (hard_split, e)
          (
            (
              (
                omega (arith, length-take limit word, long, p),
                omega (arith, length-take limit word),
              ),
              rest.0,
            ),
            rest.1,
          )
    | inr e ↦ rw (hard_split, e) (tt, ground (arith, e))
  ]

  add_word-Fits :
      (current word : Text)
      → 1 ≤ limit
      → Short current
      → All Fits (add_word limit current word).0 × Short (add_word limit current word).1
  unfolding add_word
  add_word-Fits current word p h =
      let cut = hard_split-Fits (length word) word p (omega arith) in
      let base = kept (ltb limit (length word)) in
      let out =
        grown-Fits (if ltb limit (length word) then [] else current) (codes " ")
          (hard_split (length word) limit word).1 base.1 cut.1 in
      (All-append Fits _ _ (All-append Fits _ _ base.0 cut.0) out.0, out.1)
    where
      kept :
          (b : Bool)
          → All Fits (if b then if_any current else []) × Short (if b then [] else current)
      kept true = (if_any-Fits current h, omega arith)
      kept false = (tt, h)

  add_words-Fits :
      (current : Text) (ws : List Text)
      → 1 ≤ limit
      → Short current
      → All Fits (add_words limit current ws)
  unfolding add_words
  add_words-Fits current [] p h = if_any-Fits current h
  add_words-Fits current (w ∷ ws) p h =
      let out = add_word-Fits current w p h in
      All-append Fits (add_word limit current w).0 _ out.0
        (add_words-Fits (add_word limit current w).1 ws p out.1)

  sentence_parts-Short : (t : Text) → 1 ≤ limit → All Short (sentence_parts limit t)
  unfolding sentence_parts split_long_unit
  sentence_parts-Short t p = elim (Bool-cases (leb (length t) limit)) [
    | inl e ↦ rw (sentence_parts, e) (leb→le (length t) limit e, tt)
    | inr e ↦
        rw (sentence_parts, e)
          (All-map Fits Short (add_words limit [] (words t)) (λ x h. h.1)
            (add_words-Fits [] (words t) p (omega arith)))
  ]

  abbrev ShortUnits : List Unit_ → Type 0
  ShortUnits us = All (λ u. Short u.0) us

  part_units-ShortUnits :
      (separator : Text) (ps : List Text) → All Short ps → ShortUnits (part_units separator ps)
  unfolding part_units
  part_units-ShortUnits separator [] h = tt
  part_units-ShortUnits separator (t ∷ ps) h = (h.0, part_units-ShortUnits (codes " ") ps h.1)

  sentence_units-ShortUnits :
      (separator : Text) (ss : List Text)
      → 1 ≤ limit
      → ShortUnits (sentence_units limit separator ss)
  unfolding sentence_units
  sentence_units-ShortUnits separator [] p = tt
  sentence_units-ShortUnits separator (s ∷ ss) p =
      All-append (λ u. Short u.0) (part_units separator (sentence_parts limit s)) _
        (part_units-ShortUnits separator (sentence_parts limit s) (sentence_parts-Short s p))
        (sentence_units-ShortUnits (codes " ") ss p)

  paragraph_units-ShortUnits :
      (first : Bool) (made : List Unit_) (ps : List Text)
      → 1 ≤ limit
      → ShortUnits made
      → ShortUnits (paragraph_units limit first made ps)
  unfolding paragraph_units
  paragraph_units-ShortUnits first made [] p h = h
  paragraph_units-ShortUnits first made (t ∷ ps) p h =
      paragraph_units-ShortUnits false _ ps p
        (All-append (λ u. Short u.0) made _ h (sentence_units-ShortUnits _ (sentences (strip t)) p))

  fill-Fits :
      (current : Text) (us : List Unit_)
      → Short current
      → ShortUnits us
      → All Fits (fill limit current us)
  unfolding fill
  fill-Fits current [] h k = if_any-Fits current h
  fill-Fits current (u ∷ us) h k =
      let out = grown-Fits current u.1 u.0 h k.0 in
      All-append Fits (grown limit current u.1 u.0).0 _ out.0
        (fill-Fits (grown limit current u.1 u.0).1 us out.1 k.1)

  chunks_of-Fits : (t : Text) → 1 ≤ limit → All Fits (chunks_of limit t)
  unfolding chunks_of is_empty
  chunks_of-Fits [] p = tt
  chunks_of-Fits (c ∷ t) p = elim (Bool-cases (leb (length (c ∷ t)) limit)) [
    | inl e ↦ rw (chunks_of, e) ((omega arith, leb→le (length (c ∷ t)) limit e), tt)
    | inr e ↦
        rw (chunks_of, e)
          (fill-Fits [] _ (omega arith)
            (paragraph_units-ShortUnits true [] (scan paragraph_step at_start (c ∷ t)) p tt))
  ]

positive-le : (v : Value) (n : ℕ) → positive v ≡ ok n → 1 ≤ n
unfolding positive
positive-le (int (pos (suc m))) n e = let same : suc m ≡ n = cc in omega (arith, same)
positive-le (int (pos zero)) n e = absurd cc
positive-le (int (negsuc m)) n e = absurd cc
positive-le null n e = absurd cc
positive-le other n e = absurd cc
positive-le (boolean b) n e = absurd cc
positive-le (float x) n e = absurd cc
positive-le (str t) n e = absurd cc
positive-le (mapping t) n e = absurd cc

-- With limits that are positive, a text is split into chunks that are not empty and within the limit,
-- and that hold every code point of the text that is not white space, in order; they are returned,
-- unless they are more than the bound on their number, and then a ValueError says so.
pub semantic_chunks_total :
    (text : Text) (max_chars max_chunks : Value) (limit : ℕ) (most : Option ℕ)
    → positive max_chars ≡ ok limit
    → checked_chunks max_chunks ≡ ok most
    → (chunks : List Text) × (All (Fits limit) chunks
        × (ink chunks ≡ squeeze text)
        × (semantic_chunks text max_chars max_chunks
            ≡ (if too_many most chunks then err value_error else ok chunks)))
unfolding semantic_chunks
semantic_chunks_total text max_chars max_chunks limit most e f =
    let chunks = chunks_of limit (strip text) in
    (
      chunks,
      (
        chunks_of-Fits limit (strip text) (positive-le max_chars limit e),
        chunks_of-ink limit (strip text) ∙ squeeze-strip text,
        rw (semantic_chunks, e, f) (raised (too_many most chunks)),
      ),
    )
  where
    raised :
        (b : Bool)
        → (raise_if b value_error >> ok (chunks_of limit (strip text)))
          ≡ (if b then err value_error else ok (chunks_of limit (strip text)))
    raised true = refl
    raised false = refl
