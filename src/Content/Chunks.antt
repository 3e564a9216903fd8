-- ===== src/Content/Chunks.antt =====
-- `semantic_chunks` of telegram_presence/content.py and what it calls.
pub mod Ink
pub mod Bounds
mod Tests
use telegram_presence.Base.{
  ℕ, zero, suc, ◌+◌, ◌-◌, ◌*◌, ◌/◌, ◌%◌, ◌^◌, ◌≤◌, ◌<◌, min, max, ◌≡◌, refl, sym, ap, ◌∙◌, subst,
  ◌≢◌, ◌↔◌, ◌⊎◌, inl, inr, Bool, true, false, not, ◌&&◌, ◌||◌, Option, none, some, List, [], ◌∷◌,
  ◌++◌, map, arith, ltb, leb, ◌==◌, if◌then◌else◌, ltb→lt, lt→ltb, leb→le, ==_iff, Bool-cases,
  Option-cases, is_none, is_some, length, length-append, take, drop, length-take, length-drop,
  take-all, keep, length-keep-le, All, All-append, All-map,
}
use telegram_presence.Base.Text.{Text, codes, strip, is_empty, is_space}
use telegram_presence.Base.Result.{Result, ok, err, value_error, ◌>>=◌, ◌>>◌, raise_if}
use telegram_presence.Base.Value.{Value, null}
use telegram_presence.Content.Media.{positive}

-- What a scan has read of the piece that it is in.
pub record Scan : Type 0 where
  pub piece : Text
  pub ended : Bool
  pub skipping : Bool

-- The pieces that a scan splits off, by one code point and the text behind it.
abbrev pub Splitter : Type 0
Splitter = Scan → ℕ → Text → List Text × Scan

unfoldable pub scan : Splitter → Scan → Text → List Text
scan step s [] = s.piece ∷ []
scan step s (c ∷ t) = let out = step s c t in out.0 ++ scan step out.1 t

abbrev pub at_start : Scan
at_start = record { piece = []; ended = false; skipping = false }

-- `[.!?…]`
unfoldable pub is_end : ℕ → Bool
is_end c = (c == b'.') || (c == b'!') || (c == b'?') || (c == 0x2026)

unfoldable pub read : ℕ → Scan → Scan
unfolding is_end
read c s = record { piece = s.piece ++ c ∷ []; ended = is_end c; skipping = false }

abbrev pub behind_cut : Scan
behind_cut = record { piece = []; ended = false; skipping = true }

-- Splitting at `(?<=[.!?…])\s+`
unfoldable pub sentence_step : Splitter
unfolding read
sentence_step s c t =
    if is_space c && s.skipping
    then ([], s)
    else if is_space c && s.ended
    then (s.piece ∷ [], behind_cut)
    else ([], read c s)

-- Whether the white space at the front of a text has a line feed.
unfoldable pub breaks : Text → Bool
breaks [] = false
breaks (c ∷ t) = let rest = breaks t in is_space c && ((c == 10) || rest)

-- Splitting at `\n\s*\n+`
unfoldable pub paragraph_step : Splitter
unfolding read breaks
paragraph_step s c t =
    if is_space c && s.skipping && ((c == 10) || breaks t)
    then ([], s)
    else if (c == 10) && breaks t
    then (s.piece ∷ [], behind_cut)
    else ([], read c s)

-- Splitting at white space, with empty pieces
unfoldable pub word_step : Splitter
unfolding read
word_step s c t = if is_space c then (s.piece ∷ [], at_start) else ([], read c s)

unfoldable pub some_chars : Text → Bool
some_chars t = not (is_empty t)

-- `text.split()`
unfoldable pub words : Text → List Text
unfolding scan word_step some_chars
words t = keep some_chars (scan word_step at_start t)

-- The loop that cuts a word that is too long, and what it leaves of it; the fuel is the word's length.
unfoldable pub hard_split : ℕ → ℕ → Text → List Text × Text
hard_split zero limit word = ([], word)
hard_split (suc f) limit word =
    let rest = hard_split f limit (drop limit word) in
    if ltb limit (length word) then (take limit word ∷ rest.0, rest.1) else ([], word)

-- `[current] if current else []`
unfoldable pub if_any : Text → List Text
unfolding some_chars
if_any t = if some_chars t then t ∷ [] else []

unfoldable pub glued : Text → Text → Text → Text
glued [] separator t = t
glued (c ∷ s) separator t = c ∷ s ++ separator ++ t

-- The next text to grow, with the chunk that is finished if `t` does not fit on it.
unfoldable pub grown : ℕ → Text → Text → Text → List Text × Text
unfolding glued if_any
grown limit current separator t =
    if leb (length (glued current separator t)) limit
    then ([], glued current separator t)
    else (if_any current, t)

-- One round of the loop over the words
unfoldable pub add_word : ℕ → Text → Text → List Text × Text
unfolding hard_split grown if_any
add_word limit current word =
    let cut = hard_split (length word) limit word in
    let before = if ltb limit (length word) then if_any current else [] in
    let base = if ltb limit (length word) then [] else current in
    let out = grown limit base (codes " ") cut.1 in (before ++ cut.0 ++ out.0, out.1)

unfoldable pub add_words : ℕ → Text → List Text → List Text
unfolding add_word if_any
add_words limit current [] = if_any current
add_words limit current (w ∷ ws) =
    let out = add_word limit current w in out.0 ++ add_words limit out.1 ws

-- `_split_long_unit`
unfoldable pub split_long_unit : Text → ℕ → List Text
unfolding words add_words
split_long_unit text limit = add_words limit [] (words text)

-- A unit with the separator that stands before it.
abbrev pub Unit_ : Type 0
Unit_ = Text × Text

unfoldable pub sentence_parts : ℕ → Text → List Text
unfolding split_long_unit
sentence_parts limit sentence =
    if leb (length sentence) limit then sentence ∷ [] else split_long_unit sentence limit

unfoldable pub part_units : Text → List Text → List Unit_
part_units separator [] = []
part_units separator (p ∷ ps) = (p, separator) ∷ part_units (codes " ") ps

-- The units of a paragraph's sentences; `separator` is the one before the first, which has a part.
unfoldable pub sentence_units : ℕ → Text → List Text → List Unit_
unfolding part_units sentence_parts
sentence_units limit separator [] = []
sentence_units limit separator (s ∷ ss) =
    part_units separator (sentence_parts limit s) ++ sentence_units limit (codes " ") ss

unfoldable pub sentences : Text → List Text
unfolding scan sentence_step some_chars
sentences paragraph = keep some_chars (map strip (scan sentence_step at_start paragraph))

unfoldable pub is_none_yet : List Unit_ → Bool
is_none_yet [] = true
is_none_yet (u ∷ us) = false

-- The units of the paragraphs, behind those that were made; `first` says that the paragraph is the first
-- piece of the split.
unfoldable pub paragraph_units : ℕ → Bool → List Unit_ → List Text → List Unit_
unfolding sentence_units sentences is_none_yet
paragraph_units limit first made [] = made
paragraph_units limit first made (p ∷ ps) =
    let separator = if is_none_yet made then [] else if first then codes " " else codes "\n\n" in
    paragraph_units limit false (made ++ sentence_units limit separator (sentences (strip p))) ps

-- The loop that fills the chunks
unfoldable pub fill : ℕ → Text → List Unit_ → List Text
unfolding grown if_any
fill limit current [] = if_any current
fill limit current (u ∷ us) = let out = grown limit current u.1 u.0 in out.0 ++ fill limit out.1 us

unfoldable pub checked_chunks : Value → Result (Option ℕ)
checked_chunks null = ok none
checked_chunks v = positive v >>= λ n. ok (some n)

unfoldable pub too_many : Option ℕ → List Text → Bool
too_many none chunks = false
too_many (some n) chunks = ltb n (length chunks)

unfoldable pub chunks_of : ℕ → Text → List Text
unfolding scan paragraph_step paragraph_units fill
chunks_of limit value =
    if is_empty value
    then []
    else if leb (length value) limit
    then value ∷ []
    else fill limit [] (paragraph_units limit true [] (scan paragraph_step at_start value))

-- `semantic_chunks`; a text that fits in one chunk or none is within every bound on their number
unfoldable pub semantic_chunks : Text → Value → Value → Result (List Text)
unfolding checked_chunks too_many chunks_of
semantic_chunks text max_chars max_chunks = do
  limit ← positive max_chars
  most ← checked_chunks max_chunks
  let chunks = chunks_of limit (strip text)
  raise_if (too_many most chunks) value_error
  ok chunks
