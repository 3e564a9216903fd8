-- ===== src/Inbox/Terms.antt =====
-- The text of an inbound message: `matched_terms`, `_normalize_snippet`, `sanitize_snippet`,
-- `clean_handle`.
use telegram_presence.Base.{
  ℕ, ◌+◌, ◌-◌, Bool, false, not, ◌&&◌, ◌||◌, Option, none, some, List, [], ◌∷◌, ◌++◌, map, ltb, leb,
  ◌==◌, if◌then◌else◌, length, take,
}
use telegram_presence.Base.Text.{
  Text, codes, text_eq, strip, is_empty, lstrip_at, is_space, lower, lower_char, rstrip_by,
}
use telegram_presence.Inbox.Peers.{is_alpha}

-- `\w` of one code point
unfoldable pub is_word : ℕ → Bool
unfolding is_alpha
is_word c = is_alpha c || (leb b'0' c && leb c b'9') || (c == b'_')

-- `[а-яёА-ЯЁ]`
unfoldable pub is_cyrillic : ℕ → Bool
is_cyrillic c = (leb 0x410 c && leb c 0x44f) || (c == 0x451) || (c == 0x401)

unfoldable pub head_is : (ℕ → Bool) → Text → Bool
head_is p [] = false
head_is p (c ∷ t) = p c

-- What follows a term at the start of a text, upper and lower case alike.
unfoldable pub after_term : Text → Text → Option Text
unfolding lower_char
after_term [] t = some t
after_term (c ∷ term) [] = none
after_term (c ∷ term) (d ∷ t) =
    let rest = after_term term t in if lower_char c == lower_char d then rest else none

unfoldable pub none_follows : (ℕ → Bool) → Option Text → Bool
none_follows p none = false
none_follows p (some rest) = not (head_is p rest)

-- `(?<!\w)term(?!\w)`, searched for from a place whose code point before it is a word's or not
unfoldable pub search_from : Bool → Text → Text → Bool
unfolding after_term none_follows is_word
search_from inside term [] = not inside && none_follows is_word (after_term term [])
search_from inside term (c ∷ t) =
    let later = search_from (is_word c) term t in
    (not inside && none_follows is_word (after_term term (c ∷ t))) || later

unfoldable pub drop_while : (ℕ → Bool) → Text → Text
drop_while p [] = []
drop_while p (c ∷ t) = let rest = drop_while p t in if p c then rest else c ∷ t

-- `[Cyrillic]{0,3}(?![Cyrillic])`
unfoldable pub short_ending : Option Text → Bool
unfolding drop_while is_cyrillic
short_ending none = false
short_ending (some rest) = leb (length rest) (length (drop_while is_cyrillic rest) + 3)

-- The search of `_inflected_label`
unfoldable pub inflected_from : Bool → Text → Text → Bool
unfolding after_term short_ending is_word
inflected_from inside root [] = not inside && short_ending (after_term root [])
inflected_from inside root (c ∷ t) =
    let later = inflected_from (is_word c || is_cyrillic c) root t in
    (not inside && short_ending (after_term root (c ∷ t))) || later

-- Whether a label stands among others, upper and lower case alike.
unfoldable pub label_in : Text → List Text → Bool
label_in t [] = false
label_in t (u ∷ us) = text_eq (lower t) (lower u) || label_in t us

unfoldable pub add_label : Bool → Text → List Text → List Text
unfolding label_in
add_label found label labels =
    if found && not (label_in label labels) then labels ++ label ∷ [] else labels

-- The two patterns of a name: with and without an `@`.
unfoldable pub add_name : Text → Text → List Text → List Text
unfolding add_label search_from
add_name text raw labels =
    let name = strip raw in
    if is_empty name
    then labels
    else add_label (search_from false name text) name
        (add_label (search_from false (b'@' ∷ name) text) (b'@' ∷ name) labels)

unfoldable pub add_names : Text → List Text → List Text → List Text
unfolding add_name
add_names text [] labels = labels
add_names text (n ∷ names) labels = add_names text names (add_name text n labels)

unfoldable pub add_roots : Text → List Text → List Text → List Text
unfolding add_label inflected_from
add_roots text [] labels = labels
add_roots text (r ∷ roots) labels =
    add_roots text roots (add_label (inflected_from false r text) r labels)

abbrev pub inflected_roots : List Text
inflected_roots = codes "рейн" ∷ codes "рэйн" ∷ codes "ороборос" ∷ []

-- `matched_terms`, with the names that the host gives
unfoldable pub matched_terms : List Text → Text → List Text
unfolding add_names add_roots
matched_terms names text =
    if is_empty text then [] else add_roots text inflected_roots (add_names text names [])

-- `str.isprintable` of one code point, by the ranges of controls, formats and spaces
unfoldable pub is_printable : ℕ → Bool
is_printable c = not (
    ltb c 32
    || (leb 127 c && leb c 160)
    || (c == 0xad)
    || (c == 0x1680)
    || (leb 0x2000 c && leb c 0x200f)
    || (leb 0x2028 c && leb c 0x202f)
    || (leb 0x205f c && leb c 0x206f)
    || (c == 0x3000)
    || (leb 0xd800 c && leb c 0xf8ff)
    || (c == 0xfeff))

unfoldable pub shown_char : ℕ → ℕ
unfolding is_printable
shown_char c = if is_printable c || (c == 13) || (c == 10) || (c == 9) then c else 32

-- `re.sub(r"\s+", " ", …)`; the flag says that a space was just put
unfoldable pub one_space : Bool → Text → Text
one_space spaced [] = []
one_space spaced (c ∷ t) =
    let rest = one_space (is_space c) t in
    if is_space c then (if spaced then rest else 32 ∷ rest) else c ∷ rest

-- `_normalize_snippet`
unfoldable pub normalize_snippet : Text → Text
unfolding shown_char one_space
normalize_snippet t = strip (one_space false (map shown_char t))

abbrev pub max_snippet_chars : ℕ
max_snippet_chars = 500

-- `_cap_normalized_snippet`
unfoldable pub cap_normalized_snippet : ℕ → Text → Text
cap_normalized_snippet max_chars cleaned =
    if ltb max_chars (length cleaned)
    then rstrip_by is_space (take (max_chars - 1) cleaned) ++ 0x2026 ∷ []
    else cleaned

-- `sanitize_snippet`
unfoldable pub sanitize_snippet : ℕ → Text → Text
unfolding normalize_snippet cap_normalized_snippet
sanitize_snippet max_chars t = cap_normalized_snippet max_chars (normalize_snippet t)

unfoldable pub some_text : Text → Option Text
some_text [] = none
some_text (c ∷ t) = some (c ∷ t)

-- `clean_handle`
unfoldable pub clean_handle : Text → Option Text
unfolding some_text
clean_handle value = some_text (strip (lstrip_at (strip value)))
