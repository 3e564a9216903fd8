-- ===== src/Engage/Addressing.antt =====
-- The text of a reply before it is sent: `cap_delegate_reply` of telegram_presence/delegate.py and
-- `apply_reply_addressing`.
pub mod Bounds
use telegram_presence.Base.{
  ℕ, zero, suc, ◌+◌, ◌-◌, ◌*◌, ◌/◌, ◌%◌, ◌^◌, ◌≤◌, ◌<◌, min, max, ◌≡◌, refl, sym, ap, ◌∙◌, subst,
  ◌≢◌, ◌↔◌, ◌⊎◌, inl, inr, Bool, true, false, not, ◌&&◌, ◌||◌, Option, none, some, List, [], ◌∷◌,
  ◌++◌, map, arith, ltb, leb, ◌==◌, if◌then◌else◌, ltb→lt, lt→ltb, leb→le, ==_iff, Bool-cases,
  Option-cases, is_none, is_some, length, length-append, take, drop, length-take, length-drop,
  take-all, keep, length-keep-le, All, All-append, All-map,
}
use telegram_presence.Base.Text.{
  Text, codes, strip, lstrip_by, rstrip_by, is_empty, is_space, lstrip_at, lower_char,
}
use telegram_presence.Inbox.Terms.{after_term, head_is, none_follows, some_text}
use telegram_presence.Engage.{ActionPlan, is_reply}
use telegram_presence.Engage.Boundaries.{Candidate}

abbrev pub delegate_max_reply_chars : ℕ
delegate_max_reply_chars = 3500

abbrev pub engage_max_reply_chars : ℕ
engage_max_reply_chars = 600

-- `int(limit * 0.6)`
abbrev pub floor : ℕ
floor = 2100

-- `[.!?…]`
unfoldable pub ends_sentence : ℕ → Bool
ends_sentence c = (c == b'.') || (c == b'!') || (c == b'?') || (c == 0x2026)

-- `["»”’)\]]`
unfoldable pub closes : ℕ → Bool
closes c =
    (c == 0x22) || (c == 0xbb) || (c == 0x201d) || (c == 0x2019) || (c == b')') || (c == 0x5d)

-- The closing marks behind the end of a sentence, at most `most`, if white space or the end follows them
unfoldable pub closing : ℕ → Text → Option ℕ
unfolding closes
closing most [] = some 0
closing zero (c ∷ t) = if is_space c then some 0 else none
closing (suc most) (c ∷ t) =
    let rest = closing most t in
    if is_space c
    then some 0
    else if closes c
    then elim rest [ none ↦ none | some k ↦ some (k + 1) ]
    else none

-- A later place, if there is one
unfoldable pub later : Option ℕ → Option ℕ → Option ℕ
later found none = found
later found (some n) = some n

-- A place from the floor on
unfoldable pub from_floor : ℕ → Option ℕ
from_floor n = if leb floor n then some n else none

-- The end of the last sentence that ends at the floor or behind it; `at` is the place of the text.
unfoldable pub last_sentence_end : ℕ → Text → Option ℕ
unfolding ends_sentence closing later from_floor
last_sentence_end place [] = none
last_sentence_end place (c ∷ t) =
    let behind = last_sentence_end (place + 1) t in
    let here : Option ℕ = elim (closing 2 t) [
      | none ↦ none
      | some k ↦ from_floor (place + 1 + k)
    ] in
    later (if ends_sentence c then here else none) behind

-- `rfind("\n\n", floor)`
unfoldable pub last_paragraph_end : ℕ → Text → Option ℕ
unfolding head_is later from_floor
last_paragraph_end place [] = none
last_paragraph_end place (c ∷ t) =
    let behind = last_paragraph_end (place + 1) t in
    later (if (c == 10) && head_is (λ d. d == 10) t then from_floor place else none) behind

-- `max(rfind(" ", floor), rfind("\n", floor))`
unfoldable pub last_word_end : ℕ → Text → Option ℕ
unfolding later from_floor
last_word_end place [] = none
last_word_end place (c ∷ t) =
    let behind = last_word_end (place + 1) t in
    later (if (c == 32) || (c == 10) then from_floor place else none) behind

-- `" *_\``
unfoldable pub is_mark : ℕ → Bool
is_mark c = (c == 32) || (c == b'*') || (c == b'_') || (c == 0x60)

-- `candidate[:end].rstrip()`, or the candidate where nothing was found
unfoldable pub cut_at : Option ℕ → Text → Text
cut_at none candidate = candidate
cut_at (some n) candidate = rstrip_by is_space (take n candidate)

unfoldable pub shortened : Text → Text
unfolding last_sentence_end last_paragraph_end last_word_end is_mark cut_at later
shortened candidate = elim (last_sentence_end 0 candidate) [
  | some n ↦ cut_at (some n) candidate ++ codes " …"
  | none ↦
      rstrip_by is_mark
        (cut_at (later (last_word_end 0 candidate) (last_paragraph_end 0 candidate)) candidate)
      ++ codes "…"
]

-- `cap_delegate_reply`, with its default limit
unfoldable pub cap_delegate_reply : Text → Text
unfolding shortened
cap_delegate_reply text =
    let value = strip text in
    if leb (length value) delegate_max_reply_chars
    then value
    else shortened (rstrip_by is_space (take (delegate_max_reply_chars - 2) value))

-- `[A-Za-z0-9_]`
unfoldable pub is_ascii_word : ℕ → Bool
is_ascii_word c =
    (leb b'a' c && leb c b'z')
    || (leb b'A' c && leb c b'Z')
    || (leb b'0' c && leb c b'9')
    || (c == b'_')

-- The search for an `@handle` that stands alone
unfoldable pub has_handle : Bool → Text → Text → Bool
unfolding after_term none_follows is_ascii_word
has_handle inside handle [] = not inside && none_follows is_ascii_word (after_term handle [])
has_handle inside handle (c ∷ t) =
    let rest = has_handle (is_ascii_word c) handle t in
    (not inside && none_follows is_ascii_word (after_term handle (c ∷ t))) || rest

unfoldable pub username : Candidate → Text
username c = elim c.sender_username [ none ↦ [] | some t ↦ lstrip_at (strip t) ]

-- The text with the handle of a sender before it, if it is not there yet.
unfoldable pub with_handle : Bool → Text → Text → Text
unfolding has_handle
with_handle delegated handle text =
    let prefix = b'@' ∷ handle ++ codes " " in
    if is_empty handle || has_handle false (b'@' ∷ handle) text
    then text
    else if delegated
    then prefix ++ text
    else prefix ++ lstrip_by is_space (take (engage_max_reply_chars - length prefix) text)

unfoldable pub addressed_text : ActionPlan → Option Candidate → Text
unfolding with_handle username
addressed_text p none = strip p.text
addressed_text p (some c) =
    if c.addressed && (p.message_id == 0)
    then with_handle p.delegated (username c) (strip p.text)
    else strip p.text

unfoldable pub capped : Bool → Text → Text
unfolding cap_delegate_reply
capped delegated text =
    if delegated
    then cap_delegate_reply text
    else rstrip_by is_space (take engage_max_reply_chars text)

unfoldable pub address_one : (ℕ → Option Candidate) → ActionPlan → ActionPlan
unfolding addressed_text capped
address_one cand_by_id p =
    if is_reply p
    then record p { text = capped p.delegated (addressed_text p (cand_by_id p.message_id)) }
    else p

-- `apply_reply_addressing`
unfoldable pub apply_reply_addressing : (ℕ → Option Candidate) → List ActionPlan → List ActionPlan
unfolding address_one
apply_reply_addressing cand_by_id plans = map (address_one cand_by_id) plans
