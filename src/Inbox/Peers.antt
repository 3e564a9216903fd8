-- ===== src/Inbox/Peers.antt =====
-- The spelling of a chat: `_chat_key`, `canonical_chat_peer`, `allowed_chats`, `chat_matches`. An
-- argument stands for `str(value or "")` of the source's value.
pub mod Canonical
use telegram_presence.Base.{
  ℕ, Bool, false, not, ◌&&◌, ◌||◌, Option, none, some, List, [], ◌∷◌, ◌++◌, leb, ◌==◌,
  if◌then◌else◌, take,
}
use telegram_presence.Base.Text.{Text, text_eq, strip, lstrip_at, lstrip_by, lower, is_empty}

-- `str.isalpha` of one code point, of the Latin-1 and Cyrillic letters
unfoldable pub is_alpha : ℕ → Bool
is_alpha c =
    (leb b'A' c && leb c b'Z')
    || (leb b'a' c && leb c b'z')
    || (leb 0xc0 c && leb c 0xff && not (c == 0xd7) && not (c == 0xf7))
    || (leb 0x400 c && leb c 0x481)

-- `any(char.isalpha() or char == "_" for char in bare)`
unfoldable pub has_letter : Text → Bool
unfolding is_alpha
has_letter [] = false
has_letter (c ∷ t) = is_alpha c || (c == b'_') || has_letter t

unfoldable pub starts_with_at : Text → Bool
starts_with_at [] = false
starts_with_at (c ∷ t) = c == b'@'

-- `canonical_chat_peer`
unfoldable pub canonical_chat_peer : Text → Text
unfolding has_letter starts_with_at
canonical_chat_peer value =
    let text = strip value in
    let bare = lstrip_at text in
    if is_empty text
    then []
    else if starts_with_at text || has_letter bare
    then b'@' ∷ lower bare
    else text

-- `_chat_key`
unfoldable pub chat_key : Text → Text
chat_key value = lower (lstrip_at (strip value))

unfoldable pub seen_key : Text → List Text → Bool
seen_key key [] = false
seen_key key (chat ∷ chats) = text_eq (chat_key chat) key || seen_key key chats

-- `_add` of `allowed_chats`; `seen` holds the keys of the chats added so far
unfoldable pub add_chat : List Text → Text → List Text
unfolding seen_key
add_chat chats value =
    let text = canonical_chat_peer value in
    let key = chat_key text in
    if is_empty text || is_empty key || seen_key key chats then chats else chats ++ text ∷ []

unfoldable pub add_chats : List Text → List Text → List Text
unfolding add_chat
add_chats chats [] = chats
add_chats chats (value ∷ values) = add_chats (add_chat chats value) values

-- `allowed_chats`: the environment's chat, the state's, and the state's list if it is one
unfoldable pub allowed_chats : Text → Text → Option (List Text) → List Text
unfolding add_chats
allowed_chats env mentions engage =
    add_chats [] (env ∷ mentions ∷ elim engage [ none ↦ [] | some values ↦ take 8 values ])

unfoldable pub allowed_chat : Text → Text → Option (List Text) → Text
unfolding allowed_chats
allowed_chat env mentions engage = elim (allowed_chats env mentions engage) [
  | [] ↦ []
  | chat ∷ chats ↦ chat
]

-- `lstrip("-")`
unfoldable pub lstrip_minus : Text → Text
lstrip_minus = lstrip_by (λ c. c == b'-')

unfoldable pub name_matches : Option Text → Text → Bool
name_matches none want = false
name_matches (some name) want = not (is_empty name) && text_eq (chat_key name) want

-- `chat_matches`; a missing user name is `none`, `chat_id` is its `str`
unfoldable pub chat_matches : Option Text → Text → Text → Bool
unfolding lstrip_minus name_matches
chat_matches username chat_id allowed =
    let want = chat_key allowed in
    if is_empty want
    then false
    else name_matches username want
      || text_eq chat_id want
      || text_eq (lstrip_minus chat_id) (lstrip_minus want)

-- `chat_matches_any`
unfoldable pub chat_matches_any : Option Text → Text → List Text → Option Text
unfolding chat_matches
chat_matches_any username chat_id [] = none
chat_matches_any username chat_id (candidate ∷ rest) =
    let later = chat_matches_any username chat_id rest in
    if chat_matches username chat_id candidate then some candidate else later
