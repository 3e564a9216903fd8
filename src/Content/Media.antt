-- ===== src/Content/Media.antt =====
-- The media policy of telegram_presence/content.py.
use telegram_presence.Base.{
  ℕ, suc, ◌*◌, Bool, true, false, not, ◌&&◌, ◌||◌, Option, none, some, List, [], ◌∷◌, ◌==◌,
  if◌then◌else◌, ltb, length,
}
use telegram_presence.Base.Int.{pos}
use telegram_presence.Base.Text.{Text, codes, text_eq, strip, lower, is_empty}
use telegram_presence.Base.Result.{Result, ok, err, value_error, ◌>>=◌, ◌>>◌, raise_if}
use telegram_presence.Base.Value.{Value, null, int, str}

abbrev pub mib : ℕ
mib = 1048576

pub allowed_media_mime_types : List Text
allowed_media_mime_types =
    codes "application/json"
    ∷ codes "application/pdf"
    ∷ codes "application/zip"
    ∷ codes "audio/mp4"
    ∷ codes "audio/mpeg"
    ∷ codes "audio/ogg"
    ∷ codes "audio/wav"
    ∷ codes "image/gif"
    ∷ codes "image/jpeg"
    ∷ codes "image/png"
    ∷ codes "image/webp"
    ∷ codes "text/plain"
    ∷ codes "video/mp4"
    ∷ []

pub media_limits : List (Text × ℕ)
media_limits =
    (codes "application/", 20 * mib)
    ∷ (codes "audio/", 20 * mib)
    ∷ (codes "image/", 10 * mib)
    ∷ (codes "text/", 1 * mib)
    ∷ (codes "video/", 20 * mib)
    ∷ []

-- `c in text`
unfoldable pub has_char : ℕ → Text → Bool
has_char c [] = false
has_char c (d ∷ s) = (c == d) || has_char c s

-- `text.split(";", 1)[0]`
pub before_char : ℕ → Text → Text
before_char c [] = []
before_char c (d ∷ s) = let rest = before_char c s in if c == d then [] else d ∷ rest

pub starts_with : Text → Text → Bool
starts_with [] s = true
starts_with (c ∷ p) [] = false
starts_with (c ∷ p) (d ∷ s) = (c == d) && starts_with p s

pub member : Text → List Text → Bool
member t [] = false
member t (u ∷ us) = text_eq t u || member t us

pub normalize_mime : Text → Text
unfolding before_char
normalize_mime t = lower (strip (before_char b';' t))

pub normalized_mime : Value → Result Text
unfolding normalize_mime
normalized_mime (str t) = do
  let value = normalize_mime t
  raise_if (is_empty value || not (has_char b'/' value)) value_error
  ok value
normalized_mime _ = err value_error

pub limit_in : Text → List (Text × ℕ) → Result ℕ
unfolding starts_with
limit_in mime [] = err value_error
limit_in mime ((prefix, limit) ∷ rest) =
    let others = limit_in mime rest in if starts_with prefix mime then ok limit else others

pub default_media_limit : Text → Result ℕ
unfolding limit_in media_limits
default_media_limit mime = limit_in mime media_limits

-- An `int` that is no `bool` and at least 1.
unfoldable pub positive : Value → Result ℕ
positive (int (pos (suc n))) = ok (suc n)
positive _ = err value_error

pub normalized_all : List Value → Result (List Text)
normalized_all [] = ok []
normalized_all (v ∷ vs) = do m ← normalized_mime v; ms ← normalized_all vs; ok (m ∷ ms)

pub allowed_set : Option (List Value) → Result (List Text)
unfolding normalized_all allowed_media_mime_types
allowed_set none = ok allowed_media_mime_types
allowed_set (some vs) = normalized_all vs

pub limit_for : Text → Value → Result ℕ
limit_for mime null = default_media_limit mime
limit_for mime v = positive v

-- `validate_media(mime_type, size_bytes, allowed_mime_types=…, max_size_bytes=…)`
pub validate_media : Value → Value → Option (List Value) → Value → Result (Unit {0})
unfolding member
validate_media mime_type size_bytes allowed_mime_types max_size_bytes = do
  normalized ← normalized_mime mime_type
  allowed ← allowed_set allowed_mime_types
  raise_if (not (member normalized allowed)) value_error
  size ← positive size_bytes
  limit ← limit_for normalized max_size_bytes
  raise_if (ltb limit size) value_error
  ok tt

pub record MediaDescriptor : Type 0 where
  pub mime_type : Text
  pub size_bytes : ℕ
  pub source : Text
  pub filename : Option Text

pub is_dots : Text → Bool
is_dots t = text_eq t (codes ".") || text_eq t (codes "..")

pub unsafe_name : Text → Bool
unfolding is_dots
unsafe_name t =
    ltb 255 (length t) || has_char 0 t || has_char b'/' t || has_char 0x5c t || is_dots t

pub checked_filename : Value → Result (Option Text)
unfolding unsafe_name
checked_filename null = ok none
checked_filename (str t) = do
  let name = strip t
  raise_if (is_empty name) value_error
  raise_if (unsafe_name name) value_error
  ok (some name)
checked_filename _ = err value_error

pub checked_source : Value → Result Text
checked_source (str t) = do
  raise_if (is_empty (strip t)) value_error
  raise_if (has_char 0 t || ltb 4096 (length t)) value_error
  ok (strip t)
checked_source _ = err value_error

-- The constructor of `MediaDescriptor` with `__post_init__`.
pub new : Value → Value → Value → Value → Result MediaDescriptor
unfolding checked_source checked_filename
new mime_type size_bytes source filename = do
  validate_media mime_type size_bytes none null
  clean_source ← checked_source source
  clean_name ← checked_filename filename
  mime ← normalized_mime mime_type
  size ← positive size_bytes
  ok (record { mime_type = mime; size_bytes = size; source = clean_source; filename = clean_name })
