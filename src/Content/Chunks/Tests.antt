-- ===== src/Content/Chunks/Tests.antt =====
-- A text of two paragraphs with a word that is too long.
use telegram_presence.Base.{◌≡◌, refl, some, List, [], ◌∷◌, if◌then◌else◌, All}
use telegram_presence.Base.Int.{pos}
use telegram_presence.Base.Text.{Text, codes, strip, is_empty}
use telegram_presence.Base.Result.{ok, err, value_error}
use telegram_presence.Base.Value.{int}
use telegram_presence.Content.Media.{positive}
use telegram_presence.Content.Chunks.{semantic_chunks, chunks_of, too_many, checked_chunks}
use telegram_presence.Content.Chunks.Ink.{squeeze, ink}
use telegram_presence.Content.Chunks.Bounds.{Fits, semantic_chunks_total}

abbrev text : Text
text = codes "Hi. Go on.\n\nabcdefghijklm now"

semantic_chunks_total_example :
    (chunks : List Text) × (All (Fits 6) chunks
      × (ink chunks ≡ squeeze text)
      × (semantic_chunks text (int (pos 6)) (int (pos 9))
          ≡ (if too_many (some 9) chunks then err value_error else ok chunks)))
unfolding positive checked_chunks
semantic_chunks_total_example =
    semantic_chunks_total text (int (pos 6)) (int (pos 9)) 6 (some 9) refl refl

five_chunks :
    chunks_of 6 text
    ≡ codes "Hi." ∷ codes "Go on." ∷ codes "abcdef" ∷ codes "ghijkl" ∷ codes "m now" ∷ []
unfolding chunks_of strip is_empty
five_chunks = refl
