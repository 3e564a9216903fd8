-- ===== src/Engage/Coalesce/Tests.antt =====
-- Three messages of one sender, the last of them late.
use telegram_presence.Base.{◌≡◌, refl, List, [], ◌∷◌, length}
use telegram_presence.Base.Text.{codes, text_eq}
use telegram_presence.Base.Sort.{sort}
use telegram_presence.Engage.Boundaries.{Candidate}
use telegram_presence.Engage.Topics.Tests.{message}
use telegram_presence.Engage.Coalesce.{coalesce_candidates}

abbrev messages : List Candidate
messages =
    message 2 2 150 (codes "there")
    ∷ message 1 1 100 (codes "hey")
    ∷ message 3 3 900 (codes "well")
    ∷ []

two_answers : length (coalesce_candidates 180 3 messages) ≡ 2
unfolding coalesce_candidates sort text_eq
two_answers = refl
