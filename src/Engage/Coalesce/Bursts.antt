-- ===== src/Engage/Coalesce/Bursts.antt =====
-- Coalescing splits the messages, in the order of their times, into bursts, and answers each burst once.
use telegram_presence.Base.{ℕ, ◌≤◌, max, ◌≡◌, true, List, [], ◌∷◌, ◌++◌, map, length, All}
use telegram_presence.Engage.Boundaries.{Candidate}
use telegram_presence.Engage.Coalesce.{continues, flushed, Progress}

-- The lists of a list, one behind the other.
unfoldable pub concat : List (List Candidate) → List Candidate
concat [] = []
concat (g ∷ gs) = g ++ concat gs

-- Each message goes on with the burst of the one before it.
abbrev pub Follows : ℕ → List Candidate → Type 0
Follows gap [] = Unit
Follows gap (c ∷ []) = Unit
Follows gap (c ∷ d ∷ ds) = (continues gap c d ≡ true) × Follows gap (d ∷ ds)

abbrev pub IsBurst : ℕ → ℕ → List Candidate → Type 0
IsBurst gap bound g = Follows gap g × (length g ≤ max 1 bound)

-- Bursts that make up a list, and their answers.
abbrev pub Split : ℕ → ℕ → List Candidate → List Candidate → Type 0
Split gap bound cs out =
    (gs : List (List Candidate)) × ((concat gs ≡ cs)
      × (out ≡ concat (map flushed gs))
      × All (IsBurst gap bound) gs)

module _ (gap bound : ℕ) where
  -- What the loop has: the flushed bursts make up what it left behind, the group is a burst.
  abbrev IsSplit : List Candidate → Progress → Type 0
  IsSplit done s =
      (ps : List Candidate) × ((ps ++ s.1 ≡ done) × Split gap bound ps s.0 × IsBurst gap bound s.1)
