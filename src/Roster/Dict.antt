-- ===== src/Roster/Dict.antt =====
-- The dictionaries of one chat in telegram_presence/roster.py, and the eviction of what was seen
-- longest ago.
pub mod Eviction
pub mod Oldest
use telegram_presence.Base.{
  ℕ, zero, suc, ◌+◌, ◌-◌, ◌*◌, ◌/◌, ◌%◌, ◌^◌, ◌≤◌, ◌<◌, min, max, ◌≡◌, refl, sym, ap, ◌∙◌, subst,
  ◌≢◌, ◌↔◌, ◌⊎◌, inl, inr, Bool, true, false, not, ◌&&◌, ◌||◌, Option, none, some, List, [], ◌∷◌,
  ◌++◌, map, arith, ltb, leb, ◌==◌, if◌then◌else◌, ltb→lt, lt→ltb, leb→le, ==_iff, Bool-cases,
  Option-cases, is_none, is_some, length, length-append, take, drop, length-take, length-drop,
  take-all, keep, length-keep-le, All, All-append, All-map,
}
use telegram_presence.Base.Text.{Text, text_eq, text_eq_iff}
use telegram_presence.Base.Sort.{sort, sort-All, sort-Apart, length-sort, Apart, insert}

-- A dictionary in the order of its insertions.
abbrev pub Bucket {ℓ} : Type ℓ → Type ℓ
Bucket V = List (Text × V)

module _ {ℓ} {V : Type ℓ} where
  -- `d.get(key)`
  unfoldable pub lookup : Text → Bucket V → Option V
  lookup key [] = none
  lookup key (e ∷ es) = let rest = lookup key es in if text_eq e.0 key then some e.1 else rest

  -- `d[key] = value`
  unfoldable pub store : Text → V → Bucket V → Bucket V
  store key value [] = (key, value) ∷ []
  store key value (e ∷ es) =
      let rest = store key value es in if text_eq e.0 key then (e.0, value) ∷ es else e ∷ rest

  unfoldable pub is_key : Text → Bucket V → Bool
  is_key key [] = false
  is_key key (e ∷ es) = text_eq e.0 key || is_key key es

  -- `d.pop(key, None)`
  unfoldable pub pop : Text → Bucket V → Bucket V
  pop key m = keep (λ e. not (text_eq e.0 key)) m

  -- The loop over the victims.
  unfoldable pub pop_all : Bucket V → Bucket V → Bucket V
  unfolding pop
  pop_all [] m = m
  pop_all (v ∷ vs) m = pop_all vs (pop v.0 m)

  unfoldable pub older : (V → ℕ) → Text × V → Text × V → Bool
  older seen a b = leb (seen a.1) (seen b.1)

  -- `sorted(…)[: len(d) - bound]`
  unfoldable pub victims : ℕ → (V → ℕ) → Bucket V → Bucket V
  unfolding older
  victims bound seen m = take (length m - bound) (sort (older seen) m)

  unfoldable pub evict : ℕ → (V → ℕ) → Bucket V → Bucket V
  unfolding victims pop_all
  evict bound seen m = if leb (length m) bound then m else pop_all (victims bound seen m) m
