-- ===== src/Base/Sort.antt =====
-- `list.sort` and `sorted` with a key: a stable insertion sort by a Boolean order.
use mathlib.Core.Bool.{Bool}
use mathlib.Core.List.{List, [], ◌∷◌}
use telegram_presence.Base.Tests.{if◌then◌else◌, Bool-cases}
use telegram_presence.Base.Lists.{All, length}
use Prim.Native.Nat.{suc}
use mathlib.Core.Path.{◌≡◌, refl, ap, ◌∙◌}
use mathlib.Core.Logic.{inl, inr}

module _ {ℓ} {A : Type ℓ} (before : A → A → Bool) where
  unfoldable pub insert : A → List A → List A
  insert x [] = x ∷ []
  insert x (y ∷ ys) = let rest = insert x ys in if before x y then x ∷ y ∷ ys else y ∷ rest

  unfoldable pub sort : List A → List A
  unfolding insert
  sort [] = []
  sort (x ∷ xs) = insert x (sort xs)

module _ {ℓ κ} {A : Type ℓ} (before : A → A → Bool) (P : A → Type κ) where
  pub insert-All : (x : A) (xs : List A) → P x → All P xs → All P (insert before x xs)
  unfolding insert
  insert-All x [] p h = (p, tt)
  insert-All x (y ∷ ys) p h = elim (Bool-cases (before x y)) [
    | inl e ↦ rw e (p, h)
    | inr e ↦ rw e (h.0, insert-All x ys p h.1)
  ]

  pub sort-All : (xs : List A) → All P xs → All P (sort before xs)
  unfolding sort
  sort-All [] h = h
  sort-All (x ∷ xs) h = insert-All x (sort before xs) h.0 (sort-All xs h.1)

-- A relation that holds between any two elements, in this order or the other, survives sorting.
abbrev pub Apart {ℓ κ} : {A : Type ℓ} → (A → A → Type κ) → List A → Type κ
Apart R [] = Unit
Apart R (x ∷ xs) = All (R x) xs × Apart R xs

module _ {ℓ κ} {A : Type ℓ} (before : A → A → Bool) (R : A → A → Type κ) where
  insert-Apart :
      ((x y : A) → R x y → R y x)
      → (x : A) (xs : List A) → All (R x) xs
      → Apart R xs
      → Apart R (insert before x xs)
  unfolding insert
  insert-Apart flip x [] p h = (p, tt)
  insert-Apart flip x (y ∷ ys) p h = elim (Bool-cases (before x y)) [
    | inl e ↦ rw e (p, h)
    | inr e ↦ rw e (insert-All before (R y) x ys (flip x y p.0) h.0, insert-Apart flip x ys p.1 h.1)
  ]

  pub sort-Apart :
      ((x y : A) → R x y → R y x) → (xs : List A) → Apart R xs → Apart R (sort before xs)
  unfolding sort
  sort-Apart flip [] h = h
  sort-Apart flip (x ∷ xs) h =
      insert-Apart flip x (sort before xs) (sort-All before (R x) xs h.0) (sort-Apart flip xs h.1)

module _ {ℓ} {A : Type ℓ} (before : A → A → Bool) where
  length-insert : (x : A) (xs : List A) → length (insert before x xs) ≡ suc (length xs)
  unfolding insert
  length-insert x [] = refl
  length-insert x (y ∷ ys) = elim (Bool-cases (before x y)) [
    | inl e ↦ rw e refl
    | inr e ↦ rw e (ap suc (length-insert x ys))
  ]

  pub length-sort : (xs : List A) → length (sort before xs) ≡ length xs
  unfolding sort
  length-sort [] = refl
  length-sort (x ∷ xs) = length-insert x (sort before xs) ∙ ap suc (length-sort xs)
