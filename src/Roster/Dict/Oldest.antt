-- ===== src/Roster/Dict/Oldest.antt =====
-- An eviction takes what was seen longest ago.
use telegram_presence.Base.{
  ℕ, zero, suc, ◌-◌, ◌≤◌, ◌≡◌, refl, sym, subst, ◌⊎◌, inl, inr, true, false, [], ◌∷◌, arith, leb,
  leb→le, Bool-cases, length, take, drop, take-append-drop, All-always, All-zip, All, All-append,
  All-drop, All-map,
}
use telegram_presence.Base.Text.{Text, text_eq, text_eq_iff}
use telegram_presence.Base.Sort.{sort, insert, insert-All, Apart}
use telegram_presence.Roster.Dict.{Bucket, is_key, pop, pop_all, older, victims, evict}
use telegram_presence.Roster.Dict.Eviction.{Within-itself, pop_all-All}

module _ {ℓ} {V : Type ℓ} (seen : V → ℕ) where
  abbrev NotAfter : Text × V → Text × V → Type 0
  NotAfter a b = seen a.1 ≤ seen b.1

  insert-Sorted :
      (x : Text × V) (xs : Bucket V) → Apart NotAfter xs → Apart NotAfter (insert (older seen) x xs)
  unfolding insert older
  insert-Sorted x [] h = (tt, tt)
  insert-Sorted x (y ∷ ys) h = elim (Bool-cases (leb (seen x.1) (seen y.1))) [
    | inl e ↦
        let first : NotAfter x y = leb→le (seen x.1) (seen y.1) e in
        rw e (
          (first, All-map (NotAfter y) (NotAfter x) ys (λ z h. omega (arith, first, h)) h.0),
          (h.0, h.1),
        )
    | inr e ↦
        let first : NotAfter y x = ground (arith, e) in
        rw e (insert-All (older seen) (NotAfter y) x ys first h.0, insert-Sorted x ys h.1)
  ]

  sort-Sorted : (xs : Bucket V) → Apart NotAfter (sort (older seen) xs)
  unfolding sort
  sort-Sorted [] = tt
  sort-Sorted (x ∷ xs) = insert-Sorted x (sort (older seen) xs) (sort-Sorted xs)

  -- What stands behind a front is not before what is in it.
  behind :
      (n : ℕ) (xs : Bucket V)
      → Apart NotAfter xs
      → All (λ e. All (λ v. NotAfter v e) (take n xs)) (drop n xs)
  behind zero xs h = All-always (λ e. Unit {0}) xs (λ e. tt)
  behind (suc n) [] h = tt
  behind (suc n) (x ∷ xs) h = both n xs h.0 (behind n xs h.1)
    where
      both :
          (n : ℕ) (xs : Bucket V)
          → All (NotAfter x) xs
          → All (λ e. All (λ v. NotAfter v e) (take n xs)) (drop n xs)
          → All (λ e. All (λ v. NotAfter v e) (x ∷ take n xs)) (drop n xs)
      both n xs p q =
          All-zip (NotAfter x) (λ e. All (λ v. NotAfter v e) (take n xs))
            (λ e. All (λ v. NotAfter v e) (x ∷ take n xs)) (drop n xs) (λ e f g. (f, g))
            (All-drop (NotAfter x) n xs p) q

  module _ {κ} (P : Text × V → Type κ) where
    uninsert-All :
        (x : Text × V) (xs : Bucket V) → All P (insert (older seen) x xs) → P x × All P xs
    unfolding insert
    uninsert-All x [] h = h
    uninsert-All x (y ∷ ys) h = elim (Bool-cases (older seen x y)) [
      | inl e ↦ (rw e at h)
      | inr e ↦
          let h' : P y × All P (insert (older seen) x ys) = rw e at h in
          let rest = uninsert-All x ys h'.1 in (rest.0, (h'.0, rest.1))
    ]

    unsort-All : (xs : Bucket V) → All P (sort (older seen) xs) → All P xs
    unfolding sort
    unsort-All [] h = tt
    unsort-All (x ∷ xs) h =
        let both = uninsert-All x (sort (older seen) xs) h in (both.0, unsort-All xs both.1)

  gone : (key : Text) (m : Bucket V) → All (λ e. text_eq e.0 key ≡ false) (pop key m)
  unfolding pop
  gone key [] = tt
  gone key (e ∷ m) = elim (Bool-cases (text_eq e.0 key)) [
    | inl t ↦ rw t (gone key m)
    | inr t ↦ rw t (t, gone key m)
  ]

  popped : (vs m : Bucket V) → All (λ e. is_key e.0 vs ≡ false) (pop_all vs m)
  unfolding pop_all is_key
  popped [] m = All-always (λ e. false ≡ false) m (λ e. refl)
  popped (v ∷ vs) m =
      All-zip (λ e. text_eq e.0 v.0 ≡ false) (λ e. is_key e.0 vs ≡ false)
        (λ e. is_key e.0 (v ∷ vs) ≡ false) (pop_all vs (pop v.0 m))
        (λ e f g. ground (arith, text_eq_iff e.0 v.0, text_eq_iff v.0 e.0, f, g))
        (pop_all-All (λ e. text_eq e.0 v.0 ≡ false) vs (pop v.0 m) (gone v.0 m))
        (popped vs (pop v.0 m))

  abbrev Placed : Bucket V → Text × V → Type 0
  Placed vs e = All (λ v. NotAfter v e) vs ⊎ (is_key e.0 vs ≡ true)

  members-Placed : (bound : ℕ) (m : Bucket V) → All (Placed (victims bound seen m)) m
  unfolding victims
  members-Placed bound m =
      let n = length m - bound in
      let s = sort (older seen) m in
      let front : All (Placed (take n s)) (take n s) =
        All-map (λ e. is_key e.0 (take n s) ≡ true) (Placed (take n s)) (take n s) (λ e h. inr h)
          (Within-itself (take n s)) in
      let back : All (Placed (take n s)) (drop n s) =
        All-map (λ e. All (λ v. NotAfter v e) (take n s)) (Placed (take n s)) (drop n s)
          (λ e h. inl h) (behind n s (sort-Sorted m)) in
      unsort-All (Placed (take n s)) m (
        subst (All (Placed (take n s))) (take-append-drop n s)
          (All-append (Placed (take n s)) (take n s) (drop n s) front back))

  no_victims :
      (bound : ℕ) (m : Bucket V) (x : Text × V)
      → length m ≤ bound
      → All (λ v. NotAfter v x) (victims bound seen m)
  unfolding victims
  no_victims bound m x h =
      let z : length m - bound ≡ 0 = omega (arith, h) in
      subst (λ k. All (λ v. NotAfter v x) (take k (sort (older seen) m))) (sym z) tt

  -- What an eviction takes was last seen no later than what it leaves.
  pub evict-victims :
      (bound : ℕ) (m : Bucket V)
      → All (λ e. All (λ v. seen v.1 ≤ seen e.1) (victims bound seen m)) (evict bound seen m)
  unfolding evict
  evict-victims bound m = elim (Bool-cases (leb (length m) bound)) [
    | inl e ↦ rw e (
        All-always (λ e. All (λ v. NotAfter v e) (victims bound seen m)) m
          (λ x. no_victims bound m x (leb→le (length m) bound e)))
    | inr e ↦
        let vs = victims bound seen m in
        rw e (
          placed (pop_all vs m) vs (pop_all-All (Placed vs) vs m (members-Placed bound m))
            (popped vs m))
  ]
    where
      placed :
          (m vs : Bucket V)
          → All (Placed vs) m
          → All (λ e. is_key e.0 vs ≡ false) m
          → All (λ e. All (λ v. NotAfter v e) vs) m
      placed [] vs h k = tt
      placed (e ∷ m) vs (inl h, hs) k = (h, placed m vs hs k.1)
      placed (e ∷ m) vs (inr h, hs) k = absurd cc
