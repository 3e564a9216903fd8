-- ===== src/Roster/Dict/Eviction.antt =====
-- What an eviction leaves: at most the bound, and nothing that was seen before what it evicts.
use telegram_presence.Base.{
  ℕ, zero, suc, ◌+◌, ◌-◌, ◌≤◌, ◌<◌, ◌≡◌, refl, ap, ◌∙◌, subst, inl, inr, Bool, true, false, not,
  ◌||◌, some, [], ◌∷◌, arith, leb, leb→le, Bool-cases, length, take, length-take, length-keep-le,
  All, All-take,
}
use telegram_presence.Base.Text.{Text, text_eq, text_eq_iff, text_eq_refl}
use telegram_presence.Base.Sort.{sort, sort-All, sort-Apart, length-sort, Apart}
use telegram_presence.Roster.Dict.{
  Bucket, lookup, store, is_key, pop, pop_all, older, victims, evict,
}

differs :
    (key other k : Text)
    → text_eq key other ≡ false
    → text_eq k key ≡ true
    → text_eq k other ≡ false
differs key other k d t = ap (λ z. text_eq z other) ((text_eq_iff k key).0 t) ∙ d

kept_key :
    {a b : Bool} (head : Bool) → (head || a) ≡ true → (a ≡ true → b ≡ true) → (head || b) ≡ true
kept_key true h f = refl
kept_key false h f = f h

module _ {ℓ} {V : Type ℓ} where
  abbrev pub Other : Text × V → Text × V → Type 0
  Other a b = text_eq a.0 b.0 ≡ false

  -- No key stands twice.
  abbrev pub Distinct : Bucket V → Type 0
  Distinct m = Apart Other m

  abbrev pub Within : Bucket V → Bucket V → Type 0
  Within m vs = All (λ v. is_key v.0 m ≡ true) vs

  length-pop : (key : Text) (m : Bucket V) → is_key key m ≡ true → length (pop key m) < length m
  unfolding pop is_key
  length-pop key [] h = absurd cc
  length-pop key (e ∷ es) h = elim (Bool-cases (text_eq e.0 key)) [
    | inl t ↦ rw t (omega (arith, length-keep-le (λ x. not (text_eq x.0 key)) es))
    | inr t ↦ rw t (omega (arith, length-pop key es (rw t at h)))
  ]

  is_key-pop :
      (key other : Text) (m : Bucket V)
      → text_eq key other ≡ false
      → is_key other m ≡ true
      → is_key other (pop key m) ≡ true
  unfolding pop is_key
  is_key-pop key other [] d h = h
  is_key-pop key other (e ∷ es) d h = elim (Bool-cases (text_eq e.0 key)) [
    | inl t ↦ rw t (is_key-pop key other es d (rw (differs key other e.0 d t) at h))
    | inr t ↦ rw t (kept_key (text_eq e.0 other) h (λ g. is_key-pop key other es d g))
  ]

  Within-pop :
      (key : Text) (m vs : Bucket V)
      → All (λ v. text_eq key v.0 ≡ false) vs
      → Within m vs
      → Within (pop key m) vs
  Within-pop key m [] d h = tt
  Within-pop key m (v ∷ vs) d h = (is_key-pop key v.0 m d.0 h.0, Within-pop key m vs d.1 h.1)

  length-pop_all :
      (vs m : Bucket V) → Distinct vs → Within m vs → length (pop_all vs m) + length vs ≤ length m
  unfolding pop_all
  length-pop_all [] m d h = omega arith
  length-pop_all (v ∷ vs) m d h =
      let first = length-pop v.0 m h.0 in
      let rest = length-pop_all vs (pop v.0 m) d.1 (Within-pop v.0 m vs d.0 h.1) in
      omega (arith, first, rest)

  Within-more : (e : Text × V) (m vs : Bucket V) → Within m vs → Within (e ∷ m) vs
  unfolding is_key
  Within-more e m [] h = tt
  Within-more e m (v ∷ vs) h = (or_true (text_eq e.0 v.0) h.0, Within-more e m vs h.1)
    where
      or_true : {a : Bool} (b : Bool) → a ≡ true → (b || a) ≡ true
      or_true b h = ground (arith, h)

  pub Within-itself : (m : Bucket V) → Within m m
  unfolding is_key
  Within-itself [] = tt
  Within-itself (e ∷ m) = (rw (text_eq_refl e.0) refl, Within-more e m m (Within-itself m))

  Distinct-take : (n : ℕ) (xs : Bucket V) → Distinct xs → Distinct (take n xs)
  Distinct-take zero xs h = tt
  Distinct-take (suc n) [] h = tt
  Distinct-take (suc n) (x ∷ xs) h = (All-take (Other x) n xs h.0, Distinct-take n xs h.1)

  flip-Other : (a b : Text × V) → Other a b → Other b a
  flip-Other a b h = ground (arith, text_eq_iff a.0 b.0, text_eq_iff b.0 a.0, h)

  module _ (bound : ℕ) (seen : V → ℕ) where
    victims-Distinct : (m : Bucket V) → Distinct m → Distinct (victims bound seen m)
    unfolding victims
    victims-Distinct m d =
        Distinct-take (length m - bound) (sort (older seen) m)
          (sort-Apart (older seen) Other flip-Other m d)

    victims-Within : (m : Bucket V) → Within m (victims bound seen m)
    unfolding victims
    victims-Within m =
        All-take (λ v. is_key v.0 m ≡ true) (length m - bound) (sort (older seen) m)
          (sort-All (older seen) (λ v. is_key v.0 m ≡ true) m (Within-itself m))

    length-victims : (m : Bucket V) → length (victims bound seen m) ≡ length m - bound
    unfolding victims
    length-victims m =
        omega
          (arith, length-take (length m - bound) (sort (older seen) m), length-sort (older seen) m)

    -- No bucket is over its bound after an eviction.
    pub length-evict : (m : Bucket V) → Distinct m → length (evict bound seen m) ≤ bound
    unfolding evict
    length-evict m d = elim (Bool-cases (leb (length m) bound)) [
      | inl e ↦ rw e (leb→le (length m) bound e)
      | inr e ↦
          let popped =
            length-pop_all (victims bound seen m) m (victims-Distinct m d) (victims-Within m) in
          let small : length (pop_all (victims bound seen m) m) ≤ bound =
            omega (arith, popped, length-victims m) in
          rw e small
    ]

  module _ {κ} (P : Text × V → Type κ) where
    pub pop-All : (key : Text) (m : Bucket V) → All P m → All P (pop key m)
    unfolding pop
    pop-All key [] h = tt
    pop-All key (e ∷ m) h = elim (Bool-cases (text_eq e.0 key)) [
      | inl t ↦ rw t (pop-All key m h.1)
      | inr t ↦ rw t (h.0, pop-All key m h.1)
    ]

    pub pop_all-All : (vs m : Bucket V) → All P m → All P (pop_all vs m)
    unfolding pop_all
    pop_all-All [] m h = h
    pop_all-All (v ∷ vs) m h = pop_all-All vs (pop v.0 m) (pop-All v.0 m h)

    pub evict-All : (bound : ℕ) (seen : V → ℕ) (m : Bucket V) → All P m → All P (evict bound seen m)
    unfolding evict
    evict-All bound seen m h = elim (Bool-cases (leb (length m) bound)) [
      | inl e ↦ rw e h
      | inr e ↦ rw e (pop_all-All (victims bound seen m) m h)
    ]

    pub store-All :
        (key : Text) (value : V) (m : Bucket V)
        → ((k : Text) → text_eq k key ≡ true → P (k, value))
        → All P m
        → All P (store key value m)
    unfolding store
    store-All key value [] p h = (p key (text_eq_refl key), tt)
    store-All key value (e ∷ m) p h = elim (Bool-cases (text_eq e.0 key)) [
      | inl t ↦ rw t (p e.0 t, h.1)
      | inr t ↦ rw t (h.0, store-All key value m p h.1)
    ]

    pub lookup-All :
        (key : Text) (m : Bucket V) (v : V)
        → All P m
        → lookup key m ≡ some v
        → (k : Text) × P (k, v)
    unfolding lookup
    lookup-All key [] v h e = absurd cc
    lookup-All key (x ∷ m) v h e = elim (Bool-cases (text_eq x.0 key)) [
      | inl t ↦ let same : x.1 ≡ v = some_inj (rw t at e) in (x.0, subst (λ z. P (x.0, z)) same h.0)
      | inr t ↦ lookup-All key m v h.1 (rw t at e)
    ]
      where
        some_inj : {a b : V} → some a ≡ some b → a ≡ b
        some_inj h = cc

  pop-Distinct : (key : Text) (m : Bucket V) → Distinct m → Distinct (pop key m)
  unfolding pop
  pop-Distinct key [] h = tt
  pop-Distinct key (e ∷ m) h = elim (Bool-cases (text_eq e.0 key)) [
    | inl t ↦ rw t (pop-Distinct key m h.1)
    | inr t ↦ rw t (pop-All (Other e) key m h.0, pop-Distinct key m h.1)
  ]

  pop_all-Distinct : (vs m : Bucket V) → Distinct m → Distinct (pop_all vs m)
  unfolding pop_all
  pop_all-Distinct [] m h = h
  pop_all-Distinct (v ∷ vs) m h = pop_all-Distinct vs (pop v.0 m) (pop-Distinct v.0 m h)

  pub evict-Distinct :
      (bound : ℕ) (seen : V → ℕ) (m : Bucket V) → Distinct m → Distinct (evict bound seen m)
  unfolding evict
  evict-Distinct bound seen m h = elim (Bool-cases (leb (length m) bound)) [
    | inl e ↦ rw e h
    | inr e ↦ rw e (pop_all-Distinct (victims bound seen m) m h)
  ]

  pub store-Distinct :
      (key : Text) (value : V) (m : Bucket V) → Distinct m → Distinct (store key value m)
  unfolding store
  store-Distinct key value [] h = (tt, tt)
  store-Distinct key value (e ∷ m) h = elim (Bool-cases (text_eq e.0 key)) [
    | inl t ↦ rw t (h.0, h.1)
    | inr t ↦ rw t (
      store-All (Other e) key value m (λ k u. unequal e.0 k key t u) h.0,
      store-Distinct key value m h.1,
    )
  ]
    where
      unequal :
          (e k key : Text) → text_eq e key ≡ false → text_eq k key ≡ true → text_eq e k ≡ false
      unequal e k key t u = ap (text_eq e) ((text_eq_iff k key).0 u) ∙ t
