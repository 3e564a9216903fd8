-- ===== src/Inbox/Peers/Canonical.antt =====
-- The canonical spelling of a chat is stable.
use telegram_presence.Base.{
  ℕ, ◌≡◌, refl, sym, ap, ◌∙◌, inl, inr, Bool, true, false, ◌||◌, [], ◌∷◌, arith, ◌==◌, Bool-cases,
}
use telegram_presence.Base.Text.{
  Text, strip, lstrip_at, lstrip_by, rstrip_by, rstrip_put, is_space, lower, lower_char, is_empty,
}
use telegram_presence.Inbox.Peers.{canonical_chat_peer, has_letter, starts_with_at}

-- Nothing is left to strip at the end.
RightTrimmed : Text → Type 0
RightTrimmed t = rstrip_by is_space t ≡ t

-- Whether a text starts with a code point of a kind.
head_test : (ℕ → Bool) → Text → Bool
head_test p [] = false
head_test p (c ∷ t) = p c

rstrip_put-cons : (c : ℕ) (s t : Text) → rstrip_put is_space c s ≡ c ∷ t → s ≡ t
unfolding rstrip_put
rstrip_put-cons c [] t h = elim (Bool-cases (is_space c)) [
  | inl e ↦ ground arith
  | inr e ↦ ground arith
]
rstrip_put-cons c (d ∷ s) t h = ground arith

RightTrimmed-tail : (c : ℕ) (t : Text) → RightTrimmed (c ∷ t) → RightTrimmed t
unfolding RightTrimmed rstrip_by
RightTrimmed-tail c t h = rstrip_put-cons c (rstrip_by is_space t) t h

rstrip-RightTrimmed : (t : Text) → RightTrimmed (rstrip_by is_space t)
unfolding RightTrimmed rstrip_by
rstrip-RightTrimmed [] = refl
rstrip-RightTrimmed (c ∷ t) = put c (rstrip_by is_space t) (rstrip-RightTrimmed t)
  where
    put :
        (c : ℕ) (s : Text)
        → rstrip_by is_space s ≡ s
        → rstrip_by is_space (rstrip_put is_space c s) ≡ rstrip_put is_space c s
    put c [] h = elim (Bool-cases (is_space c)) [ inl e ↦ rw e refl | inr e ↦ rw e (rw e refl) ]
    put c (d ∷ s) h = ap (rstrip_put is_space c) h

lstrip_by-RightTrimmed : (p : ℕ → Bool) (t : Text) → RightTrimmed t → RightTrimmed (lstrip_by p t)
unfolding lstrip_by
lstrip_by-RightTrimmed p [] h = h
lstrip_by-RightTrimmed p (c ∷ t) h = elim (Bool-cases (p c)) [
  | inl e ↦ rw e (lstrip_by-RightTrimmed p t (RightTrimmed-tail c t h))
  | inr e ↦ rw e h
]

lower_char-space : (c : ℕ) → is_space (lower_char c) ≡ is_space c
unfolding is_space lower_char
lower_char-space c = ground arith

lower_char-at : (c : ℕ) → (lower_char c == b'@') ≡ (c == b'@')
unfolding lower_char
lower_char-at c = ground arith

lower_char-lower_char : (c : ℕ) → lower_char (lower_char c) ≡ lower_char c
unfolding lower_char
lower_char-lower_char c = ground arith

lstrip_by-head : (p : ℕ → Bool) (t : Text) → head_test p (lstrip_by p t) ≡ false
unfolding lstrip_by head_test
lstrip_by-head p [] = refl
lstrip_by-head p (c ∷ t) = elim (Bool-cases (p c)) [
  | inl e ↦ rw e (lstrip_by-head p t)
  | inr e ↦ rw e e
]

lstrip_by-done : (p : ℕ → Bool) (t : Text) → head_test p t ≡ false → lstrip_by p t ≡ t
unfolding lstrip_by head_test
lstrip_by-done p [] h = refl
lstrip_by-done p (c ∷ t) h = rw h refl

rstrip-head :
    (p : ℕ → Bool) (t : Text) → head_test p t ≡ false → head_test p (rstrip_by is_space t) ≡ false
unfolding rstrip_by head_test
rstrip-head p [] h = refl
rstrip-head p (c ∷ t) h = put (rstrip_by is_space t)
  where
    put : (s : Text) → head_test p (rstrip_put is_space c s) ≡ false
    put [] = elim (Bool-cases (is_space c)) [ inl e ↦ rw e refl | inr e ↦ rw e h ]
    put (d ∷ s) = h

strip-RightTrimmed : (t : Text) → RightTrimmed (strip t)
unfolding strip
strip-RightTrimmed t = rstrip-RightTrimmed (lstrip_by is_space t)

strip-strip : (t : Text) → strip (strip t) ≡ strip t
unfolding strip RightTrimmed
strip-strip t =
    let u = lstrip_by is_space t in
    let head = rstrip-head is_space u (lstrip_by-head is_space t) in
    ap (rstrip_by is_space) (lstrip_by-done is_space (rstrip_by is_space u) head)
    ∙ rstrip-RightTrimmed u

lower-lower : (t : Text) → lower (lower t) ≡ lower t
unfolding lower
lower-lower [] = refl
lower-lower (c ∷ t) =
    ap (λ z. z ∷ lower (lower t)) (lower_char-lower_char c) ∙ ap (lower_char c ∷◌) (lower-lower t)

lower-head : (t : Text) → head_test (λ c. c == b'@') (lower t) ≡ head_test (λ c. c == b'@') t
unfolding lower head_test
lower-head [] = refl
lower-head (c ∷ t) = lower_char-at c

rstrip-lower : (t : Text) → rstrip_by is_space (lower t) ≡ lower (rstrip_by is_space t)
unfolding lower rstrip_by
rstrip-lower [] = refl
rstrip-lower (c ∷ t) =
    ap (rstrip_put is_space (lower_char c)) (rstrip-lower t) ∙ put c (rstrip_by is_space t)
  where
    put :
        (c : ℕ) (s : Text)
        → rstrip_put is_space (lower_char c) (lower s) ≡ lower (rstrip_put is_space c s)
    put c [] = elim (Bool-cases (is_space c)) [
      | inl e ↦ let f = lower_char-space c ∙ e in rw (e, f) refl
      | inr e ↦ let f = lower_char-space c ∙ e in rw (e, f) refl
    ]
    put c (d ∷ s) = refl

-- An `@` before a text that is trimmed at its end.
strip-at : (t : Text) → RightTrimmed t → strip (b'@' ∷ t) ≡ b'@' ∷ t
unfolding strip lstrip_by rstrip_by is_space RightTrimmed
strip-at t h = ap (rstrip_put is_space b'@') h ∙ put t
  where
    put : (s : Text) → rstrip_put is_space b'@' s ≡ b'@' ∷ s
    put [] = refl
    put (d ∷ s) = refl

lower-RightTrimmed : (t : Text) → RightTrimmed t → RightTrimmed (lower t)
unfolding RightTrimmed
lower-RightTrimmed t h = rstrip-lower t ∙ ap lower h

canonical-at :
    (bare : Text)
    → RightTrimmed bare
    → head_test (λ c. c == b'@') bare ≡ false
    → canonical_chat_peer (b'@' ∷ lower bare) ≡ b'@' ∷ lower bare
unfolding canonical_chat_peer starts_with_at is_empty lstrip_at lstrip_by
canonical-at bare h n =
    let text = strip-at (lower bare) (lower-RightTrimmed bare h) in
    let rest = lstrip_by-done (λ c. c == b'@') (lower bare) (lower-head bare ∙ n) in
    rw text (ap (b'@' ∷◌) (ap lower rest ∙ lower-lower bare))

canonical_empty : canonical_chat_peer [] ≡ []
unfolding canonical_chat_peer is_empty strip
canonical_empty = refl

same_again :
    (value t : Text)
    → canonical_chat_peer value ≡ t
    → canonical_chat_peer t ≡ t
    → canonical_chat_peer (canonical_chat_peer value) ≡ canonical_chat_peer value
same_again value t e h = ap canonical_chat_peer e ∙ (h ∙ sym e)

canonical-empty : (value : Text) → is_empty (strip value) ≡ true → canonical_chat_peer value ≡ []
unfolding canonical_chat_peer
canonical-empty value e = rw (canonical_chat_peer, e) refl

canonical-named :
    (value : Text)
    → is_empty (strip value) ≡ false
    → (starts_with_at (strip value) || has_letter (lstrip_at (strip value))) ≡ true
    → canonical_chat_peer value ≡ b'@' ∷ lower (lstrip_at (strip value))
unfolding canonical_chat_peer
canonical-named value e f = rw (canonical_chat_peer, e, f) refl

canonical-numeric :
    (value : Text)
    → is_empty (strip value) ≡ false
    → (starts_with_at (strip value) || has_letter (lstrip_at (strip value))) ≡ false
    → canonical_chat_peer value ≡ strip value
unfolding canonical_chat_peer
canonical-numeric value e f = rw (canonical_chat_peer, e, f) refl

-- Spelling a chat canonically twice is spelling it once: a stored row's chat meets the same chat again.
pub canonical_chat_peer-canonical_chat_peer :
    (value : Text) → canonical_chat_peer (canonical_chat_peer value) ≡ canonical_chat_peer value
unfolding lstrip_at
canonical_chat_peer-canonical_chat_peer value = elim (Bool-cases (is_empty (strip value))) [
  | inl e ↦ same_again value [] (canonical-empty value e) canonical_empty
  | inr e ↦
      let text = strip value in
      elim (Bool-cases (starts_with_at text || has_letter (lstrip_at text))) [
        | inl f ↦ same_again value (b'@' ∷ lower (lstrip_at text)) (canonical-named value e f) (
            canonical-at (lstrip_at text)
              (lstrip_by-RightTrimmed (λ c. c == b'@') text (strip-RightTrimmed value))
              (lstrip_by-head (λ c. c == b'@') text))
        | inr f ↦
            let again = strip-strip value in
            same_again value text (canonical-numeric value e f) (
              canonical-numeric text (ap is_empty again ∙ e)
                (ap (λ z. starts_with_at z || has_letter (lstrip_at z)) again ∙ f)
              ∙ again)
      ]
]
