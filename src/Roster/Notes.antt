-- ===== src/Roster/Notes.antt =====
-- A note that `set_note` took, as `participant_note` gives it back.
use telegram_presence.Base.{
  ℕ, zero, suc, ◌+◌, ◌-◌, ◌≤◌, ◌≡◌, refl, sym, ap, ◌∙◌, subst, ◌⊎◌, inl, inr, Bool, true, false,
  ◌||◌, Option, none, some, List, [], ◌∷◌, ◌++◌, arith, if◌then◌else◌, Bool-cases, length,
  length-append, drop, length-drop, All,
}
use telegram_presence.Base.Text.{Text, codes, text_eq, text_eq_refl, lower, is_empty}
use telegram_presence.Inbox.Peers.{chat_key}
use telegram_presence.Roster.{
  Participant, Roster, note_max_chars, notes_max_per_participant, bucket_of, one_line, notes_of,
  has_note, last_of, noted, is_handle, note_first, add_note, join, notes_text, note_of_handle,
  participant_note, handle_of, member, max_participants_per_chat,
}
use telegram_presence.Roster.Dict.{Bucket, lookup, store}
use telegram_presence.Roster.Bounds.{OnSome, cons_some, IsParticipant, IsRoster, bucket_of-IsBucket}
use telegram_presence.Roster.Memory.{Memory, Moment, open_memory, loaded, saved, set_note}
use telegram_presence.Roster.Memory.History.{IsMemory}

-- The note, or one that differs in case or by spaces around it, is among the notes.
abbrev pub Holds : Text → List Text → Type 0
Holds note ns =
    (length ns ≤ notes_max_per_participant) × ((has_note note ns ≡ true) ⊎ (member note ns ≡ true))

last_of-all {ℓ} : {A : Type ℓ} → (n : ℕ) (xs : List A) → length xs ≤ n → last_of n xs ≡ xs
unfolding last_of
last_of-all n xs h = let z : length xs - n ≡ 0 = omega (arith, h) in ap (λ k. drop k xs) z

member-drop :
    (note : Text) (k : ℕ) (xs : List Text)
    → k ≤ length xs
    → member note (drop k (xs ++ note ∷ [])) ≡ true
unfolding member
member-drop note zero [] h = rw (text_eq_refl note) refl
member-drop note zero (x ∷ xs) h = behind (text_eq x note) (member-drop note zero xs (omega arith))
  where
    behind : {a : Bool} (b : Bool) → a ≡ true → (b || a) ≡ true
    behind b h = ground (arith, h)
member-drop note (suc k) [] h = absurd (omega (arith, h))
member-drop note (suc k) (x ∷ xs) h = member-drop note k xs (omega (arith, h))

all_notes : Bool → Text → List Text → List Text
all_notes b note old = if b then old else old ++ note ∷ []

kept-Holds :
    (b : Bool) (note : Text) (old : List Text)
    → has_note note old ≡ b
    → length old ≤ notes_max_per_participant
    → Holds note (last_of notes_max_per_participant (all_notes b note old))
unfolding last_of all_notes
kept-Holds true note old e h =
    let same : drop (length old - 3) old ≡ old = last_of-all 3 old h in
    (omega (arith, length-drop (length old - 3) old), inl (ap (has_note note) same ∙ e))
kept-Holds false note old e h =
    let long : length (old ++ note ∷ []) ≡ length old + 1 = length-append old (note ∷ []) in
    (
      omega (arith, length-drop (length (old ++ note ∷ []) - 3) (old ++ note ∷ [])),
      inr (member-drop note (length (old ++ note ∷ []) - 3) old (omega (arith, long))),
    )

shown_notes :
    (note : Text) (p : Participant) (kept : List Text)
    → p.notes ≡ some kept
    → Holds note kept
    → notes_text p ≡ join (codes " | ") kept
unfolding notes_text has_note member
shown_notes note p [] e h = absurd (ground (arith, h.1))
shown_notes note p (n ∷ ns) e h =
    rw (notes_text, e) (ap (join (codes " | ")) (last_of-all 3 (n ∷ ns) h.0))

noted_text :
    (now : ℕ) (note : Text) (p : Participant)
    → IsParticipant p
    → (ns : List Text) × ((notes_text (noted now note p) ≡ join (codes " | ") ns) × Holds note ns)
unfolding noted all_notes
noted_text now note p h =
    let kept =
      last_of notes_max_per_participant
        (all_notes (has_note note (notes_of p)) note (notes_of p)) in
    let holds : Holds note kept =
      kept-Holds (has_note note (notes_of p)) note (notes_of p) refl h.0 in
    (kept, (shown_notes note (noted now note p) kept refl holds, holds))

abbrev pub Shows : Text → Text → Type 0
Shows note t = (ns : List Text) × ((t ≡ join (codes " | ") ns) × Holds note ns)

note_first-Shows :
    (now : ℕ) (who note : Text) (m : Bucket Participant)
    → All (λ e. IsParticipant e.1) m
    → OnSome (λ m'. Shows note (note_of_handle who m')) (note_first now who note m)
unfolding note_first note_of_handle noted is_handle
note_first-Shows now who note [] h = tt
note_first-Shows now who note (x ∷ m) h = elim (Bool-cases (is_handle who x.1)) [
  | inl t ↦
      let there : is_handle who (noted now note x.1) ≡ true = t in
      rw t (rw there (noted_text now note x.1 h.0))
  | inr t ↦ rw t (
      cons_some now who note (λ m'. Shows note (note_of_handle who m'))
        (λ m'. Shows note (note_of_handle who m')) x (note_first now who note m) (λ r q. rw t q)
        (note_first-Shows now who note m h.1))
]

lookup-store {ℓ} :
    {V : Type ℓ} (key : Text) (v : V) (m : Bucket V) → lookup key (store key v m) ≡ some v
unfolding lookup store
lookup-store key v [] = rw (text_eq_refl key) refl
lookup-store key v (e ∷ m) = elim (Bool-cases (text_eq e.0 key)) [
  | inl t ↦ rw t (rw t refl)
  | inr t ↦ rw t (rw t (lookup-store key v m))
]

bucket_of-store {ℓ} :
    {V : Type ℓ} (key : Text) (v : Bucket V) (m : Bucket (Bucket V))
    → bucket_of key (store key v m) ≡ v
unfolding bucket_of
bucket_of-store key v m = ap (λ o. elim o [ none ↦ [] | some b ↦ b ]) (lookup-store key v m)

module _ (names : List Text) (chat handle note : Text) where
  opened :
      (r : Roster)
      → is_empty (lower (handle_of handle)) ≡ false
      → (m : Bucket Participant)
      → participant_note chat handle (record r { chats = store (chat_key chat) m r.chats })
        ≡ note_of_handle (lower (handle_of handle)) m
  unfolding participant_note
  opened r e m =
      rw (participant_note, e)
        (ap (note_of_handle (lower (handle_of handle))) (bucket_of-store (chat_key chat) m r.chats))

  add_note-Shows :
      (now : ℕ) (r : Roster)
      → IsRoster names r
      → OnSome
          (λ r'. Shows (one_line note_max_chars note) (participant_note chat handle r'))
          (add_note now chat handle note r)
  unfolding add_note
  add_note-Shows now r h =
      let who = lower (handle_of handle) in
      let text = one_line note_max_chars note in
      let m = bucket_of (chat_key chat) r.chats in
      let b =
        bucket_of-IsBucket max_participants_per_chat IsParticipant (chat_key chat) r.chats h.0 in
      elim (Bool-cases (is_empty who || is_empty text)) [
        | inl t ↦ rw (add_note, t) tt
        | inr t ↦
            rw (add_note, t)
              (put_back (no_left _ _ t) (note_first now who text m)
                (note_first-Shows now who text m b.2))
      ]
    where
      no_left : (a b : Bool) → (a || b) ≡ false → a ≡ false
      no_left a b h = ground (arith, h)

      put_back :
          is_empty (lower (handle_of handle)) ≡ false
          → (o : Option (Bucket Participant))
          → OnSome
              (λ m'.
                Shows (one_line note_max_chars note) (note_of_handle (lower (handle_of handle)) m'))
              o
          → OnSome
              (λ r'. Shows (one_line note_max_chars note) (participant_note chat handle r'))
              (elim o as (λ x. Option Roster) [
                | none ↦ none
                | some m ↦ some (record r { chats = store (chat_key chat) m r.chats })
              ])
      put_back e none k = tt
      put_back e (some m) k = subst (Shows (one_line note_max_chars note)) (sym (opened r e m)) k

-- A note that `set_note` says it took, and whose write succeeded, is what a process that starts on the
-- file shows for the participant: among at most three notes stands the note's text as one line of at
-- most 200 characters, or one that equals it up to case and spaces around it.
pub set_note-participant_note :
    (names : List Text) (w : Moment) (chat handle note : Text) (m : Memory)
    → IsMemory names m
    → (set_note w chat handle note m).1 ≡ true
    → w.saves ≡ true
    → Shows
        (one_line note_max_chars note)
        (participant_note chat handle (open_memory (set_note w chat handle note m).0.file).cache)
unfolding set_note open_memory loaded
set_note-participant_note names w chat handle note m h took saves =
    after (add_note w.now chat handle note m.cache)
      (add_note-Shows names chat handle note w.now m.cache h.0) took
  where
    after :
        (o : Option Roster)
        → OnSome (λ r. Shows (one_line note_max_chars note) (participant_note chat handle r)) o
        → (saved w o m).1 ≡ true
        → Shows
            (one_line note_max_chars note)
            (participant_note chat handle (loaded (saved w o m).0.file))
    after none k t = absurd (ground (arith, t))
    after (some r) k t = rw saves k
