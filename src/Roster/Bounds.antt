-- ===== src/Roster/Bounds.antt =====
-- The bounds of a roster, which every operation keeps.
pub mod Calls
use telegram_presence.Base.{
  ℕ, suc, ◌-◌, ◌≤◌, ◌≡◌, refl, ap, subst, inl, inr, Bool, true, false, not, ◌||◌, Option, none,
  some, List, [], ◌∷◌, ◌++◌, map, arith, if◌then◌else◌, Bool-cases, Option-cases, length, take,
  length-take, length-drop, keep, All, All-append, All-take, All-drop, All-map,
}
use telegram_presence.Base.Int.{ℤ}
use telegram_presence.Base.Text.{Text, text_eq, strip, lower, is_empty}
use telegram_presence.Inbox.Peers.{chat_key}
use telegram_presence.Roster.{
  Participant, Entity, Roster, max_participants_per_chat, note_max_chars, notes_max_per_participant,
  max_entities_per_chat, entity_aliases_max, bucket_of, sender_key, handle_of, observed, observe,
  one_line, some_note, notes_of, has_note, last_of, noted, is_handle, note_first, add_note,
  is_self_name, merge_aliases, aliases_after, entity_after, add_entity,
}
use telegram_presence.Inbox.Terms.{one_space}
use telegram_presence.Roster.Dict.{Bucket, lookup, store, evict}
use telegram_presence.Roster.Dict.Eviction.{
  Other, Distinct, length-evict, evict-All, evict-Distinct, store-All, store-Distinct, lookup-All,
}

abbrev pub ShortNote : Text → Type 0
ShortNote n = length n ≤ note_max_chars

-- At most three notes, each of at most 200 characters.
abbrev pub IsParticipant : Participant → Type 0
IsParticipant p = (length (notes_of p) ≤ notes_max_per_participant) × All ShortNote (notes_of p)

abbrev pub IsAlias : List Text → Text → Type 0
IsAlias names a = (length a ≤ 60) × (is_self_name names a ≡ false)

-- An entity is not the agent: neither by its name nor by one of its at most six aliases.
pub record IsEntity (names : List Text) (e : Entity) : Type 0 where
  name : IsAlias names e.name
  note : ShortNote e.note
  few : length e.aliases ≤ entity_aliases_max
  aliases : All (IsAlias names) e.aliases

abbrev pub IsBucket {ℓ κ} : {V : Type ℓ} → ℕ → (V → Type κ) → Bucket V → Type κ
IsBucket bound P m = (length m ≤ bound) × Distinct m × All (λ e. P e.1) m

abbrev pub IsRoster : List Text → Roster → Type 0
IsRoster names r =
    All (λ e. IsBucket max_participants_per_chat IsParticipant e.1) r.chats
    × All (λ e. IsBucket max_entities_per_chat (IsEntity names) e.1) r.entities

module _ {ℓ κ} {V : Type ℓ} (bound : ℕ) (P : V → Type κ) where
  pub bucket_of-IsBucket :
      (key : Text) (m : Bucket (Bucket V))
      → All (λ e. IsBucket bound P e.1) m
      → IsBucket bound P (bucket_of key m)
  unfolding bucket_of lookup
  bucket_of-IsBucket key m h = elim (Option-cases (lookup key m)) [
    | inl e ↦ rw (bucket_of, e) (omega arith, tt, tt)
    | inr (b, e) ↦ rw (bucket_of, e) (lookup-All (λ e. IsBucket bound P e.1) key m b h e).1
  ]

  -- An entry that is stored and then evicted from keeps the bound.
  pub stored-IsBucket :
      (seen : V → ℕ) (key : Text) (v : V) (m : Bucket V)
      → P v
      → IsBucket bound P m
      → IsBucket bound P (evict bound seen (store key v m))
  stored-IsBucket seen key v m p h =
      let d = store-Distinct key v m h.1 in
      (
        length-evict bound seen (store key v m) d,
        evict-Distinct bound seen (store key v m) d,
        evict-All (λ e. P e.1) bound seen (store key v m)
            (store-All (λ e. P e.1) key v m (λ k s. p) h.2),
      )

pub looked_up {ℓ κ} :
    {V : Type ℓ} (P : V → Type κ) (key : Text) (m : Bucket V) (v : V)
    → All (λ e. P e.1) m
    → lookup key m ≡ some v
    → P v
looked_up P key m v h e = (lookup-All (λ e. P e.1) key m v h e).1

pub observed-IsParticipant :
    (now : ℕ) (handle name : Text) (old : Option Participant)
    → ((p : Participant) → old ≡ some p → IsParticipant p)
    → IsParticipant (observed now handle name old)
unfolding observed notes_of some_note
observed-IsParticipant now handle name none h = (omega arith, tt)
observed-IsParticipant now handle name (some p) h = h p refl

length-last_of {ℓ} : {A : Type ℓ} → (n : ℕ) (xs : List A) → length (last_of n xs) ≤ n
unfolding last_of
length-last_of n xs = omega (arith, length-drop (length xs - n) xs)

pub one_line-ShortNote : (bound : ℕ) (t : Text) → length (one_line bound t) ≤ bound
unfolding one_line
one_line-ShortNote bound t = omega (arith, length-take bound (strip (one_space false t)))

pub noted-IsParticipant :
    (now : ℕ) (note : Text) (p : Participant)
    → ShortNote note
    → IsParticipant p
    → IsParticipant (noted now note p)
unfolding noted notes_of last_of
noted-IsParticipant now note p s h = (
  length-last_of notes_max_per_participant (all_notes (has_note note (notes_of p))),
  All-drop ShortNote (length (all_notes (has_note note (notes_of p))) - notes_max_per_participant)
      (all_notes (has_note note (notes_of p))) (all_short (has_note note (notes_of p))),
)
  where
    all_notes : Bool → List Text
    all_notes b = if b then notes_of p else notes_of p ++ note ∷ []

    all_short : (b : Bool) → All ShortNote (if b then notes_of p else notes_of p ++ note ∷ [])
    all_short true = h.1
    all_short false = All-append ShortNote (notes_of p) (note ∷ []) h.1 (s, tt)

abbrev pub OnSome {ℓ κ} : {A : Type ℓ} → (A → Type κ) → Option A → Type κ
OnSome P none = Unit
OnSome P (some x) = P x

on_some {ℓ κ} : {A : Type ℓ} (P : A → Type κ) (o : Option A) (x : A) → OnSome P o → o ≡ some x → P x
on_some P none x h e = absurd cc
on_some P (some y) x h e = let same : y ≡ x = cc in subst P same h

pub pair_some {ℓ κ μ} :
    {A : Type ℓ} (P : A → Type κ) (Q : A → Type μ) (o : Option A)
    → OnSome P o
    → OnSome Q o
    → OnSome (λ x. P x × Q x) o
pair_some P Q none h k = tt
pair_some P Q (some x) h k = (h, k)

module _ (now : ℕ) (handle note : Text) where
  pub cons_some {κ μ} :
      (P : Bucket Participant → Type κ) (Q : Bucket Participant → Type μ) (e : Text × Participant)
      (o : Option (Bucket Participant))
      → ((m : Bucket Participant) → P m → Q (e ∷ m))
      → OnSome P o
      → OnSome Q (elim o [ none ↦ none | some m ↦ some (e ∷ m) ])
  cons_some P Q e none f h = tt
  cons_some P Q e (some m) f h = f m h

  -- The loop of `set_note` keeps what each entry and its note-taking keep.
  pub note_first-All {κ} :
      (P : Text × Participant → Type κ) (m : Bucket Participant)
      → ((k : Text) (p : Participant) → P (k, p) → P (k, noted now note p))
      → All P m
      → OnSome (All P) (note_first now handle note m)
  unfolding note_first
  note_first-All P [] f h = tt
  note_first-All P (x ∷ m) f h = elim (Bool-cases (is_handle handle x.1)) [
    | inl t ↦ rw t (f x.0 x.1 h.0, h.1)
    | inr t ↦ rw t (
        cons_some (All P) (All P) x (note_first now handle note m) (λ r q. (h.0, q))
          (note_first-All P m f h.1))
  ]

  pub note_first-Distinct :
      (m : Bucket Participant)
      → Distinct m
      → OnSome (λ m'. Distinct m' × (length m' ≡ length m)) (note_first now handle note m)
  unfolding note_first
  note_first-Distinct [] h = tt
  note_first-Distinct (x ∷ m) h = elim (Bool-cases (is_handle handle x.1)) [
    | inl t ↦ rw t ((h.0, h.1), refl)
    | inr t ↦ rw t (
        cons_some (λ m'. All (Other x) m' × (Distinct m' × (length m' ≡ length m)))
          (λ m'. Distinct m' × (length m' ≡ suc (length m))) x (note_first now handle note m)
          (λ r q. ((q.0, q.1.0), ap suc q.1.1))
          (pair_some (All (Other x)) (λ m'. Distinct m' × (length m' ≡ length m))
            (note_first now handle note m) (note_first-All (Other x) m (λ k p o. o) h.0)
            (note_first-Distinct m h.1)))
  ]

pub looked_up_some {ℓ κ} :
    {V : Type ℓ} (P : V → Type κ) (key : Text) (m : Bucket V)
    → All (λ e. P e.1) m
    → OnSome P (lookup key m)
unfolding lookup
looked_up_some P key [] h = tt
looked_up_some P key (e ∷ m) h = elim (Bool-cases (text_eq e.0 key)) [
  | inl t ↦ rw t h.0
  | inr t ↦ rw t (looked_up_some P key m h.1)
]
