-- ===== src/Roster/Bounds/Calls.antt =====
-- Each call on a roster keeps its bounds.
use telegram_presence.Base.{
  ℕ, ◌≤◌, ◌≡◌, inl, inr, Bool, true, false, not, ◌||◌, Option, none, some, List, [], ◌∷◌, ◌++◌, map,
  arith, if◌then◌else◌, Bool-cases, length, take, length-take, keep, All, All-append, All-take,
  All-map,
}
use telegram_presence.Base.Int.{ℤ}
use telegram_presence.Base.Text.{Text, strip, lower, is_empty}
use telegram_presence.Inbox.Peers.{chat_key}
use telegram_presence.Roster.{
  Participant, Entity, Roster, max_participants_per_chat, note_max_chars, max_entities_per_chat,
  entity_aliases_max, bucket_of, sender_key, handle_of, observed, observe, one_line, note_first,
  add_note, is_self_name, merge_aliases, aliases_after, entity_after, add_entity,
}
use telegram_presence.Roster.Dict.{Bucket, lookup, store}
use telegram_presence.Roster.Dict.Eviction.{Distinct, store-All}
use telegram_presence.Roster.Bounds.{
  IsEntity, ShortNote, IsParticipant, IsAlias, IsBucket, IsRoster, bucket_of-IsBucket,
  stored-IsBucket, looked_up, observed-IsParticipant, one_line-ShortNote, noted-IsParticipant,
  OnSome, pair_some, note_first-All, note_first-Distinct, looked_up_some,
}

module _ (names : List Text) where
  pub observe-IsRoster :
      (now : ℕ) (chat : Text) (sender_id : ℤ) (handle name : Text) (r : Roster)
      → IsRoster names r
      → IsRoster names (observe now chat sender_id handle name r)
  unfolding observe
  observe-IsRoster now chat sender_id handle name r h =
      let m = bucket_of (chat_key chat) r.chats in
      let b =
        bucket_of-IsBucket max_participants_per_chat IsParticipant (chat_key chat) r.chats h.0 in
      let old = lookup (sender_key sender_id) m in
      let p =
        observed-IsParticipant now handle name old
          (λ q e. looked_up IsParticipant (sender_key sender_id) m q b.2 e) in
      let b' =
        stored-IsBucket max_participants_per_chat IsParticipant (λ p. p.last_seen)
          (sender_key sender_id) (observed now handle name old) m p b in
      (
        store-All (λ e. IsBucket max_participants_per_chat IsParticipant e.1) (chat_key chat) _
            r.chats (λ k s. b') h.0,
        h.1,
      )

  pub add_note-IsRoster :
      (now : ℕ) (chat handle note : Text) (r : Roster)
      → IsRoster names r
      → OnSome (IsRoster names) (add_note now chat handle note r)
  unfolding add_note
  add_note-IsRoster now chat handle note r h =
      let who = lower (handle_of handle) in
      let text = one_line note_max_chars note in
      let m = bucket_of (chat_key chat) r.chats in
      let b =
        bucket_of-IsBucket max_participants_per_chat IsParticipant (chat_key chat) r.chats h.0 in
      let o = note_first now who text m in
      let kept : OnSome
          (λ m'. All (λ e. IsParticipant e.1) m' × (Distinct m' × (length m' ≡ length m))) o =
        pair_some (All (λ e. IsParticipant e.1)) (λ m'. Distinct m' × (length m' ≡ length m)) o
          (note_first-All now who text (λ e. IsParticipant e.1) m
            (λ k p. noted-IsParticipant now text p (one_line-ShortNote note_max_chars note)) b.2)
          (note_first-Distinct now who text m b.1) in
      elim (Bool-cases (is_empty who || is_empty text)) [
        | inl t ↦ rw (add_note, t) tt
        | inr t ↦
            rw (add_note, t) (put_back o kept (λ m' q. (omega (arith, q.1.1, b.0), q.1.0, q.0)))
      ]
    where
      put_back :
          {P : Bucket Participant → Type 0} (o : Option (Bucket Participant))
          → OnSome P o
          → ((m : Bucket Participant) → P m → IsBucket max_participants_per_chat IsParticipant m)
          → OnSome (IsRoster names) (elim o as (λ x. Option Roster) [
            | none ↦ none
            | some m ↦ some (record r { chats = store (chat_key chat) m r.chats })
          ])
      put_back none k f = tt
      put_back (some m) k f = (
        store-All (λ e. IsBucket max_participants_per_chat IsParticipant e.1) (chat_key chat) m
            r.chats (λ c s. f m k) h.0,
        h.1,
      )

  keep-All {ℓ κ} :
      {A : Type ℓ} (P : A → Type κ) (p : A → Bool) (xs : List A)
      → All P xs
      → All (λ x. P x × (p x ≡ true)) (keep p xs)
  keep-All P p [] h = tt
  keep-All P p (x ∷ xs) h = elim (Bool-cases (p x)) [
    | inl t ↦ rw t ((h.0, t), keep-All P p xs h.1)
    | inr t ↦ rw t (keep-All P p xs h.1)
  ]

  abbrev Short : Text → Type 0
  Short a = length a ≤ 60

  merge_aliases-All :
      (key : Text) (given merged : List Text)
      → All Short merged
      → All Short (merge_aliases names key given merged)
  unfolding merge_aliases
  merge_aliases-All key [] merged h = h
  merge_aliases-All key (a ∷ given) merged h = merge_aliases-All key given _ (added _)
    where
      added : (t : Bool) → All Short (if t then merged ++ one_line 60 a ∷ [] else merged)
      added true = All-append Short merged (one_line 60 a ∷ []) h (one_line-ShortNote 60 a, tt)
      added false = h

  aliases_after-IsAlias :
      (key : Text) (given old : List Text)
      → (length (aliases_after names key given old) ≤ entity_aliases_max)
        × All (IsAlias names) (aliases_after names key given old)
  unfolding aliases_after
  aliases_after-IsAlias key given old =
      let cut = map (λ a. take 60 (strip a)) old in
      let merged = merge_aliases names key given cut in
      let plain = keep (λ a. not (is_self_name names a)) merged in
      let all_kept =
        keep-All Short (λ a. not (is_self_name names a)) merged
          (merge_aliases-All key given cut (cuts old)) in
      let each : All (IsAlias names) plain =
        All-map (λ a. Short a × (not (is_self_name names a) ≡ true)) (IsAlias names) plain
          (λ a q. (q.0, ground (arith, q.1))) all_kept in
      (
        omega (arith, length-take entity_aliases_max plain),
        All-take (IsAlias names) entity_aliases_max plain each,
      )
    where
      cuts : (xs : List Text) → All Short (map (λ a. take 60 (strip a)) xs)
      cuts [] = tt
      cuts (x ∷ xs) = (omega (arith, length-take 60 (strip x)), cuts xs)

  entity_after-IsEntity :
      (now : ℕ) (name note : Text) (given : List Text) (old : Option Entity)
      → IsAlias names name
      → ShortNote note
      → OnSome (IsEntity names) old
      → IsEntity names (entity_after names now name note given old)
  unfolding entity_after
  entity_after-IsEntity now name note given none n s o =
      let as_ = aliases_after-IsAlias (lower name) given [] in
      record { name = n; note = s; few = as_.0; aliases = as_.1 }
  entity_after-IsEntity now name note given (some e) n s o =
      let as_ = aliases_after-IsAlias (lower name) given e.aliases in
      record { name = o.name; note = s; few = as_.0; aliases = as_.1 }

  pub add_entity-IsRoster :
      (now : ℕ) (chat raw_name raw_note : Text) (given : List Text) (r : Roster)
      → IsRoster names r
      → OnSome (IsRoster names) (add_entity names now chat raw_name raw_note given r)
  unfolding add_entity
  add_entity-IsRoster now chat raw_name raw_note given r h =
      let name = one_line 60 raw_name in
      let note = one_line note_max_chars raw_note in
      let m = bucket_of (chat_key chat) r.entities in
      let b =
        bucket_of-IsBucket max_entities_per_chat (IsEntity names) (chat_key chat) r.entities h.1 in
      let old = lookup (lower name) m in
      elim (Bool-cases (is_empty name || is_empty note || is_self_name names name)) [
        | inl t ↦ rw (add_entity, t) tt
        | inr t ↦
            let n : IsAlias names name = (one_line-ShortNote 60 raw_name, ground (arith, t)) in
            let entry =
              entity_after-IsEntity now name note given old n
                (one_line-ShortNote note_max_chars raw_note)
                (looked_up_some (IsEntity names) (lower name) m b.2) in
            let m' =
              stored-IsBucket max_entities_per_chat (IsEntity names) (λ e. e.last_seen) (lower name)
                (entity_after names now name note given old) m entry b in
            rw (add_entity, t)
              (
                h.0,
                store-All (λ e. IsBucket max_entities_per_chat (IsEntity names) e.1) (chat_key chat)
                    _ r.entities (λ k s. m') h.1,
              )
      ]
