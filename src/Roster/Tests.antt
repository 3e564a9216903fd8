-- ===== src/Roster/Tests.antt =====
-- A roster that two people write into.
use telegram_presence.Base.{
  ℕ, ◌≤◌, ◌≡◌, refl, inr, Bool, true, false, none, some, List, [], ◌∷◌, All,
}
use telegram_presence.Base.Int.{pos}
use telegram_presence.Base.Text.{Text, codes, text_eq, lower, lstrip_at, strip, is_empty}
use telegram_presence.Inbox.Peers.{chat_key}
use telegram_presence.Inbox.Terms.{one_space}
use telegram_presence.Roster.{one_line, participant_note, note_max_chars, add_note, observe}
use telegram_presence.Roster.Dict.{Bucket, store, victims, evict}
use telegram_presence.Roster.Dict.Oldest.{evict-victims}
use telegram_presence.Roster.Memory.{
  Memory, Moment, open_memory, loaded, set_note, observe_message, empty_roster,
}
use telegram_presence.Roster.Memory.History.{
  Event, observed, noted, entity, restarted, run, IsMemory, run-IsMemory,
}
use telegram_presence.Roster.Notes.{Shows, set_note-participant_note}

abbrev names : List Text
names = codes "Rain" ∷ []

abbrev at : ℕ → Bool → Moment
at n saves = record { now = n; clock = n; saves = saves }

abbrev events : List Event
events =
    observed (at 3 true) (codes "@club") (some (pos 9)) (codes "@Ann") (codes "Ann")
    ∷ noted (at 4 false) (codes "club") (codes "ann") (codes " likes  tea ")
    ∷ restarted
    ∷ entity (at 5 true) (codes "club") (codes "Rina") (codes "another bot")
        (codes "Ri" ∷ codes "rain" ∷ [])
    ∷ []

abbrev start : Memory
start = record { cache = empty_roster; file = none; dirty = false; last_flush = 0 }

start-IsMemory : IsMemory names start
unfolding loaded
start-IsMemory = ((tt, tt), (tt, tt), inr refl)

run-IsMemory_example : IsMemory names (run names events start)
run-IsMemory_example = run-IsMemory names events start start-IsMemory

abbrev met : Memory
met =
    run names (observed (at 3 true) (codes "club") (some (pos 9)) (codes "@Ann") (codes "Ann") ∷ [])
      start

met-IsMemory : IsMemory names met
met-IsMemory =
    run-IsMemory names
      (observed (at 3 true) (codes "club") (some (pos 9)) (codes "@Ann") (codes "Ann") ∷ []) start
      start-IsMemory

took_note : (set_note (at 4 true) (codes "club") (codes "ann") (codes "likes tea") met).1 ≡ true
unfolding set_note run add_note is_empty lower lstrip_at strip one_space observe_message observe
    store text_eq chat_key evict
took_note = refl

set_note-participant_note_example : Shows (one_line note_max_chars (codes "likes tea")) (
    participant_note
      (codes "club")
      (codes "ann")
      (open_memory
        (set_note (at 4 true) (codes "club") (codes "ann") (codes "likes tea") met).0.file).cache)
set_note-participant_note_example =
    set_note-participant_note names (at 4 true) (codes "club") (codes "ann") (codes "likes tea") met
      met-IsMemory took_note refl

abbrev ages : Bucket ℕ
ages = (codes "a", 5) ∷ (codes "b", 2) ∷ (codes "c", 9) ∷ []

evict-victims_example :
    All (λ e. All (λ v. v.1 ≤ e.1) (victims 2 (λ n. n) ages)) (evict 2 (λ n. n) ages)
evict-victims_example = evict-victims (λ n. n) 2 ages
