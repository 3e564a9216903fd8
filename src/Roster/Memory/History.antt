-- ===== src/Roster/Memory/History.antt =====
-- Histories of the roster: messages, notes, entities and restarts.
use telegram_presence.Base.{
  ℕ, ◌-◌, ◌≡◌, refl, ◌⊎◌, inl, inr, Bool, true, false, not, ◌&&◌, ◌||◌, Option, none, some, List,
  [], ◌∷◌, ltb, if◌then◌else◌,
}
use telegram_presence.Base.Int.{ℤ}
use telegram_presence.Base.Text.{Text}
use telegram_presence.Roster.{Roster, observe, add_note, add_entity}
use telegram_presence.Roster.Memory.{
  Memory, Moment, loaded, open_memory, flush, changed, is_new, saved, observe_message, set_note,
  remember_entity,
}
use telegram_presence.Roster.Bounds.{IsRoster, OnSome}
use telegram_presence.Roster.Bounds.Calls.{observe-IsRoster, add_note-IsRoster, add_entity-IsRoster}

-- What happens to the roster of a process; `restarted` starts on the file.
pub data Event : Type 0 where
  observed : Moment → Text → Option ℤ → Text → Text → Event
  noted : Moment → Text → Text → Text → Event
  entity : Moment → Text → Text → Text → List Text → Event
  restarted : Event

unfoldable pub step : List Text → Event → Memory → Memory
step names (observed w chat sender_id handle name) m =
    observe_message w chat sender_id handle name m
step names (noted w chat handle note) m = (set_note w chat handle note m).0
step names (entity w chat name note aliases) m =
    (remember_entity names w chat name note aliases m).0
step names restarted m = open_memory m.file

unfoldable pub run : List Text → List Event → Memory → Memory
unfolding step
run names [] m = m
run names (e ∷ es) m = run names es (step names e m)

module _ (names : List Text) where
  -- Both the cache and the file are within the bounds, and the file holds what is in the cache unless
  -- the cache is marked as changed.
  abbrev pub IsMemory : Memory → Type 0
  IsMemory m =
      IsRoster names m.cache
      × IsRoster names (loaded m.file)
      × ((m.dirty ≡ true) ⊎ (loaded m.file ≡ m.cache))

  flush-IsMemory :
      (force : Bool) (now : ℕ) (saves : Bool) (m : Memory)
      → IsMemory m
      → IsMemory (flush force now saves m)
  unfolding flush loaded
  flush-IsMemory force now saves m h =
      flushed (not m.dirty || (not force && ltb (now - m.last_flush) 20000000)) saves
    where
      flushed :
          (b saves : Bool)
          → IsMemory (
              if b
              then m
              else if saves
              then record m { file = some m.cache; dirty = false; last_flush = now }
              else m)
      flushed true saves = h
      flushed false true = (h.0, h.0, inr refl)
      flushed false false = h

  changed-IsMemory :
      (r : Roster) (m : Memory) → IsRoster names r → IsMemory m → IsMemory (changed r m)
  unfolding changed
  changed-IsMemory r m k h = (k, h.1, inl refl)

  saved-IsMemory :
      (w : Moment) (o : Option Roster) (m : Memory)
      → OnSome (IsRoster names) o
      → IsMemory m
      → IsMemory (saved w o m).0
  unfolding saved
  saved-IsMemory w none m k h = h
  saved-IsMemory w (some r) m k h =
      flush-IsMemory true w.clock w.saves (changed r m) (changed-IsMemory r m k h)

  step-IsMemory : (e : Event) (m : Memory) → IsMemory m → IsMemory (step names e m)
  unfolding step observe_message set_note remember_entity open_memory
  step-IsMemory (observed w chat none handle name) m h = h
  step-IsMemory (observed w chat (some id) handle name) m h =
      let r = observe w.now chat id handle name m.cache in
      flush-IsMemory (is_new chat id m.cache) w.clock w.saves (changed r m)
        (changed-IsMemory r m (observe-IsRoster names w.now chat id handle name m.cache h.0) h)
  step-IsMemory (noted w chat handle note) m h =
      saved-IsMemory w (add_note w.now chat handle note m.cache) m
        (add_note-IsRoster names w.now chat handle note m.cache h.0) h
  step-IsMemory (entity w chat name note aliases) m h =
      saved-IsMemory w (add_entity names w.now chat name note aliases m.cache) m
        (add_entity-IsRoster names w.now chat name note aliases m.cache h.0) h
  step-IsMemory restarted m h = (h.1, h.1, inr refl)

-- Whatever messages, notes and entities come, whichever writes fail, and wherever the process restarts:
-- the cache and the file keep at most 300 participants for each chat, with at most three notes of 200
-- characters each, and at most 30 entities, none of them the agent by its name or one of its at most
-- six aliases; no key stands twice; and a cache that is not marked as changed is what the file holds.
pub run-IsMemory :
    (names : List Text) (es : List Event) (m : Memory)
    → IsMemory names m
    → IsMemory names (run names es m)
unfolding run
run-IsMemory names [] m h = h
run-IsMemory names (e ∷ es) m h = run-IsMemory names es (step names e m) (step-IsMemory names e m h)
