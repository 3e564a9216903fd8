-- ===== src/Roster/Memory.antt =====
-- The process-wide cache of telegram_presence/roster.py with its file, and the operations on it.
pub mod History
use telegram_presence.Base.{
  ℕ, zero, suc, ◌+◌, ◌-◌, ◌*◌, ◌/◌, ◌%◌, ◌^◌, ◌≤◌, ◌<◌, min, max, ◌≡◌, refl, sym, ap, ◌∙◌, subst,
  ◌≢◌, ◌↔◌, ◌⊎◌, inl, inr, Bool, true, false, not, ◌&&◌, ◌||◌, Option, none, some, List, [], ◌∷◌,
  ◌++◌, map, arith, ltb, leb, ◌==◌, if◌then◌else◌, ltb→lt, lt→ltb, leb→le, ==_iff, Bool-cases,
  Option-cases, is_none, is_some, length, length-append, take, drop, length-take, length-drop,
  take-all, keep, length-keep-le, All, All-append, All-map,
}
use telegram_presence.Base.Int.{ℤ}
use telegram_presence.Base.Text.{Text}
use telegram_presence.Base.Value.{tick_rate}
use telegram_presence.Inbox.Peers.{chat_key}
use telegram_presence.Roster.{
  Roster, Participant, observe, add_note, add_entity, bucket_of, sender_key,
}
use telegram_presence.Roster.Dict.{lookup}

-- `_CACHE`, `_DIRTY` and `_LAST_FLUSH`, with the payload of the file if it can be read.
pub record Memory : Type 0 where
  pub cache : Roster
  pub file : Option Roster
  pub dirty : Bool
  pub last_flush : ℕ

abbrev pub empty_roster : Roster
empty_roster = record { chats = []; entities = [] }

-- What `_load` makes of the file.
unfoldable pub loaded : Option Roster → Roster
loaded none = empty_roster
loaded (some r) = r

-- A process that starts on the file, with `_load`
unfoldable pub open_memory : Option Roster → Memory
unfolding loaded
open_memory file = record { cache = loaded file; file = file; dirty = false; last_flush = 0 }

abbrev pub flush_min_interval : ℕ
flush_min_interval = 20 * tick_rate

-- `_flush` at a time; `saves` says whether the write succeeds
unfoldable pub flush : Bool → ℕ → Bool → Memory → Memory
flush force now saves m =
    if not m.dirty || (not force && ltb (now - m.last_flush) flush_min_interval)
    then m
    else if saves
    then record m { file = some m.cache; dirty = false; last_flush = now }
    else m

unfoldable pub changed : Roster → Memory → Memory
changed r m = record m { cache = r; dirty = true }

unfoldable pub is_new : Text → ℤ → Roster → Bool
unfolding bucket_of sender_key
is_new chat sender_id r =
    is_none (lookup (sender_key sender_id) (bucket_of (chat_key chat) r.chats))

-- A call: the time it is given or reads, the time that the flush reads, and whether a write succeeds.
pub record Moment : Type 0 where
  pub now : ℕ
  pub clock : ℕ
  pub saves : Bool

-- `observe_message`
unfoldable pub observe_message : Moment → Text → Option ℤ → Text → Text → Memory → Memory
unfolding flush changed is_new
observe_message w chat none handle name m = m
observe_message w chat (some id) handle name m =
    flush (is_new chat id m.cache) w.clock w.saves
      (changed (observe w.now chat id handle name m.cache) m)

-- A change that is flushed at once, and whether there was one
unfoldable pub saved : Moment → Option Roster → Memory → Memory × Bool
unfolding flush changed
saved w none m = (m, false)
saved w (some r) m = (flush true w.clock w.saves (changed r m), true)

-- `set_note`
unfoldable pub set_note : Moment → Text → Text → Text → Memory → Memory × Bool
unfolding saved
set_note w chat handle note m = saved w (add_note w.now chat handle note m.cache) m

-- `remember_entity`
unfoldable pub remember_entity :
    List Text → Moment → Text → Text → Text → List Text → Memory → Memory × Bool
unfolding saved
remember_entity names w chat name note aliases m =
    saved w (add_entity names w.now chat name note aliases m.cache) m
