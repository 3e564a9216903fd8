-- ===== src/Engage/Ledger/Tests.antt =====
-- A gate with a kill file, caps that a state write asks too much of, and a cursor by another spelling.
use telegram_presence.Base.{◌≡◌, refl, true, false, some, []}
use telegram_presence.Base.Int.{pos, negsuc}
use telegram_presence.Base.Text.{codes}
use telegram_presence.Engage.Ledger.{
  gate_open, verdict, kill_file, opened, min_gap, global_caps, chat_caps,
}

killed :
    gate_open
      (record { telegram_engage_enabled = true; autonomy_enabled = true; last_action_ts = 0 })
      (record { engage_off = false; autonomy_off = true; panic_stop = false })
      5
    ≡ verdict false false kill_file kill_file
unfolding gate_open
killed = refl

resting :
    gate_open
      (record {
        telegram_engage_enabled = true;
        autonomy_enabled = true;
        last_action_ts = 60000000;
      })
      (record { engage_off = false; autonomy_off = false; panic_stop = false })
      100000000
    ≡ verdict true false opened min_gap
unfolding gate_open
resting = refl

clamped_caps :
    global_caps (some (record { reply = some (pos 500); addressed = some (negsuc 3) })) ≡ (20, 0)
unfolding global_caps
clamped_caps = refl

default_caps : chat_caps [] (codes "@club") ≡ (3, 12)
unfolding chat_caps
default_caps = refl
