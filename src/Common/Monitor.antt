-- ===== src/Common/Monitor.antt =====
-- `HeartbeatMonitor` of src/nasdaq_protocols/common/session.py. One tick is what follows one sleep of
-- the interval; `returns` tells whether `on_no_activity_coro`, the caller's, returns or raises.
pub mod Trips
use nasdaq_protocols.Prelude.{ℕ, zero, suc, ◌+◌, Bool, true, false, not, ◌&&◌, leb, if◌then◌else◌}

pub record Monitor : Type 0 where
  pub stop_when_no_activity : Bool
  pub tolerate_missed_heartbeats : ℕ
  pub pinged : Bool
  -- the next number of `missed_heartbeats`
  pub missed_heartbeats : ℕ
  -- whether the task is there
  pub is_running : Bool
  -- calls of `on_no_activity_coro`
  pub no_activity : ℕ

unfoldable pub start_monitor : Bool → ℕ → Monitor
start_monitor stop_when tolerate = record {
  stop_when_no_activity = stop_when;
  tolerate_missed_heartbeats = tolerate;
  pinged = true;
  missed_heartbeats = 1;
  is_running = true;
  no_activity = 0;
}

unfoldable pub ping : Monitor → Monitor
ping m = record m { pinged = true }

unfoldable pub stop : Monitor → Monitor
stop m = record m { is_running = false }

-- One round of the loop of `_start_monitor`. An exception ends the task.
unfoldable pub tick : Bool → Monitor → Monitor
tick returns m =
    let missed = m.missed_heartbeats in
    if not m.is_running
    then m
    else if m.pinged
    then record m { pinged = false; missed_heartbeats = 1 }
    else if leb m.tolerate_missed_heartbeats missed
    then record m {
      missed_heartbeats = missed + 1;
      no_activity = m.no_activity + 1;
      is_running = returns && not m.stop_when_no_activity;
    }
    else record m { missed_heartbeats = missed + 1 }

unfoldable pub ticks : ℕ → Monitor → Monitor
ticks zero m = m
ticks (suc n) m = ticks n (tick true m)
