-- ===== src/Ble/Cycle.antt =====
-- The cycle of reconnection in the background, in
-- components/cyberdeck/src/apps/bluetooth/cyberdeck_ble_state_machine.cpp.
use cyberdeck.Common.{
  ◌+◌, Bool, true, false, not, ◌&&◌, ◌||◌, length, ltb, leb, ◌==◌, if◌then◌else◌,
}
use cyberdeck.Ble.{Device, max_reconnect_attempts}
use cyberdeck.Ble.Machine.{Machine}
use cyberdeck.Ble.Keys.{blocked}

unfoldable pub background_reconnect_armed : Machine → Bool
background_reconnect_armed m =
    m.background.armed
    && not m.background.manually_blocked
    && m.background.has_target
    && ltb m.background.cycle_attempts max_reconnect_attempts

unfoldable pub arm_background_reconnect : Device → Machine → Machine
arm_background_reconnect item m = if length item.address == 0 then m else record m {
  background = record m.background {
    target = item;
    has_target = true;
    cycle_attempts = 0;
    manually_blocked = false;
    armed = true;
  };
}

unfoldable pub block_background_reconnect : Machine → Machine
block_background_reconnect m = record m { background = blocked m.background }

unfoldable pub consume_background_attempt : Machine → Machine × Bool
consume_background_attempt m =
    let b = m.background in
    if not b.armed || b.manually_blocked || not b.has_target
    then (m, false)
    else if leb max_reconnect_attempts b.cycle_attempts
    then (m, false)
    else (
      record m {
        background = record b { cycle_attempts = b.cycle_attempts + 1; attempt_reserved = true };
      },
      true,
    )

unfoldable pub reset_background_cycle : Machine → Machine
reset_background_cycle m =
    if not m.background.manually_blocked
    then record m {
      background = record m.background { armed = true; cycle_attempts = 0 };
      reconnect_attempts = 0;
    }
    else m
