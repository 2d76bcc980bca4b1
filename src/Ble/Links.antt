-- ===== src/Ble/Links.antt =====
-- Connections and reconnection in
-- components/cyberdeck/src/apps/bluetooth/cyberdeck_ble_state_machine.cpp.
use cyberdeck.Common.{
  ℕ, ◌+◌, Bool, true, false, not, ◌&&◌, ◌||◌, [], length, leb, ◌==◌, if◌then◌else◌,
}
use cyberdeck.Ble.{
  Device, idle, results, paired_list, connecting, no_notice, failed, reconnect, connect_timeout_ms,
  max_reconnect_attempts,
}
use cyberdeck.Ble.Machine.{Background, Machine, next_token, clear_deadlines, emit_action}

-- A background cycle for the device that was connected.
unfoldable pub rearm_connected : Machine → Background → Background
rearm_connected m b =
    if not (length m.connecting_address == 0)
    then record b {
      target = record b.target {
        address = m.connecting_address;
        addr_type = m.connecting_addr_type;
      };
      has_target = true;
      cycle_attempts = 0;
      manually_blocked = false;
      armed = true;
    }
    else b

unfoldable pub linked : Machine → Machine
unfolding rearm_connected
linked m = record (clear_deadlines m) {
  connection_in_flight = false;
  connection_established = true;
  current = idle;
  active_notice = no_notice;
  reconnect_attempts = 0;
  marks = record m.marks {
    timed_out_from_pairing = false;
    timed_out_from_connect = false;
    failed_from_pairing = false;
    failed_from_connect = false;
    cancelled_from_pairing = false;
    cancelled_from_connect = false;
    reconnect_gave_up = false;
  };
  background = rearm_connected m (record m.background { in_flight = false });
}

-- No link, or none any more: one that was there goes in silence, and so does a background attempt.
unfoldable pub unlinked : Machine → Machine
unlinked m =
    let quiet = record (clear_deadlines m) {
      connection_in_flight = false;
      connection_established = false;
      current = idle;
      active_notice = no_notice;
    } in
    let unseen = record quiet {
      background = record m.background { in_flight = false };
      marks = record m.marks { failed_from_connect = false };
    } in
    let refused = record (clear_deadlines m) {
      connection_in_flight = false;
      connection_established = false;
      current = results;
      active_notice = failed;
      marks = record m.marks {
        failed_from_connect = true;
        failed_from_pairing = false;
        cancelled_from_pairing = false;
        cancelled_from_connect = false;
        reconnect_gave_up = false;
        timed_out_from_pairing = false;
        timed_out_from_connect = false;
      };
      connecting_address = [];
    } in
    if m.connection_established then quiet else if m.background.in_flight then unseen else refused

unfoldable pub connection_finished : ℕ → Bool → Machine → Machine
connection_finished token success m =
    if token == 0
      || not (token == m.connect_token)
      || (not m.connection_in_flight && not m.connection_established)
    then m
    else if success && not m.connection_in_flight
    then m
    else if success
    then linked m
    else unlinked m

unfoldable pub schedule_reconnect : Device → Machine → Machine
unfolding emit_action
schedule_reconnect item m =
    let gave_up = record m {
      current = paired_list;
      active_notice = failed;
      marks = record m.marks {
        failed_from_connect = true;
        failed_from_pairing = false;
        reconnect_gave_up = true;
        timed_out_from_pairing = false;
        timed_out_from_connect = false;
      };
    } in
    let tries = record m {
      reconnect_attempts = m.reconnect_attempts + 1;
      current = connecting;
      connecting_address = item.address;
      connecting_addr_type = item.addr_type;
      active_reconnect_address = item.address;
      connect_token = next_token m;
      token_counter = next_token m;
      connection_in_flight = true;
      background = record m.background {
        in_flight = m.background.attempt_reserved;
        attempt_reserved = false;
      };
      connection_established = false;
      connect_deadline = connect_timeout_ms;
      marks = record m.marks {
        timed_out_from_pairing = false;
        timed_out_from_connect = false;
        failed_from_pairing = false;
        failed_from_connect = false;
        cancelled_from_pairing = false;
        cancelled_from_connect = false;
      };
    } in
    if leb max_reconnect_attempts m.reconnect_attempts
    then gave_up
    else emit_action reconnect item.address 0 (next_token m) item.addr_type tries
