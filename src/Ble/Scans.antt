-- ===== src/Ble/Scans.antt =====
-- The search and its completions in
-- components/cyberdeck/src/apps/bluetooth/cyberdeck_ble_state_machine.cpp.
use cyberdeck.Common.{ℕ, Bool, false, not, ◌&&◌, List, [], length, ◌==◌, if◌then◌else◌}
use cyberdeck.Ble.{
  Device, public_address, searching, results, paired_list, no_notice, empty, failed, timed_out,
  start_scan, cancel_scan, scan_timeout_ms,
}
use cyberdeck.Ble.Devices.{clear, add_all}
use cyberdeck.Ble.Machine.{
  no_marks, Machine, next_token, clear_deadlines, emit_action, is_searching,
}

unfoldable pub begin_search : Machine → Machine
unfolding emit_action
begin_search m =
    let opened = record (clear_deadlines m) {
      current = searching;
      active_notice = no_notice;
      marks = no_marks;
      devices = clear;
      scan_token = next_token m;
      token_counter = next_token m;
      scan_deadline = scan_timeout_ms;
    } in
    emit_action start_scan [] 0 0 public_address opened

unfoldable pub begin_paired : Machine → Machine
begin_paired m = record (clear_deadlines m) {
  current = paired_list;
  active_notice = no_notice;
  marks = no_marks;
  devices = add_all m.paired_devices clear;
}

unfoldable pub set_paired_devices : List Device → Machine → Machine
set_paired_devices devices m = record m {
  paired_devices = devices;
  devices = add_all devices clear;
}

-- A completion of the scan that is running.
abbrev pub is_scan : ℕ → Machine → Bool
is_scan token m = is_searching m.current && token == m.scan_token

unfoldable pub scan_finished : ℕ → List Device → Machine → Machine
unfolding is_searching
scan_finished token devices m =
    let found = record (clear_deadlines m) {
      devices = add_all devices clear;
      current = results;
      active_notice = if length devices == 0 then empty else no_notice;
    } in
    if not (is_scan token m) then m else found

unfoldable pub scan_failed : ℕ → Machine → Machine
unfolding is_searching
scan_failed token m =
    let stopped = record (clear_deadlines m) {
      current = results;
      active_notice = failed;
      marks = record m.marks {
        failed_from_pairing = false;
        failed_from_connect = false;
        cancelled_from_pairing = false;
        cancelled_from_connect = false;
      };
    } in
    if not (is_scan token m) then m else stopped

unfoldable pub scan_timed_out : ℕ → Machine → Machine
unfolding is_searching emit_action
scan_timed_out token m =
    let stopped = record (clear_deadlines m) {
      current = results;
      active_notice = timed_out;
      marks = record m.marks { timed_out_from_pairing = false; timed_out_from_connect = false };
    } in
    if not (is_scan token m) then m else emit_action cancel_scan [] 0 0 public_address stopped
