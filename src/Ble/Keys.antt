-- ===== src/Ble/Keys.antt =====
-- The keys of components/cyberdeck/src/apps/bluetooth/cyberdeck_ble_state_machine.cpp, one function for
-- each screen of `press`.
use cyberdeck.Common.{
  ℕ, Bool, true, false, not, ◌&&◌, ◌||◌, Option, none, some, [], length, leb, ◌==◌, if◌then◌else◌,
}
use cyberdeck.Ble.{
  Device, AddressType, Screen, idle, searching, results, paired_list, pairing, auth, connecting,
  connected, no_notice, cancelled, not_connectable, Key, up, down, enter, escape, AuthIoAction,
  input, compare_numbers, cancel_scan, pair, submit_auth, cancel_pair, cancel_connect, connect,
  disconnect, passkey_modulus, pair_timeout_ms, connect_timeout_ms,
}
use cyberdeck.Ble.Devices.{move_up, move_down, selected}
use cyberdeck.Ble.Machine.{
  Marks, Background, Machine, next_token, clear_deadlines, emit_action, is_auth,
}

-- What a disconnect by hand does to the background cycle.
abbrev pub blocked : Background → Background
blocked b = record b { armed = false; manually_blocked = true; cycle_attempts = 0 }

-- `reset` of the six marks that a disconnect by hand clears.
abbrev unmarked : Marks → Marks
unmarked marks = record marks {
  timed_out_from_pairing = false;
  timed_out_from_connect = false;
  failed_from_pairing = false;
  failed_from_connect = false;
  cancelled_from_pairing = false;
  cancelled_from_connect = false;
}

unfoldable pub is_entry : AuthIoAction → Bool
is_entry input = true
is_entry _ = false

unfoldable pub is_comparison : AuthIoAction → Bool
is_comparison compare_numbers = true
is_comparison _ = false

unfoldable pub submit : ℕ → Machine → Machine
unfolding is_auth is_entry is_comparison emit_action
submit number m =
    let sent = record m {
      displayed_passkey = 0;
      current = pairing;
      pair_deadline = pair_timeout_ms;
      auth_deadline = 0;
    } in
    let is_input = is_entry m.pending_io in
    if not (is_auth m.current)
    then m
    else if is_input && leb passkey_modulus number
    then m
    else if not is_input && leb passkey_modulus m.displayed_passkey
    then m
    else emit_action submit_auth m.pairing_address
        (if is_comparison m.pending_io then 0 else number) m.pair_token m.pairing_addr_type sent

unfoldable pub press_idle : Key → Machine → Machine
press_idle escape m =
    let left = record (clear_deadlines m) {
      current = idle;
      active_notice = no_notice;
      connecting_address = [];
      active_reconnect_address = [];
      reconnect_attempts = 0;
      background = blocked m.background;
      marks = unmarked m.marks;
    } in
    let told =
      emit_action disconnect m.connecting_address 0 m.connect_token m.connecting_addr_type left in
    if m.connection_established
    then if m.connect_token == 0 || length m.connecting_address == 0
      then m
      else record told { connection_in_flight = false }
    else m
press_idle _ m = m

unfoldable pub press_searching : Key → Machine → Machine
press_searching escape m =
    emit_action cancel_scan [] 0 m.scan_token AddressType.public_address
      (record (clear_deadlines m) { current = idle; active_notice = cancelled })
press_searching _ m = m

unfoldable pub pair_with : Option Device → Machine → Machine
pair_with none m = m
pair_with (some d) m =
    let opened = record m {
      pairing_address = d.address;
      pairing_addr_type = d.addr_type;
      pair_token = next_token m;
      token_counter = next_token m;
      pair_deadline = pair_timeout_ms;
    } in
    let asked = emit_action pair d.address 0 (next_token m) d.addr_type opened in
    if d.connectable
    then record asked { current = pairing }
    else record m { active_notice = not_connectable }

unfoldable pub press_results : Key → Machine → Machine
unfolding pair_with
press_results up m = record m { devices = move_up m.devices }
press_results down m = record m { devices = move_down m.devices }
press_results enter m = pair_with (selected m.devices) m
press_results escape m = record m { current = idle; active_notice = no_notice }

unfoldable pub connect_with : Option Device → Machine → Machine
connect_with none m = m
connect_with (some d) m =
    let connects = record m {
      reconnect_attempts = 0;
      connecting_address = d.address;
      connecting_addr_type = d.addr_type;
      connect_token = next_token m;
      token_counter = next_token m;
      connection_in_flight = true;
      connection_established = false;
      connect_deadline = connect_timeout_ms;
      active_reconnect_address = d.address;
      marks = record m.marks { reconnect_gave_up = false };
      background = record m.background {
        in_flight = false;
        target = d;
        has_target = true;
        cycle_attempts = 0;
        manually_blocked = false;
        armed = true;
      };
      current = connecting;
    } in
    emit_action connect d.address 0 (next_token m) d.addr_type connects

unfoldable pub press_paired : Key → Machine → Machine
unfolding connect_with
press_paired up m = record m { devices = move_up m.devices }
press_paired down m = record m { devices = move_down m.devices }
press_paired enter m = connect_with (selected m.devices) m
press_paired escape m = record m { current = idle; active_notice = no_notice }

unfoldable pub press_pairing : Key → Machine → Machine
press_pairing escape m =
    let left = record (clear_deadlines m) {
      current = results;
      active_notice = cancelled;
      marks = record m.marks {
        timed_out_from_pairing = false;
        timed_out_from_connect = false;
        cancelled_from_pairing = true;
        cancelled_from_connect = false;
      };
      pairing_address = [];
      displayed_passkey = 0;
    } in
    emit_action cancel_pair m.pairing_address 0 m.pair_token m.pairing_addr_type left
press_pairing enter m = if not (is_entry m.pending_io) then submit m.displayed_passkey m else m
press_pairing _ m = m

unfoldable pub press_connecting : Key → Machine → Machine
press_connecting escape m =
    let left = record (clear_deadlines m) {
      current = results;
      active_notice = cancelled;
      marks = record m.marks {
        timed_out_from_pairing = false;
        timed_out_from_connect = false;
        cancelled_from_pairing = false;
        cancelled_from_connect = true;
      };
      connecting_address = [];
    } in
    let told =
      emit_action cancel_connect m.connecting_address 0 m.connect_token m.connecting_addr_type
        left in
    record told {
      connection_in_flight = false;
      background = record m.background { in_flight = false };
    }
press_connecting _ m = m

unfoldable pub press_connected : Key → Machine → Machine
press_connected escape m =
    let left = record (clear_deadlines m) {
      current = idle;
      active_notice = no_notice;
      connecting_address = [];
      active_reconnect_address = [];
      reconnect_attempts = 0;
      background = blocked m.background;
      marks = unmarked m.marks;
    } in
    let told =
      emit_action disconnect m.connecting_address 0 m.connect_token m.connecting_addr_type left in
    record told {
      connection_in_flight = false;
      background = record (blocked m.background) { in_flight = false };
    }
press_connected _ m = m

unfoldable pub press_on : Screen → Key → Machine → Machine
press_on idle key m = press_idle key m
press_on searching key m = press_searching key m
press_on results key m = press_results key m
press_on paired_list key m = press_paired key m
press_on pairing key m = press_pairing key m
press_on auth key m = press_pairing key m
press_on connecting key m = press_connecting key m
press_on connected key m = press_connected key m

unfoldable pub press : Key → Machine → Machine
press key m = press_on m.current key m
