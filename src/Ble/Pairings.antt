-- ===== src/Ble/Pairings.antt =====
-- Pairing in components/cyberdeck/src/apps/bluetooth/cyberdeck_ble_state_machine.cpp.
use cyberdeck.Common.{
  ℕ, Bool, true, false, not, ◌&&◌, ◌||◌, Option, none, some, [], ltb, ◌==◌, if◌then◌else◌,
}
use cyberdeck.Ble.{
  Text, Device, AddressType, results, pairing, auth, connecting, Notice, no_notice, failed,
  timed_out, cancelled, AuthRequestKind, passkey, numeric_compare, AuthIoAction, display, input,
  compare_numbers, PairOutcome, bonded, rejected, pair_cancelled, pair_timed_out, pair_failed,
  connect, passkey_modulus, pair_timeout_ms, auth_timeout_ms, connect_timeout_ms,
}
use cyberdeck.Ble.Devices.{find}
use cyberdeck.Ble.Machine.{
  Marks, Machine, next_token, clear_deadlines, emit_action, is_pairing, is_auth, is_list,
}

unfoldable pub type_or : Option Device → AddressType → AddressType
type_or none type = type
type_or (some d) type = d.addr_type

unfoldable pub pairing_started : ℕ → Text → Machine → Machine
unfolding is_list type_or
pairing_started token address m =
    let started = record m {
      pairing_address = address;
      pairing_addr_type = type_or (find m.devices.items address) m.pairing_addr_type;
      current = pairing;
      active_notice = no_notice;
      marks = record m.marks {
        timed_out_from_pairing = false;
        timed_out_from_connect = false;
        failed_from_pairing = false;
        failed_from_connect = false;
        rejected_from_pairing = false;
        reconnect_gave_up = false;
      };
      pair_deadline = pair_timeout_ms;
      displayed_passkey = 0;
    } in
    if not (is_list m.current) || not (token == m.pair_token) then m else started

-- Whether the request makes sense, and the number that is then shown.
unfoldable pub accepts : AuthRequestKind → ℕ → AuthIoAction → Bool
accepts passkey number display = ltb number passkey_modulus
accepts passkey number input = number == 0
accepts numeric_compare number compare_numbers = ltb number passkey_modulus
accepts _ number _ = false

unfoldable pub shown : AuthIoAction → ℕ → ℕ
shown display number = number
shown compare_numbers number = number
shown input number = 0

unfoldable pub auth_requested : ℕ → AuthRequestKind → ℕ → AuthIoAction → Machine → Machine
unfolding is_pairing accepts shown
auth_requested token kind number io m =
    let asked = record m {
      displayed_passkey = shown io number;
      pending_io = io;
      pending_auth = kind;
      current = auth;
      marks = record m.marks {
        timed_out_from_pairing = false;
        timed_out_from_connect = false;
        failed_from_pairing = false;
        failed_from_connect = false;
      };
      auth_deadline = auth_timeout_ms;
      pair_deadline = 0;
    } in
    if not (is_pairing m.current) || not (token == m.pair_token)
    then m
    else if not (accepts kind number io)
    then m
    else asked

-- An attempt that ended without a bond.
abbrev unpaired : Notice → Marks → Machine → Machine
unpaired notice marks m = record (clear_deadlines m) {
  current = results;
  active_notice = notice;
  marks = marks;
  pairing_address = [];
  displayed_passkey = 0;
}

unfoldable pub paired_with : PairOutcome → Machine → Machine
unfolding emit_action
paired_with bonded m =
    let connects = record m {
      current = connecting;
      connecting_address = m.pairing_address;
      connecting_addr_type = m.pairing_addr_type;
      connect_token = next_token m;
      token_counter = next_token m;
      connection_in_flight = true;
      connection_established = false;
      connect_deadline = connect_timeout_ms;
      reconnect_attempts = 0;
      active_reconnect_address = m.pairing_address;
    } in
    emit_action connect m.pairing_address 0 (next_token m) m.pairing_addr_type connects
paired_with rejected m =
    unpaired failed
      (record m.marks {
        failed_from_pairing = true;
        failed_from_connect = false;
        cancelled_from_pairing = false;
        cancelled_from_connect = false;
        rejected_from_pairing = true;
        timed_out_from_pairing = false;
        timed_out_from_connect = false;
      })
      m
paired_with pair_cancelled m =
    unpaired cancelled
      (record m.marks {
        timed_out_from_pairing = false;
        timed_out_from_connect = false;
        cancelled_from_pairing = true;
        cancelled_from_connect = false;
      })
      m
paired_with pair_timed_out m =
    unpaired timed_out
      (record m.marks {
        timed_out_from_pairing = true;
        timed_out_from_connect = false;
        cancelled_from_pairing = false;
        cancelled_from_connect = false;
      })
      m
paired_with pair_failed m =
    unpaired failed
      (record m.marks {
        failed_from_pairing = true;
        failed_from_connect = false;
        cancelled_from_pairing = false;
        cancelled_from_connect = false;
        timed_out_from_pairing = false;
        timed_out_from_connect = false;
      })
      m

unfoldable pub pairing_finished : ℕ → PairOutcome → Machine → Machine
unfolding is_pairing is_auth
pairing_finished token outcome m =
    if not (is_pairing m.current) && not (is_auth m.current)
    then m
    else if not (token == m.pair_token)
    then m
    else paired_with outcome m
