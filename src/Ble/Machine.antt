-- ===== src/Ble/Machine.antt =====
-- The state of components/cyberdeck/src/apps/bluetooth/cyberdeck_ble_state_machine.cpp, and the actions
-- that it emits. The marks of where a notice comes from, and the members about reconnection in the
-- background, are records of their own.
use cyberdeck.Common.{
  ℕ, ◌+◌, ◌%◌, ◌^◌, Bool, true, false, not, ◌&&◌, List, [], ◌∷◌, ◌++◌, length, ◌==◌, if◌then◌else◌,
}
use cyberdeck.Wifi.{negsuc}
use cyberdeck.Ble.{
  Text, Device, AddressType, public_address, unknown, Screen, idle, searching, results, paired_list,
  pairing, auth, connecting, Notice, no_notice, AuthRequestKind, passkey, AuthIoAction, input,
  compare_numbers, ActionKind, start_scan, cancel_scan, pair, submit_auth, cancel_pair,
  cancel_connect, connect, disconnect, reconnect, Action,
}
use cyberdeck.Ble.Devices.{DeviceList, clear}

pub record Marks : Type 0 where
  pub timed_out_from_pairing : Bool
  pub timed_out_from_connect : Bool
  pub failed_from_pairing : Bool
  pub failed_from_connect : Bool
  pub cancelled_from_pairing : Bool
  pub cancelled_from_connect : Bool
  pub rejected_from_pairing : Bool
  pub reconnect_gave_up : Bool

abbrev pub no_marks : Marks
no_marks = record {
  timed_out_from_pairing = false;
  timed_out_from_connect = false;
  failed_from_pairing = false;
  failed_from_connect = false;
  cancelled_from_pairing = false;
  cancelled_from_connect = false;
  rejected_from_pairing = false;
  reconnect_gave_up = false;
}

pub record Background : Type 0 where
  pub armed : Bool
  pub manually_blocked : Bool
  pub target : Device
  pub has_target : Bool
  pub cycle_attempts : ℕ
  pub in_flight : Bool
  pub attempt_reserved : Bool

pub record Machine : Type 0 where
  pub current : Screen
  pub active_notice : Notice
  pub devices : DeviceList
  pub paired_devices : List Device
  pub action_queue : List Action
  pub scan_token : ℕ
  pub pair_token : ℕ
  pub connect_token : ℕ
  pub token_counter : ℕ
  pub scan_deadline : ℕ
  pub pair_deadline : ℕ
  pub auth_deadline : ℕ
  pub connect_deadline : ℕ
  pub pairing_address : Text
  pub pairing_addr_type : AddressType
  pub connecting_address : Text
  pub connecting_addr_type : AddressType
  pub active_reconnect_address : Text
  pub connection_in_flight : Bool
  pub connection_established : Bool
  pub pending_auth : AuthRequestKind
  pub pending_io : AuthIoAction
  pub displayed_passkey : ℕ
  pub reconnect_attempts : ℕ
  pub background : Background
  pub marks : Marks

abbrev pub no_device : Device
no_device = record {
  address = [];
  addr_type = public_address;
  name = [];
  rssi = negsuc 119;
  kind = unknown;
  paired = false;
  connectable = true;
}

abbrev pub init : Machine
init = record {
  current = idle;
  active_notice = no_notice;
  devices = clear;
  paired_devices = [];
  action_queue = [];
  scan_token = 0;
  pair_token = 0;
  connect_token = 0;
  token_counter = 0;
  scan_deadline = 0;
  pair_deadline = 0;
  auth_deadline = 0;
  connect_deadline = 0;
  pairing_address = [];
  pairing_addr_type = public_address;
  connecting_address = [];
  connecting_addr_type = public_address;
  active_reconnect_address = [];
  connection_in_flight = false;
  connection_established = false;
  pending_auth = passkey;
  pending_io = input;
  displayed_passkey = 0;
  reconnect_attempts = 0;
  background = record {
    armed = false;
    manually_blocked = false;
    target = no_device;
    has_target = false;
    cycle_attempts = 0;
    in_flight = false;
    attempt_reserved = false;
  };
  marks = no_marks;
}

-- `++token_counter`, of 64 bits.
abbrev pub next_token : Machine → ℕ
next_token m = (m.token_counter + 1) % 2 ^ 64

abbrev pub clear_deadlines : Machine → Machine
clear_deadlines m = record m {
  scan_deadline = 0;
  pair_deadline = 0;
  auth_deadline = 0;
  connect_deadline = 0;
}

unfoldable pub is_submit : ActionKind → Bool
is_submit submit_auth = true
is_submit _ = false

unfoldable pub compares : AuthIoAction → Bool
compares compare_numbers = true
compares _ = false

-- The token of an action that is emitted with none.
unfoldable pub token_for : ActionKind → Machine → ℕ
token_for start_scan m = m.scan_token
token_for cancel_scan m = m.scan_token
token_for pair m = m.pair_token
token_for cancel_pair m = m.pair_token
token_for submit_auth m = m.pair_token
token_for connect m = m.connect_token
token_for reconnect m = m.connect_token
token_for cancel_connect m = m.connect_token
token_for disconnect m = m.connect_token

-- The type found for the address among the known devices is overwritten by the one that is given.
unfoldable pub emit_action : ActionKind → Text → ℕ → ℕ → AddressType → Machine → Machine
unfolding is_submit compares token_for
emit_action kind address number token type m =
    let is_compare = is_submit kind && compares m.pending_io in
    let a : Action = record {
      kind = kind;
      address = address;
      addr_type = if not (length address == 0) then type else public_address;
      passkey = number;
      numcmp = if is_compare then m.displayed_passkey else 0;
      numcmp_accept = is_compare;
      auth_action = if is_submit kind then m.pending_io else input;
      token = if not (token == 0) then token else token_for kind m;
    } in
    record m { action_queue = m.action_queue ++ a ∷ [] }

unfoldable pub is_searching : Screen → Bool
is_searching searching = true
is_searching _ = false

unfoldable pub is_pairing : Screen → Bool
is_pairing pairing = true
is_pairing _ = false

unfoldable pub is_auth : Screen → Bool
is_auth auth = true
is_auth _ = false

unfoldable pub is_connecting : Screen → Bool
is_connecting connecting = true
is_connecting _ = false

unfoldable pub is_list : Screen → Bool
is_list results = true
is_list paired_list = true
is_list _ = false
