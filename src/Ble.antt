-- ===== src/Ble.antt =====
-- The Bluetooth menu: the types of
-- components/cyberdeck/include/apps/bluetooth/cyberdeck_ble_types.h and cyberdeck_ble_state_machine.h.
-- A string is the list of its bytes.
pub mod Addresses
pub mod Devices
pub mod Machine
pub mod Scans
pub mod Pairings
pub mod Links
pub mod Clocks
pub mod Keys
pub mod Cycle
pub mod Calls
pub mod Lists
pub mod Shown
pub mod Digits
pub mod Tokens
pub mod Stale
pub mod Budget
pub mod Passkeys
pub mod Answers
mod Tests
use cyberdeck.Common.{ℕ, Bool, true, false, List, []}
use cyberdeck.Wifi.{ℤ}

-- A string is the list of its bytes.
abbrev pub Text : Type 0
Text = List ℕ

abbrev pub max_address_bytes : ℕ
max_address_bytes = 17

abbrev pub max_devices : ℕ
max_devices = 32

abbrev pub passkey_modulus : ℕ
passkey_modulus = 1000000

pub data DeviceKind : Type 0 where
  keyboard headset mouse unknown : DeviceKind

pub data AddressType : Type 0 where
  public_address random_static random_resolvable random_non_resolvable : AddressType

pub record Device : Type 0 where
  pub address : Text
  pub addr_type : AddressType
  pub name : Text
  pub rssi : ℤ
  pub kind : DeviceKind
  pub paired : Bool
  pub connectable : Bool

abbrev pub scan_timeout_ms : ℕ
scan_timeout_ms = 10000

abbrev pub pair_timeout_ms : ℕ
pair_timeout_ms = 30000

abbrev pub auth_timeout_ms : ℕ
auth_timeout_ms = 30000

abbrev pub connect_timeout_ms : ℕ
connect_timeout_ms = 20000

abbrev pub max_reconnect_attempts : ℕ
max_reconnect_attempts = 3

pub data Screen : Type 0 where
  idle searching results paired_list pairing auth connecting connected : Screen

pub data Key : Type 0 where
  up down enter escape : Key

pub data Notice : Type 0 where
  no_notice empty failed timed_out cancelled not_connectable : Notice

pub data AuthRequestKind : Type 0 where
  passkey numeric_compare : AuthRequestKind

pub data AuthIoAction : Type 0 where
  display input compare_numbers : AuthIoAction

pub data PairOutcome : Type 0 where
  bonded rejected pair_cancelled pair_timed_out pair_failed : PairOutcome

pub data ActionKind : Type 0 where
  start_scan cancel_scan pair submit_auth cancel_pair cancel_connect connect disconnect reconnect :
      ActionKind

pub record Action : Type 0 where
  pub kind : ActionKind
  pub address : Text
  pub addr_type : AddressType
  pub passkey : ℕ
  pub numcmp : ℕ
  pub numcmp_accept : Bool
  pub auth_action : AuthIoAction
  pub token : ℕ
