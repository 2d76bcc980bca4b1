-- ===== src/Ble/Tests.antt =====
-- Runs of the Bluetooth menu.
use cyberdeck.Common.{◌≡◌, refl, false, some, List, [], ◌∷◌, ◌++◌, arith}
use cyberdeck.Ble.Machine.{Machine, init, emit_action}
use cyberdeck.Ble.Scans.{begin_search, scan_finished}
use cyberdeck.Ble.Pairings.{auth_requested}
use cyberdeck.Ble.Keys.{submit, press, press_on, press_results, pair_with}
use cyberdeck.Ble.Calls.{Call, search_devices, found, asks, retry, key, answer, step, run}
use cyberdeck.Ble.{
  Text, Device, public_address, down, enter, escape, passkey, input, start_scan, pair, submit_auth,
  Action,
}
use cyberdeck.Ble.Devices.{selected, move_down, add_all, merge_loop}
use cyberdeck.Ble.Addresses.{normalize_address, parse_passkey, format_passkey}
use cyberdeck.Ble.Lists.{IsSound}
use cyberdeck.Ble.Shown.{run-devices}
use cyberdeck.Ble.Digits.{parse-format}
use cyberdeck.Ble.Budget.{IsBounded, run-attempts}
use cyberdeck.Ble.Stale.{run-stale}
use cyberdeck.Ble.Answers.{run-IsSafe}
use cyberdeck.Ble.Passkeys.{IsSafe}
use cyberdeck.Ble.Machine.{no_device}

abbrev keyboard_found : Device
keyboard_found = record no_device {
  address = 65 ∷ 66 ∷ 58 ∷ 48 ∷ 49 ∷ 58 ∷ 48 ∷ 50 ∷ 58 ∷ 48 ∷ 51 ∷ 58 ∷ 48 ∷ 52 ∷ 58 ∷ 48 ∷ 53 ∷ [];
}

abbrev mouse_found : Device
mouse_found = record no_device {
  address = 97 ∷ 98 ∷ 48 ∷ 49 ∷ 48 ∷ 50 ∷ 48 ∷ 51 ∷ 48 ∷ 52 ∷ 48 ∷ 54 ∷ [];
}

-- A search that finds a device twice and another once.
abbrev searched : List Call
searched =
    search_devices ∷ found 1 (keyboard_found ∷ mouse_found ∷ keyboard_found ∷ []) ∷ key down ∷ []

-- The second device is paired with by a passkey that the user types.
abbrev paired : List Call
paired = key enter ∷ asks 2 passkey 0 input ∷ answer 123456 ∷ []

abbrev mouse_address : Text
mouse_address =
    65 ∷ 66 ∷ 58 ∷ 48 ∷ 49 ∷ 58 ∷ 48 ∷ 50 ∷ 58 ∷ 48 ∷ 51 ∷ 58 ∷ 48 ∷ 52 ∷ 58 ∷ 48 ∷ 54 ∷ []

abbrev quiet : Action
quiet = record {
  kind = start_scan;
  address = [];
  addr_type = public_address;
  passkey = 0;
  numcmp = 0;
  numcmp_accept = false;
  auth_action = input;
  token = 1;
}

typed_passkey :
    (run init (searched ++ paired)).action_queue
    ≡ quiet
      ∷ record quiet { kind = pair; address = mouse_address; token = 2 }
      ∷ record quiet { kind = submit_auth; address = mouse_address; passkey = 123456; token = 2 }
      ∷ []
unfolding run step begin_search emit_action scan_finished press press_on press_results pair_with
    auth_requested submit selected move_down add_all normalize_address merge_loop
typed_passkey = refl

run-devices_example : IsSound (run init searched).devices
run-devices_example = run-devices searched

run-attempts_example : IsBounded (
    run init (
      retry keyboard_found
      ∷ retry keyboard_found
      ∷ retry keyboard_found
      ∷ retry keyboard_found
      ∷ []))
run-attempts_example =
    run-attempts (
      retry keyboard_found
      ∷ retry keyboard_found
      ∷ retry keyboard_found
      ∷ retry keyboard_found
      ∷ [])

-- The results of a search come after the next search has begun.
abbrev searched_twice : Machine
searched_twice = run init (search_devices ∷ search_devices ∷ [])

scan_token-searched_twice : searched_twice.scan_token ≡ 2
unfolding run step begin_search emit_action
scan_token-searched_twice = refl

run-stale_example :
    step (run searched_twice (key escape ∷ [])) (found 1 (keyboard_found ∷ []))
    ≡ run searched_twice (key escape ∷ [])
run-stale_example =
    run-stale (search_devices ∷ search_devices ∷ []) (key escape ∷ [])
      (found 1 (keyboard_found ∷ [])) (omega arith) (omega (arith, scan_token-searched_twice))

-- A passkey of seven digits is typed first.
abbrev too_long : List Call
too_long = key enter ∷ asks 2 passkey 0 input ∷ answer 1234567 ∷ answer 123456 ∷ []

run-IsSafe_example : IsSafe (run init (searched ++ too_long))
run-IsSafe_example = run-IsSafe (searched ++ too_long)

parse-format_example : parse_passkey (format_passkey 4711) ≡ some 4711
parse-format_example = parse-format 4711 (omega arith)
