-- ===== src/Ble/Budget.antt =====
-- The attempts to reconnect of
-- components/cyberdeck/src/apps/bluetooth/cyberdeck_ble_state_machine.cpp, through every call.
use cyberdeck.Common.{
  ℕ, ◌≤◌, ◌≡◌, refl, Bool, true, false, Option, none, some, List, [], ◌∷◌, arith,
}
use cyberdeck.Ble.Machine.{Machine, init, emit_action}
use cyberdeck.Ble.Scans.{
  begin_search, begin_paired, set_paired_devices, scan_finished, scan_failed, scan_timed_out,
}
use cyberdeck.Ble.Pairings.{pairing_started, auth_requested, pairing_finished, paired_with}
use cyberdeck.Ble.Links.{rearm_connected, linked, unlinked, connection_finished, schedule_reconnect}
use cyberdeck.Ble.Clocks.{
  scan_clock, pairing_late, pair_clock, auth_clock, connection_late, connect_clock, advance_time,
}
use cyberdeck.Ble.Keys.{
  submit, press, press_on, press_idle, press_searching, press_results, pair_with, press_paired,
  connect_with, press_pairing, press_connecting, press_connected,
}
use cyberdeck.Ble.Cycle.{
  arm_background_reconnect, block_background_reconnect, consume_background_attempt,
  reset_background_cycle,
}
use cyberdeck.Ble.Calls.{
  Call, search_devices, list_paired, pairs_are, found, scan_fails, scan_ends, pair_starts, asks,
  pair_ends, link_ends, retry, time, key, answer, arm, block, consume, reset, take_all,
  take_actions, step, run,
}
use cyberdeck.Ble.{
  Device, Screen, idle, searching, results, paired_list, pairing, auth, connecting, connected, Key,
  enter, escape, PairOutcome, bonded, rejected, pair_cancelled, pair_timed_out, pair_failed,
  max_reconnect_attempts,
}

pub record IsBounded (m : Machine) : Type 0 where
  pub attempts : m.reconnect_attempts ≤ max_reconnect_attempts
  pub cycle : m.background.cycle_attempts ≤ max_reconnect_attempts

abbrev counters : Machine → ℕ × ℕ
counters m = (m.reconnect_attempts, m.background.cycle_attempts)

same-IsBounded : {m n : Machine} → counters n ≡ counters m → IsBounded m → IsBounded n
same-IsBounded e h = ground arith

pairing_finished-IsBounded :
    (token : ℕ) (outcome : PairOutcome) {m : Machine}
    → IsBounded m
    → IsBounded (pairing_finished token outcome m)
unfolding pairing_finished paired_with emit_action
pairing_finished-IsBounded token bonded h = ground arith
pairing_finished-IsBounded token rejected h = ground arith
pairing_finished-IsBounded token pair_cancelled h = ground arith
pairing_finished-IsBounded token pair_timed_out h = ground arith
pairing_finished-IsBounded token pair_failed h = ground arith

connection_finished-IsBounded :
    (token : ℕ) (success : Bool) {m : Machine}
    → IsBounded m
    → IsBounded (connection_finished token success m)
unfolding connection_finished linked unlinked rearm_connected
connection_finished-IsBounded token true h = ground arith
connection_finished-IsBounded token false h = ground arith

scan_timed_out-IsBounded :
    (token : ℕ) {m : Machine} → IsBounded m → IsBounded (scan_timed_out token m)
unfolding scan_timed_out emit_action
scan_timed_out-IsBounded token h = ground arith

scan_clock-IsBounded : (elapsed : ℕ) {m : Machine} → IsBounded m → IsBounded (scan_clock elapsed m)
unfolding scan_clock
scan_clock-IsBounded elapsed {m} h = ground (
  arith,
  scan_timed_out-IsBounded m.scan_token {m = record m { scan_deadline = 0 }}
      (same-IsBounded refl h),
)

pairing_late-IsBounded : {m : Machine} → IsBounded m → IsBounded (pairing_late m)
unfolding pairing_late emit_action
pairing_late-IsBounded {m} h =
    same-IsBounded refl (pairing_finished-IsBounded m.pair_token pair_timed_out h)

pair_clock-IsBounded : (elapsed : ℕ) {m : Machine} → IsBounded m → IsBounded (pair_clock elapsed m)
unfolding pair_clock
pair_clock-IsBounded elapsed {m} h =
    ground
      (arith, pairing_late-IsBounded {m = record m { pair_deadline = 0 }} (same-IsBounded refl h))

auth_clock-IsBounded : (elapsed : ℕ) {m : Machine} → IsBounded m → IsBounded (auth_clock elapsed m)
unfolding auth_clock
auth_clock-IsBounded elapsed {m} h =
    ground
      (arith, pairing_late-IsBounded {m = record m { auth_deadline = 0 }} (same-IsBounded refl h))

connection_late-IsBounded : {m : Machine} → IsBounded m → IsBounded (connection_late m)
unfolding connection_late emit_action
connection_late-IsBounded {m} h =
    ground (arith, connection_finished-IsBounded m.connect_token false h)

connect_clock-IsBounded :
    (elapsed : ℕ) {m : Machine} → IsBounded m → IsBounded (connect_clock elapsed m)
unfolding connect_clock
connect_clock-IsBounded elapsed {m} h = ground (
  arith,
  connection_late-IsBounded {m = record m { connect_deadline = 0 }} (same-IsBounded refl h),
)

advance_time-IsBounded :
    (elapsed : ℕ) {m : Machine} → IsBounded m → IsBounded (advance_time elapsed m)
unfolding advance_time
advance_time-IsBounded elapsed h =
    connect_clock-IsBounded elapsed
      (auth_clock-IsBounded elapsed (pair_clock-IsBounded elapsed (scan_clock-IsBounded elapsed h)))

submit-IsBounded : (number : ℕ) {m : Machine} → IsBounded m → IsBounded (submit number m)
unfolding submit emit_action
submit-IsBounded number h = ground arith

idle-IsBounded : (k : Key) {m : Machine} → IsBounded m → IsBounded (press_idle k m)
unfolding press_idle emit_action
idle-IsBounded escape h = ground arith
idle-IsBounded _ h = h

pair_with-IsBounded : (d : Option Device) {m : Machine} → IsBounded m → IsBounded (pair_with d m)
unfolding pair_with emit_action
pair_with-IsBounded none h = h
pair_with-IsBounded (some d) h = ground arith

connect_with-IsBounded :
    (d : Option Device) {m : Machine} → IsBounded m → IsBounded (connect_with d m)
unfolding connect_with emit_action
connect_with-IsBounded none h = h
connect_with-IsBounded (some d) h = ground arith

press_on-IsBounded : (s : Screen) (k : Key) {m : Machine} → IsBounded m → IsBounded (press_on s k m)
unfolding press_on press_searching press_results press_paired press_pairing press_connecting
    press_connected emit_action
press_on-IsBounded idle k h = idle-IsBounded k h
press_on-IsBounded searching escape h = ground arith
press_on-IsBounded searching _ h = h
press_on-IsBounded results enter h = pair_with-IsBounded _ h
press_on-IsBounded results _ h = same-IsBounded refl h
press_on-IsBounded paired_list enter h = connect_with-IsBounded _ h
press_on-IsBounded paired_list _ h = same-IsBounded refl h
press_on-IsBounded pairing enter {m} h = ground (arith, submit-IsBounded m.displayed_passkey h)
press_on-IsBounded pairing escape h = same-IsBounded refl h
press_on-IsBounded pairing _ h = h
press_on-IsBounded auth enter {m} h = ground (arith, submit-IsBounded m.displayed_passkey h)
press_on-IsBounded auth escape h = same-IsBounded refl h
press_on-IsBounded auth _ h = h
press_on-IsBounded connecting escape h = ground arith
press_on-IsBounded connecting _ h = h
press_on-IsBounded connected escape h = ground arith
press_on-IsBounded connected _ h = h

step-IsBounded : (c : Call) {m : Machine} → IsBounded m → IsBounded (step m c)
unfolding step begin_search begin_paired set_paired_devices scan_finished scan_failed
    pairing_started auth_requested schedule_reconnect press arm_background_reconnect
    block_background_reconnect consume_background_attempt reset_background_cycle take_actions
    emit_action
step-IsBounded search_devices h = same-IsBounded refl h
step-IsBounded list_paired h = same-IsBounded refl h
step-IsBounded (pairs_are devices) h = same-IsBounded refl h
step-IsBounded (found token devices) h = ground arith
step-IsBounded (scan_fails token) h = ground arith
step-IsBounded (scan_ends token) h = scan_timed_out-IsBounded token h
step-IsBounded (pair_starts token address) h = ground arith
step-IsBounded (asks token kind number io) h = ground arith
step-IsBounded (pair_ends token outcome) h = pairing_finished-IsBounded token outcome h
step-IsBounded (link_ends token success) h = connection_finished-IsBounded token success h
step-IsBounded (retry item) h = ground arith
step-IsBounded (time elapsed) h = advance_time-IsBounded elapsed h
step-IsBounded (key k) {m} h = press_on-IsBounded m.current k h
step-IsBounded (answer number) h = submit-IsBounded number h
step-IsBounded (arm item) h = ground arith
step-IsBounded block h = ground arith
step-IsBounded consume h = ground arith
step-IsBounded reset h = ground arith
step-IsBounded take_all h = same-IsBounded refl h

run-IsBounded_from : (calls : List Call) {m : Machine} → IsBounded m → IsBounded (run m calls)
unfolding run
run-IsBounded_from [] h = h
run-IsBounded_from (c ∷ calls) h = run-IsBounded_from calls (step-IsBounded c h)

-- After any calls from the start, at most three attempts to reconnect are counted, and at most three of
-- the cycle in the background.
pub run-attempts : (calls : List Call) → IsBounded (run init calls)
run-attempts calls =
    run-IsBounded_from calls (record { attempts = omega arith; cycle = omega arith })
