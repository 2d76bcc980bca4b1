-- ===== src/Ble/Tokens.antt =====
-- The tokens of components/cyberdeck/src/apps/bluetooth/cyberdeck_ble_state_machine.cpp, through every call.
use cyberdeck.Common.{
  ℕ, ◌+◌, ◌^◌, ◌≤◌, ◌<◌, ◌≡◌, refl, Bool, true, false, Option, none, some, List, [], ◌∷◌, length,
  arith,
}
use cyberdeck.Ble.Machine.{Machine, init, emit_action}
use cyberdeck.Ble.Scans.{
  begin_search, begin_paired, set_paired_devices, scan_finished, scan_failed, scan_timed_out,
}
use cyberdeck.Ble.Pairings.{pairing_started, auth_requested, pairing_finished, paired_with}
use cyberdeck.Ble.Links.{linked, unlinked, connection_finished, schedule_reconnect}
use cyberdeck.Ble.Clocks.{
  scan_clock, pairing_late, pair_clock, auth_clock, connection_late, connect_clock, advance_time,
}
use cyberdeck.Ble.Keys.{
  submit, press, press_on, press_idle, press_searching, press_results, pair_with, press_paired,
  connect_with, press_pairing, press_connecting, press_connected,
}
use cyberdeck.Ble.Cycle.{
  arm_background_reconnect, block_background_reconnect, consume_background_attempt,
  reset_background_cycle,
}
use cyberdeck.Ble.Calls.{
  Call, search_devices, list_paired, pairs_are, found, scan_fails, scan_ends, pair_starts, asks,
  pair_ends, link_ends, retry, time, key, answer, arm, block, consume, reset, take_all,
  take_actions, step, run,
}
use cyberdeck.Ble.{
  Device, Screen, idle, searching, results, paired_list, pairing, auth, connecting, connected, Key,
  enter, escape, PairOutcome, bonded, rejected, pair_cancelled, pair_timed_out, pair_failed,
}

-- The three tokens have reached `a`, `b` and `d`, were issued, and at most `k` were.
pub record Grew (a b d k : ℕ) (m : Machine) : Type 0 where
  pub scan_reached : a ≤ m.scan_token
  pub pair_reached : b ≤ m.pair_token
  pub connect_reached : d ≤ m.connect_token
  pub scan_issued : m.scan_token ≤ m.token_counter
  pub pair_issued : m.pair_token ≤ m.token_counter
  pub connect_issued : m.connect_token ≤ m.token_counter
  pub counted : m.token_counter ≤ k

abbrev tokens : Machine → ℕ × ℕ × ℕ × ℕ
tokens m = (m.scan_token, m.pair_token, m.connect_token, m.token_counter)

module _ {a b d k : ℕ} where
  same-Grew : {m n : Machine} → tokens n ≡ tokens m → Grew a b d k m → Grew a b d k n
  same-Grew e h = ground arith

  later-Grew : {m : Machine} → Grew a b d k m → Grew a b d (k + 1) m
  later-Grew h = ground arith

  pairing_finished-Grew :
      (token : ℕ) (outcome : PairOutcome) {m : Machine}
      → k + 1 < 2 ^ 64
      → Grew a b d k m
      → Grew a b d (k + 1) (pairing_finished token outcome m)
  unfolding pairing_finished paired_with emit_action
  pairing_finished-Grew token bonded l h = ground arith
  pairing_finished-Grew token rejected l h = ground arith
  pairing_finished-Grew token pair_cancelled l h = ground arith
  pairing_finished-Grew token pair_timed_out l h = ground arith
  pairing_finished-Grew token pair_failed l h = ground arith

  connection_finished-Grew :
      (token : ℕ) (success : Bool) {m : Machine}
      → Grew a b d k m
      → Grew a b d k (connection_finished token success m)
  unfolding connection_finished linked unlinked
  connection_finished-Grew token true h = ground arith
  connection_finished-Grew token false h = ground arith

  scan_timed_out-Grew :
      (token : ℕ) {m : Machine} → Grew a b d k m → Grew a b d k (scan_timed_out token m)
  unfolding scan_timed_out emit_action
  scan_timed_out-Grew token h = ground arith

  scan_clock-Grew :
      (elapsed : ℕ) {m : Machine} → Grew a b d k m → Grew a b d k (scan_clock elapsed m)
  unfolding scan_clock
  scan_clock-Grew elapsed {m} h = ground (
    arith,
    scan_timed_out-Grew m.scan_token {m = record m { scan_deadline = 0 }} (same-Grew refl h),
  )

  pairing_late-Grew : {m : Machine} → Grew a b d k m → Grew a b d k (pairing_late m)
  unfolding pairing_late pairing_finished paired_with emit_action
  pairing_late-Grew {m} h = ground arith

  pair_clock-Grew :
      (elapsed : ℕ) {m : Machine} → Grew a b d k m → Grew a b d k (pair_clock elapsed m)
  unfolding pair_clock
  pair_clock-Grew elapsed {m} h =
      ground (arith, pairing_late-Grew {m = record m { pair_deadline = 0 }} (same-Grew refl h))

  auth_clock-Grew :
      (elapsed : ℕ) {m : Machine} → Grew a b d k m → Grew a b d k (auth_clock elapsed m)
  unfolding auth_clock
  auth_clock-Grew elapsed {m} h =
      ground (arith, pairing_late-Grew {m = record m { auth_deadline = 0 }} (same-Grew refl h))

  connection_late-Grew : {m : Machine} → Grew a b d k m → Grew a b d k (connection_late m)
  unfolding connection_late emit_action
  connection_late-Grew {m} h = ground (arith, connection_finished-Grew m.connect_token false h)

  connect_clock-Grew :
      (elapsed : ℕ) {m : Machine} → Grew a b d k m → Grew a b d k (connect_clock elapsed m)
  unfolding connect_clock
  connect_clock-Grew elapsed {m} h =
      ground
        (arith, connection_late-Grew {m = record m { connect_deadline = 0 }} (same-Grew refl h))

  advance_time-Grew :
      (elapsed : ℕ) {m : Machine} → Grew a b d k m → Grew a b d k (advance_time elapsed m)
  unfolding advance_time
  advance_time-Grew elapsed h =
      connect_clock-Grew elapsed
        (auth_clock-Grew elapsed (pair_clock-Grew elapsed (scan_clock-Grew elapsed h)))

  submit-Grew : (number : ℕ) {m : Machine} → Grew a b d k m → Grew a b d k (submit number m)
  unfolding submit emit_action
  submit-Grew number h = ground arith

  idle-Grew : (pressed : Key) {m : Machine} → Grew a b d k m → Grew a b d k (press_idle pressed m)
  unfolding press_idle emit_action
  idle-Grew escape h = ground arith
  idle-Grew _ h = h

  pair_with-Grew :
      (o : Option Device) {m : Machine}
      → k + 1 < 2 ^ 64
      → Grew a b d k m
      → Grew a b d (k + 1) (pair_with o m)
  unfolding pair_with emit_action
  pair_with-Grew none l h = later-Grew h
  pair_with-Grew (some e) l h = ground arith

  connect_with-Grew :
      (o : Option Device) {m : Machine}
      → k + 1 < 2 ^ 64
      → Grew a b d k m
      → Grew a b d (k + 1) (connect_with o m)
  unfolding connect_with emit_action
  connect_with-Grew none l h = later-Grew h
  connect_with-Grew (some e) l h = ground arith

  press_on-Grew :
      (s : Screen) (pressed : Key) {m : Machine}
      → k + 1 < 2 ^ 64
      → Grew a b d k m
      → Grew a b d (k + 1) (press_on s pressed m)
  unfolding press_on press_searching press_results press_paired press_pairing press_connecting
      press_connected emit_action
  press_on-Grew idle pressed l h = later-Grew (idle-Grew pressed h)
  press_on-Grew searching escape l h = ground arith
  press_on-Grew searching _ l h = later-Grew h
  press_on-Grew results enter l h = pair_with-Grew _ l h
  press_on-Grew results _ l h = later-Grew (same-Grew refl h)
  press_on-Grew paired_list enter l h = connect_with-Grew _ l h
  press_on-Grew paired_list _ l h = later-Grew (same-Grew refl h)
  press_on-Grew pairing enter {m} l h = ground (arith, submit-Grew m.displayed_passkey h)
  press_on-Grew pairing escape l h = later-Grew (same-Grew refl h)
  press_on-Grew pairing _ l h = later-Grew h
  press_on-Grew auth enter {m} l h = ground (arith, submit-Grew m.displayed_passkey h)
  press_on-Grew auth escape l h = later-Grew (same-Grew refl h)
  press_on-Grew auth _ l h = later-Grew h
  press_on-Grew connecting escape l h = ground arith
  press_on-Grew connecting _ l h = later-Grew h
  press_on-Grew connected escape l h = ground arith
  press_on-Grew connected _ l h = later-Grew h

  step-Grew :
      (c : Call) {m : Machine} → k + 1 < 2 ^ 64 → Grew a b d k m → Grew a b d (k + 1) (step m c)
  unfolding step begin_search begin_paired set_paired_devices scan_finished scan_failed
      pairing_started auth_requested schedule_reconnect press arm_background_reconnect
      block_background_reconnect consume_background_attempt reset_background_cycle take_actions
      emit_action
  step-Grew search_devices l h = ground arith
  step-Grew list_paired l h = ground arith
  step-Grew (pairs_are devices) l h = ground arith
  step-Grew (found token devices) l h = ground arith
  step-Grew (scan_fails token) l h = ground arith
  step-Grew (scan_ends token) l h = later-Grew (scan_timed_out-Grew token h)
  step-Grew (pair_starts token address) l h = ground arith
  step-Grew (asks token kind number io) l h = ground arith
  step-Grew (pair_ends token outcome) l h = pairing_finished-Grew token outcome l h
  step-Grew (link_ends token success) l h = later-Grew (connection_finished-Grew token success h)
  step-Grew (retry item) l h = ground arith
  step-Grew (time elapsed) l h = later-Grew (advance_time-Grew elapsed h)
  step-Grew (key q) {m} l h = press_on-Grew m.current q l h
  step-Grew (answer number) l h = later-Grew (submit-Grew number h)
  step-Grew (arm item) l h = ground arith
  step-Grew block l h = ground arith
  step-Grew consume l h = ground arith
  step-Grew reset l h = ground arith
  step-Grew take_all l h = ground arith

pub run-Grew :
    (calls : List Call) (n : ℕ) {a b d k : ℕ} {m : Machine}
    → k + length calls ≤ n
    → n < 2 ^ 64
    → Grew a b d k m
    → Grew a b d n (run m calls)
unfolding run
run-Grew [] n l w h = ground arith
run-Grew (c ∷ calls) n l w h = run-Grew calls n (omega arith) w (step-Grew c (omega arith) h)

pub init-Grew : Grew 0 0 0 0 init
init-Grew = ground arith
