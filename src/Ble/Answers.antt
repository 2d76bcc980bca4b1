-- ===== src/Ble/Answers.antt =====
-- The passkeys of components/cyberdeck/src/apps/bluetooth/cyberdeck_ble_state_machine.cpp, through its
-- keys and through every call.
use cyberdeck.Common.{
  ℕ, ◌<◌, ◌&&◌, ◌≡◌, inl, inr, refl, true, false, Option, none, some, List, [], ◌∷◌, leb,
  if◌then◌else◌, arith, Bool-cases,
}
use cyberdeck.Ble.Machine.{Machine, init, next_token, clear_deadlines, is_submit}
use cyberdeck.Ble.Scans.{begin_search, begin_paired, set_paired_devices, scan_finished, scan_failed}
use cyberdeck.Ble.Pairings.{pairing_started, auth_requested, accepts, shown}
use cyberdeck.Ble.Links.{schedule_reconnect}
use cyberdeck.Ble.Keys.{
  is_entry, blocked, submit, is_comparison, press, press_on, press_idle, press_searching,
  press_results, pair_with, press_paired, connect_with, press_pairing, press_connecting,
  press_connected,
}
use cyberdeck.Ble.Cycle.{
  arm_background_reconnect, block_background_reconnect, consume_background_attempt,
  reset_background_cycle,
}
use cyberdeck.Ble.Calls.{
  Call, search_devices, list_paired, pairs_are, found, scan_fails, scan_ends, pair_starts, asks,
  pair_ends, link_ends, retry, time, key, answer, arm, block, consume, reset, take_all,
  take_actions, step, run,
}
use cyberdeck.Ble.{
  Device, public_address, Screen, idle, searching, results, paired_list, pairing, auth, connecting,
  connected, no_notice, Key, enter, escape, AuthRequestKind, passkey, numeric_compare, AuthIoAction,
  display, input, compare_numbers, start_scan, cancel_scan, pair, submit_auth, cancel_pair,
  cancel_connect, connect, disconnect, reconnect, passkey_modulus, pair_timeout_ms,
  max_reconnect_attempts,
}
use cyberdeck.Ble.Passkeys.{
  answered, IsSafe, same-IsSafe, hidden-IsSafe, emit-IsSafe, plain-IsSafe, pairing_finished-IsSafe,
  connection_finished-IsSafe, scan_timed_out-IsSafe, advance_time-IsSafe,
}

submitted :
    (io : AuthIoAction) (number : ℕ)
    → (is_entry io && leb passkey_modulus number) ≡ false
    → answered io (if is_comparison io then 0 else number) ≡ true
unfolding is_entry is_comparison
submitted display number h = refl
submitted input number h = ground arith
submitted compare_numbers number h = refl

submit-IsSafe : (number : ℕ) {m : Machine} → IsSafe m → IsSafe (submit number m)
unfolding submit
submit-IsSafe number {m} h =
    elim (Bool-cases (is_entry m.pending_io && leb passkey_modulus number)) [
      | inl e ↦ ground (arith, h.shown_short, h.queue_safe)
      | inr e ↦ ground (
        arith,
        emit-IsSafe submit_auth m.pairing_address (if is_comparison m.pending_io then 0 else number)
            m.pair_token m.pairing_addr_type
            {m = record m {
              displayed_passkey = 0;
              current = pairing;
              pair_deadline = pair_timeout_ms;
              auth_deadline = 0;
            }}
            (unfold is_submit in submitted m.pending_io number e) (unfold is_submit in refl)
            (hidden-IsSafe refl h),
      )
    ]

pair_with-IsSafe : (o : Option Device) {m : Machine} → IsSafe m → IsSafe (pair_with o m)
unfolding pair_with
pair_with-IsSafe none h = h
pair_with-IsSafe (some d) {m} h = elim (Bool-cases d.connectable) [
  | inl e ↦ rw e (
      same-IsSafe refl (
        plain-IsSafe pair (unfold is_submit in refl) d.address (next_token m) d.addr_type
          (same-IsSafe refl h)))
  | inr e ↦ rw e (same-IsSafe refl h)
]

connect_with-IsSafe : (o : Option Device) {m : Machine} → IsSafe m → IsSafe (connect_with o m)
unfolding connect_with
connect_with-IsSafe none h = h
connect_with-IsSafe (some d) {m} h =
    plain-IsSafe connect (unfold is_submit in refl) d.address (next_token m) d.addr_type
      (same-IsSafe refl h)

idle-IsSafe : (k : Key) {m : Machine} → IsSafe m → IsSafe (press_idle k m)
unfolding press_idle
idle-IsSafe escape {m} h = ground (
  arith,
  plain-IsSafe disconnect (unfold is_submit in refl) m.connecting_address m.connect_token
      m.connecting_addr_type
      {m = record (clear_deadlines m) {
        current = idle;
        active_notice = no_notice;
        connecting_address = [];
        active_reconnect_address = [];
        reconnect_attempts = 0;
        background = blocked m.background;
        marks = record m.marks {
          timed_out_from_pairing = false;
          timed_out_from_connect = false;
          failed_from_pairing = false;
          failed_from_connect = false;
          cancelled_from_pairing = false;
          cancelled_from_connect = false;
        };
      }}
      (same-IsSafe refl h),
  h.shown_short,
  h.queue_safe,
)
idle-IsSafe _ h = h

pairing_key-IsSafe : (k : Key) {m : Machine} → IsSafe m → IsSafe (press_pairing k m)
unfolding press_pairing
pairing_key-IsSafe enter {m} h = ground (arith, submit-IsSafe m.displayed_passkey h)
pairing_key-IsSafe escape {m} h =
    plain-IsSafe cancel_pair (unfold is_submit in refl) m.pairing_address m.pair_token
      m.pairing_addr_type (hidden-IsSafe refl h)
pairing_key-IsSafe _ h = h

press_on-IsSafe : (s : Screen) (k : Key) {m : Machine} → IsSafe m → IsSafe (press_on s k m)
unfolding press_on press_searching press_results press_paired press_connecting press_connected
press_on-IsSafe idle k h = idle-IsSafe k h
press_on-IsSafe searching escape {m} h =
    plain-IsSafe cancel_scan (unfold is_submit in refl) [] m.scan_token public_address
      (same-IsSafe refl h)
press_on-IsSafe searching _ h = h
press_on-IsSafe results enter h = pair_with-IsSafe _ h
press_on-IsSafe results _ h = same-IsSafe refl h
press_on-IsSafe paired_list enter h = connect_with-IsSafe _ h
press_on-IsSafe paired_list _ h = same-IsSafe refl h
press_on-IsSafe pairing k h = pairing_key-IsSafe k h
press_on-IsSafe auth k h = pairing_key-IsSafe k h
press_on-IsSafe connecting escape {m} h = same-IsSafe refl (
    plain-IsSafe cancel_connect (unfold is_submit in refl) m.connecting_address m.connect_token
      m.connecting_addr_type (same-IsSafe refl h))
press_on-IsSafe connecting _ h = h
press_on-IsSafe connected escape {m} h = same-IsSafe refl (
    plain-IsSafe disconnect (unfold is_submit in refl) m.connecting_address m.connect_token
      m.connecting_addr_type (same-IsSafe refl h))
press_on-IsSafe connected _ h = h

-- A request that is accepted has a number that is short enough to be shown.
shown-lt :
    (kind : AuthRequestKind) (number : ℕ) (io : AuthIoAction)
    → accepts kind number io ≡ true
    → shown io number < passkey_modulus
unfolding accepts shown
shown-lt passkey number display h = ground arith
shown-lt passkey number input h = omega arith
shown-lt passkey number compare_numbers h = absurd cc
shown-lt numeric_compare number display h = absurd cc
shown-lt numeric_compare number input h = omega arith
shown-lt numeric_compare number compare_numbers h = ground arith

asked-IsSafe :
    (token : ℕ) (kind : AuthRequestKind) (number : ℕ) (io : AuthIoAction) {m : Machine}
    → IsSafe m
    → IsSafe (auth_requested token kind number io m)
unfolding auth_requested
asked-IsSafe token kind number io {m} h =
    ground (arith, h.shown_short, h.queue_safe, shown-lt kind number io)

schedule-IsSafe : (item : Device) {m : Machine} → IsSafe m → IsSafe (schedule_reconnect item m)
unfolding schedule_reconnect
schedule-IsSafe item {m} h = elim (Bool-cases (leb max_reconnect_attempts m.reconnect_attempts)) [
  | inl e ↦ rw e (same-IsSafe refl h)
  | inr e ↦ rw e (
      plain-IsSafe reconnect (unfold is_submit in refl) item.address (next_token m) item.addr_type
        (same-IsSafe refl h))
]

step-IsSafe : (c : Call) {m : Machine} → IsSafe m → IsSafe (step m c)
unfolding step begin_search begin_paired set_paired_devices scan_finished scan_failed
    pairing_started press arm_background_reconnect block_background_reconnect
    consume_background_attempt reset_background_cycle take_actions
step-IsSafe search_devices h =
    plain-IsSafe start_scan (unfold is_submit in refl) [] 0 public_address (same-IsSafe refl h)
step-IsSafe list_paired h = same-IsSafe refl h
step-IsSafe (pairs_are devices) h = same-IsSafe refl h
step-IsSafe (found token devices) h = ground (arith, h.shown_short, h.queue_safe)
step-IsSafe (scan_fails token) h = ground (arith, h.shown_short, h.queue_safe)
step-IsSafe (scan_ends token) h = scan_timed_out-IsSafe token h
step-IsSafe (pair_starts token address) h = ground (arith, h.shown_short, h.queue_safe)
step-IsSafe (asks token kind number io) h = asked-IsSafe token kind number io h
step-IsSafe (pair_ends token outcome) h = pairing_finished-IsSafe token outcome h
step-IsSafe (link_ends token success) h = connection_finished-IsSafe token success h
step-IsSafe (retry item) h = schedule-IsSafe item h
step-IsSafe (time elapsed) h = advance_time-IsSafe elapsed h
step-IsSafe (key k) {m} h = press_on-IsSafe m.current k h
step-IsSafe (answer number) h = submit-IsSafe number h
step-IsSafe (arm item) h = ground (arith, h.shown_short, h.queue_safe)
step-IsSafe block h = same-IsSafe refl h
step-IsSafe consume h = ground (arith, h.shown_short, h.queue_safe)
step-IsSafe reset h = ground (arith, h.shown_short, h.queue_safe)
step-IsSafe take_all h = record { shown_short = h.shown_short; queue_safe = refl }

run-IsSafe_from : (calls : List Call) {m : Machine} → IsSafe m → IsSafe (run m calls)
unfolding run
run-IsSafe_from [] h = h
run-IsSafe_from (c ∷ calls) h = run-IsSafe_from calls (step-IsSafe c h)

-- After any calls from the start, whatever is typed or handed in: the passkey that is shown has six
-- digits at most; an action that waits for the manager carries a passkey only if it is an answer, of
-- six digits at most where the user was asked to type it and none for a comparison; and no action
-- carries the number to compare, although the comment on `submit_auth` says that it is forwarded.
pub run-IsSafe : (calls : List Call) → IsSafe (run init calls)
run-IsSafe calls = run-IsSafe_from calls (record { shown_short = omega arith; queue_safe = refl })
