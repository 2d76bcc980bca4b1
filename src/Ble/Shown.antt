-- ===== src/Ble/Shown.antt =====
-- The list of devices of components/cyberdeck/src/apps/bluetooth/cyberdeck_ble_state_machine.cpp,
-- through every call.
use cyberdeck.Common.{
  ℕ, ◌≡◌, refl, sym, ◌∙◌, subst, Bool, true, false, Option, none, some, List, [], ◌∷◌, arith,
}
use cyberdeck.Ble.Machine.{Machine, init, emit_action}
use cyberdeck.Ble.Scans.{
  begin_search, begin_paired, set_paired_devices, scan_finished, scan_failed, scan_timed_out,
}
use cyberdeck.Ble.Pairings.{pairing_started, auth_requested, pairing_finished, paired_with}
use cyberdeck.Ble.Links.{linked, unlinked, connection_finished, schedule_reconnect}
use cyberdeck.Ble.Clocks.{
  scan_clock, pairing_late, pair_clock, auth_clock, connection_late, connect_clock, advance_time,
}
use cyberdeck.Ble.Keys.{
  submit, press, press_on, press_idle, press_searching, press_results, pair_with, press_paired,
  connect_with, press_pairing, press_connecting, press_connected,
}
use cyberdeck.Ble.Cycle.{
  arm_background_reconnect, block_background_reconnect, consume_background_attempt,
  reset_background_cycle,
}
use cyberdeck.Ble.Calls.{
  Call, search_devices, list_paired, pairs_are, found, scan_fails, scan_ends, pair_starts, asks,
  pair_ends, link_ends, retry, time, key, answer, arm, block, consume, reset, take_all,
  take_actions, step, run,
}
use cyberdeck.Ble.{
  Text, Device, AddressType, Screen, idle, searching, results, paired_list, pairing, auth,
  connecting, connected, Key, up, down, enter, escape, PairOutcome, bonded, rejected,
  pair_cancelled, pair_timed_out, pair_failed, ActionKind,
}
use cyberdeck.Ble.Lists.{
  IsSound, add_all-IsSound, clear-IsSound, move_up-IsSound, move_down-IsSound,
}

pub record IsListed (m : Machine) : Type 0 where
  pub listed : IsSound m.devices

abbrev Held : Machine → Machine → Type 0
Held m n = n.devices ≡ m.devices

same-IsListed : {m n : Machine} → Held m n → IsListed m → IsListed n
same-IsListed e h = record { listed = subst IsSound (sym e) h.listed }

emit-Held :
    (kind : ActionKind) (address : Text) (number token : ℕ) (type : AddressType) (m : Machine)
    → Held m (emit_action kind address number token type m)
unfolding emit_action
emit-Held kind address number token type m = refl

pairing_finished-Held :
    (token : ℕ) (outcome : PairOutcome) (m : Machine) → Held m (pairing_finished token outcome m)
unfolding pairing_finished paired_with emit_action
pairing_finished-Held token bonded m = ground arith
pairing_finished-Held token rejected m = ground arith
pairing_finished-Held token pair_cancelled m = ground arith
pairing_finished-Held token pair_timed_out m = ground arith
pairing_finished-Held token pair_failed m = ground arith

connection_finished-Held :
    (token : ℕ) (success : Bool) (m : Machine) → Held m (connection_finished token success m)
unfolding connection_finished linked unlinked
connection_finished-Held token true m = ground arith
connection_finished-Held token false m = ground arith

scan_timed_out-Held : (token : ℕ) (m : Machine) → Held m (scan_timed_out token m)
unfolding scan_timed_out emit_action
scan_timed_out-Held token m = ground arith

scan_clock-Held : (elapsed : ℕ) (m : Machine) → Held m (scan_clock elapsed m)
unfolding scan_clock
scan_clock-Held elapsed m =
    ground (arith, scan_timed_out-Held m.scan_token (record m { scan_deadline = 0 }))

pairing_late-Held : (m : Machine) → Held m (pairing_late m)
unfolding pairing_late emit_action
pairing_late-Held m = pairing_finished-Held m.pair_token pair_timed_out m

pair_clock-Held : (elapsed : ℕ) (m : Machine) → Held m (pair_clock elapsed m)
unfolding pair_clock
pair_clock-Held elapsed m = ground (arith, pairing_late-Held (record m { pair_deadline = 0 }))

auth_clock-Held : (elapsed : ℕ) (m : Machine) → Held m (auth_clock elapsed m)
unfolding auth_clock
auth_clock-Held elapsed m = ground (arith, pairing_late-Held (record m { auth_deadline = 0 }))

connection_late-Held : (m : Machine) → Held m (connection_late m)
unfolding connection_late emit_action
connection_late-Held m = ground (arith, connection_finished-Held m.connect_token false m)

connect_clock-Held : (elapsed : ℕ) (m : Machine) → Held m (connect_clock elapsed m)
unfolding connect_clock
connect_clock-Held elapsed m =
    ground (arith, connection_late-Held (record m { connect_deadline = 0 }))

advance_time-Held : (elapsed : ℕ) (m : Machine) → Held m (advance_time elapsed m)
unfolding advance_time
advance_time-Held elapsed m =
    let one = scan_clock elapsed m in
    let two = pair_clock elapsed one in
    let three = auth_clock elapsed two in
    connect_clock-Held elapsed three
    ∙ auth_clock-Held elapsed two
    ∙ pair_clock-Held elapsed one
    ∙ scan_clock-Held elapsed m

submit-Held : (number : ℕ) (m : Machine) → Held m (submit number m)
unfolding submit emit_action
submit-Held number m = ground arith

pair_with-Held : (o : Option Device) (m : Machine) → Held m (pair_with o m)
unfolding pair_with emit_action
pair_with-Held none m = refl
pair_with-Held (some d) m = ground arith

connect_with-Held : (o : Option Device) (m : Machine) → Held m (connect_with o m)
unfolding connect_with emit_action
connect_with-Held none m = refl
connect_with-Held (some d) m = refl

pairing_key-Held : (k : Key) (m : Machine) → Held m (press_pairing k m)
unfolding press_pairing emit_action
pairing_key-Held enter m = ground (arith, submit-Held m.displayed_passkey m)
pairing_key-Held escape m = refl
pairing_key-Held _ m = refl

idle-Held : (k : Key) (m : Machine) → Held m (press_idle k m)
unfolding press_idle emit_action
idle-Held escape m = ground arith
idle-Held _ m = refl

press_on-IsListed : (s : Screen) (k : Key) {m : Machine} → IsListed m → IsListed (press_on s k m)
unfolding press_on press_searching press_results press_paired press_connecting press_connected
    emit_action
press_on-IsListed idle k {m} h = same-IsListed (idle-Held k m) h
press_on-IsListed searching escape h = same-IsListed refl h
press_on-IsListed searching _ h = h
press_on-IsListed results up h = record { listed = move_up-IsSound h.listed }
press_on-IsListed results down h = record { listed = move_down-IsSound h.listed }
press_on-IsListed results enter {m} h = same-IsListed (pair_with-Held _ m) h
press_on-IsListed results escape h = same-IsListed refl h
press_on-IsListed paired_list up h = record { listed = move_up-IsSound h.listed }
press_on-IsListed paired_list down h = record { listed = move_down-IsSound h.listed }
press_on-IsListed paired_list enter {m} h = same-IsListed (connect_with-Held _ m) h
press_on-IsListed paired_list escape h = same-IsListed refl h
press_on-IsListed pairing k {m} h = same-IsListed (pairing_key-Held k m) h
press_on-IsListed auth k {m} h = same-IsListed (pairing_key-Held k m) h
press_on-IsListed connecting escape h = same-IsListed refl h
press_on-IsListed connecting _ h = h
press_on-IsListed connected escape h = same-IsListed refl h
press_on-IsListed connected _ h = h

step-IsListed : (c : Call) {m : Machine} → IsListed m → IsListed (step m c)
unfolding step begin_search begin_paired set_paired_devices scan_finished scan_failed
    pairing_started auth_requested schedule_reconnect press arm_background_reconnect
    block_background_reconnect consume_background_attempt reset_background_cycle take_actions
    emit_action
step-IsListed search_devices h = record { listed = clear-IsSound }
step-IsListed list_paired {m} h = record { listed = add_all-IsSound m.paired_devices clear-IsSound }
step-IsListed (pairs_are devices) h = record { listed = add_all-IsSound devices clear-IsSound }
step-IsListed (found token devices) h =
    ground (arith, h.listed, add_all-IsSound devices clear-IsSound)
step-IsListed (scan_fails token) h = same-IsListed (ground arith) h
step-IsListed (scan_ends token) {m} h = same-IsListed (scan_timed_out-Held token m) h
step-IsListed (pair_starts token address) h = same-IsListed (ground arith) h
step-IsListed (asks token kind number io) h = same-IsListed (ground arith) h
step-IsListed (pair_ends token outcome) {m} h =
    same-IsListed (pairing_finished-Held token outcome m) h
step-IsListed (link_ends token success) {m} h =
    same-IsListed (connection_finished-Held token success m) h
step-IsListed (retry item) h = same-IsListed (ground arith) h
step-IsListed (time elapsed) {m} h = same-IsListed (advance_time-Held elapsed m) h
step-IsListed (key k) {m} h = press_on-IsListed m.current k h
step-IsListed (answer number) {m} h = same-IsListed (submit-Held number m) h
step-IsListed (arm item) h = same-IsListed (ground arith) h
step-IsListed block h = same-IsListed refl h
step-IsListed consume h = same-IsListed (ground arith) h
step-IsListed reset h = same-IsListed (ground arith) h
step-IsListed take_all h = same-IsListed refl h

run-IsListed_from : (calls : List Call) {m : Machine} → IsListed m → IsListed (run m calls)
unfolding run
run-IsListed_from [] h = h
run-IsListed_from (c ∷ calls) h = run-IsListed_from calls (step-IsListed c h)

-- After any calls from the start, the list that the menu shows has at most 32 devices, none of them
-- twice by address and type of address, and its selection is inside it, or 0 when it is empty.
pub run-devices : (calls : List Call) → IsSound (run init calls).devices
run-devices calls = (run-IsListed_from calls (record { listed = clear-IsSound })).listed
