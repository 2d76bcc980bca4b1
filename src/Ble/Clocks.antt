-- ===== src/Ble/Clocks.antt =====
-- The deadlines of components/cyberdeck/src/apps/bluetooth/cyberdeck_ble_state_machine.cpp.
use cyberdeck.Common.{ℕ, ◌-◌, true, false, not, ◌||◌, ltb, leb, if◌then◌else◌}
use cyberdeck.Ble.{timed_out, pair_timed_out, cancel_pair, cancel_connect}
use cyberdeck.Ble.Machine.{Machine, emit_action, is_searching, is_pairing, is_auth, is_connecting}
use cyberdeck.Ble.Scans.{scan_timed_out}
use cyberdeck.Ble.Pairings.{pairing_finished}
use cyberdeck.Ble.Links.{connection_finished}

unfoldable pub scan_clock : ℕ → Machine → Machine
scan_clock elapsed m =
    let due = record m { scan_deadline = 0 } in
    if not (ltb 0 m.scan_deadline)
    then m
    else if leb m.scan_deadline elapsed
    then if is_searching m.current then scan_timed_out m.scan_token due else due
    else record m { scan_deadline = m.scan_deadline - elapsed }

-- The attempt to pair has taken too long.
unfoldable pub pairing_late : Machine → Machine
pairing_late m =
    let ended = pairing_finished m.pair_token pair_timed_out m in
    emit_action cancel_pair m.pairing_address 0 m.pair_token ended.pairing_addr_type ended

unfoldable pub pair_clock : ℕ → Machine → Machine
unfolding pairing_late
pair_clock elapsed m =
    let due = record m { pair_deadline = 0 } in
    if not (ltb 0 m.pair_deadline)
    then m
    else if leb m.pair_deadline elapsed
    then if is_pairing m.current || is_auth m.current then pairing_late due else due
    else record m { pair_deadline = m.pair_deadline - elapsed }

unfoldable pub auth_clock : ℕ → Machine → Machine
unfolding pairing_late
auth_clock elapsed m =
    let due = record m { auth_deadline = 0 } in
    if not (ltb 0 m.auth_deadline)
    then m
    else if leb m.auth_deadline elapsed
    then if is_auth m.current then pairing_late due else due
    else record m { auth_deadline = m.auth_deadline - elapsed }

unfoldable pub connection_late : Machine → Machine
connection_late m =
    let ended = connection_finished m.connect_token false m in
    let told = record ended {
      active_notice = timed_out;
      marks = record ended.marks { timed_out_from_connect = true; failed_from_connect = false };
    } in
    let seen = if not m.background.in_flight then told else ended in
    emit_action cancel_connect m.connecting_address 0 m.connect_token seen.connecting_addr_type seen

unfoldable pub connect_clock : ℕ → Machine → Machine
unfolding connection_late
connect_clock elapsed m =
    let due = record m { connect_deadline = 0 } in
    if not (ltb 0 m.connect_deadline)
    then m
    else if leb m.connect_deadline elapsed
    then if is_connecting m.current then connection_late due else due
    else record m { connect_deadline = m.connect_deadline - elapsed }

unfoldable pub advance_time : ℕ → Machine → Machine
advance_time elapsed m =
    connect_clock elapsed (auth_clock elapsed (pair_clock elapsed (scan_clock elapsed m)))
