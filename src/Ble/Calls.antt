-- ===== src/Ble/Calls.antt =====
-- Runs of the calls of components/cyberdeck/include/apps/bluetooth/cyberdeck_ble_state_machine.h.
use cyberdeck.Common.{ℕ, Bool, List, [], ◌∷◌}
use cyberdeck.Ble.{Text, Device, Key, AuthRequestKind, AuthIoAction, PairOutcome, Action}
use cyberdeck.Ble.Machine.{Machine}
use cyberdeck.Ble.Scans.{
  begin_search, begin_paired, set_paired_devices, scan_finished, scan_failed, scan_timed_out,
}
use cyberdeck.Ble.Pairings.{pairing_started, auth_requested, pairing_finished}
use cyberdeck.Ble.Links.{connection_finished, schedule_reconnect}
use cyberdeck.Ble.Keys.{submit, press}
use cyberdeck.Ble.Clocks.{advance_time}
use cyberdeck.Ble.Cycle.{
  arm_background_reconnect, block_background_reconnect, consume_background_attempt,
  reset_background_cycle,
}

unfoldable pub take_actions : Machine → Machine × List Action
take_actions m = (record m { action_queue = [] }, m.action_queue)

pub data Call : Type 0 where
  search_devices list_paired : Call
  pairs_are : List Device → Call
  found : ℕ → List Device → Call
  scan_fails scan_ends : ℕ → Call
  pair_starts : ℕ → Text → Call
  asks : ℕ → AuthRequestKind → ℕ → AuthIoAction → Call
  pair_ends : ℕ → PairOutcome → Call
  link_ends : ℕ → Bool → Call
  retry : Device → Call
  time : ℕ → Call
  key : Key → Call
  answer : ℕ → Call
  arm : Device → Call
  block consume reset take_all : Call

unfoldable pub step : Machine → Call → Machine
step m search_devices = begin_search m
step m list_paired = begin_paired m
step m (pairs_are devices) = set_paired_devices devices m
step m (found token devices) = scan_finished token devices m
step m (scan_fails token) = scan_failed token m
step m (scan_ends token) = scan_timed_out token m
step m (pair_starts token address) = pairing_started token address m
step m (asks token kind number io) = auth_requested token kind number io m
step m (pair_ends token outcome) = pairing_finished token outcome m
step m (link_ends token success) = connection_finished token success m
step m (retry item) = schedule_reconnect item m
step m (time elapsed) = advance_time elapsed m
step m (key k) = press k m
step m (answer number) = submit number m
step m (arm item) = arm_background_reconnect item m
step m block = block_background_reconnect m
step m consume = (consume_background_attempt m).0
step m reset = reset_background_cycle m
step m take_all = (take_actions m).0

unfoldable pub run : Machine → List Call → Machine
run m [] = m
run m (c ∷ calls) = run (step m c) calls
