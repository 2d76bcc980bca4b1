-- ===== src/Ble/Stale.antt =====
-- Late completions in components/cyberdeck/src/apps/bluetooth/cyberdeck_ble_state_machine.cpp.
use cyberdeck.Common.{ℕ, ◌+◌, ◌^◌, ◌<◌, ◌≡◌, List, length, arith}
use cyberdeck.Ble.Machine.{Machine, init}
use cyberdeck.Ble.Scans.{scan_finished, scan_failed, scan_timed_out}
use cyberdeck.Ble.Pairings.{pairing_started, auth_requested, pairing_finished}
use cyberdeck.Ble.Links.{connection_finished}
use cyberdeck.Ble.Calls.{
  Call, search_devices, list_paired, pairs_are, found, scan_fails, scan_ends, pair_starts, asks,
  pair_ends, link_ends, retry, time, key, answer, arm, block, consume, reset, take_all, step, run,
}
use cyberdeck.Ble.Tokens.{Grew, run-Grew, init-Grew}

-- A completion whose token is older than that of its generation.
abbrev pub IsStale : Call → Machine → Type 0
IsStale (found token devices) m = token < m.scan_token
IsStale (scan_fails token) m = token < m.scan_token
IsStale (scan_ends token) m = token < m.scan_token
IsStale (pair_starts token address) m = token < m.pair_token
IsStale (asks token kind number io) m = token < m.pair_token
IsStale (pair_ends token outcome) m = token < m.pair_token
IsStale (link_ends token success) m = token < m.connect_token
IsStale _ m = ⊥

stale_step : (c : Call) {m : Machine} → IsStale c m → step m c ≡ m
unfolding step scan_finished scan_failed scan_timed_out pairing_started auth_requested
    pairing_finished connection_finished
stale_step (found token devices) h = ground arith
stale_step (scan_fails token) h = ground arith
stale_step (scan_ends token) h = ground arith
stale_step (pair_starts token address) h = ground arith
stale_step (asks token kind number io) h = ground arith
stale_step (pair_ends token outcome) h = ground arith
stale_step (link_ends token success) h = ground arith
stale_step search_devices h = absurd h
stale_step list_paired h = absurd h
stale_step (pairs_are devices) h = absurd h
stale_step (retry item) h = absurd h
stale_step (time elapsed) h = absurd h
stale_step (key k) h = absurd h
stale_step (answer number) h = absurd h
stale_step (arm item) h = absurd h
stale_step block h = absurd h
stale_step consume h = absurd h
stale_step reset h = absurd h
stale_step take_all h = absurd h

still-IsStale :
    (c : Call) (m : Machine) {k : ℕ} {n : Machine}
    → IsStale c m
    → Grew m.scan_token m.pair_token m.connect_token k n
    → IsStale c n
still-IsStale (found token devices) m h g = omega (arith, g.scan_reached)
still-IsStale (scan_fails token) m h g = omega (arith, g.scan_reached)
still-IsStale (scan_ends token) m h g = omega (arith, g.scan_reached)
still-IsStale (pair_starts token address) m h g = omega (arith, g.pair_reached)
still-IsStale (asks token kind number io) m h g = omega (arith, g.pair_reached)
still-IsStale (pair_ends token outcome) m h g = omega (arith, g.pair_reached)
still-IsStale (link_ends token success) m h g = omega (arith, g.connect_reached)
still-IsStale search_devices m h g = h
still-IsStale list_paired m h g = h
still-IsStale (pairs_are devices) m h g = h
still-IsStale (retry item) m h g = h
still-IsStale (time elapsed) m h g = h
still-IsStale (key k) m h g = h
still-IsStale (answer number) m h g = h
still-IsStale (arm item) m h g = h
still-IsStale block m h g = h
still-IsStale consume m h g = h
still-IsStale reset m h g = h
still-IsStale take_all m h g = h

-- After any calls from the start, a completion of a scan, a pairing or a connection whose token is
-- older than the one that its generation then has is dropped for good: whatever calls follow, the
-- machine stays as it is when it comes. There are fewer than 2 ^ 64 calls.
pub run-stale :
    (before behind : List Call) (c : Call)
    → length before + length behind < 2 ^ 64
    → IsStale c (run init before)
    → step (run (run init before) behind) c ≡ run (run init before) behind
run-stale before behind c l h =
    let m = run init before in
    let first = run-Grew before (length before) (omega arith) (omega arith) init-Grew in
    let here : Grew m.scan_token m.pair_token m.connect_token (length before) m = ground arith in
    let later = run-Grew behind (length before + length behind) (omega arith) l here in
    stale_step c (still-IsStale c m h later)
