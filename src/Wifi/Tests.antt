-- ===== src/Wifi/Tests.antt =====
-- The Wi-Fi state machine on concrete calls, and its theorems applied to them.
use cyberdeck.Common.{◌≡◌, refl, true, false, List, [], ◌∷◌, arith}
use cyberdeck.Wifi.{
  connecting, negsuc, AccessPoint, connect_to, begin_connection, cancel_connection, init,
}
use cyberdeck.Wifi.Calls.{link_up, Call, cancels, connects, connection_callback, step, run}
use cyberdeck.Wifi.Screens.{IsConsistent, run-IsConsistent}
use cyberdeck.Wifi.Attempts.{connection_callback-stale}

-- An attempt to connect that is cancelled, and a second one.
abbrev cancelled : List Call
cancelled = connects (97 ∷ []) (98 ∷ 99 ∷ []) ∷ cancels ∷ []

abbrev attempt : List Call
attempt = connects (97 ∷ []) (98 ∷ 99 ∷ []) ∷ []

cancelled_lem :
    ((run init cancelled).next_connection_token ≡ 1)
    × ((run init cancelled).active_connection_token ≡ 0)
unfolding run step init begin_connection connect_to cancel_connection
cancelled_lem = (refl, refl)

attempt_lem : ((run init attempt).view ≡ connecting) × ((run init attempt).elapsed ≡ 0)
unfolding run step init begin_connection connect_to
attempt_lem = (refl, refl)

-- One network heard twice, and a hidden one.
abbrev heard_twice : List AccessPoint
heard_twice =
    record { ssid = 97 ∷ []; rssi = negsuc 70; is_open = false; saved = false }
    ∷ record { ssid = []; rssi = negsuc 40; is_open = true; saved = false }
    ∷ record { ssid = 97 ∷ []; rssi = negsuc 50; is_open = true; saved = false }
    ∷ []

run-IsConsistent_example : IsConsistent (run init cancelled)
run-IsConsistent_example = run-IsConsistent cancelled

connection_callback-stale_example :
    connection_callback (run (run init cancelled) attempt) 1 link_up
    ≡ run (run init cancelled) attempt
connection_callback-stale_example =
    connection_callback-stale cancelled attempt 1 link_up (ground arith) (ground arith)
      (ground (arith, cancelled_lem.0)) (λ e. ground (arith, cancelled_lem.1))
