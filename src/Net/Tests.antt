-- ===== src/Net/Tests.antt =====
-- The network coordinator on concrete calls, and its theorems applied to them.
use cyberdeck.Common.{◌≡◌, ◌≢◌, refl, true, false, List, [], ◌∷◌, arith, inl}
use cyberdeck.Net.{
  teardown_done, teardown_in_progress, offline_error, online, init, run_scan, run_retry,
  cancel_connect, wifi_disconnect, on_socket_error, has_pending_notice, on_session_connecting,
  on_session_online, request_scan, request_retry, request_cancel_connect, request_wifi_disconnect,
  contains, enqueue, push_item,
}
use cyberdeck.Net.Calls.{Event, run, step}
use cyberdeck.Net.Queue.{pending, IsRing, init-IsRing}
use cyberdeck.Net.Spec.{view}
use cyberdeck.Net.Refinement.{next_views, run-refines, run-IsRing}
use cyberdeck.Net.Invariant.{IsSound, run-IsSound}
use cyberdeck.Net.Teardown.{teardown_ends, torn_down, on_socket_error_silent}

-- A session is online, and four requests wait.
abbrev busy : List Event
busy =
    Event.session_connecting ∷ Event.session_online ∷ Event.scan ∷ Event.scan ∷ Event.retry
    ∷ Event.cancel ∷ Event.disconnect_wifi ∷ []

-- What the calls leave: four items in the queue, in order, and a session that is online.
busy_lem :
    (pending (run init busy) ≡ run_scan ∷ run_retry ∷ cancel_connect ∷ wifi_disconnect ∷ [])
    × ((run init busy).phase ≡ online)
    × ((run init busy).callbacks_active ≡ true)
    × (has_pending_notice (run init busy) ≡ false)
unfolding run step init on_session_connecting on_session_online request_scan request_retry
    request_cancel_connect request_wifi_disconnect contains enqueue push_item has_pending_notice
busy_lem = (refl, refl, refl, refl)

busy_active : (run init busy).callbacks_active ≡ true
busy_active = busy_lem.2

busy_open : (run init busy).phase ≢ teardown_in_progress
busy_open e = ground (arith, busy_lem.1)

run-IsSound_example : IsSound (view (run init busy))
run-IsSound_example = run-IsSound busy

run-refines_example : IsRing (run init busy) × (view (run init busy) ≡ next_views (view init) busy)
run-refines_example = run-refines init busy init-IsRing

teardown_ends_example : (torn_down busy).phase ≡ teardown_done
teardown_ends_example = (teardown_ends busy busy_active busy_open).1

on_socket_error_silent_example : (on_socket_error (run init busy)).phase ≡ offline_error
on_socket_error_silent_example =
    (on_socket_error_silent (run init busy) (run-IsRing init busy init-IsRing) busy_active
      (inl busy_lem.1) (rw busy_lem.0 (ground arith)) busy_lem.3).0
