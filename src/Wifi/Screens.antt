-- ===== src/Wifi/Screens.antt =====
-- What holds on each screen of the Wi-Fi menu: where secrets are, which tokens are active, and
-- that the selection is in bounds.
use cyberdeck.Common.{
  ◌<◌, ◌≡◌, refl, true, false, not, ◌&&◌, ◌||◌, List, [], ◌∷◌, length, arith, ltb, ◌==◌,
  if◌then◌else◌,
}
use cyberdeck.Wifi.{
  Screen, search, connecting, Text, Machine, is_view, empty, connect_timeout_ms, connect_to,
  finish_if_ready, begin_search, begin_saved, init, set_saved_networks, advance_time, type_password,
  begin_connection, cancel_connection,
}
use cyberdeck.Wifi.Calls.{
  link_up, has_address, failed, Key, Call, calls_back, presses, scan_complete, connection_callback,
  press, press_search, press_password, press_connecting, press_saved, press_forget, take_actions,
  step, run,
}

pub record IsConsistent (m : Machine) : Type 0 where
  -- A password being typed is kept on its screen only, that of an attempt while it lasts.
  pub typed : (is_view m.view Screen.password || empty m.password) ≡ true
  pub kept : (is_view m.view connecting || empty m.connection_password) ≡ true
  -- The active tokens are those given out last, on the screens that have one.
  pub attempt :
      m.active_connection_token ≡ (if is_view m.view connecting then m.next_connection_token else 0)
  pub scan : m.active_scan_token ≡ (if is_view m.view search then m.next_scan_token else 0)
  -- An attempt is not ready yet, and has not timed out.
  pub unready : (m.connected && m.has_ip) ≡ false
  pub in_time : m.elapsed < connect_timeout_ms
  pub at_rest :
      (is_view m.view connecting || not m.connected && not m.has_ip && (m.elapsed == 0)) ≡ true
  -- The selection of the search names a result, or stands at the start.
  pub selection :
      (not (is_view m.view search) || ltb m.selected (length m.aps) || (m.selected == 0)) ≡ true

init-IsConsistent : IsConsistent init
unfolding init
init-IsConsistent = ground arith

connect_to-IsConsistent :
    (m : Machine) (s p : Text) → IsConsistent m → IsConsistent (connect_to m s p)
unfolding connect_to
connect_to-IsConsistent m s p c = ground arith

press-IsConsistent : (m : Machine) (k : Key) → IsConsistent m → IsConsistent (press m k)
unfolding press press_search press_password press_connecting press_saved press_forget connect_to
press-IsConsistent m k c = by_view m.view refl
  where
    by_view : (v : Screen) → m.view ≡ v → IsConsistent (press m k)
    by_view v e = ground arith

step-IsConsistent : (m : Machine) (c : Call) → IsConsistent m → IsConsistent (step m c)
unfolding step begin_search begin_saved scan_complete connection_callback finish_if_ready
    advance_time type_password begin_connection cancel_connection connect_to set_saved_networks
    take_actions
step-IsConsistent m (presses k) i = press-IsConsistent m k i
step-IsConsistent m (calls_back t link_up) i = ground arith
step-IsConsistent m (calls_back t has_address) i = ground arith
step-IsConsistent m (calls_back t failed) i = ground arith
step-IsConsistent m _ i = ground arith

run-keeps : (m : Machine) (cs : List Call) → IsConsistent m → IsConsistent (run m cs)
unfolding run
run-keeps m [] i = i
run-keeps m (c ∷ cs) i = run-keeps (step m c) cs (step-IsConsistent m c i)

-- After any calls on a new machine: a password that is being typed is kept on the password screen
-- only and that of an attempt only while the attempt lasts; a connection token is active exactly
-- on the connecting screen and a scan token exactly on the search screen, each the last one given
-- out; an attempt has not both its signals yet and is within its time; off its screen it is at
-- rest; and the selection of a search is in bounds.
pub run-IsConsistent : (cs : List Call) → IsConsistent (run init cs)
run-IsConsistent cs = run-keeps init cs init-IsConsistent
