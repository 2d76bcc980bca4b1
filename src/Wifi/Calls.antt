-- ===== src/Wifi/Calls.antt =====
-- The callbacks of the driver and the keys, and all calls of the Wi-Fi state machine together.
use cyberdeck.Common.{
  ℕ, ◌+◌, ◌-◌, Bool, true, false, not, ◌&&◌, ◌||◌, List, [], ◌∷◌, ◌++◌, length, get_or, take, drop,
  ltb, leb, ◌==◌, if◌then◌else◌,
}
use cyberdeck.Wifi.{
  Screen, search, saved, connecting, forget_confirmation, idle, forget, ℤ, pos, negsuc, Text,
  AccessPoint, Action, Machine, is_view, empty, bump, action, clear_secret, invalidate_connection,
  connect_to, finish_if_ready, stop_scan, stop_connection, begin_search, begin_saved,
  set_saved_networks, advance_time, type_password, begin_connection, cancel_connection,
}

pub data ConnectionEvent : Type 0 where
  link_up has_address failed : ConnectionEvent

pub data Key : Type 0 where
  up down enter escape backspace : Key

unfoldable pub lt_int : ℤ → ℤ → Bool
lt_int (pos a) (pos b) = ltb a b
lt_int (pos a) (negsuc b) = false
lt_int (negsuc a) (pos b) = true
lt_int (negsuc a) (negsuc b) = ltb b a

-- Bytes in the order of `std::string`.
unfoldable pub lt_text : Text → Text → Bool
lt_text a [] = false
lt_text [] (y ∷ ys) = true
lt_text (x ∷ xs) (y ∷ ys) = ltb x y || (x == y) && lt_text xs ys

unfoldable pub eq_text : Text → Text → Bool
eq_text [] [] = true
eq_text [] (y ∷ ys) = false
eq_text (x ∷ xs) [] = false
eq_text (x ∷ xs) (y ∷ ys) = (x == y) && eq_text xs ys

unfoldable pub mem_text : Text → List Text → Bool
unfolding eq_text
mem_text t [] = false
mem_text t (x ∷ xs) = eq_text x t || mem_text t xs

-- One candidate of a scan, put into the results so far.
unfoldable pub merge : List Text → AccessPoint → List AccessPoint → List AccessPoint
unfolding eq_text mem_text lt_int
merge known c [] = (record c { saved = c.saved || mem_text c.ssid known }) ∷ []
merge known c (a ∷ aps) =
    let rest = merge known c aps in
    if eq_text a.ssid c.ssid
    then (if lt_int a.rssi c.rssi then record a { rssi = c.rssi; is_open = c.is_open } else a) ∷ aps
    else a ∷ rest

unfoldable pub merge_all : List Text → List AccessPoint → List AccessPoint → List AccessPoint
unfolding merge
merge_all known [] aps = aps
merge_all known (c ∷ input) aps =
    merge_all known input (if empty c.ssid then aps else merge known c aps)

-- The order of `std::sort`: the stronger signal first, then by name.
unfoldable pub before : AccessPoint → AccessPoint → Bool
unfolding lt_int lt_text
before a b =
    if lt_int a.rssi b.rssi || lt_int b.rssi a.rssi
    then lt_int b.rssi a.rssi
    else lt_text a.ssid b.ssid

unfoldable pub insert : AccessPoint → List AccessPoint → List AccessPoint
unfolding before
insert a [] = a ∷ []
insert a (b ∷ bs) = let rest = insert a bs in if before b a then b ∷ rest else a ∷ b ∷ bs

unfoldable pub sort : List AccessPoint → List AccessPoint
unfolding insert
sort [] = []
sort (a ∷ aps) = insert a (sort aps)

unfoldable pub scan_complete : Machine → ℕ → List AccessPoint → Machine
unfolding merge_all sort
scan_complete m token input =
    if not (is_view m.view search) || not (token == m.active_scan_token)
    then m
    else record m { aps = sort (merge_all m.saved input []); selected = 0 }

unfoldable pub connection_callback : Machine → ℕ → ConnectionEvent → Machine
connection_callback m token event =
    if not (is_view m.view connecting) || not (token == m.active_connection_token)
    then m
    else elim event [
      | failed ↦ record (invalidate_connection m) { view = idle }
      | link_up ↦ finish_if_ready (record m { connected = true })
      | has_address ↦ finish_if_ready (record m { has_ip = true })
    ]

abbrev pub no_point : AccessPoint
no_point = record { ssid = []; rssi = pos 0; is_open = false; saved = false }

-- `press` on each screen.
unfoldable pub press_search : Machine → Key → Machine
press_search m up = if m.selected == 0 then m else record m { selected = m.selected - 1 }
press_search m down =
    if ltb (m.selected + 1) (length m.aps) then record m { selected = m.selected + 1 } else m
press_search m escape = record (stop_scan m) { view = idle }
press_search m enter =
    if empty m.aps
    then m
    else let ap = get_or m.aps m.selected no_point in
      if ap.is_open || ap.saved then connect_to m ap.ssid [] else record m {
        active_scan_token = 0;
        selected_ssid = ap.ssid;
        password = [];
        view = Screen.password;
      }
press_search m backspace = m

drop_last : Text → Text
drop_last [] = []
drop_last (x ∷ []) = []
drop_last (x ∷ y ∷ ys) = x ∷ drop_last (y ∷ ys)

unfoldable pub press_password : Machine → Key → Machine
unfolding drop_last
press_password m escape = record (clear_secret m) { view = idle }
press_password m backspace = record m { password = drop_last m.password }
press_password m enter = connect_to m m.selected_ssid m.password
press_password m _ = m

unfoldable pub press_connecting : Machine → Key → Machine
press_connecting m escape = record (stop_connection m) { view = idle }
press_connecting m _ = m

unfoldable pub press_saved : Machine → Key → Machine
press_saved m up = if m.selected == 0 then m else record m { selected = m.selected - 1 }
press_saved m down =
    if ltb (m.selected + 1) (length m.saved) then record m { selected = m.selected + 1 } else m
press_saved m enter = if empty m.saved then m else record m { view = forget_confirmation }
press_saved m _ = m

unfoldable pub press_forget : Machine → Key → Machine
press_forget m escape = record m { view = saved }
press_forget m enter =
    if not (ltb m.selected (length m.saved))
    then m
    else let t = bump m.next_operation_token in
      let rest = take m.selected m.saved ++ drop (m.selected + 1) m.saved in
      record m {
        next_operation_token = t;
        active_operation_token = t;
        pending = m.pending ++ action forget (get_or m.saved m.selected []) [] t ∷ [];
        saved = rest;
        selected =
            if leb (length rest) m.selected && not (m.selected == 0)
            then m.selected - 1
            else m.selected;
        view = saved;
      }
press_forget m _ = m

unfoldable pub press : Machine → Key → Machine
unfolding press_search press_password press_connecting press_saved press_forget
press m key = elim m.view [
  | search ↦ press_search m key
  | Screen.password ↦ press_password m key
  | connecting ↦ press_connecting m key
  | saved ↦ press_saved m key
  | forget_confirmation ↦ press_forget m key
  | idle ↦ m
]

unfoldable pub take_actions : Machine → Machine × List Action
take_actions m = (record m { pending = [] }, m.pending)

pub data Call : Type 0 where
  searches shows_saved cancels takes : Call
  knows : List Text → Call
  scanned : ℕ → List AccessPoint → Call
  calls_back : ℕ → ConnectionEvent → Call
  waits : ℕ → Call
  presses : Key → Call
  types : Text → Call
  connects : Text → Text → Call

unfoldable pub step : Machine → Call → Machine
step m searches = begin_search m
step m shows_saved = begin_saved m
step m cancels = cancel_connection m
step m takes = (take_actions m).0
step m (knows ssids) = set_saved_networks m ssids
step m (scanned token input) = scan_complete m token input
step m (calls_back token event) = connection_callback m token event
step m (waits ms) = advance_time m ms
step m (presses key) = press m key
step m (types text) = type_password m text
step m (connects ssid pwd) = begin_connection m ssid pwd

unfoldable pub run : Machine → List Call → Machine
run m [] = m
run m (c ∷ cs) = run (step m c) cs
