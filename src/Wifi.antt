-- ===== src/Wifi.antt =====
-- components/cyberdeck/src/apps/wifi/cyberdeck_wifi_state_machine.cpp and its header: the screens
-- of the Wi-Fi menu, the attempt to connect and the actions asked of the Wi-Fi driver.
pub mod Calls
pub mod Screens
pub mod Attempts
pub mod Results
mod Tests
use cyberdeck.Common.{
  ℕ, zero, suc, ◌+◌, ◌-◌, ◌%◌, ◌^◌, Bool, true, false, not, ◌&&◌, ◌||◌, List, [], ◌∷◌, ◌++◌, length,
  get_or, ltb, leb, ◌==◌, if◌then◌else◌,
}

pub data Screen : Type 0 where
  search saved password connecting forget_confirmation idle : Screen

pub data ActionKind : Type 0 where
  connect persist forget cancel_scan cancel_connect timeout : ActionKind

-- A signed number: `pos n` is n and `negsuc n` is - (n + 1).
pub data ℤ : Type 0 where
  pos negsuc : ℕ → ℤ

-- A string is the list of its bytes.
abbrev pub Text : Type 0
Text = List ℕ

pub record AccessPoint : Type 0 where
  pub ssid : Text
  pub rssi : ℤ
  pub is_open : Bool
  pub saved : Bool

pub record Action : Type 0 where
  pub kind : ActionKind
  pub ssid : Text
  pub password : Text
  pub token : ℕ

pub record Machine : Type 0 where
  pub view : Screen
  pub selected : ℕ
  pub aps : List AccessPoint
  pub saved : List Text
  pub password : Text
  pub connection_password : Text
  pub selected_ssid : Text
  pub pending : List Action
  pub next_scan_token : ℕ
  pub active_scan_token : ℕ
  pub next_connection_token : ℕ
  pub active_connection_token : ℕ
  pub next_operation_token : ℕ
  pub active_operation_token : ℕ
  pub elapsed : ℕ
  pub connected : Bool
  pub has_ip : Bool

abbrev pub connect_timeout_ms : ℕ
connect_timeout_ms = 15000

pub init : Machine
init = record {
  view = idle;
  selected = 0;
  aps = [];
  saved = [];
  password = [];
  connection_password = [];
  selected_ssid = [];
  pending = [];
  next_scan_token = 0;
  active_scan_token = 0;
  next_connection_token = 0;
  active_connection_token = 0;
  next_operation_token = 0;
  active_operation_token = 0;
  elapsed = 0;
  connected = false;
  has_ip = false;
}

abbrev screen_code : Screen → ℕ
screen_code search = 0
screen_code saved = 1
screen_code password = 2
screen_code connecting = 3
screen_code forget_confirmation = 4
screen_code idle = 5

abbrev pub is_view : Screen → Screen → Bool
is_view a b = screen_code a == screen_code b

abbrev pub empty {ℓ} : {A : Type ℓ} → List A → Bool
empty [] = true
empty (x ∷ xs) = false

-- `++next`, over 64 bits.
abbrev pub bump : ℕ → ℕ
bump n = (n + 1) % 2 ^ 64

abbrev pub push : Machine → Action → Machine
push m a = record m { pending = m.pending ++ a ∷ [] }

abbrev pub action : ActionKind → Text → Text → ℕ → Action
action k s p t = record { kind = k; ssid = s; password = p; token = t }

abbrev pub clear_secret : Machine → Machine
clear_secret m = record m { password = [] }

abbrev pub invalidate_connection : Machine → Machine
invalidate_connection m = record m {
  active_connection_token = 0;
  elapsed = 0;
  connected = false;
  has_ip = false;
  password = [];
  connection_password = [];
}

-- `state_machine_impl::connect`.
pub connect_to : Machine → Text → Text → Machine
connect_to m ssid pwd =
    let t = bump m.next_connection_token in
    record m {
      active_scan_token = 0;
      selected_ssid = ssid;
      connection_password = pwd;
      next_connection_token = t;
      active_connection_token = t;
      elapsed = 0;
      connected = false;
      has_ip = false;
      pending = m.pending ++ action connect ssid pwd t ∷ [];
      password = [];
      view = connecting;
    }

pub finish_if_ready : Machine → Machine
finish_if_ready m =
    if not m.connected || not m.has_ip
    then m
    else record (invalidate_connection
        (push m (action persist m.selected_ssid m.connection_password m.active_connection_token))) {
          view = idle;
        }

-- The two ways out of an activity that the next screen replaces.
abbrev pub stop_scan : Machine → Machine
stop_scan m = record (push m (action cancel_scan [] [] m.active_scan_token)) {
  active_scan_token = 0;
}

abbrev pub stop_connection : Machine → Machine
stop_connection m =
    invalidate_connection
      (push m (action cancel_connect m.selected_ssid [] m.active_connection_token))

pub begin_search : Machine → Machine
begin_search m =
    if is_view m.view password || is_view m.view connecting
    then m
    else let n = if is_view m.view search then stop_scan m else m in
      record n {
        view = search;
        selected = 0;
        aps = [];
        next_scan_token = bump n.next_scan_token;
        active_scan_token = bump n.next_scan_token;
      }

pub begin_saved : Machine → Machine
begin_saved m =
    if is_view m.view password
    then m
    else let n =
        if is_view m.view connecting
        then stop_connection m
        else if is_view m.view search
        then stop_scan m
        else m in
      record n { view = saved; selected = 0 }

pub set_saved_networks : Machine → List Text → Machine
set_saved_networks m ssids = record m { saved = ssids }

pub advance_time : Machine → ℕ → Machine
advance_time m ms =
    if not (is_view m.view connecting)
    then m
    else if leb connect_timeout_ms m.elapsed || leb (connect_timeout_ms - m.elapsed) ms
    then record (stop_connection
        (push m (action timeout m.selected_ssid [] m.active_connection_token))) { view = idle }
    else record m { elapsed = m.elapsed + ms }

pub type_password : Machine → Text → Machine
type_password m text =
    if is_view m.view password then record m { password = m.password ++ text } else m

pub begin_connection : Machine → Text → Text → Machine
unfolding connect_to
begin_connection m ssid pwd =
    if empty ssid || is_view m.view connecting then m else connect_to m ssid pwd

pub cancel_connection : Machine → Machine
cancel_connection m =
    if not (is_view m.view connecting) then m else record (stop_connection m) { view = idle }
