-- ===== src/Net.antt =====
-- components/cyberdeck/src/platform/networking/cyberdeck_net_coordinator.cpp and its header: the
-- coordinator of the SSH and Wi-Fi teardown, a queue of work that only `drain_pending` consumes.
pub mod Calls
pub mod Queue
pub mod Spec
pub mod Refinement
pub mod Items
pub mod Invariant
pub mod Delivery
pub mod Teardown
mod Tests
use cyberdeck.Common.{
  ℕ, zero, suc, ◌+◌, ◌-◌, Bool, true, false, not, ◌&&◌, ◌||◌, Option, some, List, [], ◌∷◌, get_or,
  set, replicate, leb, ◌==◌, if◌then◌else◌,
}
use cyberdeck.Common.Ring.{next}

pub data Phase : Type 0 where
  offline connecting online teardown_in_progress teardown_done offline_error : Phase

pub data Work : Type 0 where
  none teardown_ssh teardown_wifi run_scan run_retry cancel_connect wifi_disconnect : Work

pub data Notice : Type 0 where
  none ssh_offline : Notice

-- The items of the queue; `blank` is the zero that a cell holds before its first write.
pub data Item : Type 0 where
  blank teardown_ssh teardown_wifi run_scan run_retry cancel_connect wifi_disconnect ssh_offline :
      Item

-- A registered sink: the function and its context, as the addresses that they are.
pub record Sink : Type 0 where
  pub fn : ℕ
  pub ctx : ℕ

pub record DrainResult : Type 0 where
  pub work : Work
  pub notice : Notice

pub record Coordinator : Type 0 where
  pub phase : Phase
  pub callbacks_active : Bool
  pub notify : Option Sink
  pub queue : List Item
  pub head : ℕ
  pub tail : ℕ
  pub count : ℕ

abbrev pub queue_capacity : ℕ
queue_capacity = 8

abbrev pub critical_reserve : ℕ
critical_reserve = 4

-- The comparisons of the C++ enumerations, by the enumerators' values.
abbrev phase_code : Phase → ℕ
phase_code offline = 0
phase_code connecting = 1
phase_code online = 2
phase_code teardown_in_progress = 3
phase_code teardown_done = 4
phase_code offline_error = 5

abbrev pub is_phase : Phase → Phase → Bool
is_phase a b = phase_code a == phase_code b

abbrev item_code : Item → ℕ
item_code blank = 0
item_code teardown_ssh = 1
item_code teardown_wifi = 2
item_code run_scan = 3
item_code run_retry = 4
item_code cancel_connect = 5
item_code wifi_disconnect = 6
item_code ssh_offline = 7

abbrev pub is_item : Item → Item → Bool
is_item a b = item_code a == item_code b

-- The members' initial values.
pub init : Coordinator
init = record {
  phase = offline;
  callbacks_active = true;
  notify = Option.none;
  queue = replicate queue_capacity blank;
  head = 0;
  tail = 0;
  count = 0;
}

pub set_notify : Coordinator → Option Sink → Coordinator
set_notify c sink = record c { notify = sink }

-- `reset` leaves the cells of the array as they are.
pub reset : Coordinator → Coordinator
reset c = record c {
  phase = offline;
  callbacks_active = true;
  notify = Option.none;
  head = 0;
  tail = 0;
  count = 0;
}

-- The loop of `contains` and of `has_pending_notice`: `n` cells are left, the next one is `p`.
pub scan_cells : List Item → Item → ℕ → ℕ → Bool
scan_cells queue item p zero = false
scan_cells queue item p (suc n) =
    is_item (get_or queue p blank) item || scan_cells queue item (next queue_capacity p) n

pub contains : Coordinator → Item → Bool
unfolding scan_cells
contains c item = scan_cells c.queue item c.head c.count

pub has_pending_notice : Coordinator → Bool
unfolding scan_cells
has_pending_notice c = scan_cells c.queue ssh_offline c.head c.count

push_item : Coordinator → Item → Coordinator
push_item c item = record c {
  queue = set c.queue c.tail item;
  tail = next queue_capacity c.tail;
  count = c.count + 1;
}

-- `enqueue`; no caller reads its result.
pub enqueue : Coordinator → Item → Bool → Coordinator
enqueue c item critical =
    if leb queue_capacity c.count
    then c
    else if not critical && leb (queue_capacity - critical_reserve) c.count
    then c
    else push_item c item

pub has_pending_work : Coordinator → Work → Bool
unfolding contains
has_pending_work c none = false
has_pending_work c teardown_ssh = contains c teardown_ssh
has_pending_work c teardown_wifi = contains c teardown_wifi
has_pending_work c run_scan = contains c run_scan
has_pending_work c run_retry = contains c run_retry
has_pending_work c cancel_connect = contains c cancel_connect
has_pending_work c wifi_disconnect = contains c wifi_disconnect

pub on_session_connecting : Coordinator → Coordinator
on_session_connecting c =
    if not c.callbacks_active
    then c
    else if is_phase c.phase offline || is_phase c.phase offline_error
    then record c { phase = connecting }
    else c

pub on_session_online : Coordinator → Coordinator
on_session_online c =
    if c.callbacks_active && is_phase c.phase connecting then record c { phase = online } else c

pub on_socket_error : Coordinator → Coordinator
on_socket_error c =
    if not c.callbacks_active || is_phase c.phase teardown_in_progress
    then c
    else if not (is_phase c.phase connecting) && not (is_phase c.phase online)
    then c
    else let d = record c { phase = offline_error } in
      if has_pending_notice d then d else enqueue d ssh_offline false

pub request_disconnect : Coordinator → Coordinator
request_disconnect c =
    if not c.callbacks_active || is_phase c.phase teardown_in_progress
    then c
    else if is_phase c.phase teardown_done
    then c
    else enqueue (enqueue (record c { phase = teardown_in_progress }) teardown_ssh true)
        teardown_wifi true

pub request_wifi_disconnect : Coordinator → Coordinator
request_wifi_disconnect c =
    if not c.callbacks_active
      || is_phase c.phase teardown_in_progress
      || is_phase c.phase teardown_done
    then c
    else if contains c wifi_disconnect
    then c
    else enqueue c wifi_disconnect true

-- `request_scan`, `request_retry` and `request_cancel_connect` differ in the item and its priority.
request_item : Coordinator → Item → Bool → Coordinator
request_item c item critical =
    if not c.callbacks_active || is_phase c.phase teardown_in_progress
    then c
    else if contains c item
    then c
    else enqueue c item critical

pub request_scan : Coordinator → Coordinator
unfolding request_item
request_scan c = request_item c run_scan false

pub request_retry : Coordinator → Coordinator
unfolding request_item
request_retry c = request_item c run_retry false

pub request_cancel_connect : Coordinator → Coordinator
unfolding request_item
request_cancel_connect c = request_item c cancel_connect true

pub on_scan_timer_tick : Coordinator → Bool → Bool → Bool → Coordinator
on_scan_timer_tick c wifi_enabled has_saved_network connected =
    if wifi_enabled && not has_saved_network && not connected then request_scan c else c

pub on_retry_timer_tick : Coordinator → Bool → Bool → Bool → Coordinator
on_retry_timer_tick c wifi_enabled has_saved_network connected =
    if wifi_enabled && has_saved_network && not connected then request_retry c else c
