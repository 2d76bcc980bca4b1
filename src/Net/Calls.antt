-- ===== src/Net/Calls.antt =====
-- The worker's side of the network coordinator, `drain_pending`, and all of its calls together.
use cyberdeck.Common.{
  ◌-◌, Bool, false, not, ◌||◌, Option, some, List, [], ◌∷◌, get_or, ◌==◌, if◌then◌else◌,
}
use cyberdeck.Common.Ring.{next}
use cyberdeck.Net.{
  teardown_done, Work, Notice, Item, blank, teardown_ssh, teardown_wifi, run_scan, run_retry,
  cancel_connect, wifi_disconnect, ssh_offline, Sink, DrainResult, Coordinator, queue_capacity,
  on_session_connecting, on_session_online, on_socket_error, request_disconnect,
  request_wifi_disconnect, request_scan, request_retry, request_cancel_connect, on_scan_timer_tick,
  on_retry_timer_tick,
}

-- What `drain_pending` returns: the new state, the result, and the calls of the sink.
pub record Drained : Type 0 where
  pub state : Coordinator
  pub result : DrainResult
  pub calls : List (Sink × Notice)

abbrev pub no_result : DrainResult
no_result = record { work = Work.none; notice = Notice.none }

abbrev pub work_result : Work → DrainResult
work_result w = record { work = w; notice = Notice.none }

abbrev notify_calls : Option Sink → Notice → List (Sink × Notice)
notify_calls Option.none n = []
notify_calls (some sink) n = (sink, n) ∷ []

abbrev pub quietly : Coordinator → DrainResult → Drained
quietly c r = record { state = c; result = r; calls = [] }

-- The `switch` of `drain_pending`, after the item has left the queue.
unfoldable pub dispatch : Item → Coordinator → Drained
dispatch blank c = quietly c no_result
dispatch teardown_ssh c = quietly c (work_result teardown_ssh)
dispatch teardown_wifi c =
    quietly (record c { phase = teardown_done; callbacks_active = false })
      (work_result teardown_wifi)
dispatch run_scan c = quietly c (work_result run_scan)
dispatch run_retry c = quietly c (work_result run_retry)
dispatch cancel_connect c = quietly c (work_result cancel_connect)
dispatch wifi_disconnect c = quietly c (work_result wifi_disconnect)
dispatch ssh_offline c = record {
  state = c;
  result = record { work = Work.none; notice = ssh_offline };
  calls = notify_calls c.notify ssh_offline;
}

unfoldable pub drain_pending : Coordinator → Drained
unfolding dispatch
drain_pending c =
    if not c.callbacks_active || c.count == 0
    then quietly c no_result
    else dispatch (get_or c.queue c.head blank)
        (record c { head = next queue_capacity c.head; count = c.count - 1 })

-- The calls that reach the coordinator, from the session, the user, the timers and the worker.
pub data Event : Type 0 where
  session_connecting session_online socket_error : Event
  disconnect disconnect_wifi scan retry cancel drain : Event
  scan_tick retry_tick : Bool → Bool → Bool → Event

unfoldable pub step : Coordinator → Event → Coordinator
step c session_connecting = on_session_connecting c
step c session_online = on_session_online c
step c socket_error = on_socket_error c
step c disconnect = request_disconnect c
step c disconnect_wifi = request_wifi_disconnect c
step c scan = request_scan c
step c retry = request_retry c
step c cancel = request_cancel_connect c
step c drain = (drain_pending c).state
step c (scan_tick e s k) = on_scan_timer_tick c e s k
step c (retry_tick e s k) = on_retry_timer_tick c e s k

unfoldable pub run : Coordinator → List Event → Coordinator
run c [] = c
run c (e ∷ es) = run (step c e) es
