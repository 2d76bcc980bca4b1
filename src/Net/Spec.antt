-- ===== src/Net/Spec.antt =====
-- The coordinator on a plain list of waiting items, with no array and no indices: what each call of
-- components/cyberdeck/src/platform/networking/cyberdeck_net_coordinator.cpp does to it. An item that
-- finds no room is lost here as it is there, `ssh_offline` too, which the class's header does not say.
use cyberdeck.Common.{
  Bool, true, false, not, ◌&&◌, ◌||◌, Option, some, List, [], ◌∷◌, ◌++◌, length, if◌then◌else◌,
}
use cyberdeck.Net.{
  Phase, offline, connecting, online, teardown_in_progress, teardown_done, offline_error, Work,
  Notice, Item, blank, teardown_ssh, teardown_wifi, run_scan, run_retry, cancel_connect,
  wifi_disconnect, ssh_offline, Sink, DrainResult, Coordinator, is_phase,
}
use cyberdeck.Net.Calls.{no_result, work_result, Event}
use cyberdeck.Net.Queue.{pending, listed, room}

pub record View : Type 0 where
  pub phase : Phase
  pub active : Bool
  pub sink : Option Sink
  pub items : List Item

abbrev pub view : Coordinator → View
view c = record { phase = c.phase; active = c.callbacks_active; sink = c.notify; items = pending c }

-- Whether new work may enter.
abbrev pub accepting : View → Bool
accepting v = v.active && not (is_phase v.phase teardown_in_progress)

abbrev pub add : Item → Bool → View → View
add item critical v =
    if room critical (length v.items) then record v { items = v.items ++ item ∷ [] } else v

-- A request enters once, however often it is made.
abbrev pub add_once : Item → Bool → View → View
add_once item critical v =
    if accepting v && not (listed item v.items) then add item critical v else v

abbrev pub socket_error : View → View
socket_error v =
    if accepting v && (is_phase v.phase connecting || is_phase v.phase online)
    then (if listed ssh_offline v.items
        then record v { phase = offline_error }
        else add ssh_offline false (record v { phase = offline_error }))
    else v

abbrev pub disconnect : View → View
disconnect v =
    if accepting v && not (is_phase v.phase teardown_done)
    then add teardown_wifi true (add teardown_ssh true (record v { phase = teardown_in_progress }))
    else v

-- What the worker is told of an item.
abbrev pub delivered : Item → DrainResult
delivered blank = no_result
delivered teardown_ssh = work_result Work.teardown_ssh
delivered teardown_wifi = work_result Work.teardown_wifi
delivered run_scan = work_result Work.run_scan
delivered run_retry = work_result Work.run_retry
delivered cancel_connect = work_result Work.cancel_connect
delivered wifi_disconnect = work_result Work.wifi_disconnect
delivered ssh_offline = record { work = Work.none; notice = Notice.ssh_offline }

-- The calls of the sink for an item.
abbrev pub notified : Option Sink → Item → List (Sink × Notice)
notified (some s) ssh_offline = (s, Notice.ssh_offline) ∷ []
notified _ _ = []

-- The view after an item was taken from the front: the Wi-Fi teardown ends everything.
abbrev pub after : Item → View → View
after teardown_wifi v = record v { phase = teardown_done; active = false }
after _ v = v

abbrev pub take_first : View → List Item → View
take_first v [] = v
take_first v (x ∷ xs) = if v.active then after x (record v { items = xs }) else v

abbrev pub next_view : View → Event → View
next_view v Event.session_connecting =
    if v.active && (is_phase v.phase offline || is_phase v.phase offline_error)
    then record v { phase = connecting }
    else v
next_view v Event.session_online =
    if v.active && is_phase v.phase connecting then record v { phase = online } else v
next_view v Event.socket_error = socket_error v
next_view v Event.disconnect = disconnect v
next_view v Event.disconnect_wifi =
    if is_phase v.phase teardown_done then v else add_once wifi_disconnect true v
next_view v Event.scan = add_once run_scan false v
next_view v Event.retry = add_once run_retry false v
next_view v Event.cancel = add_once cancel_connect true v
next_view v Event.drain = take_first v v.items
next_view v (Event.scan_tick e s k) = if e && not s && not k then add_once run_scan false v else v
next_view v (Event.retry_tick e s k) = if e && s && not k then add_once run_retry false v else v
