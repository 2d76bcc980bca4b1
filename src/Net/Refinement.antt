-- ===== src/Net/Refinement.antt =====
-- The circular queue of the coordinator and the list of waiting items.
use cyberdeck.Common.{
  ℕ, zero, suc, ◌-◌, ◌≡◌, ◌≢◌, refl, ap, ◌∙◌, Bool, true, false, List, [], ◌∷◌, arith, get_or,
}
use cyberdeck.Common.Ring.{next, window}
use cyberdeck.Net.{
  Phase, Item, blank, teardown_ssh, teardown_wifi, run_scan, run_retry, cancel_connect,
  wifi_disconnect, ssh_offline, Coordinator, queue_capacity, enqueue, on_session_connecting,
  on_session_online, on_socket_error, request_disconnect, request_wifi_disconnect, push_item,
  request_item, request_scan, request_retry, request_cancel_connect, on_scan_timer_tick,
  on_retry_timer_tick,
}
use cyberdeck.Net.Calls.{Event, drain_pending, dispatch, step, run}
use cyberdeck.Net.Queue.{IsRing, contains-pending, notice-pending, pending-enqueue, enqueue-IsRing}
use cyberdeck.Net.Spec.{
  View, view, add, add_once, socket_error, disconnect, after, take_first, next_view,
}

enqueue_rest :
    (c : Coordinator) (item : Item) (critical : Bool)
    → ((enqueue c item critical).phase ≡ c.phase)
      × ((enqueue c item critical).callbacks_active ≡ c.callbacks_active)
      × ((enqueue c item critical).notify ≡ c.notify)
unfolding enqueue push_item
enqueue_rest c item critical = ground arith

view-enqueue :
    (c : Coordinator) (item : Item) (critical : Bool)
    → IsRing c
    → view (enqueue c item critical) ≡ add item critical (view c)
view-enqueue c item critical r =
    ground (arith, enqueue_rest c item critical, pending-enqueue c item critical r)

request_item-view :
    (c : Coordinator) (item : Item) (critical : Bool)
    → IsRing c
    → view (request_item c item critical) ≡ add_once item critical (view c)
unfolding request_item
request_item-view c item critical r =
    ground (arith, view-enqueue c item critical r, contains-pending c item)

request_item-IsRing :
    (c : Coordinator) (item : Item) (critical : Bool)
    → IsRing c
    → IsRing (request_item c item critical)
unfolding request_item
request_item-IsRing c item critical r = ground (arith, enqueue-IsRing c item critical r)

pub on_socket_error-view :
    (c : Coordinator) → IsRing c → view (on_socket_error c) ≡ socket_error (view c)
unfolding on_socket_error
on_socket_error-view c r =
    let d : Coordinator = record c { phase = Phase.offline_error } in
    let rd : IsRing d = ground arith in
    ground (arith, view-enqueue d ssh_offline false rd, notice-pending d)

pub on_socket_error-IsRing : (c : Coordinator) → IsRing c → IsRing (on_socket_error c)
unfolding on_socket_error
on_socket_error-IsRing c r =
    let d : Coordinator = record c { phase = Phase.offline_error } in
    let rd : IsRing d = ground arith in ground (arith, enqueue-IsRing d ssh_offline false rd)

pub request_disconnect-view :
    (c : Coordinator) → IsRing c → view (request_disconnect c) ≡ disconnect (view c)
unfolding request_disconnect
request_disconnect-view c r = ground (arith, both)
  where
    d : Coordinator
    d = record c { phase = Phase.teardown_in_progress }

    rd : IsRing d
    rd = ground arith

    both :
        view (enqueue (enqueue d teardown_ssh true) teardown_wifi true)
        ≡ add teardown_wifi true (add teardown_ssh true (view d))
    both =
        view-enqueue (enqueue d teardown_ssh true) teardown_wifi true
          (enqueue-IsRing d teardown_ssh true rd)
        ∙ ap (add teardown_wifi true) (view-enqueue d teardown_ssh true rd)

pub request_disconnect-IsRing : (c : Coordinator) → IsRing c → IsRing (request_disconnect c)
unfolding request_disconnect
request_disconnect-IsRing c r =
    let d : Coordinator = record c { phase = Phase.teardown_in_progress } in
    let rd : IsRing d = ground arith in
    ground (arith, enqueue-IsRing _ teardown_wifi true (enqueue-IsRing d teardown_ssh true rd))

dispatch-view : (x : Item) (c : Coordinator) → view (dispatch x c).state ≡ after x (view c)
unfolding dispatch
dispatch-view blank c = refl
dispatch-view _ c = refl

dispatch-IsRing : (x : Item) (c : Coordinator) → IsRing c → IsRing (dispatch x c).state
unfolding dispatch
dispatch-IsRing blank c r = r
dispatch-IsRing teardown_wifi c r = ground arith
dispatch-IsRing _ c r = r

-- The coordinator behind the item that `drain_pending` takes.
abbrev pub popped : Coordinator → Coordinator
popped c = record c { head = next queue_capacity c.head; count = c.count - 1 }

popped-IsRing : (c : Coordinator) → IsRing c → c.count ≢ 0 → IsRing (popped c)
popped-IsRing c r h = omega arith

drain_count-view :
    (c : Coordinator) (n : ℕ)
    → c.count ≡ n
    → view (drain_pending c).state
      ≡ take_first (view c) (window queue_capacity c.queue blank c.head n)
unfolding drain_pending
drain_count-view c zero e = ground arith
drain_count-view c (suc n) e =
    let fewer : c.count - 1 ≡ n = omega arith in
    let shorter = ap (window queue_capacity c.queue blank (next queue_capacity c.head)) fewer in
    ground (arith, dispatch-view (get_or c.queue c.head blank) (popped c), shorter)

pub drain_pending-view :
    (c : Coordinator) → IsRing c → view (drain_pending c).state ≡ next_view (view c) Event.drain
drain_pending-view c r = drain_count-view c c.count refl

pub drain_pending-IsRing : (c : Coordinator) → IsRing c → IsRing (drain_pending c).state
unfolding drain_pending
drain_pending-IsRing c r =
    ground (arith, dispatch-IsRing (get_or c.queue c.head blank) (popped c), popped-IsRing c r)

pub step-IsRing : (c : Coordinator) (e : Event) → IsRing c → IsRing (step c e)
unfolding step on_session_connecting on_session_online request_wifi_disconnect request_scan
    request_retry request_cancel_connect on_scan_timer_tick on_retry_timer_tick
step-IsRing c Event.session_connecting r = ground arith
step-IsRing c Event.session_online r = ground arith
step-IsRing c Event.socket_error r = on_socket_error-IsRing c r
step-IsRing c Event.disconnect r = request_disconnect-IsRing c r
step-IsRing c Event.disconnect_wifi r = ground (arith, enqueue-IsRing c wifi_disconnect true r)
step-IsRing c Event.scan r = request_item-IsRing c run_scan false r
step-IsRing c Event.retry r = request_item-IsRing c run_retry false r
step-IsRing c Event.cancel r = request_item-IsRing c cancel_connect true r
step-IsRing c Event.drain r = drain_pending-IsRing c r
step-IsRing c (Event.scan_tick e s k) r = ground (arith, request_item-IsRing c run_scan false r)
step-IsRing c (Event.retry_tick e s k) r = ground (arith, request_item-IsRing c run_retry false r)

-- Each call does on the circular queue what `next_view` does on the list of waiting items.
pub step-refines : (c : Coordinator) (e : Event) → IsRing c → view (step c e) ≡ next_view (view c) e
unfolding step on_session_connecting on_session_online request_wifi_disconnect request_scan
    request_retry request_cancel_connect on_scan_timer_tick on_retry_timer_tick
step-refines c Event.session_connecting r = ground arith
step-refines c Event.session_online r = ground arith
step-refines c Event.socket_error r = on_socket_error-view c r
step-refines c Event.disconnect r = request_disconnect-view c r
step-refines c Event.disconnect_wifi r =
    ground (arith, view-enqueue c wifi_disconnect true r, contains-pending c wifi_disconnect)
step-refines c Event.scan r = request_item-view c run_scan false r
step-refines c Event.retry r = request_item-view c run_retry false r
step-refines c Event.cancel r = request_item-view c cancel_connect true r
step-refines c Event.drain r = drain_pending-view c r
step-refines c (Event.scan_tick e s k) r = ground (arith, request_item-view c run_scan false r)
step-refines c (Event.retry_tick e s k) r = ground (arith, request_item-view c run_retry false r)

unfoldable pub next_views : View → List Event → View
next_views v [] = v
next_views v (e ∷ es) = next_views (next_view v e) es

pub run-view :
    (c : Coordinator) (es : List Event) → IsRing c → view (run c es) ≡ next_views (view c) es
unfolding run next_views
run-view c [] r = refl
run-view c (e ∷ es) r =
    run-view (step c e) es (step-IsRing c e r) ∙ ap (λ v. next_views v es) (step-refines c e r)

pub run-IsRing : (c : Coordinator) (es : List Event) → IsRing c → IsRing (run c es)
unfolding run
run-IsRing c [] r = r
run-IsRing c (e ∷ es) r = run-IsRing (step c e) es (step-IsRing c e r)

-- From a coordinator whose ring is in order, any sequence of calls leaves the ring in order, and the
-- phase, the callbacks, the sink and the waiting items as the same calls leave them on a plain list
-- without indices, on which requests for what waits already are dropped, and so is an item that finds
-- no room, the notice that the link was lost included.
pub run-refines :
    (c : Coordinator) (es : List Event)
    → IsRing c
    → IsRing (run c es) × (view (run c es) ≡ next_views (view c) es)
run-refines c es r = (run-IsRing c es r, run-view c es r)
