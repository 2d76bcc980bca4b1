-- ===== src/Net/Teardown.antt =====
-- The teardown: asked for once, done once, and nothing after it.
use cyberdeck.Common.{
  ◌≡◌, Bool, true, false, not, ◌||◌, ◌≢◌, ◌∙◌, sym, append_assoc, ◌⊎◌, ◌+◌, ◌≤◌, ap, map, length,
  length-append, List, [], ◌∷◌, ◌++◌, arith,
}
use cyberdeck.Net.{
  Coordinator, request_disconnect, on_socket_error, enqueue, Phase, ssh_offline, init, online,
  connecting, offline_error, has_pending_notice, Item, is_phase, teardown_in_progress,
  teardown_done, push_item, teardown_ssh, teardown_wifi,
}
use cyberdeck.Net.Calls.{Event, run}
use cyberdeck.Net.Queue.{pending, listed, IsRing, init-IsRing, notice-pending}
use cyberdeck.Net.Spec.{View, view, accepting, delivered, socket_error}
use cyberdeck.Net.Refinement.{
  request_disconnect-view, request_disconnect-IsRing, on_socket_error-view, run-IsRing,
}
use cyberdeck.Net.Invariant.{Stage, Stage-open, disconnect_open, next_view-IsSound, run-IsSound}
use cyberdeck.Net.Items.{EndsInWifi-snoc}
use cyberdeck.Net.Delivery.{drain_state, drain_results, deliver_all, IsLive}

enqueue_keeps :
    (c : Coordinator) (x : Item) (b : Bool)
    → ((enqueue c x b).phase ≡ c.phase) × ((enqueue c x b).callbacks_active ≡ c.callbacks_active)
unfolding enqueue push_item
enqueue_keeps c x b = ground arith

-- What makes a request to disconnect return early.
abbrev settled : Coordinator → Bool
settled c =
    not c.callbacks_active
    || is_phase c.phase teardown_in_progress
    || is_phase c.phase teardown_done

request_disconnect-settled : (c : Coordinator) → settled (request_disconnect c) ≡ true
unfolding request_disconnect
request_disconnect-settled c =
    let d : Coordinator = record c { phase = teardown_in_progress } in
    ground (
      arith,
      enqueue_keeps (enqueue d teardown_ssh true) teardown_wifi true,
      enqueue_keeps d teardown_ssh true,
    )

request_disconnect_early : (c : Coordinator) → settled c ≡ true → request_disconnect c ≡ c
unfolding request_disconnect
request_disconnect_early c h = ground arith

-- A second request to disconnect changes nothing.
pub request_disconnect_twice :
    (c : Coordinator) → request_disconnect (request_disconnect c) ≡ request_disconnect c
request_disconnect_twice c =
    request_disconnect_early (request_disconnect c) (request_disconnect-settled c)

settled_of :
    (q : Phase) (b : Bool) (xs : List Item)
    → Stage q b xs
    → b ≡ true
    → q ≢ teardown_in_progress
    → (not b || is_phase q teardown_in_progress || is_phase q teardown_done) ≡ false
settled_of q b xs s a p = let (d, no_ssh, no_wifi) = Stage-open q b xs s a p in ground arith

accepting_of : (c : Coordinator) → settled c ≡ false → accepting (view c) ≡ true
accepting_of c h = ground arith

request_disconnect-view_open :
    (es : List Event)
    → settled (run init es) ≡ false
    → view (request_disconnect (run init es)) ≡ record (view (run init es)) {
      phase = teardown_in_progress;
      items = pending (run init es) ++ teardown_ssh ∷ teardown_wifi ∷ [];
    }
request_disconnect-view_open es h =
    let c = run init es in
    request_disconnect-view c (run-IsRing init es init-IsRing)
    ∙ disconnect_open (view c) (run-IsSound es) (accepting_of c h)

open-settled :
    (es : List Event)
    → (run init es).callbacks_active ≡ true
    → (run init es).phase ≢ teardown_in_progress
    → settled (run init es) ≡ false
open-settled es a p =
    settled_of (run init es).phase (run init es).callbacks_active _ (run-IsSound es).stage a p

-- However full the queue is after any calls, a request to disconnect that is not early puts both
-- teardown items at its end, the SSH one first, and starts the teardown.
pub request_disconnect-pending :
    (es : List Event)
    → (run init es).callbacks_active ≡ true
    → (run init es).phase ≢ teardown_in_progress
    → (pending (request_disconnect (run init es))
        ≡ pending (run init es) ++ teardown_ssh ∷ teardown_wifi ∷ [])
      × ((request_disconnect (run init es)).phase ≡ teardown_in_progress)
request_disconnect-pending es a p =
    let opened = request_disconnect-view_open es (open-settled es a p) in
    (ap (λ (v : View). v.items) opened, ap (λ (v : View). v.phase) opened)

-- A request to disconnect after the calls `es`, and then a drain for each item that waits.
abbrev pub torn_down : List Event → Coordinator
torn_down es = drain_state (length (pending (run init es)) + 2) (request_disconnect (run init es))

-- The teardown comes to its end: the drains after an accepted request to disconnect deliver all
-- that waited before, then the SSH and the Wi-Fi teardown, and turn the callbacks off.
pub teardown_ends :
    (es : List Event)
    → (run init es).callbacks_active ≡ true
    → (run init es).phase ≢ teardown_in_progress
    → (drain_results (length (pending (run init es)) + 2) (request_disconnect (run init es))
        ≡ map delivered (pending (run init es) ++ teardown_ssh ∷ teardown_wifi ∷ []))
      × ((torn_down es).phase ≡ teardown_done)
      × ((torn_down es).callbacks_active ≡ false)
teardown_ends es a p =
    let c = run init es in
    let d = request_disconnect c in
    let opened = request_disconnect-view_open es (open-settled es a p) in
    let items : pending d ≡ pending c ++ teardown_ssh ∷ teardown_wifi ∷ [] =
      ap (λ (v : View). v.items) opened in
    let live : IsLive d = record {
      ring = request_disconnect-IsRing c (run-IsRing init es init-IsRing);
      sound =
          rw (request_disconnect-view c (run-IsRing init es init-IsRing))
            (next_view-IsSound (view c) Event.disconnect (run-IsSound es));
      active = ap (λ (v : View). v.active) opened ∙ a;
    } in
    let enough : length (pending c ++ teardown_ssh ∷ teardown_wifi ∷ []) ≡ length (pending c) + 2 =
      omega (arith, length-append (pending c) (teardown_ssh ∷ teardown_wifi ∷ [])) in
    let (results, calls, empty, ends) = deliver_all _ d live items in
    let last = ends (
      rw (append_assoc (pending c) (teardown_ssh ∷ []) (teardown_wifi ∷ [])) at
        (EndsInWifi-snoc (pending c ++ teardown_ssh ∷ []))) in
    (rw enough at results, rw enough at (last.0), rw enough at (last.1))

-- A socket error takes the coordinator offline, but when four items wait already and the notice is
-- not one of them, the notice is dropped.
pub on_socket_error_silent :
    (c : Coordinator)
    → IsRing c
    → c.callbacks_active ≡ true
    → (c.phase ≡ online) ⊎ (c.phase ≡ connecting)
    → 4 ≤ length (pending c)
    → has_pending_notice c ≡ false
    → ((on_socket_error c).phase ≡ offline_error)
      × (pending (on_socket_error c) ≡ pending c)
      × (has_pending_notice (on_socket_error c) ≡ false)
on_socket_error_silent c r a p full unsent =
    let offline : socket_error (view c) ≡ record (view c) { phase = offline_error } =
      ground (arith, notice-pending c) in
    let shown = on_socket_error-view c r ∙ offline in
    let same = ap (λ (v : View). v.items) shown in
    (
      ap (λ (v : View). v.phase) shown,
      same,
      notice-pending (on_socket_error c)
          ∙ ap (listed ssh_offline) same
          ∙ sym (notice-pending c)
          ∙ unsent,
    )
