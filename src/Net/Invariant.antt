-- ===== src/Net/Invariant.antt =====
-- The invariant of the network coordinator: its waiting items and its phase belong together.
use cyberdeck.Common.{
  ◌≤◌, ◌≡◌, ◌≢◌, refl, Bool, true, false, List, [], ◌∷◌, ◌++◌, arith, length, length-append,
  append_assoc, Bool-cases, inl, inr, Option,
}
use cyberdeck.Net.{
  Phase, teardown_in_progress, teardown_done, Item, blank, teardown_ssh, teardown_wifi, run_scan,
  run_retry, cancel_connect, wifi_disconnect, ssh_offline, Sink, init,
}
use cyberdeck.Net.Calls.{Event, run}
use cyberdeck.Net.Queue.{listed, init-IsRing}
use cyberdeck.Net.Spec.{
  View, view, accepting, add, add_once, socket_error, disconnect, after, take_first, next_view,
}
use cyberdeck.Net.Refinement.{next_views, run-view}
use cyberdeck.Net.Items.{
  occurs, AreDistinct, occurs-snoc, occurs_unlisted, length-occurs, snoc-AreDistinct,
  tail-AreDistinct, EndsInWifi, EndsInWifi-snoc, EndsInWifi-occurs,
}

-- Until the teardown no teardown item waits; from then on the Wi-Fi teardown is the last one; and
-- behind it nothing waits and no call is accepted.
abbrev pub Stage : Phase → Bool → List Item → Type 0
Stage Phase.teardown_in_progress true xs = EndsInWifi xs
Stage Phase.teardown_in_progress false xs = ⊥
Stage Phase.teardown_done true xs = ⊥
Stage Phase.teardown_done false xs = xs ≡ []
Stage _ true xs = (occurs teardown_ssh xs ≡ 0) × (occurs teardown_wifi xs ≡ 0)
Stage _ false xs = ⊥

pub record IsSound (v : View) : Type 0 where
  pub distinct : AreDistinct v.items
  pub stage : Stage v.phase v.active v.items

pub Stage-open :
    (p : Phase) (a : Bool) (xs : List Item)
    → Stage p a xs
    → a ≡ true
    → p ≢ teardown_in_progress
    → (p ≢ teardown_done) × (occurs teardown_ssh xs ≡ 0) × (occurs teardown_wifi xs ≡ 0)
Stage-open Phase.teardown_in_progress a xs s t h = absurd (h refl)
Stage-open Phase.teardown_done true xs s t h = absurd s
Stage-open Phase.teardown_done false xs s t h = cc
Stage-open Phase.offline true xs s t h = ((λ e. cc), s.0, s.1)
Stage-open _ true xs s t h = ((λ e. cc), s.0, s.1)
Stage-open _ false xs s t h = cc

open-Stage :
    (p : Phase) (xs : List Item)
    → p ≢ teardown_in_progress
    → p ≢ teardown_done
    → occurs teardown_ssh xs ≡ 0
    → occurs teardown_wifi xs ≡ 0
    → Stage p true xs
open-Stage Phase.teardown_in_progress xs h k s w = absurd (h refl)
open-Stage Phase.teardown_done xs h k s w = absurd (k refl)
open-Stage Phase.offline xs h k s w = (s, w)
open-Stage _ xs h k s w = (s, w)

-- Work that is no teardown may enter an open coordinator.
add-IsSound :
    (x : Item) (critical : Bool) (v : View)
    → x ≢ blank
    → x ≢ teardown_ssh
    → x ≢ teardown_wifi
    → IsSound v
    → v.active ≡ true
    → v.phase ≢ teardown_in_progress
    → listed x v.items ≡ false
    → IsSound (add x critical v)
add-IsSound x critical v b s w sound a p l =
    let (d, no_ssh, no_wifi) = Stage-open v.phase v.active v.items sound.stage a p in
    let longer = snoc-AreDistinct x v.items b sound.distinct (occurs_unlisted x v.items l) in
    let stage =
      open-Stage v.phase (v.items ++ x ∷ []) p d
        (ground (arith, occurs-snoc teardown_ssh x v.items))
        (ground (arith, occurs-snoc teardown_wifi x v.items)) in
    ground arith

accepting-open :
    (v : View) → accepting v ≡ true → (v.active ≡ true) × (v.phase ≢ teardown_in_progress)
accepting-open v h = (ground arith, λ e. ground arith)

add_once-IsSound :
    (x : Item) (critical : Bool) (v : View)
    → x ≢ blank
    → x ≢ teardown_ssh
    → x ≢ teardown_wifi
    → IsSound v
    → IsSound (add_once x critical v)
add_once-IsSound x critical v b s w sound =
    ground (arith, accepting-open v, add-IsSound x critical v b s w sound)

-- A change between the phases outside the teardown.
move-IsSound :
    (p : Phase) (v : View)
    → p ≢ teardown_in_progress
    → p ≢ teardown_done
    → IsSound v
    → v.active ≡ true
    → v.phase ≢ teardown_in_progress
    → IsSound (record v { phase = p })
move-IsSound p v h k sound a o =
    let (d, no_ssh, no_wifi) = Stage-open v.phase v.active v.items sound.stage a o in
    let stage = open-Stage p v.items h k no_ssh no_wifi in
    record { distinct = sound.distinct; stage = rw a stage }

socket_error-IsSound : (v : View) → IsSound v → IsSound (socket_error v)
socket_error-IsSound v sound = ground (
  arith,
  accepting-open v,
  move-IsSound Phase.offline_error v (λ e. cc) (λ e. cc) sound,
  λ (m : IsSound (record v { phase = Phase.offline_error })).
      add-IsSound ssh_offline false (record v { phase = Phase.offline_error }) (λ e. cc) (λ e. cc)
        (λ e. cc) m,
)

-- A sound coordinator that is not being torn down holds five items at most.
length-open :
    (xs : List Item)
    → AreDistinct xs
    → occurs teardown_ssh xs ≡ 0
    → occurs teardown_wifi xs ≡ 0
    → length xs ≤ 5
length-open xs d s w = omega (arith, length-occurs xs)

-- An accepted request to disconnect finds room for both of its items.
pub disconnect_open :
    (v : View)
    → IsSound v
    → accepting v ≡ true
    → disconnect v ≡ record v {
      phase = teardown_in_progress;
      items = v.items ++ teardown_ssh ∷ teardown_wifi ∷ [];
    }
disconnect_open v sound h =
    let (a, o) = accepting-open v h in
    let (d, no_ssh, no_wifi) = Stage-open v.phase v.active v.items sound.stage a o in
    ground (
      arith,
      length-open v.items sound.distinct no_ssh no_wifi,
      length-append v.items (teardown_ssh ∷ []),
      append_assoc v.items (teardown_ssh ∷ []) (teardown_wifi ∷ []),
    )

-- The pair of teardown items, at the end of a list that has neither.
pub teardown_pair :
    (xs : List Item)
    → AreDistinct xs
    → occurs teardown_ssh xs ≡ 0
    → occurs teardown_wifi xs ≡ 0
    → AreDistinct (xs ++ teardown_ssh ∷ teardown_wifi ∷ [])
      × EndsInWifi (xs ++ teardown_ssh ∷ teardown_wifi ∷ [])
teardown_pair xs d s w =
    let first = snoc-AreDistinct teardown_ssh xs (λ e. cc) d s in
    let second =
      snoc-AreDistinct teardown_wifi (xs ++ teardown_ssh ∷ []) (λ e. cc) first
        (omega (arith, occurs-snoc teardown_wifi teardown_ssh xs)) in
    let e = append_assoc xs (teardown_ssh ∷ []) (teardown_wifi ∷ []) in
    (rw e at second, rw e at (EndsInWifi-snoc (xs ++ teardown_ssh ∷ [])))

disconnect-IsSound : (v : View) → IsSound v → IsSound (disconnect v)
disconnect-IsSound v sound = elim (Bool-cases (accepting v)) [
  | inl h ↦ rw (disconnect_open v sound h) (closing h)
  | inr h ↦ ground arith
]
  where
    closing :
        accepting v ≡ true
        → IsSound (record v {
          phase = teardown_in_progress;
          items = v.items ++ teardown_ssh ∷ teardown_wifi ∷ [];
        })
    closing h =
        let (a, o) = accepting-open v h in
        let (d, no_ssh, no_wifi) = Stage-open v.phase v.active v.items sound.stage a o in
        let (distinct, ends) = teardown_pair v.items sound.distinct no_ssh no_wifi in ground arith

pub EndsInWifi-tail :
    (x : Item) (xs : List Item) → x ≢ teardown_wifi → EndsInWifi (x ∷ xs) → EndsInWifi xs
EndsInWifi-tail x [] n h = n h
EndsInWifi-tail x (y ∷ ys) n h = h

-- Behind the Wi-Fi teardown nothing waits: turning the callbacks off discards no item.
pub wifi_last :
    (xs : List Item) → AreDistinct (teardown_wifi ∷ xs) → EndsInWifi (teardown_wifi ∷ xs) → xs ≡ []
wifi_last [] d h = refl
wifi_last (y ∷ ys) d h = absurd (omega (arith, EndsInWifi-occurs (y ∷ ys) h))

closing-after :
    (x : Item) (xs : List Item) (s : Option Sink)
    → AreDistinct (x ∷ xs)
    → EndsInWifi (x ∷ xs)
    → IsSound
        (after x (record { phase = teardown_in_progress; active = true; sink = s; items = xs }))
closing-after teardown_wifi xs s d h = record {
  distinct = tail-AreDistinct _ xs d;
  stage = wifi_last xs d h;
}
closing-after x xs s d h = record {
  distinct = tail-AreDistinct _ xs d;
  stage = EndsInWifi-tail _ xs (λ e. cc) h;
}

open-after :
    (x : Item) (xs : List Item) (p : Phase) (s : Option Sink)
    → p ≢ teardown_in_progress
    → p ≢ teardown_done
    → AreDistinct (x ∷ xs)
    → occurs teardown_ssh (x ∷ xs) ≡ 0
    → occurs teardown_wifi (x ∷ xs) ≡ 0
    → IsSound (after x (record { phase = p; active = true; sink = s; items = xs }))
open-after teardown_wifi xs p s h k d a b = absurd (omega arith)
open-after x xs p s h k d a b = record {
  distinct = tail-AreDistinct _ xs d;
  stage = open-Stage p xs h k (omega arith) (omega arith);
}

take_first-IsSound :
    (p : Phase) (a : Bool) (s : Option Sink) (xs : List Item)
    → AreDistinct xs
    → Stage p a xs
    → IsSound (take_first (record { phase = p; active = a; sink = s; items = xs }) xs)
take_first-IsSound p a s [] d h = record { distinct = d; stage = h }
take_first-IsSound p false s (x ∷ xs) d h = record { distinct = d; stage = h }
take_first-IsSound Phase.teardown_in_progress true s (x ∷ xs) d h = closing-after x xs s d h
take_first-IsSound p true s (x ∷ xs) d h =
    let (k, no_ssh, no_wifi) = Stage-open p true (x ∷ xs) h refl (λ e. cc) in
    open-after x xs p s (λ e. cc) k d no_ssh no_wifi

-- Every call keeps the waiting items sound.
pub next_view-IsSound : (v : View) (e : Event) → IsSound v → IsSound (next_view v e)
next_view-IsSound v Event.session_connecting s =
    ground (arith, move-IsSound Phase.connecting v (λ e. cc) (λ e. cc) s)
next_view-IsSound v Event.session_online s =
    ground (arith, move-IsSound Phase.online v (λ e. cc) (λ e. cc) s)
next_view-IsSound v Event.socket_error s = socket_error-IsSound v s
next_view-IsSound v Event.disconnect s = disconnect-IsSound v s
next_view-IsSound v Event.disconnect_wifi s =
    ground (arith, add_once-IsSound wifi_disconnect true v (λ e. cc) (λ e. cc) (λ e. cc) s)
next_view-IsSound v Event.scan s = add_once-IsSound run_scan false v (λ e. cc) (λ e. cc) (λ e. cc) s
next_view-IsSound v Event.retry s =
    add_once-IsSound run_retry false v (λ e. cc) (λ e. cc) (λ e. cc) s
next_view-IsSound v Event.cancel s =
    add_once-IsSound cancel_connect true v (λ e. cc) (λ e. cc) (λ e. cc) s
next_view-IsSound v Event.drain s =
    take_first-IsSound v.phase v.active v.sink v.items s.distinct s.stage
next_view-IsSound v (Event.scan_tick a b c) s =
    ground (arith, add_once-IsSound run_scan false v (λ e. cc) (λ e. cc) (λ e. cc) s)
next_view-IsSound v (Event.retry_tick a b c) s =
    ground (arith, add_once-IsSound run_retry false v (λ e. cc) (λ e. cc) (λ e. cc) s)

next_views-IsSound : (v : View) (es : List Event) → IsSound v → IsSound (next_views v es)
unfolding next_views
next_views-IsSound v [] s = s
next_views-IsSound v (e ∷ es) s = next_views-IsSound (next_view v e) es (next_view-IsSound v e s)

init-IsSound : IsSound (view init)
unfolding init
init-IsSound = omega arith

-- After any calls on a new coordinator each item waits once at most; no teardown item waits before
-- a disconnect is requested; from then on the Wi-Fi teardown is the last item; and when the
-- callbacks are off nothing waits.
pub run-IsSound : (es : List Event) → IsSound (view (run init es))
run-IsSound es = rw (run-view init es init-IsRing) (next_views-IsSound (view init) es init-IsSound)
