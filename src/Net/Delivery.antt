-- ===== src/Net/Delivery.antt =====
-- What the worker receives: it calls `drain_pending` again and again.
use cyberdeck.Common.{
  ℕ, zero, suc, ◌≡◌, ◌≢◌, refl, subst, ap, ap₂, ◌∙◌, sym, true, false, Option, ◌⊎◌, inl, inr, List,
  [], ◌∷◌, ◌++◌, map, arith, get_or, length,
}
use cyberdeck.Common.Ring.{window}
use cyberdeck.Net.{
  Phase, teardown_done, Notice, Item, blank, teardown_wifi, Sink, DrainResult, Coordinator,
  queue_capacity, init,
}
use cyberdeck.Net.Calls.{dispatch, drain_pending, run, Event}
use cyberdeck.Net.Queue.{pending, IsRing, init-IsRing}
use cyberdeck.Net.Spec.{View, view, after, delivered, notified, take_first}
use cyberdeck.Net.Refinement.{popped, drain_pending-view, drain_pending-IsRing, run-IsRing}
use cyberdeck.Net.Invariant.{
  Stage, EndsInWifi-tail, IsSound, wifi_last, next_view-IsSound, run-IsSound,
}
use cyberdeck.Net.Items.{AreDistinct, EndsInWifi}

-- The state, the results and the sink's calls after `n` calls.
pub drain_state : ℕ → Coordinator → Coordinator
drain_state zero c = c
drain_state (suc n) c = drain_state n (drain_pending c).state

pub drain_results : ℕ → Coordinator → List DrainResult
drain_results zero c = []
drain_results (suc n) c = (drain_pending c).result ∷ drain_results n (drain_pending c).state

pub drain_calls : ℕ → Coordinator → List (Sink × Notice)
drain_calls zero c = []
drain_calls (suc n) c = (drain_pending c).calls ++ drain_calls n (drain_pending c).state

dispatch-delivered :
    (x : Item) (c : Coordinator)
    → ((dispatch x c).result ≡ delivered x) × ((dispatch x c).calls ≡ notified c.notify x)
unfolding dispatch
dispatch-delivered blank c = ground arith
dispatch-delivered _ c = ground arith

first_cell :
    (c : Coordinator) (n : ℕ) (x : Item) (xs : List Item)
    → c.count ≡ n
    → window queue_capacity c.queue blank c.head n ≡ x ∷ xs
    → (get_or c.queue c.head blank ≡ x) × (c.count ≢ 0)
first_cell c zero x xs e h = cc
first_cell c (suc n) x xs e h = (cc, ground arith)

-- The first waiting item is what `drain_pending` returns.
drain-front :
    (c : Coordinator) (x : Item) (xs : List Item)
    → c.callbacks_active ≡ true
    → pending c ≡ x ∷ xs
    → ((drain_pending c).result ≡ delivered x) × ((drain_pending c).calls ≡ notified c.notify x)
unfolding drain_pending
drain-front c x xs a h =
    let (cell, some_left) = first_cell c c.count x xs refl h in
    ground (arith, dispatch-delivered (get_or c.queue c.head blank) (popped c))

-- Every call that `n` further drains make of the sink.
abbrev pub all_notified : Option Sink → List Item → List (Sink × Notice)
all_notified s [] = []
all_notified s (x ∷ xs) = notified s x ++ all_notified s xs

-- A state that the worker may start from.
pub record IsLive (c : Coordinator) : Type 0 where
  pub ring : IsRing c
  pub sound : IsSound (view c)
  pub active : c.callbacks_active ≡ true

view-drained :
    (c : Coordinator) (x : Item) (xs : List Item)
    → IsLive c
    → pending c ≡ x ∷ xs
    → view (drain_pending c).state
      ≡ after x (record { phase = c.phase; active = true; sink = c.notify; items = xs })
view-drained c x xs l h = drain_pending-view c l.ring ∙ taken (pending c) h
  where
    taken :
        (ys : List Item)
        → ys ≡ x ∷ xs
        → take_first (view c) ys
          ≡ after x (record { phase = c.phase; active = true; sink = c.notify; items = xs })
    taken ys e = rw e (ground arith)

wifi_head :
    (p : Phase) (xs : List Item)
    → AreDistinct (teardown_wifi ∷ xs)
    → Stage p true (teardown_wifi ∷ xs)
    → xs ≡ []
wifi_head Phase.teardown_in_progress xs d s = wifi_last xs d s
wifi_head Phase.teardown_done xs d s = absurd s
wifi_head Phase.offline xs d s = absurd (omega arith)
wifi_head _ xs d s = absurd (omega arith)

after_other : (x : Item) (v : View) → x ≢ teardown_wifi → after x v ≡ v
after_other teardown_wifi v h = absurd (h refl)
after_other _ v h = refl

item-cases : (x : Item) → (x ≡ teardown_wifi) ⊎ (x ≢ teardown_wifi)
item-cases teardown_wifi = inl refl
item-cases _ = inr (λ e. cc)

-- What the drains of a list of waiting items give.
abbrev pub Delivers : List Item → Coordinator → Type 0
Delivers xs c =
    (drain_results (length xs) c ≡ map delivered xs)
    × (drain_calls (length xs) c ≡ all_notified c.notify xs)
    × (pending (drain_state (length xs) c) ≡ [])
    × (EndsInWifi xs
        → ((drain_state (length xs) c).phase ≡ teardown_done)
          × ((drain_state (length xs) c).callbacks_active ≡ false))

deliver_wifi :
    (xs : List Item) (c : Coordinator)
    → IsLive c
    → pending c ≡ teardown_wifi ∷ xs
    → Delivers (teardown_wifi ∷ xs) c
unfolding drain_results drain_calls drain_state
deliver_wifi xs c l e =
    let none_left =
      wifi_head c.phase xs (rw e at l.sound.distinct) (rw (l.active, e) at l.sound.stage) in
    let (result, calls) = drain-front c teardown_wifi xs l.active e in
    let state = view-drained c teardown_wifi xs l e in
    rw none_left (
      ap (λ r. r ∷ []) result,
      ap (λ s. s ++ []) calls,
      ap (λ (v : View). v.items) state ∙ none_left,
      λ _. (ap (λ (v : View). v.phase) state, ap (λ (v : View). v.active) state),
    )

deliver_other :
    (x : Item) (xs : List Item) (c : Coordinator)
    → x ≢ teardown_wifi
    → IsLive c
    → pending c ≡ x ∷ xs
    → (IsLive (drain_pending c).state
        → pending (drain_pending c).state ≡ xs
        → Delivers xs (drain_pending c).state)
    → Delivers (x ∷ xs) c
unfolding drain_results drain_calls drain_state
deliver_other x xs c n l e rest =
    let (result, calls) = drain-front c x xs l.active e in
    let state = view-drained c x xs l e ∙ after_other x _ n in
    let live : IsLive (drain_pending c).state = record {
      ring = drain_pending-IsRing c l.ring;
      sound = rw (drain_pending-view c l.ring) (next_view-IsSound (view c) Event.drain l.sound);
      active = ap (λ (v : View). v.active) state;
    } in
    let (results, sink_calls, empty, ends) = rest live (ap (λ (v : View). v.items) state) in
    let same_sink = ap (λ (v : View). all_notified v.sink xs) state in
    (
      ap₂ ◌∷◌ result results,
      ap₂ ◌++◌ calls (sink_calls ∙ same_sink),
      empty,
      λ h. ends (EndsInWifi-tail x xs n h),
    )

-- From a live state as many drains as items wait give each item once, in order; they tell the sink
-- of each notice among them; and if the Wi-Fi teardown was requested they end with it.
pub deliver_all : (xs : List Item) (c : Coordinator) → IsLive c → pending c ≡ xs → Delivers xs c
unfolding drain_results drain_calls drain_state
deliver_all [] c l e = (refl, refl, e, λ h. absurd h)
deliver_all (x ∷ xs) c l e = elim (item-cases x) [
  | inl w ↦ subst (λ y. Delivers (y ∷ xs) c) (sym w) (deliver_wifi xs c l (rw w at e))
  | inr n ↦ deliver_other x xs c n l e (deliver_all xs (drain_pending c).state)
]

pub run-IsLive : (es : List Event) → (run init es).callbacks_active ≡ true → IsLive (run init es)
run-IsLive es a = record {
  ring = run-IsRing init es init-IsRing;
  sound = run-IsSound es;
  active = a;
}

-- After any calls on a new coordinator whose callbacks are on, draining as often as items wait
-- returns each of them once, in the order in which they entered, calls the sink once for each
-- notice among them, and leaves nothing.
pub drain-pending_items :
    (es : List Event)
    → (run init es).callbacks_active ≡ true
    → (drain_results (length (pending (run init es))) (run init es)
        ≡ map delivered (pending (run init es)))
      × (drain_calls (length (pending (run init es))) (run init es)
          ≡ all_notified (run init es).notify (pending (run init es)))
      × (pending (drain_state (length (pending (run init es))) (run init es)) ≡ [])
drain-pending_items es a =
    let (results, calls, empty, ends) = deliver_all _ (run init es) (run-IsLive es a) refl in
    (results, calls, empty)
