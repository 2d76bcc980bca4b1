-- ===== src/Storage/Gate.antt =====
-- The gate: once it closes no lease is given out, and once a drain is done none is left.
use cyberdeck.Common.{
  ℕ, ◌≤◌, ◌≡◌, ◌≢◌, refl, Bool, true, false, not, ◌&&◌, List, [], ◌∷◌, ◌==◌, arith, sym, ◌∙◌,
}
use cyberdeck.Storage.{
  closed, open_gate, drained, is_gate, Coordinator, no_lease, System, Event, releases, moves,
  closes, reopens, acquire, begin_close, drain_end, reopen, release, release_lease, move_lease,
  record_persistence_failure, step, run, start,
}
use cyberdeck.Storage.Leases.{held_count, IsCounted, run-IsCounted, start-IsCounted}

-- No event gives leases while the gate is not open.
record IsFenced (c d : Coordinator) : Type 0 where
  fewer : d.active ≤ c.active
  gate : (d.state ≡ c.state) × (d.close_owner ≡ c.close_owner)

release_lease-IsFenced :
    (s : System) (i : ℕ) → IsFenced s.coordinator (release_lease s i).coordinator
unfolding release_lease release
release_lease-IsFenced s i = ground arith

move_lease-IsFenced : (s : System) (i j : ℕ) → IsFenced s.coordinator (move_lease s i j).coordinator
unfolding move_lease
move_lease-IsFenced s i j = ground (arith, release_lease-IsFenced s j)

step-closed :
    (s : System) (e : Event)
    → s.coordinator.state ≡ closed
    → s.coordinator.active ≡ 0
    → ((step s e).coordinator.state ≡ closed) × ((step s e).coordinator.active ≡ 0)
unfolding step acquire begin_close drain_end reopen record_persistence_failure
step-closed s (releases i) h a = ground (arith, release_lease-IsFenced s i)
step-closed s (moves i j) h a = ground (arith, move_lease-IsFenced s i j)
step-closed s _ h a = ground arith

run-closed :
    (s : System) (es : List Event)
    → s.coordinator.state ≡ closed
    → s.coordinator.active ≡ 0
    → ((run s es).coordinator.state ≡ closed) × ((run s es).coordinator.active ≡ 0)
unfolding run
run-closed s [] h a = (h, a)
run-closed s (e ∷ es) h a = let (k, b) = step-closed s e h a in run-closed (step s e) es k b

drain_end-closed :
    (c : Coordinator)
    → (drain_end c).1 ≡ drained
    → ((drain_end c).0.state ≡ closed) × ((drain_end c).0.active ≡ 0)
unfolding drain_end
drain_end-closed c h = ground arith

-- Once a `drain` has answered `drained`, no lease is held at any later time and the gate stays
-- closed, whatever calls follow, moves of leases and attempts to reopen included.
pub drain_end-closes :
    (before later : List Event)
    → (drain_end (run start before).coordinator).1 ≡ drained
    → (held_count
          (run
            (record (run start before) {
              coordinator = (drain_end (run start before).coordinator).0;
            })
            later).leases
        ≡ 0)
      × ((run
            (record (run start before) {
              coordinator = (drain_end (run start before).coordinator).0;
            })
            later).coordinator.state
          ≡ closed)
drain_end-closes before later h =
    let s = run start before in
    let t : System = record s { coordinator = (drain_end s.coordinator).0 } in
    let (k, a) = drain_end-closed s.coordinator h in
    let c = run-IsCounted start before start-IsCounted in
    let d : IsCounted t = record {
      counted = unfold drain_end in ground (arith, c.counted);
      numbers = c.numbers;
    } in
    let (state, active) = run-closed t later k a in
    (sym (run-IsCounted t later d).counted ∙ active, state)

-- None of the events reopens the gate for this owner.
unfoldable pub spares : ℕ → List Event → Bool
spares owner [] = true
spares owner (reopens o ∷ es) = not (o == owner) && spares owner es
spares owner (e ∷ es) = spares owner es

-- The gate has been shut by an owner.
record IsShut (owner : ℕ) (c : Coordinator) : Type 0 where
  shut : is_gate c.state open_gate ≡ false
  owned : c.close_owner ≡ owner

step-IsShut :
    (s : System) (e : Event) (owner : ℕ)
    → spares owner (e ∷ []) ≡ true
    → IsShut owner s.coordinator
    → IsShut owner (step s e).coordinator × ((step s e).coordinator.active ≤ s.coordinator.active)
unfolding step acquire begin_close drain_end reopen record_persistence_failure spares
step-IsShut s (releases i) owner h k = ground (arith, release_lease-IsFenced s i)
step-IsShut s (moves i j) owner h k = ground (arith, move_lease-IsFenced s i j)
step-IsShut s (reopens o) owner h k = ground arith
step-IsShut s _ owner h k = ground arith

spares-first :
    (owner : ℕ) (e : Event) (es : List Event)
    → spares owner (e ∷ es) ≡ true
    → (spares owner (e ∷ []) ≡ true) × (spares owner es ≡ true)
unfolding spares
spares-first owner (reopens o) es h = ground arith
spares-first owner _ es h = (refl, h)

run-IsShut :
    (s : System) (es : List Event) (owner : ℕ)
    → spares owner es ≡ true
    → IsShut owner s.coordinator
    → IsShut owner (run s es).coordinator × ((run s es).coordinator.active ≤ s.coordinator.active)
unfolding run
run-IsShut s [] owner h k = (k, omega arith)
run-IsShut s (e ∷ es) owner h k =
    let (first, rest) = spares-first owner e es h in
    let (now, fewer) = step-IsShut s e owner first k in
    let (later, still) = run-IsShut (step s e) es owner rest now in (later, omega arith)

begin_close-IsShut :
    (c : Coordinator)
    → (begin_close c).1 ≢ 0
    → IsShut (begin_close c).1 (begin_close c).0 × ((begin_close c).0.active ≡ c.active)
unfolding begin_close
begin_close-IsShut c h = ground arith

acquire_shut : (c : Coordinator) → is_gate c.state open_gate ≡ false → acquire c ≡ (c, no_lease)
unfolding acquire
acquire_shut c h = ground arith

-- From the moment that `begin_close` gives a token until a `reopen` with that token: no lease is
-- given out, whatever calls come, and there are never more leases held than there were.
pub begin_close-fences :
    (before later : List Event)
    → (begin_close (run start before).coordinator).1 ≢ 0
    → spares (begin_close (run start before).coordinator).1 later ≡ true
    → (acquire (run (step (run start before) closes) later).coordinator
        ≡ ((run (step (run start before) closes) later).coordinator, no_lease))
      × (held_count (run (step (run start before) closes) later).leases
          ≤ held_count (run start before).leases)
unfolding step
begin_close-fences before later h k =
    let s = run start before in
    let (shut, same) = begin_close-IsShut s.coordinator h in
    let t = step s closes in
    let (end, fewer) = run-IsShut t later (begin_close s.coordinator).1 k shut in
    let c = run-IsCounted start before start-IsCounted in
    let d : IsCounted t = record { counted = same ∙ c.counted; numbers = c.numbers } in
    (
      acquire_shut (run t later).coordinator end.shut,
      omega (arith, c.counted, (run-IsCounted t later d).counted, fewer, same),
    )

-- The count that a drain waits for is the number of leases that are held, however they were
-- acquired, moved and released.
pub run-start-counted :
    (es : List Event) → (run start es).coordinator.active ≡ held_count (run start es).leases
run-start-counted es = (run-IsCounted start es start-IsCounted).counted
