-- ===== src/Window/Runs.antt =====
-- Sequences of calls of the window manager.
use cyberdeck.Common.{
  refl, inl, ◌∙◌, ℕ, suc, ◌+◌, ◌^◌, ◌≤◌, ◌<◌, List, [], ◌∷◌, arith, length, length-set,
}
use cyberdeck.Window.{
  Manager, Context, max_notifications, find, create, occupy, begin_teardown, remove, clear_slot,
  refocus, focus, activate, hide, set_state, init,
}
use cyberdeck.Window.Calls.{
  Call, creates, begins_teardown, removes, activates, hides, focuses, notifies, pops, resets, step,
  run, notify, push_notification, pop_notification, reset,
}
use cyberdeck.Window.Invariant.{
  IsValid, init-IsValid, bump_generation_lem, create-IsValid, begin_teardown-IsValid,
  remove-IsValid, activate-IsValid, hide-IsValid, focus-IsValid,
}

push_notification-IsValid :
    (m : Manager) (i : ℕ) (t : List ℕ)
    → IsValid m
    → m.notification_count < max_notifications
    → IsValid (push_notification m i t)
unfolding push_notification
push_notification-IsValid m i t v h = record {
  slots = v.slots;
  counted = v.counted;
  apps = v.apps;
  generations = v.generations;
  started = v.started;
  in_focus = v.in_focus;
  cells = length-set m.notifications _ _ ∙ v.cells;
  head_fits = v.head_fits;
  count_fits = omega arith;
}

notify-IsValid : (m : Manager) (c : Context) (t : List ℕ) → IsValid m → IsValid (notify m c t).0
unfolding notify
notify-IsValid m c t v = ground (arith, push_notification-IsValid m (find m c) t v)

pop_notification-IsValid : (m : Manager) → IsValid m → IsValid (pop_notification m).0
unfolding pop_notification
pop_notification-IsValid m v = ground arith

reset-IsValid : (m : Manager) → IsValid m → IsValid (reset m)
unfolding reset
reset-IsValid m v = record {
  slots = refl;
  counted = refl;
  apps = ground arith;
  generations = ground arith;
  started = v.started;
  in_focus = inl refl;
  cells = refl;
  head_fits = omega arith;
  count_fits = omega arith;
}

-- Every call keeps the manager valid, as long as the generations do not come round.
pub step-IsValid :
    (m : Manager) (c : Call) → IsValid m → suc m.next_generation < 2 ^ 64 → IsValid (step m c)
unfolding step
step-IsValid m (creates app) v g = create-IsValid m app v g
step-IsValid m (begins_teardown c) v g = begin_teardown-IsValid m c v
step-IsValid m (removes c) v g = remove-IsValid m c v
step-IsValid m (activates c) v g = activate-IsValid m c v
step-IsValid m (hides c) v g = hide-IsValid m c v
step-IsValid m (focuses c) v g = focus-IsValid m c v
step-IsValid m (notifies c t) v g = notify-IsValid m c t v
step-IsValid m pops v g = pop_notification-IsValid m v
step-IsValid m resets v g = reset-IsValid m v

-- A call uses up one generation at most.
pub step-next_generation :
    (m : Manager) (c : Call)
    → suc m.next_generation < 2 ^ 64
    → (m.next_generation ≤ (step m c).next_generation)
      × ((step m c).next_generation ≤ suc m.next_generation)
unfolding step create occupy begin_teardown remove clear_slot refocus activate hide focus set_state
    notify push_notification pop_notification reset
step-next_generation m (creates app) g = ground (arith, bump_generation_lem m.next_generation g)
step-next_generation m resets g = omega arith
step-next_generation m _ g = ground arith

pub run-IsValid :
    (m : Manager) (cs : List Call)
    → IsValid m
    → m.next_generation + length cs < 2 ^ 64
    → IsValid (run m cs)
unfolding run
run-IsValid m [] v g = v
run-IsValid m (c ∷ cs) v g =
    let h : suc m.next_generation < 2 ^ 64 = omega arith in
    run-IsValid (step m c) cs (step-IsValid m c v h) (omega (arith, step-next_generation m c h))

-- After any calls on a new manager, fewer than 2 ^ 64 - 1: no application has two surfaces, the
-- count is that of the taken slots, the slot in focus holds an active surface, every generation in
-- use is below the next one, and the ring of notifications is in bounds.
pub run-init-IsValid : (cs : List Call) → suc (length cs) < 2 ^ 64 → IsValid (run init cs)
run-init-IsValid cs h = run-IsValid init cs init-IsValid (first_generation cs h)
  where
    first_generation :
        (cs : List Call) → suc (length cs) < 2 ^ 64 → init.next_generation + length cs < 2 ^ 64
    first_generation cs h = unfold init in omega arith

pub run-next_generation :
    (m : Manager) (cs : List Call)
    → m.next_generation + length cs < 2 ^ 64
    → (run m cs).next_generation ≤ m.next_generation + length cs
unfolding run
run-next_generation m [] g = omega arith
run-next_generation m (c ∷ cs) g =
    let (low, high) = step-next_generation m c (omega arith) in
    omega (arith, run-next_generation (step m c) cs (omega arith))

pub run-init-next_generation :
    (cs : List Call) → suc (length cs) < 2 ^ 64 → (run init cs).next_generation ≤ suc (length cs)
run-init-next_generation cs h =
    unfold init in omega (arith, run-next_generation init cs (omega arith))
