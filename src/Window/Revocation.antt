-- ===== src/Window/Revocation.antt =====
-- Contexts are capabilities: once the teardown of a surface has begun, no calls make its context
-- usable again.
use cyberdeck.Common.{
  ℕ, zero, suc, ◌+◌, ◌^◌, ◌<◌, ◌≡◌, refl, Bool, true, false, not, ◌&&◌, List, [], ◌∷◌, arith,
  length, get_or, set, get_or-replicate, get_or-set_self, ◌==◌,
}
use cyberdeck.Window.{
  SurfaceState, absent, active, hidden, tearing_down, ok, expired_context, Surface, Manager,
  Context, blank, is_state, surface_at, empty, max_surfaces, state_slot, find, create, occupy,
  begin_teardown, remove, clear_slot, refocus, focus, activate, hide, set_state, validate, init,
}
use cyberdeck.Window.Calls.{
  Call, creates, begins_teardown, removes, activates, hides, focuses, notifies, pops, resets, step,
  run, notify, push_notification, pop_notification, reset,
}
use cyberdeck.Window.Slots.{is_live, GenerationsBelow-get}
use cyberdeck.Window.Invariant.{IsValid, find-cases}
use cyberdeck.Window.Runs.{step-next_generation, run-init-IsValid, run-init-next_generation}

-- A surface that a context of this generation could use.
abbrev pub usable : Surface → ℕ → Bool
usable s g = (s.generation == g) && is_live s && not (is_state s.state tearing_down)

-- The context has been revoked: its slot is of no use to it, and its generation is an old one.
pub record IsRevoked (m : Manager) (c : Context) : Type 0 where
  pub shut : usable (surface_at m c.slot) c.generation ≡ false
  pub old : c.generation < m.next_generation

implied : (b a : Bool) → (b && not a) ≡ false → a ≡ false → b ≡ false
implied true true h u = u
implied true false h u = h
implied false a h u = refl

-- A write that adds no usable surface.
usable-set :
    (l : List Surface) (i j g : ℕ) (s : Surface)
    → (usable s g && not (usable (get_or l i blank) g)) ≡ false
    → usable (get_or l j blank) g ≡ false
    → usable (get_or (set l i s) j blank) g ≡ false
usable-set [] i j g s h u = u
usable-set (x ∷ l) zero zero g s h u = implied (usable s g) (usable x g) h u
usable-set (x ∷ l) zero (suc j) g s h u = u
usable-set (x ∷ l) (suc i) zero g s h u = u
usable-set (x ∷ l) (suc i) (suc j) g s h u = usable-set l i j g s h u

-- A revoked context is refused as expired.
pub validate_revoked :
    (m : Manager) (c : Context) → IsRevoked m c → empty c ≡ false → validate m c ≡ expired_context
unfolding validate
validate_revoked m c r e = ground (arith, find-cases m c)

-- Another state of a surface in use adds none, and neither does the start of a teardown.
usable_other :
    (s : Surface) (new : SurfaceState) (g : ℕ)
    → is_live s ≡ true
    → is_state s.state tearing_down ≡ false
    → (usable (record s { state = new }) g && not (usable s g)) ≡ false
usable_other s new g a t = ground arith

usable_closing : (s : Surface) (g : ℕ) → usable (record s { state = tearing_down }) g ≡ false
usable_closing s g = ground arith

set_state-shut :
    (m : Manager) (i j g : ℕ) (new : SurfaceState)
    → is_live (surface_at m i) ≡ true
    → is_state (surface_at m i).state tearing_down ≡ false
    → usable (surface_at m j) g ≡ false
    → usable (surface_at (set_state m i new) j) g ≡ false
unfolding set_state
set_state-shut m i j g new a t u =
    usable-set m.surfaces i j g _ (usable_other (surface_at m i) new g a t) u

closing-shut :
    (m : Manager) (i j g : ℕ)
    → usable (surface_at m j) g ≡ false
    → usable (surface_at (set_state m i tearing_down) j) g ≡ false
unfolding set_state
closing-shut m i j g u = usable-set m.surfaces i j g _ (rw (usable_closing (surface_at m i) g)) u

clear_slot-shut :
    (m : Manager) (i j g : ℕ)
    → usable (surface_at m j) g ≡ false
    → usable (surface_at (clear_slot m i) j) g ≡ false
unfolding clear_slot
clear_slot-shut m i j g u = usable-set m.surfaces i j g blank (ground arith) u

occupy-shut :
    (m : Manager) (app i j g : ℕ)
    → g < m.next_generation
    → usable (surface_at m j) g ≡ false
    → usable (surface_at (occupy m app i) j) g ≡ false
unfolding occupy
occupy-shut m app i j g o u = usable-set m.surfaces i j g _ (ground arith) u

set_state_generation :
    (m : Manager) (i : ℕ) (s : SurfaceState) → (set_state m i s).next_generation ≡ m.next_generation
unfolding set_state
set_state_generation m i s = refl

step-shut :
    (m : Manager) (c : Call) (j g : ℕ)
    → g < m.next_generation
    → usable (surface_at m j) g ≡ false
    → usable (surface_at (step m c) j) g ≡ false
unfolding step
step-shut m (creates app) j g o u =
    unfold create in ground (arith, occupy-shut m app (state_slot absent 0 m.surfaces) j g o u)
step-shut m (begins_teardown c) j g o u =
    unfold begin_teardown in ground (arith, closing-shut m (find m c) j g u)
step-shut m (removes c) j g o u =
    unfold remove refocus in ground (arith, clear_slot-shut m (find m c) j g u)
step-shut m (activates c) j g o u =
    unfold activate focus in ground (arith, find-cases m c, set_state-shut m (find m c) j g active)
step-shut m (hides c) j g o u =
    unfold hide in ground (arith, find-cases m c, set_state-shut m (find m c) j g hidden)
step-shut m (focuses c) j g o u = unfold focus in ground arith
step-shut m (notifies c t) j g o u = unfold notify push_notification in ground arith
step-shut m pops j g o u = unfold pop_notification in ground arith
step-shut m resets j g o u =
    unfold reset in rw (get_or-replicate max_surfaces j blank) (ground arith)

run-IsRevoked :
    (m : Manager) (cs : List Call) (c : Context)
    → m.next_generation + length cs < 2 ^ 64
    → IsRevoked m c
    → IsRevoked (run m cs) c
unfolding run
run-IsRevoked m [] c g r = r
run-IsRevoked m (k ∷ cs) c g r =
    let (low, high) = step-next_generation m k (omega arith) in
    run-IsRevoked (step m k) cs c (omega arith)
      (record { shut = step-shut m k c.slot c.generation r.old r.shut; old = omega arith })

closed_slot :
    (m : Manager) (i g : ℕ)
    → i < length m.surfaces
    → usable (surface_at (set_state m i tearing_down) i) g ≡ false
unfolding set_state
closed_slot m i g h =
    let s : Surface = record (surface_at m i) { state = tearing_down } in
    rw (get_or-set_self m.surfaces i s blank h) (usable_closing (surface_at m i) g)

-- The context of a surface whose teardown begins is revoked at once.
begin_teardown-IsRevoked :
    (m : Manager) (c : Context)
    → IsValid m
    → (begin_teardown m c).1 ≡ ok
    → IsRevoked (begin_teardown m c).0 c × (empty c ≡ false)
unfolding begin_teardown
begin_teardown-IsRevoked m c v e = ground (
  arith,
  find-cases m c,
  closed_slot m (find m c) c.generation,
  GenerationsBelow-get m.next_generation m.surfaces (find m c) v.generations v.started,
  set_state_generation m (find m c) tearing_down,
)

begin_teardown_generation :
    (m : Manager) (c : Context) → (begin_teardown m c).0.next_generation ≡ m.next_generation
unfolding begin_teardown set_state
begin_teardown_generation m c = ground arith

-- Once the teardown of a context's surface has begun on a manager in use, the context is answered
-- as expired after any further calls, the reuse of its slot and a reset included, while fewer than
-- 2 ^ 64 generations have been given out.
pub begin_teardown-revokes :
    (before later : List Call) (c : Context)
    → length before + length later + 2 < 2 ^ 64
    → (begin_teardown (run init before) c).1 ≡ ok
    → validate (run (begin_teardown (run init before) c).0 later) c ≡ expired_context
begin_teardown-revokes before later c g e =
    let m = run init before in
    let (revoked, nonempty) =
      begin_teardown-IsRevoked m c (run-init-IsValid before (omega arith)) e in
    let bound = begin_teardown_generation m c in
    let n = (begin_teardown m c).0 in
    validate_revoked (run n later) c
      (run-IsRevoked n later c (omega (arith, bound, run-init-next_generation before (omega arith)))
        revoked)
      nonempty
