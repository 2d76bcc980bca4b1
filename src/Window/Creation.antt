-- ===== src/Window/Creation.antt =====
-- What `create` gives, and to whom `remove` gives the focus.
use mathlib.Core.Bool.{true≢false}
use native.Mathlib.Decide.{dec_lt}
use cyberdeck.Common.{
  ℕ, suc, ◌+◌, ◌≤◌, ◌<◌, ◌≡◌, ◌≢◌, ◌↔◌, refl, sym, ap, length-set, ◌∙◌, inl, inr, ◌⊎◌, true, false,
  List, [], ◌∷◌, arith, length, get_or, get_or_outside, get_or-set_self, get_or-set_ne, ◌==◌,
  if◌then◌else◌,
}
use cyberdeck.Window.{
  absent, active, no_context, ok, overflow, Surface, Manager, Context, blank, is_state, surface_at,
  invalid_slot, max_surfaces, app_slot, state_slot, find, find_app, create, occupy, remove,
  clear_slot, refocus,
}
use cyberdeck.Window.Slots.{
  is_live, live, used, IsFirst, IsFirst-slot-cases, app_slot_unused, state_slot_missing,
}
use cyberdeck.Window.Invariant.{IsValid, find_hit}

app_slot-unused :
    (app i : ℕ) (l : List Surface) → used app l ≡ false → app_slot app i l ≡ invalid_slot
unfolding app_slot
app_slot-unused app i [] h = refl
app_slot-unused app i (s ∷ rest) h = ground (arith, app_slot-unused app (suc i) rest)

-- The loop over the slots finds a free one exactly when not all of them are taken.
no_free_slot :
    (i : ℕ) (l : List Surface)
    → i + length l ≤ invalid_slot
    → state_slot absent i l ≡ invalid_slot
    → live l ≡ length l
unfolding state_slot
no_free_slot i [] h e = refl
no_free_slot i (s ∷ rest) h e = ground (arith, no_free_slot (suc i) rest)

live-le-length : (l : List Surface) → live l ≤ length l
live-le-length [] = omega arith
live-le-length (s ∷ rest) = ground (arith, live-le-length rest)

free_slot :
    (i : ℕ) (l : List Surface) → (state_slot absent i l ≡ invalid_slot) ⊎ (live l < length l)
unfolding state_slot
free_slot i [] = inl refl
free_slot i (s ∷ rest) = ground (arith, free_slot (suc i) rest, live-le-length rest)

-- The slot that `create` takes.
abbrev free : Manager → ℕ
free m = state_slot absent 0 m.surfaces

create_cases :
    (m : Manager) (app : ℕ)
    → IsValid m
    → ((create m app ≡ record { manager = m; status = overflow; context = no_context })
        × ((used app m.surfaces ≡ true) ⊎ (live m.surfaces ≡ max_surfaces)))
      ⊎ ((create m app ≡ record {
        manager = occupy m app (free m);
        status = ok;
        context = record { slot = free m; generation = m.next_generation };
      })
          × (used app m.surfaces ≡ false)
          × (live m.surfaces < max_surfaces)
          × (free m ≢ invalid_slot))
unfolding create find_app
create_cases m app v = ground (
  arith,
  app_slot_unused app 0 m.surfaces,
  app_slot-unused app 0 m.surfaces,
  no_free_slot 0 m.surfaces,
  free_slot 0 m.surfaces,
)

-- On a valid manager `create` succeeds exactly when the application has no surface yet and a slot is free, and
-- otherwise answers `overflow` and changes nothing.
pub create-ok_iff :
    (m : Manager) (app : ℕ)
    → IsValid m
    → (((create m app).status ≡ ok)
        ↔ (used app m.surfaces ≡ false) × (live m.surfaces < max_surfaces))
      × (((create m app).status ≡ ok)
          ⊎ (((create m app).status ≡ overflow) × ((create m app).manager ≡ m)))
create-ok_iff m app v = (
  (λ e. ground (arith, create_cases m app v), λ h. ground (arith, create_cases m app v)),
  ground (arith, create_cases m app v),
)

-- What a new surface is, at a free slot.
record IsFresh (m n : Manager) (app i : ℕ) : Type 0 where
  found : find n (record { slot = i; generation = m.next_generation }) ≡ i
  holds : surface_at n i ≡ record { state = active; app = app; generation = m.next_generation }
  others : (j : ℕ) → j ≢ i → surface_at n j ≡ surface_at m j

occupy-IsFresh :
    (m : Manager) (app i : ℕ) → IsValid m → i < max_surfaces → IsFresh m (occupy m app i) app i
unfolding occupy
occupy-IsFresh m app i v h = record {
  found = find_hit (occupy m app i) c (record {
    at_slot = refl;
    within = h;
    nonempty = ground arith;
    same = ap (λ (s : Surface). s.generation) held;
    is_there = ap is_live held;
  });
  holds = held;
  others = λ j n. get_or-set_ne m.surfaces i j taken blank (λ e. n (sym e));
}
  where
    c : Context
    c = record { slot = i; generation = m.next_generation }

    taken : Surface
    taken = record { state = active; app = app; generation = m.next_generation }

    held : surface_at (occupy m app i) i ≡ taken
    held = get_or-set_self m.surfaces i taken blank (omega arith)

-- A context that `create` gives out on a valid manager names a new active surface of the application, in a slot that
-- was free, and each other slot `j` stays as it is.
pub create-fresh :
    (m : Manager) (app j : ℕ)
    → IsValid m
    → (create m app).status ≡ ok
    → (find (create m app).manager (create m app).context ≡ (create m app).context.slot)
      × ((create m app).context.generation ≡ m.next_generation)
      × (is_live (surface_at m (create m app).context.slot) ≡ false)
      × (surface_at (create m app).manager j ≡ (
          if j == (create m app).context.slot
          then record { state = active; app = app; generation = m.next_generation }
          else surface_at m j))
create-fresh m app j v e = elim (create_cases m app v) [
  | inl (full, _) ↦ absurd (ground arith)
  | inr (made, _, _, n) ↦ rw made (fresh n)
]
  where
    fresh :
        free m ≢ invalid_slot
        → (find (occupy m app (free m)) (record { slot = free m; generation = m.next_generation })
            ≡ free m)
          × (m.next_generation ≡ m.next_generation)
          × (is_live (surface_at m (free m)) ≡ false)
          × (surface_at (occupy m app (free m)) j ≡ (
              if j == free m
              then record { state = active; app = app; generation = m.next_generation }
              else surface_at m j))
    fresh n =
        let first = IsFirst-slot-cases absent m.surfaces in
        let f = occupy-IsFresh m app (free m) v (ground arith) in
        (f.found, refl, ground arith, ground (arith, f.holds, f.others j))

-- The slot in focus is not behind slot `j`, and its surface is active.
abbrev pub FirstInFocus : Manager → ℕ → Type 0
FirstInFocus m j =
    (m.focused_slot ≤ j) × (is_state (surface_at m m.focused_slot).state active ≡ true)

first-le :
    (l : List Surface) (r j : ℕ)
    → IsFirst active l r
    → is_state (get_or l j blank).state active ≡ true
    → r ≤ j
first-le l r j f a = elim (dec_lt j r) [
  | yes p ↦ absurd (true≢false (sym a ∙ f.before j p))
  | no p ↦ omega arith
]

some_active :
    (l : List Surface) (j : ℕ)
    → length l ≡ max_surfaces
    → is_state (get_or l j blank).state active ≡ true
    → state_slot active 0 l ≢ invalid_slot
some_active l j h a e = elim (dec_lt j (length l)) [
  | yes p ↦ true≢false (sym a ∙ state_slot_missing active 0 l j (omega arith) e p)
  | no p ↦
      true≢false
        (sym a ∙ ap (λ s. is_state s.state active) (get_or_outside l j blank (omega arith)))
]

refocus-FirstInFocus :
    (m : Manager) (j : ℕ)
    → length m.surfaces ≡ max_surfaces
    → m.focused_slot ≡ invalid_slot
    → is_state (surface_at m j).state active ≡ true
    → FirstInFocus (refocus m) j
unfolding refocus
refocus-FirstInFocus m j h f a = elim (IsFirst-slot-cases active m.surfaces) [
  | inl e ↦ absurd (some_active m.surfaces j h a e)
  | inr first ↦ ground (arith, first-le m.surfaces _ j first a)
]

remove_form :
    (m : Manager) (c : Context)
    → (remove m c).1 ≡ ok
    → (remove m c).0 ≡ refocus (clear_slot m (find m c))
unfolding remove
remove_form m c e = ground arith

-- On a valid manager with nothing in focus a successful `remove` gives the focus to the first active surface: if `j` is
-- active then the slot in focus is active too and not behind `j`.
pub remove-FirstInFocus :
    (m : Manager) (c : Context) (j : ℕ)
    → IsValid m
    → m.focused_slot ≡ invalid_slot
    → (remove m c).1 ≡ ok
    → is_state (surface_at (remove m c).0 j).state active ≡ true
    → FirstInFocus (remove m c).0 j
remove-FirstInFocus m c j v f e a =
    rw (remove_form m c e)
      (refocus-FirstInFocus (clear_slot m (find m c)) j (cleared.0) (cleared.1) kept)
  where
    cleared :
        (length (clear_slot m (find m c)).surfaces ≡ max_surfaces)
        × ((clear_slot m (find m c)).focused_slot ≡ invalid_slot)
    cleared = unfold clear_slot in (length-set m.surfaces _ blank ∙ v.slots, f)

    kept : is_state (surface_at (clear_slot m (find m c)) j).state active ≡ true
    kept = unfold refocus in ground (arith, remove_form m c e)
