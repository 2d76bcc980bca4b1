-- ===== src/Window/Invariant.antt =====
-- The invariant of the window manager, and that every call keeps it.
use cyberdeck.Common.{
  ℕ, suc, ◌+◌, ◌%◌, ◌^◌, ◌≤◌, ◌<◌, ◌≡◌, ◌≢◌, refl, sym, ◌∙◌, leb, ◌⊎◌, inl, inr, Bool, true, false,
  ◌&&◌, ◌||◌, arith, length, length-set, set, get_or-set_self, get_or-set_ne, ◌==◌, if◌then◌else◌,
  Bool-cases,
}
use cyberdeck.Window.{
  SurfaceState, absent, active, hidden, tearing_down, Surface, Manager, Context, max_surfaces,
  max_notifications, invalid_slot, blank, is_state, surface_at, empty, find, find_app, init,
  state_slot, bump_generation, occupy, create, set_state, drop_focus, begin_teardown, clear_slot,
  refocus, remove, focus, activate, hide,
}
use cyberdeck.Window.Slots.{
  is_live, live, used, AppsDistinct, GenerationsBelow, IsFirst-slot-cases, app_slot_unused,
  live-set, GenerationsBelow-set, GenerationsBelow-mono, GenerationsBelow-get,
  AppsDistinct-set_unused, AppsDistinct-set_same,
}

-- The slot in focus holds an active surface.
abbrev pub HasFocus : Manager → ℕ → Type 0
HasFocus m i =
    (i ≡ invalid_slot) ⊎ ((i < max_surfaces) × (is_state (surface_at m i).state active ≡ true))

pub record IsValid (m : Manager) : Type 0 where
  pub slots : length m.surfaces ≡ max_surfaces
  pub counted : m.count ≡ live m.surfaces
  pub apps : AppsDistinct m.surfaces
  pub generations : GenerationsBelow m.next_generation m.surfaces
  pub started : 0 < m.next_generation
  pub in_focus : HasFocus m m.focused_slot
  pub cells : length m.notifications ≡ max_notifications
  pub head_fits : m.notification_head < max_notifications
  pub count_fits : m.notification_count ≤ max_notifications

pub init-IsValid : IsValid init
unfolding init
init-IsValid = record {
  slots = refl;
  counted = refl;
  apps = ground arith;
  generations = omega arith;
  started = omega arith;
  in_focus = inl refl;
  cells = refl;
  head_fits = omega arith;
  count_fits = omega arith;
}

pub record Finds (m : Manager) (c : Context) (i : ℕ) : Type 0 where
  pub at_slot : i ≡ c.slot
  pub within : i < max_surfaces
  pub nonempty : empty c ≡ false
  pub same : (surface_at m i).generation ≡ c.generation
  pub is_there : is_live (surface_at m i) ≡ true

pub find_hit : (m : Manager) (c : Context) → Finds m c c.slot → find m c ≡ c.slot
unfolding find
find_hit m c f = ground arith

abbrev matching : Manager → Context → Bool
matching m c = ((surface_at m c.slot).generation == c.generation) && is_live (surface_at m c.slot)

find_out :
    (m : Manager) (c : Context)
    → (empty c || leb max_surfaces c.slot) ≡ true
    → find m c ≡ invalid_slot
unfolding find
find_out m c e = rw e

find_other :
    (m : Manager) (c : Context)
    → (empty c || leb max_surfaces c.slot) ≡ false
    → matching m c ≡ false
    → find m c ≡ invalid_slot
unfolding find
find_other m c e p = rw (e, p)

-- A context is found at its slot, or not at all.
pub find-cases : (m : Manager) (c : Context) → (find m c ≡ invalid_slot) ⊎ Finds m c (find m c)
find-cases m c = elim (Bool-cases (empty c || leb max_surfaces c.slot)) [
  | inl e ↦ inl (find_out m c e)
  | inr e ↦ elim (Bool-cases (matching m c)) [
    | inl p ↦ let f : Finds m c c.slot = ground arith in inr (rw (find_hit m c f) f)
    | inr p ↦ inl (find_other m c e p)
  ]
]

pub bump_generation_lem : (g : ℕ) → suc g < 2 ^ 64 → bump_generation g ≡ suc g
unfolding bump_generation
bump_generation_lem g h = let small : (g + 1) % 2 ^ 64 ≡ suc g = omega arith in ground arith

-- A live surface changes to another state that is not `absent`.
set_state-IsValid :
    (m : Manager) (i : ℕ) (s : SurfaceState)
    → IsValid m
    → i < max_surfaces
    → is_live (surface_at m i) ≡ true
    → is_state s absent ≡ false
    → HasFocus (set_state m i s) m.focused_slot
    → IsValid (set_state m i s)
unfolding set_state
set_state-IsValid m i s v h a b f = record {
  slots = length-set m.surfaces i _ ∙ v.slots;
  counted = ground (arith, live-set m.surfaces i (record (surface_at m i) { state = s }));
  apps = AppsDistinct-set_same m.surfaces i _ (omega arith) v.apps a refl;
  generations =
      GenerationsBelow-set _ m.surfaces i _ v.generations
        (GenerationsBelow-get _ m.surfaces i v.generations v.started);
  started = v.started;
  in_focus = f;
  cells = v.cells;
  head_fits = v.head_fits;
  count_fits = v.count_fits;
}

-- A write to another slot leaves the focus where it is.
HasFocus-set :
    (m : Manager) (i j : ℕ) (s : Surface)
    → j ≢ i
    → HasFocus m j
    → HasFocus (record m { surfaces = set m.surfaces i s }) j
HasFocus-set m i j s n f = ground (arith, get_or-set_ne m.surfaces i j s blank (λ e. n (sym e)))

-- The focus without the slot `i`.
abbrev unfocused : Manager → ℕ → Manager
unfocused m i = record m {
  focused_slot = if m.focused_slot == i then invalid_slot else m.focused_slot;
}

unfocused-IsValid : (m : Manager) (i : ℕ) → IsValid m → IsValid (unfocused m i)
unfocused-IsValid m i v = record {
  slots = v.slots;
  counted = v.counted;
  apps = v.apps;
  generations = v.generations;
  started = v.started;
  in_focus = ground arith;
  cells = v.cells;
  head_fits = v.head_fits;
  count_fits = v.count_fits;
}

drop_focus-set_state :
    (m : Manager) (i : ℕ) (s : SurfaceState)
    → drop_focus (set_state m i s) i ≡ set_state (unfocused m i) i s
unfolding set_state
drop_focus-set_state m i s = ground arith

left-HasFocus :
    (m : Manager) (i : ℕ) (s : SurfaceState)
    → IsValid m
    → HasFocus (set_state (unfocused m i) i s) (unfocused m i).focused_slot
unfolding set_state
left-HasFocus m i s v =
    ground (arith, HasFocus-set m i m.focused_slot (record (surface_at m i) { state = s }))

activated-HasFocus :
    (m : Manager) (i : ℕ)
    → IsValid m
    → i < max_surfaces
    → HasFocus (set_state m i active) m.focused_slot
unfolding set_state
activated-HasFocus m i v h =
    let s : Surface = record (surface_at m i) { state = active } in
    ground (arith, HasFocus-set m i m.focused_slot s, get_or-set_self m.surfaces i s blank)

-- A live surface that leaves the focus may take any state but `absent`.
leave-IsValid :
    (m : Manager) (i : ℕ) (s : SurfaceState)
    → IsValid m
    → i < max_surfaces
    → is_live (surface_at m i) ≡ true
    → is_state s absent ≡ false
    → IsValid (drop_focus (set_state m i s) i)
leave-IsValid m i s v h a b =
    rw (drop_focus-set_state m i s) (
      set_state-IsValid (unfocused m i) i s (unfocused-IsValid m i v) h a b (left-HasFocus m i s v))

pub begin_teardown-IsValid :
    (m : Manager) (c : Context) → IsValid m → IsValid (begin_teardown m c).0
unfolding begin_teardown
begin_teardown-IsValid m c v =
    ground (arith, find-cases m c, leave-IsValid m (find m c) tearing_down v)

pub hide-IsValid : (m : Manager) (c : Context) → IsValid m → IsValid (hide m c).0
unfolding hide
hide-IsValid m c v = ground (arith, find-cases m c, leave-IsValid m (find m c) hidden v)

pub focus-IsValid : (m : Manager) (c : Context) → IsValid m → IsValid (focus m c).0
unfolding focus
focus-IsValid m c v = ground (arith, find-cases m c)

pub activate-IsValid : (m : Manager) (c : Context) → IsValid m → IsValid (activate m c).0
unfolding activate
activate-IsValid m c v = ground (
  arith,
  find-cases m c,
  set_state-IsValid m (find m c) active v,
  activated-HasFocus m (find m c) v,
  focus-IsValid (set_state m (find m c) active) c,
)

clear_slot-IsValid :
    (m : Manager) (i : ℕ)
    → IsValid m
    → i < max_surfaces
    → is_live (surface_at m i) ≡ true
    → m.focused_slot ≢ i
    → IsValid (clear_slot m i)
unfolding clear_slot
clear_slot-IsValid m i v h a f = record {
  slots = length-set m.surfaces i blank ∙ v.slots;
  counted = ground (arith, live-set m.surfaces i blank);
  apps = AppsDistinct-set_unused m.surfaces i blank v.apps refl;
  generations = GenerationsBelow-set _ m.surfaces i blank v.generations v.started;
  started = v.started;
  in_focus = HasFocus-set m i m.focused_slot blank f v.in_focus;
  cells = v.cells;
  head_fits = v.head_fits;
  count_fits = v.count_fits;
}

refocus-IsValid : (m : Manager) → IsValid m → IsValid (refocus m)
unfolding refocus
refocus-IsValid m v = record {
  slots = ground arith;
  counted = ground arith;
  apps = ground arith;
  generations = ground arith;
  started = ground arith;
  in_focus = focused_first;
  cells = ground arith;
  head_fits = ground arith;
  count_fits = ground arith;
}
  where
    focused_first : HasFocus (refocus m) (refocus m).focused_slot
    focused_first = ground (arith, IsFirst-slot-cases active m.surfaces)

pub remove-IsValid : (m : Manager) (c : Context) → IsValid m → IsValid (remove m c).0
unfolding remove
remove-IsValid m c v = ground (
  arith,
  find-cases m c,
  clear_slot-IsValid m (find m c) v,
  refocus-IsValid (clear_slot m (find m c)),
)

-- The free slot takes an application that no surface has.
occupy-IsValid :
    (m : Manager) (app i : ℕ)
    → IsValid m
    → suc m.next_generation < 2 ^ 64
    → i < max_surfaces
    → is_live (surface_at m i) ≡ false
    → used app m.surfaces ≡ false
    → IsValid (occupy m app i)
unfolding occupy
occupy-IsValid m app i v g h a u = record {
  slots = length-set m.surfaces i _ ∙ v.slots;
  counted = ground (arith, live-set m.surfaces i taken);
  apps = AppsDistinct-set_unused m.surfaces i taken v.apps u;
  generations = rw (bump_generation_lem m.next_generation g) (
      GenerationsBelow-set _ m.surfaces i taken
        (GenerationsBelow-mono _ _ m.surfaces v.generations (omega arith)) (omega arith));
  started = omega (arith, bump_generation_lem m.next_generation g);
  in_focus = in_focus;
  cells = v.cells;
  head_fits = v.head_fits;
  count_fits = v.count_fits;
}
  where
    taken : Surface
    taken = record { state = active; app = app; generation = m.next_generation }

    in_focus : HasFocus (occupy m app i) (occupy m app i).focused_slot
    in_focus =
        ground
          (arith, get_or-set_self m.surfaces i taken blank, HasFocus-set m i m.focused_slot taken)

pub create-IsValid :
    (m : Manager) (app : ℕ)
    → IsValid m
    → suc m.next_generation < 2 ^ 64
    → IsValid (create m app).manager
unfolding create find_app
create-IsValid m app v g =
    let i = state_slot absent 0 m.surfaces in
    ground (
      arith,
      IsFirst-slot-cases absent m.surfaces,
      app_slot_unused app 0 m.surfaces,
      occupy-IsValid m app i v g,
    )
