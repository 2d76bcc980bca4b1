-- ===== src/Window.antt =====
-- components/cyberdeck/src/apps/runtime/cyberdeck_window_manager.cpp and its header: surfaces in
-- eight slots, contexts that name a slot and a generation, the focus and a queue of notifications.
pub mod Calls
pub mod Slots
pub mod Invariant
pub mod Runs
pub mod Revocation
pub mod Creation
pub mod Notices
mod Tests
use cyberdeck.Common.{
  ℕ, zero, suc, ◌+◌, ◌-◌, ◌%◌, ◌^◌, min, Bool, true, false, not, ◌&&◌, ◌||◌, List, [], ◌∷◌, ◌++◌,
  length, get_or, set, take, drop, replicate, ltb, leb, ◌==◌, if◌then◌else◌,
}
use cyberdeck.Common.Ring.{next}

pub data SurfaceState : Type 0 where
  absent creating active hidden tearing_down failed : SurfaceState

pub data ViewStatus : Type 0 where
  ok invalid_context expired_context not_focused overflow no_surface : ViewStatus

-- `view_context`; the default one is empty.
pub record Context : Type 0 where
  pub slot : ℕ
  pub generation : ℕ

pub record Notification : Type 0 where
  pub sequence : ℕ
  pub surface : ℕ
  pub text : List ℕ

pub record Surface : Type 0 where
  pub state : SurfaceState
  pub app : ℕ
  pub generation : ℕ

pub record Manager : Type 0 where
  pub surfaces : List Surface
  pub notifications : List Notification
  pub next_generation : ℕ
  pub next_sequence : ℕ
  pub count : ℕ
  pub notification_count : ℕ
  pub notification_head : ℕ
  pub focused_slot : ℕ
  pub dropped_notifications : ℕ

abbrev pub max_surfaces : ℕ
max_surfaces = 8

abbrev pub max_notifications : ℕ
max_notifications = 8

abbrev pub invalid_slot : ℕ
invalid_slot = max_surfaces

abbrev pub text_size : ℕ
text_size = 96

abbrev pub no_context : Context
no_context = record { slot = 0; generation = 0 }

abbrev pub empty : Context → Bool
empty c = c.generation == 0

abbrev pub blank : Surface
blank = record { state = absent; app = 0; generation = 0 }

abbrev pub blank_text : List ℕ
blank_text = replicate text_size 0

abbrev pub blank_notification : Notification
blank_notification = record { sequence = 0; surface = 0; text = blank_text }

abbrev state_code : SurfaceState → ℕ
state_code absent = 0
state_code creating = 1
state_code active = 2
state_code hidden = 3
state_code tearing_down = 4
state_code failed = 5

abbrev pub is_state : SurfaceState → SurfaceState → Bool
is_state a b = state_code a == state_code b

pub init : Manager
init = record {
  surfaces = replicate max_surfaces blank;
  notifications = replicate max_notifications blank_notification;
  next_generation = 1;
  next_sequence = 1;
  count = 0;
  notification_count = 0;
  notification_head = 0;
  focused_slot = max_surfaces;
  dropped_notifications = 0;
}

abbrev pub surface_at : Manager → ℕ → Surface
surface_at m i = get_or m.surfaces i blank

pub find : Manager → Context → ℕ
find m c =
    if empty c || leb max_surfaces c.slot
    then invalid_slot
    else let item = surface_at m c.slot in
      if (item.generation == c.generation) && not (is_state item.state absent)
      then c.slot
      else invalid_slot

-- The loops over the slots, from slot `i` on.
pub app_slot : ℕ → ℕ → List Surface → ℕ
app_slot app i [] = invalid_slot
app_slot app i (s ∷ rest) =
    if not (is_state s.state absent) && (s.app == app) then i else app_slot app (suc i) rest

pub state_slot : SurfaceState → ℕ → List Surface → ℕ
state_slot wanted i [] = invalid_slot
state_slot wanted i (s ∷ rest) =
    if is_state s.state wanted then i else state_slot wanted (suc i) rest

pub any_tearing_down : List Surface → Bool
any_tearing_down [] = false
any_tearing_down (s ∷ rest) = is_state s.state tearing_down || any_tearing_down rest

pub find_app : Manager → ℕ → ℕ
unfolding app_slot
find_app m app = app_slot app 0 m.surfaces

-- `next_generation_++`, over 64 bits and without the value 0.
pub bump_generation : ℕ → ℕ
bump_generation g = let g' = (g + 1) % 2 ^ 64 in if g' == 0 then g' + 1 else g'

-- The body of the loop of `create`, at the free slot. The state `creating` does not outlive it.
occupy : Manager → ℕ → ℕ → Manager
occupy m app i = record m {
  surfaces =
      set m.surfaces i (record { state = active; app = app; generation = m.next_generation });
  next_generation = bump_generation m.next_generation;
  count = m.count + 1;
  focused_slot =
      if (m.focused_slot == invalid_slot) && not (any_tearing_down m.surfaces)
      then i
      else m.focused_slot;
}

pub record Created : Type 0 where
  pub manager : Manager
  pub status : ViewStatus
  pub context : Context

pub create : Manager → ℕ → Created
create m app =
    if not (find_app m app == invalid_slot)
    then record { manager = m; status = overflow; context = no_context }
    else let i = state_slot absent 0 m.surfaces in
      if i == invalid_slot
      then record { manager = m; status = overflow; context = no_context }
      else record {
        manager = occupy m app i;
        status = ok;
        context = record { slot = i; generation = m.next_generation };
      }

-- What a call answers when the context names no surface.
abbrev pub missing : Context → ViewStatus
missing c = if empty c then invalid_context else expired_context

pub set_state : Manager → ℕ → SurfaceState → Manager
set_state m i s = record m { surfaces = set m.surfaces i (record (surface_at m i) { state = s }) }

abbrev pub drop_focus : Manager → ℕ → Manager
drop_focus m i = if m.focused_slot == i then record m { focused_slot = invalid_slot } else m

pub begin_teardown : Manager → Context → Manager × ViewStatus
begin_teardown m c =
    let i = find m c in
    if i == invalid_slot then (m, missing c) else (drop_focus (set_state m i tearing_down) i, ok)

clear_slot : Manager → ℕ → Manager
clear_slot m i = record m { surfaces = set m.surfaces i blank; count = m.count - 1 }

refocus : Manager → Manager
refocus m =
    if m.focused_slot == invalid_slot
    then record m { focused_slot = state_slot active 0 m.surfaces }
    else m

pub remove : Manager → Context → Manager × ViewStatus
remove m c =
    let i = find m c in
    if i == invalid_slot
    then (m, missing c)
    else if not (is_state (surface_at m i).state tearing_down)
    then (m, invalid_context)
    else (refocus (clear_slot m i), ok)

pub focus : Manager → Context → Manager × ViewStatus
focus m c =
    let i = find m c in
    if i == invalid_slot
    then (m, missing c)
    else if is_state (surface_at m i).state tearing_down
    then (m, expired_context)
    else if not (is_state (surface_at m i).state active)
    then (m, not_focused)
    else (record m { focused_slot = i }, ok)

pub activate : Manager → Context → Manager × ViewStatus
activate m c =
    let i = find m c in
    if i == invalid_slot
    then (m, missing c)
    else if is_state (surface_at m i).state tearing_down
    then (m, expired_context)
    else focus (set_state m i active) c

pub hide : Manager → Context → Manager × ViewStatus
hide m c =
    let i = find m c in
    if i == invalid_slot
    then (m, missing c)
    else if is_state (surface_at m i).state tearing_down
    then (m, expired_context)
    else (drop_focus (set_state m i hidden) i, ok)

pub validate : Manager → Context → ViewStatus
validate m c =
    let i = find m c in
    if i == invalid_slot
    then missing c
    else if is_state (surface_at m i).state tearing_down
    then expired_context
    else if m.focused_slot == i
    then ok
    else not_focused
