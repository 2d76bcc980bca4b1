-- ===== src/Window/Calls.antt =====
-- The notifications of the window manager, its queries, and all of its calls together.
use cyberdeck.Common.{
  ℕ, ◌+◌, ◌-◌, ◌%◌, ◌^◌, min, Bool, true, false, Option, none, some, List, [], ◌∷◌, ◌++◌, length,
  get_or, set, take, drop, replicate, ◌||◌, leb, ◌==◌, if◌then◌else◌,
}
use cyberdeck.Common.Ring.{next}
use cyberdeck.Window.{
  SurfaceState, tearing_down, ViewStatus, ok, Context, Notification, Manager, max_surfaces,
  max_notifications, invalid_slot, text_size, blank, blank_text, blank_notification, is_state,
  surface_at, find, create, missing, begin_teardown, remove, focus, activate, hide, validate,
}

unfoldable pub focused : Manager → Context → Bool
focused m c = elim (validate m c) [ ViewStatus.ok ↦ true | _ ↦ false ]

-- `status`: the answer, and the state where there is one.
unfoldable pub status : Manager → Context → ViewStatus × Option SurfaceState
status m c =
    let i = find m c in
    if i == invalid_slot then (missing c, none) else (ok, some (surface_at m i).state)

-- `copy_text` into an array: the copied bytes, the terminator, and the array's rest.
unfoldable pub copy_text : List ℕ → List ℕ → List ℕ
copy_text out text =
    let n = min (length text) (length out - 1) in take n text ++ 0 ∷ drop (n + 1) out

abbrev pub notification : Manager → ℕ → List ℕ → Notification
notification m slot text = record {
  sequence = m.next_sequence;
  surface = slot;
  text = copy_text blank_text text;
}

-- `notify`, behind its guards.
unfoldable pub push_notification : Manager → ℕ → List ℕ → Manager
push_notification m slot text = record m {
  notifications =
      set m.notifications ((m.notification_head + m.notification_count) % max_notifications)
        (notification m slot text);
  next_sequence = (m.next_sequence + 1) % 2 ^ 64;
  notification_count = m.notification_count + 1;
}

unfoldable pub notify : Manager → Context → List ℕ → Manager × Bool
notify m c text =
    let i = find m c in
    if (i == invalid_slot) || leb text_size (length text)
    then (m, false)
    else if is_state (surface_at m i).state tearing_down
    then (m, false)
    else if m.notification_count == max_notifications
    then (record m { dropped_notifications = (m.dropped_notifications + 1) % 2 ^ 32 }, false)
    else (push_notification m i text, true)

unfoldable pub pop_notification : Manager → Manager × Option Notification
pop_notification m = if m.notification_count == 0 then (m, none) else (
  record m {
    notification_head = next max_notifications m.notification_head;
    notification_count = m.notification_count - 1;
  },
  some (get_or m.notifications m.notification_head blank_notification),
)

-- `reset` keeps the counters of generations and sequences, so no context becomes valid again.
unfoldable pub reset : Manager → Manager
reset m = record m {
  surfaces = replicate max_surfaces blank;
  notifications = replicate max_notifications blank_notification;
  count = 0;
  notification_count = 0;
  notification_head = 0;
  focused_slot = invalid_slot;
  dropped_notifications = 0;
}

pub data Call : Type 0 where
  creates : ℕ → Call
  begins_teardown removes activates hides focuses : Context → Call
  notifies : Context → List ℕ → Call
  pops resets : Call

unfoldable pub step : Manager → Call → Manager
step m (creates app) = (create m app).manager
step m (begins_teardown c) = (begin_teardown m c).0
step m (removes c) = (remove m c).0
step m (activates c) = (activate m c).0
step m (hides c) = (hide m c).0
step m (focuses c) = (focus m c).0
step m (notifies c text) = (notify m c text).0
step m pops = (pop_notification m).0
step m resets = reset m

unfoldable pub run : Manager → List Call → Manager
run m [] = m
run m (c ∷ cs) = run (step m c) cs
