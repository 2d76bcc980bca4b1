-- ===== src/Window/Notices.antt =====
-- The queue of notifications, and the text that a notification keeps.
use native.Mathlib.Numerals.{add-one}
use cyberdeck.Common.{
  ℕ, zero, suc, ◌+◌, ◌-◌, ◌%◌, ◌^◌, min, ◌<◌, ◌≡◌, refl, ap, Bool, not, ◌&&◌, ◌⊎◌, inl, inr, none,
  some, List, [], ◌∷◌, ◌++◌, arith, length, length-append, take_all, take-append,
  get_or-append-cons, length-drop, get_or, take, drop, ltb, ◌==◌, if◌then◌else◌,
}
use cyberdeck.Common.Ring.{next, window, length-window, window-set}
use cyberdeck.Window.{
  tearing_down, Notification, Manager, Context, max_notifications, blank_notification, blank_text,
  text_size, invalid_slot, is_state, surface_at, find,
}
use cyberdeck.Window.Calls.{copy_text, notification, push_notification, notify, pop_notification}
use cyberdeck.Window.Invariant.{IsValid, find-cases}

-- The notifications that wait, the oldest first.
abbrev pub waiting : Manager → List Notification
waiting m =
    window max_notifications m.notifications blank_notification m.notification_head
      m.notification_count

-- The guards of `notify`.
abbrev pub admits : Manager → Context → List ℕ → Bool
admits m c text =
    not (find m c == invalid_slot)
    && ltb (length text) text_size
    && not (is_state (surface_at m (find m c)).state tearing_down)

waiting-push_notification :
    (m : Manager) (i : ℕ) (text : List ℕ)
    → IsValid m
    → m.notification_count < max_notifications
    → waiting (push_notification m i text) ≡ waiting m ++ notification m i text ∷ []
unfolding push_notification
waiting-push_notification m i text v h = rw add-one (
    window-set max_notifications m.notifications blank_notification _ m.notification_head
      m.notification_count v.cells v.head_fits h)

length-waiting : (m : Manager) → length (waiting m) ≡ m.notification_count
length-waiting m =
    length-window max_notifications m.notifications blank_notification m.notification_head
      m.notification_count

-- On a valid manager `notify` puts a notification at the end of the queue exactly when the context may notify and
-- there is room. A full queue stays as it is and the loss is counted, over 32 bits.
pub notify-waiting :
    (m : Manager) (c : Context) (text : List ℕ)
    → IsValid m
    → ((notify m c text).1 ≡ (admits m c text && ltb (length (waiting m)) max_notifications))
      × (waiting (notify m c text).0 ≡ (
          if admits m c text && ltb (length (waiting m)) max_notifications
          then waiting m ++ notification m c.slot text ∷ []
          else waiting m))
      × ((notify m c text).0.dropped_notifications ≡ (
          if admits m c text && not (ltb (length (waiting m)) max_notifications)
          then (m.dropped_notifications + 1) % 2 ^ 32
          else m.dropped_notifications))
notify-waiting m c text v = (told, queue, losses)
  where
    told : (notify m c text).1 ≡ (admits m c text && ltb (length (waiting m)) max_notifications)
    told = unfold notify in ground (arith, v.count_fits, length-waiting m)

    queue : waiting (notify m c text).0 ≡ (
        if admits m c text && ltb (length (waiting m)) max_notifications
        then waiting m ++ notification m c.slot text ∷ []
        else waiting m)
    queue =
        unfold notify in
        ground
          (arith, find-cases m c, length-waiting m, waiting-push_notification m (find m c) text v)

    losses : (notify m c text).0.dropped_notifications ≡ (
        if admits m c text && not (ltb (length (waiting m)) max_notifications)
        then (m.dropped_notifications + 1) % 2 ^ 32
        else m.dropped_notifications)
    losses = unfold notify push_notification in ground (arith, length-waiting m)

pop_count :
    (m : Manager) (n : ℕ)
    → m.notification_count ≡ suc n
    → waiting m
      ≡ get_or m.notifications m.notification_head blank_notification
        ∷ window max_notifications m.notifications blank_notification
            (next max_notifications m.notification_head)
            n
pop_count m n e =
    ap (window max_notifications m.notifications blank_notification m.notification_head) e

-- `pop_notification` gives the oldest notification and leaves the others, or fails on an empty
-- queue and changes nothing.
pub pop_notification-waiting :
    (m : Manager)
    → ((waiting m ≡ []) × (pop_notification m ≡ (m, none)))
      ⊎ ((n : Notification) × ((pop_notification m).1 ≡ some n)
          × (waiting m ≡ n ∷ waiting (pop_notification m).0))
pop_notification-waiting m = by_count m.notification_count refl
  where
    by_count :
        (k : ℕ)
        → m.notification_count ≡ k
        → ((waiting m ≡ []) × (pop_notification m ≡ (m, none)))
          ⊎ ((n : Notification) × ((pop_notification m).1 ≡ some n)
              × (waiting m ≡ n ∷ waiting (pop_notification m).0))
    by_count zero e = unfold pop_notification in inl (ground arith, ground arith)
    by_count (suc k) e =
        let fewer : m.notification_count - 1 ≡ k = omega arith in
        let rest =
          ap
            (window max_notifications m.notifications blank_notification
              (next max_notifications m.notification_head))
            fewer in
        unfold pop_notification in
        inr (
          get_or m.notifications m.notification_head blank_notification,
          ground arith,
          ground (arith, pop_count m k e, rest),
        )

-- The kept text is the given one, ended by a zero, in an array of unchanged size.
pub copy_text_lem :
    (text : List ℕ)
    → length text < text_size
    → (take (length text) (copy_text blank_text text) ≡ text)
      × (get_or (copy_text blank_text text) (length text) 1 ≡ 0)
      × (length (copy_text blank_text text) ≡ text_size)
unfolding copy_text
copy_text_lem text h =
    let n = min (length text) (length blank_text - 1) in
    let all : take n text ≡ text = take_all n text (omega arith) in
    let rest = drop (n + 1) blank_text in
    rw all (
      take-append text (0 ∷ rest),
      get_or-append-cons text rest 0 1,
      omega (arith, length-append text (0 ∷ rest), length-drop (n + 1) blank_text),
    )
