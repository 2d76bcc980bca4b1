-- ===== src/Net/Queue.antt =====
-- The circular queue of the network coordinator, read as a list.
use cyberdeck.Common.{
  ℕ, zero, suc, ◌+◌, ◌%◌, ◌≤◌, ◌<◌, ◌≡◌, refl, sym, subst, ap, Bool, true, false, ◌||◌, List, [],
  ◌∷◌, ◌++◌, length, get_or, set, length-set, arith, ltb, if◌then◌else◌,
}
use native.Mathlib.Numerals.{add-one}
use cyberdeck.Common.Ring.{next, window, length-window, window-set}
use cyberdeck.Net.{
  Item, blank, ssh_offline, Coordinator, queue_capacity, is_item, init, scan_cells, contains,
  has_pending_notice, push_item, enqueue,
}

-- The items that wait, the next one first.
abbrev pub pending : Coordinator → List Item
pending c = window queue_capacity c.queue blank c.head c.count

-- The array and its indices belong together.
pub record IsRing (c : Coordinator) : Type 0 where
  pub cells : length c.queue ≡ queue_capacity
  pub head_fits : c.head < queue_capacity
  pub count_fits : c.count ≤ queue_capacity
  pub tail_follows : c.tail ≡ (c.head + c.count) % queue_capacity

pub init-IsRing : IsRing init
unfolding init
init-IsRing = omega arith

abbrev pub listed : Item → List Item → Bool
listed item [] = false
listed item (x ∷ xs) = is_item x item || listed item xs

scan_cells-window :
    (q : List Item) (item : Item) (p n : ℕ)
    → scan_cells q item p n ≡ listed item (window queue_capacity q blank p n)
unfolding scan_cells
scan_cells-window q item p zero = refl
scan_cells-window q item p (suc n) =
    ap (λ b. is_item (get_or q p blank) item || b)
      (scan_cells-window q item (next queue_capacity p) n)

pub contains-pending : (c : Coordinator) (item : Item) → contains c item ≡ listed item (pending c)
unfolding contains
contains-pending c item = scan_cells-window c.queue item c.head c.count

pub notice-pending : (c : Coordinator) → has_pending_notice c ≡ listed ssh_offline (pending c)
unfolding has_pending_notice
notice-pending c = scan_cells-window c.queue ssh_offline c.head c.count

-- Four places are kept for critical items.
abbrev pub room : Bool → ℕ → Bool
room true n = ltb n 8
room false n = ltb n 4

pending-push_item :
    (c : Coordinator) (item : Item)
    → IsRing c
    → c.count < queue_capacity
    → pending (push_item c item) ≡ pending c ++ item ∷ []
unfolding push_item
pending-push_item c item r h =
    subst
      (λ t.
        window queue_capacity (set c.queue t item) blank c.head (c.count + 1)
        ≡ pending c ++ item ∷ [])
      (sym r.tail_follows)
      (rw add-one
        (window-set queue_capacity c.queue blank item c.head c.count r.cells r.head_fits h))

push_item-IsRing :
    (c : Coordinator) (item : Item)
    → IsRing c
    → c.count < queue_capacity
    → IsRing (push_item c item)
unfolding push_item
push_item-IsRing c item r h = ground (arith, length-set c.queue c.tail item)

-- An item that has room goes to the end; one that has none is dropped.
pub pending-enqueue :
    (c : Coordinator) (item : Item) (critical : Bool)
    → IsRing c
    → pending (enqueue c item critical)
      ≡ (if room critical (length (pending c)) then pending c ++ item ∷ [] else pending c)
unfolding enqueue
pending-enqueue c item critical r =
    ground
      (arith, pending-push_item c item r, length-window queue_capacity c.queue blank c.head c.count)

pub enqueue-IsRing :
    (c : Coordinator) (item : Item) (critical : Bool) → IsRing c → IsRing (enqueue c item critical)
unfolding enqueue
enqueue-IsRing c item critical r = ground (arith, push_item-IsRing c item r)
