-- ===== src/Persistence.antt =====
-- components/cyberdeck/src/apps/wifi/cyberdeck_wifi_persistence_queue.cpp and its header: the
-- snapshots of connections that wait to be stored, one of them in flight.
pub mod Pending
mod Tests
use cyberdeck.Common.{
  ℕ, zero, suc, ◌+◌, ◌-◌, Bool, true, false, not, ◌&&◌, ◌||◌, Option, none, some, List, [], ◌∷◌,
  get_or, set, replicate, ◌==◌, if◌then◌else◌,
}
use cyberdeck.Common.Ring.{next}

-- The fields of `ip_snapshot`; a text is its bytes before the terminator.
pub record Snapshot : Type 0 where
  pub token : ℕ
  pub ip : ℕ
  pub ssid : List ℕ
  pub password : List ℕ

pub record Queue : Type 0 where
  pub initialized : Bool
  pub cells : List Snapshot
  pub head : ℕ
  pub tail : ℕ
  pub count : ℕ
  pub in_flight : Snapshot
  pub has_in_flight : Bool
  pub retry_ready : Bool

abbrev pub capacity : ℕ
capacity = 4

-- What `wipe_snapshot` leaves.
abbrev pub wiped : Snapshot
wiped = record { token = 0; ip = 0; ssid = []; password = [] }

pub init : Queue
init = record {
  initialized = false;
  cells = replicate capacity wiped;
  head = 0;
  tail = 0;
  count = 0;
  in_flight = wiped;
  has_in_flight = false;
  retry_ready = false;
}

pub same_text : List ℕ → List ℕ → Bool
same_text [] [] = true
same_text [] (y ∷ ys) = false
same_text (x ∷ xs) [] = false
same_text (x ∷ xs) (y ∷ ys) = (x == y) && same_text xs ys

abbrev pub same_key : Snapshot → Snapshot → Bool
same_key a b = same_text a.ssid b.ssid

pub initialize : Queue → Queue
initialize q = if q.initialized then q else record q {
  initialized = true;
  head = 0;
  tail = 0;
  count = 0;
  in_flight = wiped;
  has_in_flight = false;
  retry_ready = false;
}

-- The loop of `enqueue`: `n` cells are left, the next one is `p`.
pub has_key : List Snapshot → Snapshot → ℕ → ℕ → Bool
has_key cells s p zero = false
has_key cells s p (suc n) = same_key (get_or cells p wiped) s || has_key cells s (next capacity p) n

pub enqueue : Queue → Snapshot → Queue × Bool
unfolding has_key
enqueue q s =
    if not q.initialized
      || q.has_in_flight && same_key q.in_flight s
      || has_key q.cells s q.head q.count
      || (q.count == capacity)
    then (q, false)
    else (
      record q { cells = set q.cells q.tail s; tail = next capacity q.tail; count = q.count + 1 },
      true,
    )

abbrev pub is_in_flight : Queue → Snapshot → Bool
is_in_flight q s = q.has_in_flight && same_key q.in_flight s && (q.in_flight.token == s.token)

pub retry : Queue → Snapshot → Queue × Bool
retry q s =
    if not q.initialized || not (is_in_flight q s)
    then (q, false)
    else (record q { retry_ready = true }, true)

pub acknowledge : Queue → Snapshot → Queue × Bool
acknowledge q s =
    if not (is_in_flight q s)
    then (q, false)
    else (record q { in_flight = wiped; has_in_flight = false; retry_ready = false }, true)

-- The snapshot to store, where the action is `persist`.
pub take_next : Queue → Queue × Option Snapshot
take_next q =
    if not q.initialized
    then (q, none)
    else if q.has_in_flight
    then (if not q.retry_ready
        then (q, none)
        else (record q { retry_ready = false }, some q.in_flight))
    else if q.count == 0
    then (q, none)
    else (
      record q {
        cells = set q.cells q.head wiped;
        head = next capacity q.head;
        count = q.count - 1;
        in_flight = get_or q.cells q.head wiped;
        has_in_flight = true;
      },
      some (get_or q.cells q.head wiped),
    )

pub wipe : Queue → Queue
wipe q = record q {
  cells = replicate capacity wiped;
  head = 0;
  tail = 0;
  count = 0;
  in_flight = wiped;
  has_in_flight = false;
  retry_ready = false;
}

pub teardown : Queue → Queue
unfolding wipe
teardown q = record (wipe q) { initialized = false }

pub data Call : Type 0 where
  initializes takes wipes tears_down : Call
  enqueues retries acknowledges : Snapshot → Call

pub step : Queue → Call → Queue
unfolding initialize enqueue retry acknowledge take_next wipe teardown
step q initializes = initialize q
step q takes = (take_next q).0
step q wipes = wipe q
step q tears_down = teardown q
step q (enqueues s) = (enqueue q s).0
step q (retries s) = (retry q s).0
step q (acknowledges s) = (acknowledge q s).0

pub run : Queue → List Call → Queue
unfolding step
run q [] = q
run q (c ∷ cs) = run (step q c) cs
