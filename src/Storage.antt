-- ===== src/Storage.antt =====
-- components/cyberdeck/src/platform/storage/cyberdeck_sd_io_coordinator.cpp and its header: leases
-- on the SD card, and the gate that closes before the power goes off.
pub mod Leases
pub mod Gate
mod Tests
use cyberdeck.Common.{
  ℕ, ◌+◌, ◌-◌, ◌%◌, ◌^◌, Bool, true, false, not, ◌&&◌, ◌||◌, Option, none, some, List, [], ◌∷◌,
  length, get_or, set, ltb, ◌==◌, if◌then◌else◌,
}

pub data GateState : Type 0 where
  open_gate closing closed : GateState

pub data DrainResult : Type 0 where
  drained timed_out not_owner : DrainResult

pub record Coordinator : Type 0 where
  pub state : GateState
  pub generation : ℕ
  pub next_id : ℕ
  pub close_owner : ℕ
  pub active : ℕ
  pub persistence_failed : Bool

-- A lease is held when its pointer to the coordinator is not null.
pub record Lease : Type 0 where
  pub held : Bool
  pub generation : ℕ
  pub id : ℕ

abbrev pub no_lease : Lease
no_lease = record { held = false; generation = 0; id = 0 }

pub init : Coordinator
init = record {
  state = open_gate;
  generation = 1;
  next_id = 1;
  close_owner = 0;
  active = 0;
  persistence_failed = false;
}

abbrev gate_code : GateState → ℕ
gate_code open_gate = 0
gate_code closing = 1
gate_code closed = 2

abbrev pub is_gate : GateState → GateState → Bool
is_gate a b = gate_code a == gate_code b

-- `next_id_++`, over 64 bits.
abbrev pub bump : ℕ → ℕ
bump n = (n + 1) % 2 ^ 64

pub acquire : Coordinator → Coordinator × Lease
acquire c = if not (is_gate c.state open_gate) || (c.next_id == 0) then (c, no_lease) else (
  record c { next_id = bump c.next_id; active = c.active + 1 },
  record { held = true; generation = c.generation; id = c.next_id },
)

-- The answer is the owner's token, or 0.
pub begin_close : Coordinator → Coordinator × ℕ
begin_close c = if not (is_gate c.state open_gate) || (c.next_id == 0) then (c, 0) else (
  record c { state = closing; close_owner = c.next_id; next_id = bump c.next_id },
  c.next_id,
)

abbrev pub owns : Coordinator → ℕ → Bool
owns c owner = not (owner == 0) && is_gate c.state closing && (c.close_owner == owner)

-- `drain` after its wait, which gives up the lock: the first test is not made again.
pub drain_end : Coordinator → Coordinator × DrainResult
drain_end c = if not (c.active == 0) then (c, timed_out) else (record c { state = closed }, drained)

-- `drain` where the wait ends at once.
pub drain : Coordinator → ℕ → Coordinator × DrainResult
unfolding drain_end
drain c owner = if not (owns c owner) then (c, not_owner) else drain_end c

pub reopen : Coordinator → ℕ → Coordinator × Bool
reopen c owner =
    if not (owns c owner)
    then (c, false)
    else (record c { state = open_gate; close_owner = 0 }, true)

pub release : Coordinator → ℕ → Coordinator
release c id = if (id == 0) || (c.active == 0) then c else record c { active = c.active - 1 }

pub record_persistence_failure : Coordinator → Coordinator
record_persistence_failure c = record c { persistence_failed = true }

-- The global coordinator, once it is bound.
pub bind_global : Option Coordinator → Coordinator → Option Coordinator
bind_global none c = some c
bind_global (some bound) c = some bound

pub acquire_global : Option Coordinator → Option Coordinator × Lease
unfolding acquire
acquire_global none = (none, no_lease)
acquire_global (some c) = (some (acquire c).0, (acquire c).1)

pub record_global_persistence_failure : Option Coordinator → Option Coordinator
unfolding record_persistence_failure
record_global_persistence_failure none = none
record_global_persistence_failure (some c) = some (record_persistence_failure c)

pub global_fenced : Option Coordinator → Bool
global_fenced none = true
global_fenced (some c) = not (is_gate c.state open_gate)

-- The coordinator, the lease objects of its clients, and the calls of `drain` that wait.
pub record System : Type 0 where
  pub coordinator : Coordinator
  pub leases : List Lease
  pub waiters : ℕ

abbrev pub lease_at : System → ℕ → Lease
lease_at s i = get_or s.leases i no_lease

-- `lease::release` on the object `i`.
pub release_lease : System → ℕ → System
unfolding release
release_lease s i = if not (lease_at s i).held then s else record s {
  coordinator = release s.coordinator (lease_at s i).id;
  leases = set s.leases i (record (lease_at s i) { held = false });
}

-- The move assignment of the object `i` to the object `j`.
pub move_lease : System → ℕ → ℕ → System
unfolding release_lease
move_lease s i j =
    if i == j
    then s
    else let t = release_lease s j in
      record t {
        leases = set (set t.leases j (lease_at t i)) i (record (lease_at t i) { held = false });
      }

pub data Event : Type 0 where
  acquires : Event
  releases : ℕ → Event
  moves : ℕ → ℕ → Event
  closes : Event
  drains : ℕ → Event
  wakes : Event
  reopens : ℕ → Event
  fails : Event

pub step : System → Event → System
unfolding acquire begin_close drain_end reopen record_persistence_failure release_lease move_lease
step s acquires = record s {
  coordinator = (acquire s.coordinator).0;
  leases = (acquire s.coordinator).1 ∷ s.leases;
}
step s (releases i) = release_lease s i
step s (moves i j) =
    if ltb i (length s.leases) && ltb j (length s.leases) then move_lease s i j else s
step s closes = record s { coordinator = (begin_close s.coordinator).0 }
step s (drains owner) = if owns s.coordinator owner then record s { waiters = s.waiters + 1 } else s
step s wakes =
    if s.waiters == 0
    then s
    else record s { coordinator = (drain_end s.coordinator).0; waiters = s.waiters - 1 }
step s (reopens owner) = record s { coordinator = (reopen s.coordinator owner).0 }
step s fails = record s { coordinator = record_persistence_failure s.coordinator }

pub run : System → List Event → System
unfolding step
run s [] = s
run s (e ∷ es) = run (step s e) es

pub start : System
unfolding init
start = record { coordinator = init; leases = []; waiters = 0 }
