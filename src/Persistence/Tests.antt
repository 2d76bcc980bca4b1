-- ===== src/Persistence/Tests.antt =====
-- The persistence queue on concrete calls, and its theorems applied to them.
use cyberdeck.Common.{List, [], ◌∷◌}
use cyberdeck.Persistence.{Snapshot, Call, initializes, takes, enqueues}

abbrev home : Snapshot
home = record { token = 1; ip = 3232235777; ssid = 104 ∷ []; password = 112 ∷ [] }

abbrev work : Snapshot
work = record { token = 2; ip = 167772161; ssid = 119 ∷ []; password = 113 ∷ [] }

-- The first of two snapshots is in flight.
abbrev two : List Call
two = initializes ∷ enqueues home ∷ enqueues work ∷ takes ∷ enqueues home ∷ []
