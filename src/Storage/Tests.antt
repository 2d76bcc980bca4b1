-- ===== src/Storage/Tests.antt =====
-- The SD coordinator on concrete calls, and its theorems applied to them.
use cyberdeck.Common.{◌≡◌, refl, List, [], ◌∷◌}
use cyberdeck.Storage.{
  drained, Event, acquires, releases, moves, closes, reopens, run, step, start, init, acquire,
  begin_close, drain_end, release, release_lease, move_lease,
}
use cyberdeck.Storage.Leases.{held_count}
use cyberdeck.Storage.Gate.{drain_end-closes}

-- Two leases, one moved over the other, and the last one released.
abbrev moved : List Event
moved = acquires ∷ acquires ∷ moves 0 1 ∷ []

abbrev over : List Event
over = acquires ∷ closes ∷ releases 0 ∷ []

over_lem : (drain_end (run start over).coordinator).1 ≡ drained
unfolding run step start init acquire begin_close drain_end release release_lease
over_lem = refl

moved_lem : (begin_close (run start moved).coordinator).1 ≡ 3
unfolding run step start init acquire begin_close release release_lease move_lease
moved_lem = refl

drain_end-closes_example :
    held_count
      (run
        (record (run start over) { coordinator = (drain_end (run start over).coordinator).0 })
        (acquires ∷ reopens 2 ∷ [])).leases
    ≡ 0
drain_end-closes_example = (drain_end-closes over (acquires ∷ reopens 2 ∷ []) over_lem).0
