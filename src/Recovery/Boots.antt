-- ===== src/Recovery/Boots.antt =====
-- Boots that were interrupted, and the latch of safe mode.
use cyberdeck.Common.{
  ℕ, zero, suc, ◌+◌, ◌-◌, ◌^◌, ◌<◌, ◌≡◌, ◌∙◌, Bool, true, false, ◌||◌, List, [], ◌∷◌, leb, arith,
}
use cyberdeck.Recovery.{
  State, interrupted_boot_limit, state_version, count_boot, begin_boot, commit_ready,
  clear_safe_mode, record_error,
}

-- The calls that a device makes.
pub data Call : Type 0 where
  boot ready clear : Call
  failed : List ℕ → List ℕ → Call

unfoldable pub step : State → Call → State
step s boot = (begin_boot s).0
step s ready = (commit_ready s).0
step s clear = (clear_safe_mode s).0
step s (failed app message) = (record_error app message s).0

unfoldable pub run : State → List Call → State
run s [] = s
run s (c ∷ calls) = run (step s c) calls

-- `n` boots one after the other, none of which becomes ready.
unfoldable pub boots : ℕ → State → State
boots zero s = s
boots (suc n) s = boots n (begin_boot s).0

next_boot :
    (s : State)
    → s.version ≡ state_version
    → s.boot_pending ≡ true
    → s.interrupted_boots < 2 ^ 32 - 1
    → ((begin_boot s).0.version ≡ state_version)
      × ((begin_boot s).0.boot_pending ≡ true)
      × ((begin_boot s).0.interrupted_boots ≡ s.interrupted_boots + 1)
      × ((begin_boot s).0.safe_mode_latched
          ≡ (leb interrupted_boot_limit (s.interrupted_boots + 1) || s.safe_mode_latched))
unfolding begin_boot count_boot
next_boot s v p l = ground arith

boots_lem :
    (n : ℕ) (s : State)
    → s.version ≡ state_version
    → s.boot_pending ≡ true
    → s.interrupted_boots + n < 2 ^ 32
    → s.safe_mode_latched ≡ leb interrupted_boot_limit s.interrupted_boots
    → ((boots n s).interrupted_boots ≡ s.interrupted_boots + n)
      × ((boots n s).safe_mode_latched ≡ leb interrupted_boot_limit (s.interrupted_boots + n))
unfolding boots
boots_lem zero s v p l e = (omega arith, ground arith)
boots_lem (suc n) s v p l e =
    let (v', p', count, latched) = next_boot s v p (omega arith) in
    let same : (begin_boot s).0.safe_mode_latched
        ≡ leb interrupted_boot_limit (begin_boot s).0.interrupted_boots =
      ground arith in
    let (a, b) = boots_lem n (begin_boot s).0 v' p' (omega arith) same in
    let more : (begin_boot s).0.interrupted_boots + n ≡ s.interrupted_boots + suc n = omega arith in
    (a ∙ more, rw (← more) b)

first_boot :
    (s : State)
    → s.version ≡ state_version
    → s.boot_pending ≡ false
    → s.interrupted_boots ≡ 0
    → s.safe_mode_latched ≡ false
    → ((begin_boot s).0.version ≡ state_version)
      × ((begin_boot s).0.boot_pending ≡ true)
      × ((begin_boot s).0.interrupted_boots ≡ 0)
      × ((begin_boot s).0.safe_mode_latched ≡ false)
unfolding begin_boot count_boot
first_boot s v p c l = ground arith

-- From a boot that became ready, with safe mode off: after a boot and `n` more, none of which becomes
-- ready, the counter stands at `n`, and safe mode is latched just if that is three or more.
pub boots-latched :
    (n : ℕ) (s : State)
    → s.version ≡ state_version
    → s.boot_pending ≡ false
    → s.interrupted_boots ≡ 0
    → s.safe_mode_latched ≡ false
    → n < 2 ^ 32
    → ((boots (suc n) s).interrupted_boots ≡ n)
      × ((boots (suc n) s).safe_mode_latched ≡ leb interrupted_boot_limit n)
unfolding boots
boots-latched n s v p c l h =
    let (v', p', count, latched) = first_boot s v p c l in
    let off : (begin_boot s).0.safe_mode_latched
        ≡ leb interrupted_boot_limit (begin_boot s).0.interrupted_boots =
      ground arith in
    let start : (begin_boot s).0.interrupted_boots + n ≡ n = omega arith in
    rw start at (boots_lem n (begin_boot s).0 v' p' (omega arith) off)

unfoldable pub is_clear : Call → Bool
is_clear clear = true
is_clear _ = false

unfoldable pub has_clear : List Call → Bool
has_clear [] = false
has_clear (c ∷ calls) = is_clear c || has_clear calls

record IsLatched (s : State) : Type 0 where
  known : s.version ≡ state_version
  latched : s.safe_mode_latched ≡ true

step-IsLatched : (c : Call) {s : State} → is_clear c ≡ false → IsLatched s → IsLatched (step s c)
unfolding step is_clear begin_boot count_boot commit_ready record_error
step-IsLatched boot n h = ground arith
step-IsLatched ready n h = ground arith
step-IsLatched clear n h = absurd cc
step-IsLatched (failed app message) {s} n h = ground arith

run-IsLatched :
    (calls : List Call) {s : State}
    → has_clear calls ≡ false
    → IsLatched s
    → IsLatched (run s calls)
unfolding run has_clear
run-IsLatched [] n h = h
run-IsLatched (c ∷ calls) n h =
    run-IsLatched calls (ground arith) (step-IsLatched c (ground arith) h)

-- Once it is latched, safe mode stays on through all calls but that of the operator who clears it, and
-- each boot says so.
pub run-latched :
    (calls : List Call) (s : State)
    → has_clear calls ≡ false
    → s.version ≡ state_version
    → s.safe_mode_latched ≡ true
    → ((run s calls).safe_mode_latched ≡ true) × ((begin_boot (run s calls)).1 ≡ true)
run-latched calls s n v l =
    let h = run-IsLatched calls n (record { known = v; latched = l }) in
    (h.latched, unfold begin_boot count_boot in ground (arith, h.known, h.latched))
