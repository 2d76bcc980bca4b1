-- ===== src/Dispatch/Admission.antt =====
-- Who must release the admission, and where the processes can stand in each state of the job.
use cyberdeck.Common.{
  ℕ, ◌+◌, ◌≡◌, Bool, true, not, ◌&&◌, ◌||◌, List, [], ◌∷◌, length, if◌then◌else◌,
}
use cyberdeck.Dispatch.{
  State, idle, queued, running, detached, finishing, finishing_detached, done, cancelled, caller,
  callback, is_state, state_of,
}
use cyberdeck.Dispatch.System.{
  Holder, Task, resting, started, loaded, ran, storing, publishing, signalling, releasing, System,
}

-- The job is not with the LVGL task.
abbrev pub passive : State → Bool
passive s = is_state s idle || is_state s queued || is_state s done || is_state s cancelled

-- No caller waits for the job.
abbrev pub settled : State → Bool
settled s = is_state s idle || is_state s done || is_state s cancelled || is_state s finishing

abbrev pub claimed : State → Bool
claimed s = is_state s running || is_state s finishing || is_state s done

-- Where the LVGL task stands while the job is in a state.
abbrev pub task_fits : State → Task → Bool
task_fits s resting = passive s
task_fits s (started t) = is_state s running || is_state s detached
task_fits s (loaded t p) = is_state s running || is_state s detached
task_fits s (ran t c) = is_state s running || is_state s detached
task_fits s (storing t c caller) = is_state s finishing
task_fits s (storing t c callback) = is_state s finishing_detached
task_fits s (publishing t caller) = is_state s finishing
task_fits s (publishing t callback) = is_state s finishing_detached
task_fits s (signalling caller) = passive s
task_fits s (signalling callback) = is_state s done
task_fits s (releasing caller) = passive s
task_fits s (releasing callback) = is_state s done

-- The states of the job that a caller can find.
abbrev pub holder_fits : State → Holder → Bool
holder_fits s (Holder.admitted p) = settled s
holder_fits s (Holder.tokened p t) = settled s
holder_fits s (Holder.armed t) = is_state s queued || claimed s
holder_fits s (Holder.withdrawing t) = is_state s queued || claimed s
holder_fits s (Holder.waiting t) = is_state s queued || claimed s
holder_fits s (Holder.expired t) = is_state s queued || claimed s
holder_fits s (Holder.cancelling t) = is_state s queued || claimed s
holder_fits s (Holder.grace t) = claimed s
holder_fits s (Holder.detaching t n) = claimed s
holder_fits s (Holder.abandoning t n) = claimed s || settled s
holder_fits s (Holder.judging t) = settled s
holder_fits s (Holder.reading t) = settled s
holder_fits s (Holder.leaving t b) = settled s

unfoldable pub all_fit : State → List Holder → Bool
all_fit s [] = true
all_fit s (h ∷ hs) = holder_fits s h && all_fit s hs

-- The LVGL task is on its way to release the admission.
abbrev pub task_owns : State → Task → Bool
task_owns s (signalling callback) = true
task_owns s (releasing callback) = true
task_owns s _ = is_state s detached || is_state s finishing_detached

abbrev pub one_if : Bool → ℕ
one_if b = if b then 1 else 0

-- The number of those that must release the admission, or 1 for the semaphore that has it.
abbrev pub owners : System → ℕ
owners s = one_if s.admission + length s.holders + one_if (task_owns (state_of s.job) s.task)

pub record IsAdmitted (s : System) : Type 0 where
  pub one : owners s ≡ 1
  pub free : (not s.admission || settled (state_of s.job)) ≡ true
  pub task_at : task_fits (state_of s.job) s.task ≡ true
  pub holders_at : all_fit (state_of s.job) s.holders ≡ true
