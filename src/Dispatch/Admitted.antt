-- ===== src/Dispatch/Admitted.antt =====
-- Every interleaving keeps one owner of the admission.
use cyberdeck.Common.{
  ℕ, zero, suc, ◌+◌, ◌≡◌, inl, inr, refl, Bool, true, false, not, ◌||◌, Option, none, some, List,
  [], ◌∷◌, Option-cases, arith, get_elem?,
}
use cyberdeck.Dispatch.{
  State, queued, running, detached, finishing, finishing_detached, done, cancelled, Payload,
  is_state, state_of, finish_store, finish_publish, unpack_state,
}
use cyberdeck.Dispatch.System.{
  Holder, Task, resting, ran, publishing, signalling, releasing, System, Event, enter, advance,
  begin, begin_callback, task_step, holder_step, replace_at, step, run, init, after_cancel,
  after_pass,
}
use cyberdeck.Dispatch.Word.{
  queue-state, start-state, cancel-state, finish_claim-state, detach_pass-state, unpack_state-pack,
}
use cyberdeck.Dispatch.Admission.{
  settled, task_fits, holder_fits, all_fit, task_owns, owners, IsAdmitted, one_if,
}

pub init-IsAdmitted : IsAdmitted init
unfolding init all_fit unpack_state
init-IsAdmitted = ground arith

enter-IsAdmitted : (s : System) (p : Payload) → IsAdmitted s → IsAdmitted (enter s p)
unfolding enter all_fit
enter-IsAdmitted s p a = ground arith

-- A step of the job that the LVGL task makes suits every caller.
abbrev follows : State → State → Bool
follows queued running = true
follows running finishing = true
follows detached finishing_detached = true
follows finishing done = true
follows finishing_detached done = true
follows _ _ = false

holder_fits-follows :
    (s t : State) (h : Holder)
    → follows s t ≡ true
    → holder_fits s h ≡ true
    → holder_fits t h ≡ true
holder_fits-follows s t h f e = ground arith

all_fit-follows :
    (s t : State) (hs : List Holder)
    → follows s t ≡ true
    → all_fit s hs ≡ true
    → all_fit t hs ≡ true
unfolding all_fit
all_fit-follows s t [] f e = refl
all_fit-follows s t (h ∷ hs) f e =
    ground (arith, holder_fits-follows s t h f, all_fit-follows s t hs f)

-- What is left of a system when a caller has moved: the caller's part of the invariant.
record MovesOn (n : System) (h : Option Holder) : Type 0 where
  one :
      one_if n.admission
        + (elim h [ none ↦ 0 | some k ↦ 1 ])
        + one_if (task_owns (state_of n.job) n.task)
      ≡ 1
  free : (not n.admission || settled (state_of n.job)) ≡ true
  task_at : task_fits (state_of n.job) n.task ≡ true
  holder_at : (elim h [ none ↦ true | some k ↦ holder_fits (state_of n.job) k ]) ≡ true

module _ (s : System) (closed : s.admission ≡ false)
    (task_at : task_fits (state_of s.job) s.task ≡ true)
    (unowned : task_owns (state_of s.job) s.task ≡ false) where
  after_cancel-MovesOn :
      (h k : Holder)
      → holder_fits cancelled h ≡ true
      → (is_state (state_of s.job) queued ≡ false → holder_fits (state_of s.job) k ≡ true)
      → MovesOn (after_cancel s h k).0 (after_cancel s h k).1
  unfolding after_cancel
  after_cancel-MovesOn h k f g = ground (arith, cancel-state s.job)

  after_pass-MovesOn :
      (n : ℕ) (stay : ℕ → Holder) (kept : Holder)
      → (is_state (state_of s.job) finishing ≡ true
          → holder_fits (state_of s.job) (stay (suc n)) ≡ true)
      → (is_state (state_of s.job) running ≡ false → holder_fits (state_of s.job) kept ≡ true)
      → MovesOn (after_pass s n stay kept).0 (after_pass s n stay kept).1
  unfolding after_pass
  after_pass-MovesOn n stay kept f g = ground (arith, detach_pass-state s.job n)

  holder_step-MovesOn :
      (lucky : Bool) (h : Holder)
      → holder_fits (state_of s.job) h ≡ true
      → MovesOn (holder_step lucky s h).0 (holder_step lucky s h).1
  unfolding holder_step
  holder_step-MovesOn lucky (Holder.tokened p t) f = ground (arith, queue-state s.job t p)
  holder_step-MovesOn lucky (Holder.withdrawing t) f =
      after_cancel-MovesOn (Holder.leaving t false) (Holder.abandoning t 0) (ground arith)
        (λ e. ground arith)
  holder_step-MovesOn lucky (Holder.cancelling t) f =
      after_cancel-MovesOn (Holder.leaving t false) (Holder.grace t) (ground arith)
        (λ e. ground arith)
  holder_step-MovesOn lucky (Holder.abandoning t n) f =
      after_pass-MovesOn n (Holder.abandoning t) (Holder.leaving t false) (λ e. ground arith)
        (λ e. ground arith)
  holder_step-MovesOn lucky (Holder.detaching t n) f =
      after_pass-MovesOn n (Holder.detaching t) (Holder.judging t) (λ e. ground arith)
        (λ e. ground arith)
  holder_step-MovesOn lucky _ f = ground arith

task_step-IsAdmitted : (s : System) → IsAdmitted s → IsAdmitted (task_step s)
unfolding task_step finish_store finish_publish
task_step-IsAdmitted s a = by_task s.task refl
  where
    by_task : (t : Task) → s.task ≡ t → IsAdmitted (task_step s)
    by_task (ran t c) e = ground (
      arith,
      finish_claim-state s.job,
      all_fit-follows running finishing s.holders refl,
      all_fit-follows detached finishing_detached s.holders refl,
    )
    by_task (publishing t owner) e = ground (
      arith,
      unpack_state-pack done t,
      all_fit-follows finishing done s.holders refl,
      all_fit-follows finishing_detached done s.holders refl,
    )
    by_task (signalling owner) e = ground arith
    by_task (releasing owner) e = ground arith
    by_task _ e = ground arith

begin-IsAdmitted : (s : System) (i : ℕ) → IsAdmitted s → IsAdmitted (begin s i)
unfolding begin begin_callback
begin-IsAdmitted s i a = elim (Option-cases (get_elem? s.pending i)) [
  | inl e ↦ ground arith
  | inr (t, e) ↦ ground (arith, start-state s.job t, all_fit-follows queued running s.holders refl)
]

advance-IsAdmitted :
    (s : System) (i : ℕ) (lucky : Bool) → IsAdmitted s → IsAdmitted (advance s i lucky)
unfolding advance replace_at all_fit
advance-IsAdmitted s i lucky a = by_holders s.holders i refl
  where
    moved :
        (h : Holder)
        → s.holders ≡ h ∷ []
        → MovesOn (holder_step lucky s h).0 (holder_step lucky s h).1
    moved h e = holder_step-MovesOn s (ground arith) a.task_at (ground arith) lucky h (ground arith)

    by_holders : (hs : List Holder) (i : ℕ) → s.holders ≡ hs → IsAdmitted (advance s i lucky)
    by_holders [] i e = ground arith
    by_holders (h ∷ []) zero e = ground (arith, moved h e)
    by_holders (h ∷ []) (suc i) e = ground arith
    by_holders (h ∷ k ∷ hs) i e = absurd (ground arith)

pub step-IsAdmitted : (s : System) (e : Event) → IsAdmitted s → IsAdmitted (step s e)
unfolding step
step-IsAdmitted s (Event.enters p) a = enter-IsAdmitted s p a
step-IsAdmitted s (Event.advances i lucky) a = advance-IsAdmitted s i lucky a
step-IsAdmitted s (Event.begins i) a = begin-IsAdmitted s i a
step-IsAdmitted s Event.proceeds a = task_step-IsAdmitted s a

run-IsAdmitted : (s : System) (es : List Event) → IsAdmitted s → IsAdmitted (run s es)
unfolding run
run-IsAdmitted s [] a = a
run-IsAdmitted s (e ∷ es) a = run-IsAdmitted (step s e) es (step-IsAdmitted s e a)

-- However the callers of `run` and the LVGL task interleave, and whatever the platform answers them,
-- the admission has exactly one owner: the semaphore, one caller that has not returned, or the
-- LVGL task after a caller has left it the job. While the semaphore has it the job is
-- idle, done, cancelled or about to be done.
pub run-one_owner :
    (es : List Event)
    → (owners (run init es) ≡ 1)
      × ((not (run init es).admission || settled (state_of (run init es).job)) ≡ true)
run-one_owner es = let a = run-IsAdmitted init es init-IsAdmitted in (a.one, a.free)

-- The admission is never lost: when every caller has returned and the LVGL task rests, the
-- semaphore has it.
pub run-released :
    (es : List Event)
    → (run init es).holders ≡ []
    → (run init es).task ≡ resting
    → (run init es).admission ≡ true
run-released es h t = let a = run-IsAdmitted init es init-IsAdmitted in ground arith
