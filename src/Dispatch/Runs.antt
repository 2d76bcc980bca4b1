-- ===== src/Dispatch/Runs.antt =====
-- The execution of queued operations over whole runs, while the tokens do not come round.
use cyberdeck.Common.{
  ℕ, zero, suc, ◌+◌, ◌^◌, ◌<◌, ◌≤◌, ◌≡◌, Bool, true, Option, none, some, List, [], ◌∷◌, arith,
  get_elem?, Option-cases, inl, inr,
}
use cyberdeck.Dispatch.System.{
  Holder, admitted, System, Event, enters, advances, begins, proceeds, enter, advance, begin,
  begin_callback, task_step, holder_step, replace_at, step, run, init, after_cancel, after_pass,
}
use cyberdeck.Dispatch.Admission.{IsAdmitted}
use cyberdeck.Dispatch.Admitted.{init-IsAdmitted, step-IsAdmitted}
use cyberdeck.Dispatch.Operations.{Subsequence, below, IsFaithful, next_token_lem}
use cyberdeck.Dispatch.Execution.{init-IsFaithful, step-IsFaithful, past-calls}

-- How often callers enter `run`.
abbrev entry : Event → ℕ
entry (enters p) = 1
entry _ = 0

unfoldable pub entries : List Event → ℕ
entries [] = 0
entries (e ∷ es) = entry e + entries es

abbrev draws : Holder → ℕ
draws (admitted p) = 1
draws _ = 0

due : List Holder → ℕ
due [] = 0
due (h ∷ hs) = draws h + due hs

-- The tokens drawn, and those that callers are about to draw.
abbrev drawn : System → ℕ
drawn s = s.generation + due s.holders

due-replace_at :
    (hs : List Holder) (i : ℕ) (h : Holder) (k : Option Holder)
    → get_elem? hs i ≡ some h
    → due (replace_at i k hs) + draws h ≡ due hs + (elim k [ none ↦ 0 | some x ↦ draws x ])
unfolding replace_at due
due-replace_at [] i h k e = ground arith
due-replace_at (x ∷ hs) zero h none e = ground arith
due-replace_at (x ∷ hs) zero h (some y) e = ground arith
due-replace_at (x ∷ hs) (suc i) h k e = omega (arith, due-replace_at hs i h k e)

holder_step-draws :
    (s : System) (lucky : Bool) (h : Holder)
    → suc s.generation < 2 ^ 29
    → (holder_step lucky s h).0.generation
        + (elim (holder_step lucky s h).1 [ none ↦ 0 | some x ↦ draws x ])
      ≡ s.generation + draws h
unfolding holder_step after_cancel after_pass
holder_step-draws s lucky (admitted p) g = ground (arith, next_token_lem s.generation g)
holder_step-draws s lucky _ g = ground arith

advance-drawn :
    (s : System) (i : ℕ) (lucky : Bool)
    → suc s.generation < 2 ^ 29
    → drawn (advance s i lucky) ≤ drawn s
unfolding advance
advance-drawn s i lucky g = elim (Option-cases (get_elem? s.holders i)) [
  | inl e ↦ ground arith
  | inr (h, e) ↦ ground (
    arith,
    holder_step-draws s lucky h g,
    due-replace_at s.holders i h (holder_step lucky s h).1 e,
  )
]

step-drawn :
    (s : System) (e : Event) → suc s.generation < 2 ^ 29 → drawn (step s e) ≤ drawn s + entry e
unfolding step enter begin begin_callback task_step due
step-drawn s (enters p) g = ground arith
step-drawn s (begins i) g = ground arith
step-drawn s proceeds g = ground arith
step-drawn s (advances i lucky) g = omega (arith, advance-drawn s i lucky g)

run-IsFaithful :
    (s : System) (es : List Event)
    → suc (drawn s + entries es) < 2 ^ 29
    → IsAdmitted s
    → IsFaithful s
    → IsFaithful (run s es)
unfolding run entries
run-IsFaithful s [] g a f = f
run-IsFaithful s (e ∷ es) g a f =
    let few : suc s.generation < 2 ^ 29 = omega arith in
    run-IsFaithful (step s e) es (omega (arith, step-drawn s e few)) (step-IsAdmitted s e a)
      (step-IsFaithful s e few a f)

-- However the callers of `run` and the LVGL task interleave, while callers enter fewer than
-- 2 ^ 29 - 1 times: the calls that the LVGL task has made are queued operations, each with the
-- function and the context it was queued with, in the order of the queueing and each once at most;
-- and the tokens of the operations are distinct and rise.
pub run-calls :
    (es : List Event)
    → suc (entries es) < 2 ^ 29
    → Subsequence (run init es).calls (run init es).operations
      × (below (suc (run init es).generation) (run init es).operations ≡ true)
run-calls es g =
    let f =
      run-IsFaithful init es (unfold init due in omega arith) init-IsAdmitted init-IsFaithful in
    (past-calls _ _ _ f.called, f.ordered)
