-- ===== src/Dispatch/Tests.antt =====
-- The dispatch of calls to the LVGL task on concrete runs, and its theorems applied to them.
use cyberdeck.Common.{◌≡◌, refl, true, false, List, [], ◌∷◌, arith}
use cyberdeck.Dispatch.{
  Payload, Job, running, queued, state_of, pack, unpack_state, unpack_token, start, queue, cancel,
  compare_exchange, finish_claim, finish_store, finish_publish, detach_pass,
}
use cyberdeck.Dispatch.System.{
  Event, enters, advances, begins, proceeds, resting, run, init, step, enter, advance, begin,
  begin_callback, holder_step, task_step, replace_at, remove_at, after_cancel, after_pass,
  next_token,
}
use cyberdeck.Dispatch.Word.{pack-unpack}
use cyberdeck.Dispatch.Admission.{owners}
use cyberdeck.Dispatch.Admitted.{run-one_owner}
use cyberdeck.Dispatch.Operations.{Subsequence}
use cyberdeck.Dispatch.Runs.{entries, run-calls}

abbrev action : Payload
action = record { fn = 4096; ctx = 8192 }

-- A caller enters, its job is queued and handed to LVGL, and the LVGL task makes the call.
abbrev called : List Event
called =
    enters action
    ∷ advances 0 true
    ∷ advances 0 true
    ∷ advances 0 true
    ∷ begins 0
    ∷ proceeds
    ∷ proceeds
    ∷ []

-- The caller gives up while the call is running; the LVGL task finishes and releases.
abbrev left : List Event
left =
    enters action
    ∷ advances 0 true
    ∷ advances 0 true
    ∷ advances 0 true
    ∷ begins 0
    ∷ proceeds
    ∷ advances 0 false
    ∷ advances 0 true
    ∷ advances 0 true
    ∷ advances 0 false
    ∷ advances 0 true
    ∷ proceeds
    ∷ proceeds
    ∷ proceeds
    ∷ proceeds
    ∷ proceeds
    ∷ proceeds
    ∷ []

called_lem : (run init called).calls ≡ (1, action) ∷ []
unfolding run init step enter advance begin begin_callback holder_step task_step replace_at
    remove_at after_cancel after_pass next_token start queue cancel compare_exchange finish_claim
    finish_store finish_publish detach_pass pack unpack_state unpack_token
called_lem = refl

left_lem : ((run init left).holders ≡ []) × ((run init left).task ≡ resting)
unfolding run init step enter advance begin begin_callback holder_step task_step replace_at
    remove_at after_cancel after_pass next_token start queue cancel compare_exchange finish_claim
    finish_store finish_publish detach_pass pack unpack_state unpack_token
left_lem = (refl, refl)

run-one_owner_example : owners (run init called) ≡ 1
run-one_owner_example = (run-one_owner called).0

run-calls_example : Subsequence (run init called).calls (run init called).operations
run-calls_example = (run-calls called (unfold entries in ground arith)).0

pack-unpack_example : unpack_token (pack queued 77) ≡ 77
pack-unpack_example = (pack-unpack queued 77 617 (ground arith)).2

-- A running job of the token 5.
abbrev at_work : Job
at_work = record { status = 42; result = false; payload = action }

at_work-running : state_of at_work ≡ running
unfolding unpack_state
at_work-running = refl
