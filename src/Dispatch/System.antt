-- ===== src/Dispatch/System.antt =====
-- components/cyberdeck/src/platform/display/cyberdeck_lvgl_dispatch.cpp: callers of `run` and the
-- LVGL task, which runs `dispatch_callback`, as processes that interleave at each access to what
-- they share.
use cyberdeck.Common.{
  ℕ, zero, suc, ◌+◌, ◌%◌, ◌^◌, Bool, true, false, not, ◌||◌, Option, none, some, List, [], ◌∷◌,
  get_elem?, ◌==◌, if◌then◌else◌,
}
use cyberdeck.Dispatch.{
  Payload, AdmissionOwner, caller, callback, Job, init_job, mask_token, queue, start,
  claimed_payload, cancel, finish_claim, finish_store, finish_publish, again, answer, detach_pass,
  is_done, token_of,
}

-- Where a caller of `run` stands between the take of the admission and its return: the next access
-- it makes, with its local variables.
pub data Holder : Type 0 where
  admitted : Payload → Holder
  tokened : Payload → ℕ → Holder
  armed waiting expired cancelling grace judging reading withdrawing : ℕ → Holder
  detaching abandoning : ℕ → ℕ → Holder
  leaving : ℕ → Bool → Holder

-- Where the LVGL task stands in `dispatch_callback`.
pub data Task : Type 0 where
  resting : Task
  started : ℕ → Task
  loaded : ℕ → Payload → Task
  ran : ℕ → Bool → Task
  storing : ℕ → Bool → AdmissionOwner → Task
  publishing : ℕ → AdmissionOwner → Task
  signalling releasing : AdmissionOwner → Task

-- The two semaphores, the job and the counter of tokens; the calls that LVGL has yet to make; the
-- processes; and two records of the past, the queued operations and the calls made, latest first.
pub record System : Type 0 where
  pub admission : Bool
  pub done_given : Bool
  pub job : Job
  pub generation : ℕ
  pub pending : List ℕ
  pub holders : List Holder
  pub task : Task
  pub operations : List (ℕ × Payload)
  pub calls : List (ℕ × Payload)

unfoldable pub init : System
init = record {
  admission = true;
  done_given = false;
  job = init_job;
  generation = 0;
  pending = [];
  holders = [];
  task = resting;
  operations = [];
  calls = [];
}

-- `next_token`: the counter and the token. Two tokens in a row are not both 0 under the mask.
unfoldable pub next_token : ℕ → ℕ
next_token g = let t = (g + 1) % 2 ^ 32 in if mask_token t == 0 then (g + 2) % 2 ^ 32 else t

-- The caller goes on from here, or has returned.
abbrev pub Next : Type 0
Next = System × Option Holder

abbrev pub go : System → Holder → Next
go s h = (s, some h)

abbrev if_done : System → Holder → Holder → Next
if_done s h h' = go s (if is_done s.job then h else h')

unfoldable pub after_cancel : System → Holder → Holder → Next
unfolding cancel
after_cancel s h h' =
    (record s { job = (cancel s.job).0 }, some (if (cancel s.job).1 then h else h'))

-- One pass of `detach_or_observe_done`. Its answer `callback` ends `run` without a release.
unfoldable pub after_pass : System → ℕ → (ℕ → Holder) → Holder → Next
unfolding detach_pass
after_pass s spins stay kept = elim (detach_pass s.job spins).1 [
  | again n ↦ (s, some (stay n))
  | answer caller ↦ (s, some kept)
  | answer callback ↦ (record s { job = (detach_pass s.job spins).0 }, none)
]

-- The next access of a caller. `lucky` is what the platform answers where it is asked: that the
-- display was locked and the asynchronous call was taken on, or that a wait has not run out.
unfoldable pub holder_step : Bool → System → Holder → Next
unfolding queue next_token after_cancel after_pass
holder_step lucky s (admitted p) =
    let t = next_token s.generation in
    go (record s { done_given = false; generation = t }) (tokened p t)
holder_step lucky s (tokened p t) =
    if (queue s.job t p).1
    then go (record s { job = (queue s.job t p).0; operations = (t, p) ∷ s.operations }) (armed t)
    else go s (abandoning t 0)
holder_step lucky s (armed t) =
    if lucky then go (record s { pending = t ∷ s.pending }) (waiting t) else go s (withdrawing t)
holder_step lucky s (withdrawing t) = after_cancel s (leaving t false) (abandoning t 0)
holder_step lucky s (abandoning t n) = after_pass s n (abandoning t) (leaving t false)
holder_step lucky s (waiting t) =
    if is_done s.job
    then go s (expired t)
    else if lucky
    then go (record s { done_given = false }) (waiting t)
    else go s (expired t)
holder_step lucky s (expired t) = if_done s (reading t) (cancelling t)
holder_step lucky s (cancelling t) = after_cancel s (leaving t false) (grace t)
holder_step lucky s (grace t) =
    if is_done s.job
    then go s (detaching t 0)
    else if lucky
    then go (record s { done_given = false }) (grace t)
    else go s (detaching t 0)
holder_step lucky s (detaching t n) = after_pass s n (detaching t) (judging t)
holder_step lucky s (judging t) = if_done s (reading t) (leaving t false)
holder_step lucky s (reading t) = go s (leaving t s.job.result)
holder_step lucky s (leaving t success) = (record s { admission = true }, none)

-- The next access of the LVGL task.
unfoldable pub task_step : System → System
unfolding finish_claim finish_store finish_publish
task_step s = elim s.task [
  | resting ↦ s
  | started t ↦ record s { task = loaded t (claimed_payload s.job) }
  | loaded t p ↦
      if p.fn == 0
      then record s { task = ran t false }
      else record s { task = ran t true; calls = (t, p) ∷ s.calls }
  | ran t completed ↦ elim (finish_claim s.job).1 [
    | some owner ↦ record s {
      job = (finish_claim s.job).0;
      task = storing (token_of s.job) completed owner;
    }
    | none ↦ record s { task = signalling caller }
  ]
  | storing t completed owner ↦ record s {
    job = finish_store s.job completed;
    task = publishing t owner;
  }
  | publishing t owner ↦ record s { job = finish_publish s.job t; task = signalling owner }
  | signalling owner ↦ record s { done_given = true; task = releasing owner }
  | releasing caller ↦ record s { task = resting }
  | releasing callback ↦ record s { admission = true; task = resting }
]

unfoldable pub remove_at : ℕ → List ℕ → List ℕ
remove_at i [] = []
remove_at zero (t ∷ ts) = ts
remove_at (suc i) (t ∷ ts) = t ∷ remove_at i ts

-- LVGL starts the call of the token `t`, at place `i` among those it has yet to make.
unfoldable pub begin_callback : System → ℕ → ℕ → System
unfolding start remove_at
begin_callback s i t =
    let d = record s { pending = remove_at i s.pending } in
    if t == 0
    then d
    else if (start s.job t).1
    then record d { job = (start s.job t).0; task = started t }
    else d

unfoldable pub replace_at : ℕ → Option Holder → List Holder → List Holder
replace_at i h [] = []
replace_at zero none (x ∷ xs) = xs
replace_at zero (some h) (x ∷ xs) = h ∷ xs
replace_at (suc i) h (x ∷ xs) = x ∷ replace_at i h xs

pub data Event : Type 0 where
  enters : Payload → Event
  advances : ℕ → Bool → Event
  begins : ℕ → Event
  proceeds : Event

-- A caller enters `run` with arguments that pass its first test, and takes the admission.
unfoldable pub enter : System → Payload → System
enter s p =
    if p.fn == 0 || p.ctx == 0 || not s.admission
    then s
    else record s { admission = false; holders = admitted p ∷ s.holders }

unfoldable pub advance : System → ℕ → Bool → System
unfolding holder_step replace_at
advance s i lucky = elim (get_elem? s.holders i) [
  | none ↦ s
  | some h ↦ record (holder_step lucky s h).0 {
    holders = replace_at i (holder_step lucky s h).1 s.holders;
  }
]

-- The LVGL task makes one call at a time.
unfoldable pub begin : System → ℕ → System
unfolding begin_callback
begin s i = elim s.task [
  | resting ↦ elim (get_elem? s.pending i) [ none ↦ s | some t ↦ begin_callback s i t ]
  | _ ↦ s
]

unfoldable pub step : System → Event → System
step s (enters p) = enter s p
step s (advances i lucky) = advance s i lucky
step s (begins i) = begin s i
step s proceeds = task_step s

unfoldable pub run : System → List Event → System
run s [] = s
run s (e ∷ es) = run (step s e) es
