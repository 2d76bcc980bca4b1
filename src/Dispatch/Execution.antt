-- ===== src/Dispatch/Execution.antt =====
-- Every interleaving calls a queued operation once at most, with its own function and context.
use cyberdeck.Common.{
  ℕ, zero, suc, ◌^◌, ◌<◌, ◌≡◌, inl, inr, refl, sym, ap₂, subst, ◌∙◌, Bool, true, false, Option,
  none, some, List, [], ◌∷◌, arith, get_elem?, Option-cases,
}
use cyberdeck.Dispatch.{
  done, idle, Payload, Job, is_state, state_of, token_of, finish_store, finish_publish,
  unpack_state,
}
use cyberdeck.Dispatch.System.{
  Holder, Task, loaded, ran, publishing, System, Event, enter, advance, begin, begin_callback,
  task_step, holder_step, replace_at, step, init, after_cancel, after_pass,
}
use cyberdeck.Dispatch.Word.{
  queue-state, start-state, cancel-state, finish_claim-state, detach_pass-state, unpack_state-pack,
  unpack_token-pack, mask-token_of,
}
use cyberdeck.Dispatch.Admission.{holder_fits, task_owns, IsAdmitted, all_fit}
use cyberdeck.Dispatch.Operations.{
  Subsequence, nothing, keep, skip, below, all_below, Current, TaskKnows, holder_knows, all_know,
  uncalled, past, tail, IsFaithful, below-le, all_below-le, all_below-remove_at,
  all_below-get_elem?, next_token_lem,
}

pub init-IsFaithful : IsFaithful init
unfolding init below all_below all_know unpack_state
init-IsFaithful = record {
  current = refl;
  task_knows = tt;
  holders_know = refl;
  tokens = refl;
  ordered = refl;
  called = nothing;
}

enter-IsFaithful : (s : System) (p : Payload) → IsFaithful s → IsFaithful (enter s p)
unfolding enter all_know
enter-IsFaithful s p f = ground arith

begin-IsFaithful :
    (s : System) (i : ℕ) → suc s.generation < 2 ^ 29 → IsFaithful s → IsFaithful (begin s i)
unfolding begin begin_callback
begin-IsFaithful s i g f = elim (Option-cases (get_elem? s.pending i)) [
  | inl e ↦ ground arith
  | inr (t, e) ↦ ground (
    arith,
    start-state s.job t,
    all_below-remove_at (suc s.generation) i s.pending f.tokens,
    all_below-get_elem? (suc s.generation) i t s.pending f.tokens e,
  )
]

-- The calls stay among the operations when the one in the job cannot be called any more.
past_all : (calls ops : List (ℕ × Payload)) → Subsequence calls (tail ops) → Subsequence calls ops
past_all calls [] c = c
past_all calls (x ∷ ops) c = skip x c

pub past-calls :
    (calls ops : List (ℕ × Payload)) (b : Bool)
    → Subsequence calls (past b ops)
    → Subsequence calls ops
past-calls calls ops true c = past_all calls ops c
past-calls calls ops false c = c

-- The call that is due is that of the operation in the job.
call_due :
    (j : Job) (t : ℕ) (p : Payload) (calls ops : List (ℕ × Payload))
    → Current j ops
    → is_state (state_of j) idle ≡ false
    → (token_of j ≡ t) × (j.payload ≡ p)
    → Subsequence calls (tail ops)
    → Subsequence ((t, p) ∷ calls) ops
call_due j t p calls [] c n k q = absurd (ground arith)
call_due j t p calls ((u, r) ∷ ops) (d, e, _) n (f, g) q =
    subst (λ x. Subsequence (x ∷ calls) ((u, r) ∷ ops))
      (ap₂ (λ a b. (a, b)) (sym d ∙ f) (sym e ∙ g)) (keep (u, r) q)

task_step-IsFaithful : (s : System) → IsAdmitted s → IsFaithful s → IsFaithful (task_step s)
unfolding task_step finish_store finish_publish
task_step-IsFaithful s a f = by_task s.task refl
  where
    by_task : (t : Task) → s.task ≡ t → IsFaithful (task_step s)
    by_task (loaded t p) e =
        ground
          (arith, past_all s.calls s.operations, call_due s.job t p s.calls s.operations f.current)
    by_task (ran t c) e = ground (arith, finish_claim-state s.job)
    by_task (publishing t owner) e =
        ground
          (arith, unpack_state-pack done t, unpack_token-pack done t, mask-token_of s.job.status)
    by_task _ e = ground arith

-- What is left of a system when a caller has moved.
record StaysFaithful (n : System) (h : Option Holder) : Type 0 where
  current : Current n.job n.operations
  task_knows : TaskKnows n.job n.task
  holder_knows_it :
      (elim h [ none ↦ true | some k ↦ holder_knows n.generation n.operations k ]) ≡ true
  tokens : all_below (suc n.generation) n.pending ≡ true
  ordered : below (suc n.generation) n.operations ≡ true
  called : Subsequence n.calls (past (uncalled n) n.operations)

module _ (s : System) (a : IsAdmitted s) (f : IsFaithful s) where
  after_cancel-StaysFaithful :
      (h k : Holder)
      → holder_knows s.generation s.operations h ≡ true
      → holder_knows s.generation s.operations k ≡ true
      → StaysFaithful (after_cancel s h k).0 (after_cancel s h k).1
  unfolding after_cancel
  after_cancel-StaysFaithful h k p q =
      ground (arith, cancel-state s.job, past_all s.calls s.operations, f.current)

  after_pass-StaysFaithful :
      (n : ℕ) (stay : ℕ → Holder) (kept : Holder)
      → holder_knows s.generation s.operations (stay (suc n)) ≡ true
      → holder_knows s.generation s.operations kept ≡ true
      → StaysFaithful (after_pass s n stay kept).0 (after_pass s n stay kept).1
  unfolding after_pass
  after_pass-StaysFaithful n stay kept p q = ground (arith, detach_pass-state s.job n)

  holder_step-StaysFaithful :
      (lucky : Bool) (h : Holder)
      → suc s.generation < 2 ^ 29
      → task_owns (state_of s.job) s.task ≡ false
      → holder_fits (state_of s.job) h ≡ true
      → holder_knows s.generation s.operations h ≡ true
      → StaysFaithful (holder_step lucky s h).0 (holder_step lucky s h).1
  unfolding holder_step below all_below
  holder_step-StaysFaithful lucky (Holder.admitted p) g o b k = ground (
    arith,
    next_token_lem s.generation g,
    below-le (suc s.generation) (suc (suc s.generation)) s.operations,
    all_below-le (suc s.generation) (suc (suc s.generation)) s.pending,
  )
  holder_step-StaysFaithful lucky (Holder.tokened p t) g o b k =
      ground (arith, queue-state s.job t p)
  holder_step-StaysFaithful lucky (Holder.withdrawing t) g o b k =
      after_cancel-StaysFaithful (Holder.leaving t false) (Holder.abandoning t 0) refl refl
  holder_step-StaysFaithful lucky (Holder.cancelling t) g o b k =
      after_cancel-StaysFaithful (Holder.leaving t false) (Holder.grace t) refl refl
  holder_step-StaysFaithful lucky (Holder.abandoning t n) g o b k =
      after_pass-StaysFaithful n (Holder.abandoning t) (Holder.leaving t false) refl refl
  holder_step-StaysFaithful lucky (Holder.detaching t n) g o b k =
      after_pass-StaysFaithful n (Holder.detaching t) (Holder.judging t) refl refl
  holder_step-StaysFaithful lucky _ g o b k = ground arith

advance-IsFaithful :
    (s : System) (i : ℕ) (lucky : Bool)
    → suc s.generation < 2 ^ 29
    → IsAdmitted s
    → IsFaithful s
    → IsFaithful (advance s i lucky)
unfolding advance replace_at all_know all_fit
advance-IsFaithful s i lucky g a f = by_holders s.holders i refl
  where
    moved :
        (h : Holder)
        → s.holders ≡ h ∷ []
        → StaysFaithful (holder_step lucky s h).0 (holder_step lucky s h).1
    moved h e =
        let at : holder_fits (state_of s.job) h ≡ true = ground (arith, a.holders_at) in
        let knows : holder_knows s.generation s.operations h ≡ true =
          ground (arith, f.holders_know) in
        holder_step-StaysFaithful s a f lucky h g (ground (arith, a.one)) at knows

    by_holders : (hs : List Holder) (i : ℕ) → s.holders ≡ hs → IsFaithful (advance s i lucky)
    by_holders [] i e = ground arith
    by_holders (h ∷ []) zero e = ground (arith, moved h e)
    by_holders (h ∷ []) (suc i) e = ground arith
    by_holders (h ∷ k ∷ hs) i e = absurd (ground (arith, a.one))

pub step-IsFaithful :
    (s : System) (e : Event)
    → suc s.generation < 2 ^ 29
    → IsAdmitted s
    → IsFaithful s
    → IsFaithful (step s e)
unfolding step
step-IsFaithful s (Event.enters p) g a f = enter-IsFaithful s p f
step-IsFaithful s (Event.advances i lucky) g a f = advance-IsFaithful s i lucky g a f
step-IsFaithful s (Event.begins i) g a f = begin-IsFaithful s i g f
step-IsFaithful s Event.proceeds g a f = task_step-IsFaithful s a f
