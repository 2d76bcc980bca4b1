-- ===== src/Dispatch/Handover.antt =====
-- A callback that finishes and a caller that detaches, one after the other.
use cyberdeck.Common.{ℕ, ◌≡◌, Bool, true, arith}
use cyberdeck.Dispatch.{
  running, detached, done, Job, caller, callback, answer, state_of, token_of, finish, finish_claim,
  finish_store, finish_publish, detach_pass, is_done,
}
use cyberdeck.Dispatch.Word.{unpack_state-pack, unpack_token-pack, mask-token_of}

-- On a running job, whichever comes first decides who releases the admission, and both are told the
-- same: the callback after a detach, the caller otherwise. The job ends done, with its result and
-- its token.
pub finish-detach_pass :
    (j : Job) (n : ℕ) (r : Bool)
    → state_of j ≡ running
    → ((detach_pass j n).1 ≡ answer callback)
      × ((finish (detach_pass j n).0 r).1 ≡ callback)
      × ((finish j r).1 ≡ caller)
      × ((detach_pass (finish j r).0 n).1 ≡ answer caller)
      × (is_done (finish j r).0 ≡ true)
      × (is_done (finish (detach_pass j n).0 r).0 ≡ true)
      × ((finish (detach_pass j n).0 r).0.result ≡ r)
      × (token_of (finish (detach_pass j n).0 r).0 ≡ token_of j)
unfolding finish finish_claim finish_store finish_publish detach_pass
finish-detach_pass j n r e = ground (
  arith,
  unpack_state-pack detached (token_of j),
  unpack_token-pack detached (token_of j),
  unpack_state-pack done (token_of j),
  unpack_token-pack done (token_of j),
  mask-token_of j.status,
)
