-- ===== src/Dispatch/Word.antt =====
-- The packed word of a job, and what each operation makes of its state and its token.
use cyberdeck.Common.{
  ℕ, zero, suc, ◌+◌, ◌*◌, ◌%◌, ◌^◌, ◌<◌, ◌≡◌, ◌||◌, ◌⊎◌, refl, true, false, none, some, arith,
}
use cyberdeck.Dispatch.{
  State, idle, queued, running, detached, finishing, finishing_detached, cancelled, Payload, Job,
  caller, callback, mask_token, state_code, state_from, is_state, is_terminal, pack, unpack_state,
  unpack_token, state_of, token_of, queue, start, cancel, finish_claim, detach_pass, again, answer,
  compare_exchange,
}

pub state_from-code : (s : State) → state_from (state_code s) ≡ s
state_from-code idle = refl
state_from-code _ = refl

pub state_code_lt : (s : State) → state_code s < 8
state_code_lt s = ground arith

pub unpack_state-pack : (s : State) (t : ℕ) → unpack_state (pack s t) ≡ s
unfolding pack unpack_state
unpack_state-pack s t =
    let low : (mask_token t * 8 + state_code s) % 8 ≡ state_code s =
      omega (arith, state_code_lt s) in
    rw low (state_from-code s)

pub unpack_token-pack : (s : State) (t : ℕ) → unpack_token (pack s t) ≡ mask_token t
unfolding pack unpack_token
unpack_token-pack s t = omega (arith, state_code_lt s)

state_code-from : (n : ℕ) → n < 8 → state_code (state_from n) ≡ n
state_code-from zero h = refl
state_code-from (suc zero) h = refl
state_code-from (suc (suc zero)) h = refl
state_code-from (suc (suc (suc zero))) h = refl
state_code-from (suc (suc (suc (suc zero)))) h = refl
state_code-from (suc (suc (suc (suc (suc zero))))) h = refl
state_code-from (suc (suc (suc (suc (suc (suc zero)))))) h = refl
state_code-from (suc (suc (suc (suc (suc (suc (suc zero))))))) h = refl
state_code-from (suc (suc (suc (suc (suc (suc (suc (suc n)))))))) h = absurd (omega arith)

pub pack-lt : (s : State) (t : ℕ) → pack s t < 2 ^ 32
unfolding pack
pack-lt s t = omega (arith, state_code_lt s)

-- A word of 32 bits is its state and its token packed, and a packed state comes back out of the
-- word, as does the token under its mask of 29 bits.
pub pack-unpack :
    (s : State) (t w : ℕ)
    → w < 2 ^ 32
    → (pack (unpack_state w) (unpack_token w) ≡ w)
      × (unpack_state (pack s t) ≡ s)
      × (unpack_token (pack s t) ≡ t % 2 ^ 29)
      × (pack s t < 2 ^ 32)
pack-unpack s t w h = (whole, unpack_state-pack s t, unpack_token-pack s t, pack-lt s t)
  where
    whole : pack (unpack_state w) (unpack_token w) ≡ w
    whole =
        unfold pack unpack_state unpack_token in
        let low = state_code-from (w % 8) (omega arith) in omega (arith, low)

pub mask-token_of : (w : ℕ) → mask_token (unpack_token w) ≡ unpack_token w
unfolding unpack_token
mask-token_of w = omega arith

-- What the operations do to the state, where they do anything.
pub queue-state :
    (j : Job) (t : ℕ) (p : Payload)
    → ((is_terminal (state_of j) ≡ true)
        × ((queue j t p).1 ≡ true)
        × (state_of (queue j t p).0 ≡ queued)
        × (token_of (queue j t p).0 ≡ mask_token t)
        × ((queue j t p).0.payload ≡ p))
      ⊎ ((is_terminal (state_of j) ≡ false) × (queue j t p ≡ (j, false)))
unfolding queue compare_exchange
queue-state j t p = ground (arith, unpack_state-pack queued t, unpack_token-pack queued t)

pub start-state :
    (j : Job) (t : ℕ)
    → ((state_of j ≡ queued)
        × (token_of j ≡ mask_token t)
        × ((start j t).1 ≡ true)
        × (state_of (start j t).0 ≡ running)
        × (token_of (start j t).0 ≡ mask_token t)
        × ((start j t).0.payload ≡ j.payload))
      ⊎ (start j t ≡ (j, false))
unfolding start compare_exchange
start-state j t = ground (
  arith,
  unpack_state-pack queued t,
  unpack_token-pack queued t,
  unpack_state-pack running t,
  unpack_token-pack running t,
)

pub cancel-state :
    (j : Job)
    → ((state_of j ≡ queued)
        × ((cancel j).1 ≡ true)
        × (state_of (cancel j).0 ≡ cancelled)
        × (token_of (cancel j).0 ≡ token_of j)
        × ((cancel j).0.payload ≡ j.payload))
      ⊎ ((is_state (state_of j) queued ≡ false) × (cancel j ≡ (j, false)))
unfolding cancel compare_exchange
cancel-state j = ground (
  arith,
  unpack_state-pack cancelled (token_of j),
  unpack_token-pack cancelled (token_of j),
  mask-token_of j.status,
)

pub finish_claim-state :
    (j : Job)
    → ((state_of j ≡ running)
        × ((finish_claim j).1 ≡ some caller)
        × (state_of (finish_claim j).0 ≡ finishing)
        × (token_of (finish_claim j).0 ≡ token_of j)
        × ((finish_claim j).0.payload ≡ j.payload))
      ⊎ ((state_of j ≡ detached)
          × ((finish_claim j).1 ≡ some callback)
          × (state_of (finish_claim j).0 ≡ finishing_detached)
          × (token_of (finish_claim j).0 ≡ token_of j)
          × ((finish_claim j).0.payload ≡ j.payload))
      ⊎ ((is_state (state_of j) running ≡ false)
          × (is_state (state_of j) detached ≡ false)
          × (finish_claim j ≡ (j, none)))
unfolding finish_claim
finish_claim-state j = ground (
  arith,
  unpack_state-pack finishing (token_of j),
  unpack_token-pack finishing (token_of j),
  unpack_state-pack finishing_detached (token_of j),
  unpack_token-pack finishing_detached (token_of j),
  mask-token_of j.status,
)

-- A pass of the detach loop: it detaches a running job, waits for one that is finishing, or leaves
-- the job as it is and says who releases the admission.
pub detach_pass-state :
    (j : Job) (n : ℕ)
    → ((state_of j ≡ running)
        × ((detach_pass j n).1 ≡ answer callback)
        × (state_of (detach_pass j n).0 ≡ detached)
        × (token_of (detach_pass j n).0 ≡ token_of j)
        × ((detach_pass j n).0.payload ≡ j.payload))
      ⊎ ((state_of j ≡ finishing)
          × ((detach_pass j n ≡ (j, answer caller)) ⊎ (detach_pass j n ≡ (j, again (n + 1)))))
      ⊎ (((is_state (state_of j) detached || is_state (state_of j) finishing_detached) ≡ true)
          × (detach_pass j n ≡ (j, answer callback)))
      ⊎ (((is_state (state_of j) detached || is_state (state_of j) finishing_detached) ≡ false)
          × (is_state (state_of j) running ≡ false)
          × (detach_pass j n ≡ (j, answer caller)))
unfolding detach_pass
detach_pass-state j n = ground (
  arith,
  unpack_state-pack detached (token_of j),
  unpack_token-pack detached (token_of j),
  mask-token_of j.status,
)
