-- ===== src/Dispatch.antt =====
-- components/cyberdeck/src/platform/display/cyberdeck_lvgl_dispatch_state.cpp and its header: the
-- job that hands a call over to the LVGL task, with its state and token in one word.
pub mod System
pub mod Word
pub mod Admission
pub mod Admitted
pub mod Operations
pub mod Execution
pub mod Runs
pub mod Handover
mod Tests
use cyberdeck.Common.{
  ℕ, zero, suc, ◌+◌, ◌*◌, ◌/◌, ◌%◌, ◌^◌, Bool, true, false, not, ◌||◌, Option, none, some, ltb,
  ◌==◌, if◌then◌else◌,
}

pub data State : Type 0 where
  idle queued running detached finishing finishing_detached done cancelled : State

-- The function and its context, as addresses; 0 is the null pointer.
pub record Payload : Type 0 where
  pub fn : ℕ
  pub ctx : ℕ

pub data AdmissionOwner : Type 0 where
  caller callback : AdmissionOwner

pub record Job : Type 0 where
  pub status : ℕ
  pub result : Bool
  pub payload : Payload

abbrev pub null : Payload
null = record { fn = 0; ctx = 0 }

abbrev pub init_job : Job
init_job = record { status = 0; result = false; payload = null }

-- `token & k_token_mask`.
abbrev pub mask_token : ℕ → ℕ
mask_token token = token % 2 ^ 29

abbrev pub max_settle_spins : ℕ
max_settle_spins = 4096

abbrev pub state_code : State → ℕ
state_code idle = 0
state_code queued = 1
state_code running = 2
state_code detached = 3
state_code finishing = 4
state_code finishing_detached = 5
state_code done = 6
state_code cancelled = 7

-- The cast of three bits to the enumeration.
abbrev pub state_from : ℕ → State
state_from zero = idle
state_from (suc zero) = queued
state_from (suc (suc zero)) = running
state_from (suc (suc (suc zero))) = detached
state_from (suc (suc (suc (suc zero)))) = finishing
state_from (suc (suc (suc (suc (suc zero))))) = finishing_detached
state_from (suc (suc (suc (suc (suc (suc zero)))))) = done
state_from _ = cancelled

abbrev pub is_state : State → State → Bool
is_state a b = state_code a == state_code b

-- The state in the low three bits, the token above them.
unfoldable pub pack : State → ℕ → ℕ
pack s token = mask_token token * 8 + state_code s

unfoldable pub unpack_state : ℕ → State
unpack_state status = state_from (status % 8)

unfoldable pub unpack_token : ℕ → ℕ
unpack_token status = mask_token (status / 8)

abbrev pub is_terminal : State → Bool
is_terminal s = is_state s idle || is_state s done || is_state s cancelled

abbrev pub state_of : Job → State
state_of j = unpack_state j.status

abbrev pub token_of : Job → ℕ
token_of j = unpack_token j.status

-- `compare_exchange_strong` on the word.
unfoldable pub compare_exchange : Job → ℕ → ℕ → Job × Bool
compare_exchange j expected desired =
    if j.status == expected then (record j { status = desired }, true) else (j, false)

-- The pass of `queue` that leaves the loop; a pass whose exchange fails starts again.
unfoldable pub queue : Job → ℕ → Payload → Job × Bool
unfolding compare_exchange
queue j token p =
    if not (is_terminal (state_of j))
    then (j, false)
    else compare_exchange (record j { result = false; payload = p }) j.status (pack queued token)

unfoldable pub start : Job → ℕ → Job × Bool
unfolding compare_exchange
start j token = compare_exchange j (pack queued token) (pack running token)

abbrev pub claimed_payload : Job → Payload
claimed_payload j = j.payload

unfoldable pub cancel : Job → Job × Bool
unfolding compare_exchange
cancel j =
    if not (is_state (state_of j) queued)
    then (j, false)
    else compare_exchange j j.status (pack cancelled (token_of j))

-- The first exchange of `finish`: who releases the admission, or nothing when it is too late. The
-- two stores that follow an exchange are `finish_store` and `finish_publish`.
unfoldable pub finish_claim : Job → Job × Option AdmissionOwner
finish_claim j =
    if is_state (state_of j) running
    then (record j { status = pack finishing (token_of j) }, some caller)
    else if is_state (state_of j) detached
    then (record j { status = pack finishing_detached (token_of j) }, some callback)
    else (j, none)

unfoldable pub finish_store : Job → Bool → Job
finish_store j result = record j { result = result }

unfoldable pub finish_publish : Job → ℕ → Job
finish_publish j token = record j { status = pack done token }

-- `finish` without another thread between its writes.
unfoldable pub finish : Job → Bool → Job × AdmissionOwner
unfolding finish_claim finish_store finish_publish
finish j result = elim (finish_claim j).1 [
  | some owner ↦ (finish_publish (finish_store (finish_claim j).0 result) (token_of j), owner)
  | none ↦ (j, caller)
]

-- What one pass of the loop of `detach_or_observe_done` comes to.
pub data Pass : Type 0 where
  again : ℕ → Pass
  answer : AdmissionOwner → Pass

unfoldable pub detach_pass : Job → ℕ → Job × Pass
detach_pass j spins =
    if is_state (state_of j) running
    then (record j { status = pack detached (token_of j) }, answer callback)
    else if is_state (state_of j) finishing
    then (j, if ltb max_settle_spins (spins + 1) then answer caller else again (spins + 1))
    else if is_state (state_of j) detached || is_state (state_of j) finishing_detached
    then (j, answer callback)
    else (j, answer caller)

abbrev pub is_done : Job → Bool
is_done j = is_state (state_of j) done
