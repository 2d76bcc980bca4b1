-- ===== src/Recovery.antt =====
-- components/cyberdeck/src/apps/system/cyberdeck_recovery_policy.cpp and its header: boots that did
-- not become ready, safe mode, and the last error of each application. A text in an array is the
-- list of its bytes before the terminator.
pub mod Boots
pub mod Errors
mod Tests
use cyberdeck.Common.{
  ℕ, zero, suc, ◌+◌, ◌-◌, ◌^◌, Bool, true, false, not, ◌&&◌, ◌||◌, List, [], ◌∷◌, ltb, leb, ◌==◌,
  if◌then◌else◌, length, get_or, set, replicate, min, take, same_bytes,
}

abbrev pub max_app_errors : ℕ
max_app_errors = 16

abbrev pub app_id_size : ℕ
app_id_size = 32

abbrev pub error_size : ℕ
error_size = 96

abbrev pub interrupted_boot_limit : ℕ
interrupted_boot_limit = 3

abbrev pub state_version : ℕ
state_version = 1

pub record AppError : Type 0 where
  pub app : List ℕ
  pub message : List ℕ

pub record State : Type 0 where
  pub version : ℕ
  pub interrupted_boots : ℕ
  pub boot_pending : Bool
  pub safe_mode_latched : Bool
  pub errors : List AppError

abbrev pub no_error : AppError
no_error = record { app = []; message = [] }

abbrev pub init : State
init = record {
  version = state_version;
  interrupted_boots = 0;
  boot_pending = false;
  safe_mode_latched = false;
  errors = replicate max_app_errors no_error;
}

-- The bytes before the first that is 0.
unfoldable pub before_nul : List ℕ → List ℕ
before_nul [] = []
before_nul (c ∷ s) = if c == 0 then [] else c ∷ before_nul s

-- What an array of `size` bytes then reads.
unfoldable pub copy_bounded : ℕ → List ℕ → List ℕ
unfolding before_nul
copy_bounded size value = before_nul (take (min (length value) (size - 1)) value)

-- The counter stops at the largest number of 32 bits.
unfoldable pub count_boot : State → State
count_boot s =
    if s.boot_pending && ltb s.interrupted_boots (2 ^ 32 - 1)
    then record s { interrupted_boots = s.interrupted_boots + 1 }
    else s

unfoldable pub begin_boot : State → State × Bool
unfolding count_boot
begin_boot s =
    let known = if not (s.version == state_version) then init else s in
    let counted = record (count_boot known) { boot_pending = true } in
    let latched =
      leb interrupted_boot_limit counted.interrupted_boots || counted.safe_mode_latched in
    (record counted { safe_mode_latched = latched }, latched)

unfoldable pub commit_ready : State → State × Bool
commit_ready s =
    if not (s.version == state_version) || not s.boot_pending
    then (s, false)
    else (record s { boot_pending = false; interrupted_boots = 0 }, true)

unfoldable pub clear_safe_mode : State → State × Bool
clear_safe_mode s =
    if not (s.version == state_version)
    then (s, false)
    else (record s { safe_mode_latched = false; boot_pending = false; interrupted_boots = 0 }, true)

unfoldable pub is_empty : List ℕ → Bool
is_empty [] = true
is_empty (c ∷ s) = false

-- The loop for the slot: that of the application, else the first that is free, else `slot`.
unfoldable pub slot_loop : List AppError → ℕ → List ℕ → ℕ → ℕ
unfolding is_empty
slot_loop [] i app slot = slot
slot_loop (e ∷ errors) i app slot =
    let next = if slot == max_app_errors && is_empty e.app then i else slot in
    if same_bytes e.app app then i else slot_loop errors (i + 1) app next

unfoldable pub record_error : List ℕ → List ℕ → State → State × Bool
unfolding copy_bounded is_empty
record_error app message s =
    let slot = slot_loop s.errors 0 app max_app_errors in
    let entry : AppError = record {
      app = copy_bounded app_id_size app;
      message = copy_bounded error_size message;
    } in
    if is_empty app || leb app_id_size (length app) || leb error_size (length message)
    then (s, false)
    else if slot == max_app_errors
    then (s, false)
    else (record s { errors = set s.errors slot entry }, true)

unfoldable pub find_error : List AppError → List ℕ → List ℕ
find_error [] app = []
find_error (e ∷ errors) app = if same_bytes e.app app then e.message else find_error errors app

unfoldable pub error_for : State → List ℕ → List ℕ
unfolding find_error
error_for s app = find_error s.errors app
