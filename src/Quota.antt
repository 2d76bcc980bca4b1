-- ===== src/Quota.antt =====
-- components/cyberdeck/src/apps/runtime/cyberdeck_app_quota.cpp and its header: what each
-- application may use, with a generation that tells one reservation from the next.
pub mod Bounds
mod Tests
use cyberdeck.Common.{
  ℕ, zero, suc, ◌+◌, ◌%◌, ◌^◌, Bool, true, false, not, ◌&&◌, ◌||◌, List, [], ◌∷◌, length, get_or,
  set, replicate, ltb, leb, ◌==◌, if◌then◌else◌,
}

-- The fields of `quota_usage`, which are those of `quota_limits` too.
pub record Usage : Type 0 where
  pub resources : ℕ
  pub grants : ℕ
  pub stack_bytes : ℕ
  pub queue_depth : ℕ
  pub bounded_read_bytes : ℕ
  pub logger_events : ℕ
  pub output_bytes : ℕ
  pub lifecycle_timeout_ms : ℕ

pub record Quota : Type 0 where
  pub usage : List Usage
  pub generations : List ℕ
  pub limits : Usage

abbrev pub max_applications : ℕ
max_applications = 16

-- The default limits.
abbrev pub default_limits : Usage
default_limits = record {
  resources = 8;
  grants = 8;
  stack_bytes = 16384;
  queue_depth = 8;
  bounded_read_bytes = 12288;
  logger_events = 64;
  output_bytes = 12288;
  lifecycle_timeout_ms = 8000;
}

abbrev pub no_usage : Usage
no_usage = record {
  resources = 0;
  grants = 0;
  stack_bytes = 0;
  queue_depth = 0;
  bounded_read_bytes = 0;
  logger_events = 0;
  output_bytes = 0;
  lifecycle_timeout_ms = 0;
}

pub init : Quota
init = record {
  usage = replicate max_applications no_usage;
  generations = replicate max_applications 0;
  limits = default_limits;
}

pub within : Usage → Usage → Bool
within value limits =
    leb value.resources limits.resources
    && leb value.grants limits.grants
    && leb value.stack_bytes limits.stack_bytes
    && leb value.queue_depth limits.queue_depth
    && leb value.bounded_read_bytes limits.bounded_read_bytes
    && leb value.logger_events limits.logger_events
    && leb value.output_bytes limits.output_bytes
    && leb value.lifecycle_timeout_ms limits.lifecycle_timeout_ms

pub allows : Quota → ℕ → Usage → Bool
unfolding within
allows q app requested = ltb app (length q.usage) && within requested q.limits

-- `++generation`, over 64 bits and without the value 0.
pub bump : ℕ → ℕ
bump g = let g' = (g + 1) % 2 ^ 64 in if g' == 0 then g' + 1 else g'

pub change : Quota → ℕ → Usage → Quota
unfolding bump
change q app u = record q {
  usage = set q.usage app u;
  generations = set q.generations app (bump (get_or q.generations app 0));
}

pub reserve : Quota → ℕ → Usage → Quota × Bool
unfolding allows change
reserve q app requested =
    if not (allows q app requested) then (q, false) else (change q app requested, true)

pub revoke : Quota → ℕ → Quota
unfolding change
revoke q app = if not (ltb app (length q.usage)) then q else change q app no_usage

pub generation : Quota → ℕ → ℕ
generation q app = if ltb app (length q.generations) then get_or q.generations app 0 else 0

pub data Call : Type 0 where
  reserves : ℕ → Usage → Call
  revokes : ℕ → Call

pub step : Quota → Call → Quota
unfolding reserve revoke
step q (reserves app u) = (reserve q app u).0
step q (revokes app) = revoke q app

pub run : Quota → List Call → Quota
unfolding step
run q [] = q
run q (c ∷ cs) = run (step q c) cs
