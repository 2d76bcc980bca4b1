-- ===== src/Quota/Bounds.antt =====
-- The quota is never exceeded, and each change is seen in the generation.
use cyberdeck.Common.{
  ℕ, zero, suc, ◌^◌, ◌≤◌, ◌<◌, ◌≡◌, ◌≢◌, refl, ◌∙◌, Bool-cases, inl, inr, true, List, [], ◌∷◌,
  length, replicate, length-set, get_or, set, get_or-set_self, get_or-set_ne, arith,
}
use cyberdeck.Quota.{
  Usage, Quota, max_applications, default_limits, no_usage, init, within, allows, bump, change,
  reserve, revoke, generation, Call, reserves, revokes, step, run,
}

-- Each of the eight amounts is at most its limit.
pub record Fits (u l : Usage) : Type 0 where
  pub resources : u.resources ≤ l.resources
  pub grants : u.grants ≤ l.grants
  pub stack_bytes : u.stack_bytes ≤ l.stack_bytes
  pub queue_depth : u.queue_depth ≤ l.queue_depth
  pub bounded_read_bytes : u.bounded_read_bytes ≤ l.bounded_read_bytes
  pub logger_events : u.logger_events ≤ l.logger_events
  pub output_bytes : u.output_bytes ≤ l.output_bytes
  pub lifecycle_timeout_ms : u.lifecycle_timeout_ms ≤ l.lifecycle_timeout_ms

abbrev pub AllFit : Usage → List Usage → Type 0
AllFit l [] = Unit {0}
AllFit l (u ∷ us) = Fits u l × AllFit l us

pub record IsBounded (q : Quota) : Type 0 where
  pub bounded : AllFit default_limits q.usage
  pub limited : q.limits ≡ default_limits
  pub sizes : (length q.usage ≡ max_applications) × (length q.generations ≡ max_applications)

within-Fits : (u l : Usage) → within u l ≡ true → Fits u l
unfolding within
within-Fits u l h = ground arith

set-AllFit :
    (l u : Usage) (us : List Usage) (i : ℕ) → Fits u l → AllFit l us → AllFit l (set us i u)
set-AllFit l u [] i h k = tt
set-AllFit l u (x ∷ us) zero h k = (h, k.1)
set-AllFit l u (x ∷ us) (suc i) h k = (k.0, set-AllFit l u us i h k.1)

within_none : within no_usage default_limits ≡ true
unfolding within
within_none = refl

replicate-AllFit : (l u : Usage) (n : ℕ) → Fits u l → AllFit l (replicate n u)
replicate-AllFit l u zero h = tt
replicate-AllFit l u (suc n) h = (h, replicate-AllFit l u n h)

change-IsBounded :
    (q : Quota) (app : ℕ) (u : Usage)
    → within u default_limits ≡ true
    → IsBounded q
    → IsBounded (change q app u)
unfolding change
change-IsBounded q app u h b = record {
  bounded = set-AllFit default_limits u q.usage app (within-Fits u default_limits h) b.bounded;
  limited = b.limited;
  sizes = (length-set q.usage app u ∙ b.sizes.0, length-set q.generations app _ ∙ b.sizes.1);
}

step-IsBounded : (q : Quota) (c : Call) → IsBounded q → IsBounded (step q c)
unfolding step reserve revoke allows
step-IsBounded q (reserves app u) b = elim (Bool-cases (within u default_limits)) [
  | inl e ↦ ground (arith, b.limited, change-IsBounded q app u e b)
  | inr e ↦ ground (arith, b.limited, b)
]
step-IsBounded q (revokes app) b = ground (arith, change-IsBounded q app no_usage within_none b, b)

run-keeps : (q : Quota) (cs : List Call) → IsBounded q → IsBounded (run q cs)
unfolding run
run-keeps q [] b = b
run-keeps q (c ∷ cs) b = run-keeps (step q c) cs (step-IsBounded q c b)

-- After any reservations and revocations, of whatever was requested, each of the eight amounts that an
-- application uses is at most the limit of that amount, for every one of the applications.
pub run-IsBounded : (cs : List Call) → IsBounded (run init cs)
run-IsBounded cs = run-keeps init cs start
  where
    start : IsBounded init
    start =
        unfold init in
        record {
          bounded =
              replicate-AllFit default_limits no_usage max_applications
                (within-Fits no_usage default_limits within_none);
          limited = refl;
          sizes = (refl, refl);
        }

bump-ne : (g : ℕ) → g < 2 ^ 64 → (bump g ≢ g) × (0 < bump g)
unfolding bump
bump-ne g h = ground arith

-- A reservation that is granted gives the application another generation, which is not 0, and
-- leaves that of every other application as it is.
pub reserve-generation :
    (q : Quota) (app other : ℕ) (u : Usage)
    → IsBounded q
    → get_or q.generations app 0 < 2 ^ 64
    → app ≢ other
    → (reserve q app u).1 ≡ true
    → (generation (reserve q app u).0 app ≢ generation q app)
      × (0 < generation (reserve q app u).0 app)
      × (generation (reserve q app u).0 other ≡ generation q other)
unfolding reserve allows change generation
reserve-generation q app other u b g n h = ground (
  arith,
  b.sizes,
  bump-ne (get_or q.generations app 0) g,
  length-set q.generations app (bump (get_or q.generations app 0)),
  get_or-set_self q.generations app (bump (get_or q.generations app 0)) 0,
  get_or-set_ne q.generations app other (bump (get_or q.generations app 0)) 0 n,
)
