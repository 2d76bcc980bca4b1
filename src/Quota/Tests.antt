-- ===== src/Quota/Tests.antt =====
-- The quota on concrete calls, and its theorems applied to them.
use cyberdeck.Common.{◌≡◌, refl, true, get_or, List, [], ◌∷◌}
use cyberdeck.Quota.{
  Usage, no_usage, init, within, allows, reserve, revoke, change, Call, reserves, revokes, step,
  run,
}
use cyberdeck.Quota.Bounds.{IsBounded, run-IsBounded}

abbrev small : Usage
small = record no_usage { resources = 3; stack_bytes = 4096 }

abbrev used : List Call
used = reserves 2 small ∷ reserves 3 (record small { grants = 9 }) ∷ revokes 2 ∷ []

used_lem :
    ((reserve (run init used) 4 small).1 ≡ true) × (get_or (run init used).generations 4 0 ≡ 0)
unfolding run step init reserve revoke allows change within
used_lem = (refl, refl)

run-IsBounded_example : IsBounded (run init used)
run-IsBounded_example = run-IsBounded used
