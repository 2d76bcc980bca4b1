-- ===== src/Window/Tests.antt =====
-- The window manager on concrete calls, and its theorems applied to them.
use cyberdeck.Common.{◌≡◌, refl, true, List, [], ◌∷◌, arith}
use cyberdeck.Window.{
  active, ok, expired_context, Context, invalid_slot, is_state, surface_at, init, find, find_app,
  app_slot, state_slot, any_tearing_down, bump_generation, occupy, create, set_state,
  begin_teardown, clear_slot, refocus, remove, validate,
}
use cyberdeck.Window.Calls.{Call, run, step}
use cyberdeck.Window.Invariant.{IsValid}
use cyberdeck.Window.Runs.{run-init-IsValid}
use cyberdeck.Window.Revocation.{begin_teardown-revokes}
use cyberdeck.Window.Creation.{create-fresh}

-- Two applications with a surface each; the first is in focus.
abbrev two : List Call
two = Call.creates 5 ∷ Call.creates 7 ∷ []

-- The context that the first of them was given.
abbrev first : Context
first = record { slot = 0; generation = 1 }

-- The first one is closing, and nothing is in focus.
abbrev closing : List Call
closing = Call.creates 5 ∷ Call.creates 7 ∷ Call.begins_teardown first ∷ []

two_lem :
    ((begin_teardown (run init two) first).1 ≡ ok)
    × ((create (run init two) 9).status ≡ ok)
    × ((create (run init two) 9).context.slot ≡ 2)
unfolding run step init create find_app app_slot state_slot any_tearing_down bump_generation occupy
    begin_teardown find set_state
two_lem = (refl, refl, refl)

closing_lem :
    ((run init closing).focused_slot ≡ invalid_slot)
    × ((remove (run init closing) first).1 ≡ ok)
    × (is_state (surface_at (remove (run init closing) first).0 1).state active ≡ true)
unfolding run step init create find_app app_slot state_slot any_tearing_down bump_generation occupy
    begin_teardown find set_state remove clear_slot refocus
closing_lem = (refl, refl, refl)

two-IsValid : IsValid (run init two)
two-IsValid = run-init-IsValid two (ground arith)

closing-IsValid : IsValid (run init closing)
closing-IsValid = run-init-IsValid closing (ground arith)

-- The slot of the closing surface is used again before the old context is tried.
begin_teardown-revokes_example :
    validate
      (run (begin_teardown (run init two) first).0 (Call.removes first ∷ Call.creates 9 ∷ []))
      first
    ≡ expired_context
begin_teardown-revokes_example =
    begin_teardown-revokes two (Call.removes first ∷ Call.creates 9 ∷ []) first (ground arith)
      two_lem.0

run-init-IsValid_example : IsValid (run init closing)
run-init-IsValid_example = run-init-IsValid closing (ground arith)

create-fresh_example :
    find (create (run init two) 9).manager (create (run init two) 9).context
    ≡ (create (run init two) 9).context.slot
create-fresh_example = (create-fresh (run init two) 9 2 two-IsValid two_lem.1).0
