-- ===== src/Recovery/Tests.antt =====
-- The recovery policy on concrete boots and errors, and its theorems applied to them.
use cyberdeck.Common.{ℕ, ◌≡◌, ◌≢◌, refl, ap, true, false, List, [], ◌∷◌, leb, arith, length, get_or}
use cyberdeck.Recovery.{
  State, init, interrupted_boot_limit, begin_boot, count_boot, commit_ready, record_error,
  error_for, slot_loop, is_empty, copy_bounded, before_nul,
}
use cyberdeck.Recovery.Boots.{
  boots, boots-latched, Call, boot, ready, failed, run, step, run-latched, has_clear, is_clear,
}
use cyberdeck.Recovery.Errors.{error_for-record_error}

boots-latched_example : (boots 4 init).safe_mode_latched ≡ leb interrupted_boot_limit 3
boots-latched_example = (boots-latched 3 init refl refl refl refl (omega arith)).1

-- Three boots without readiness, and one that becomes ready.
recovers : (begin_boot (run init (boot ∷ boot ∷ boot ∷ ready ∷ []))).1 ≡ false
unfolding run step begin_boot count_boot commit_ready
recovers = refl

abbrev unsafe : State
unsafe = (run init (boot ∷ boot ∷ boot ∷ boot ∷ []))

abbrev after : List Call
after = ready ∷ failed (97 ∷ []) (98 ∷ []) ∷ boot ∷ []

run-latched_example : (begin_boot (run unsafe after)).1 ≡ true
run-latched_example =
    (run-latched after unsafe (unfold has_clear is_clear in refl) at_version is_latched).1
  where
    at_version : unsafe.version ≡ 1
    at_version = unfold run step begin_boot count_boot in refl

    is_latched : unsafe.safe_mode_latched ≡ true
    is_latched = unfold run step begin_boot count_boot in refl

abbrev noted : State
noted = (record_error (97 ∷ []) (101 ∷ []) init).0

abbrev noted_twice : State
noted_twice = (record_error (98 ∷ []) (102 ∷ []) noted).0

twice_lem : record_error (98 ∷ []) (102 ∷ []) noted ≡ (noted_twice, true)
unfolding record_error slot_loop is_empty copy_bounded before_nul
twice_lem = refl

abbrev a : List ℕ
a = 97 ∷ []

abbrev b : List ℕ
b = 98 ∷ []

b-ne-a : b ≢ a
b-ne-a e = absurd (ground (arith, ap (λ (t : List ℕ). get_or t 0 0) e))

a-ne-nil : a ≢ []
a-ne-nil e = absurd (ground (arith, ap (λ (t : List ℕ). length t) e))

error_for-record_error_example : error_for noted_twice (97 ∷ []) ≡ error_for noted (97 ∷ [])
error_for-record_error_example =
    (error_for-record_error (98 ∷ []) (102 ∷ []) (97 ∷ []) noted twice_lem refl refl b-ne-a
      a-ne-nil).1
