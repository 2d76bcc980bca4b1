-- ===== src/Recovery/Errors.antt =====
-- The last error of an application, stored and read back.
use cyberdeck.Common.{
  ℕ, zero, suc, ◌+◌, ◌-◌, ◌<◌, ◌≡◌, ◌≢◌, ◌⊎◌, inl, inr, refl, sym, ◌∙◌, Bool, true, false, not,
  ◌&&◌, ◌||◌, List, [], ◌∷◌, ◌==◌, length, get_or, set, min, take_all, same_bytes, same_bytes_sound,
  same_bytes_refl, Bool-cases, arith,
}
use cyberdeck.Recovery.{
  AppError, State, no_error, max_app_errors, app_id_size, error_size, before_nul, copy_bounded,
  is_empty, slot_loop, record_error, find_error, error_for,
}

abbrev pub has_nul : List ℕ → Bool
has_nul [] = false
has_nul (c ∷ s) = c == 0 || has_nul s

before_nul_all : (s : List ℕ) → has_nul s ≡ false → before_nul s ≡ s
unfolding before_nul
before_nul_all [] h = refl
before_nul_all (c ∷ s) h = ground (arith, before_nul_all s)

copy_bounded_all :
    (size : ℕ) (s : List ℕ) → has_nul s ≡ false → length s < size → copy_bounded size s ≡ s
unfolding copy_bounded
copy_bounded_all size s h l =
    let e : min (length s) (size - 1) ≡ length s = omega arith in
    rw (e, take_all (length s) s (omega arith)) (before_nul_all s h)

-- None of the first `k` entries is that of the application.
misses : ℕ → List AppError → List ℕ → Bool
misses zero errors app = true
misses (suc k) [] app = true
misses (suc k) (e ∷ errors) app = not (same_bytes e.app app) && misses k errors app

-- The entry that is found is that of the application, or one that is free.
takes : AppError → List ℕ → Bool
takes e app = same_bytes e.app app || is_empty e.app

record Slot (errors : List AppError) (app : List ℕ) (k : ℕ) : Type 0 where
  inside : k < length errors
  first : misses k errors app ≡ true
  free : takes (get_or errors k no_error) app ≡ true

later-Slot :
    {errors : List AppError} {app : List ℕ} {k : ℕ} (e : AppError)
    → same_bytes e.app app ≡ false
    → Slot errors app k
    → Slot (e ∷ errors) app (suc k)
unfolding misses
later-Slot e n s = record {
  inside = omega (arith, s.inside);
  first = ground (arith, s.first);
  free = s.free;
}

slot_loop_lem :
    (errors : List AppError) (i : ℕ) (app : List ℕ) (slot : ℕ)
    → (slot_loop errors i app slot ≡ slot)
      ⊎ ((k : ℕ) × (slot_loop errors i app slot ≡ i + k) × Slot errors app k)
unfolding slot_loop
slot_loop_lem [] i app slot = inl refl
slot_loop_lem (e ∷ errors) i app slot = elim (Bool-cases (same_bytes e.app app)) [
  | inl here ↦ rw here (
      inr (
        0,
        omega arith,
        unfold misses takes in record { inside = omega arith; first = refl; free = ground arith },
      ))
  | inr other ↦ rw other (elim (Bool-cases (slot == max_app_errors && is_empty e.app)) [
    | inl empty ↦ rw empty (elim (slot_loop_lem errors (i + 1) app i) [
      | inl stays ↦ inr (
        0,
        omega (arith, stays),
        unfold misses takes in record { inside = omega arith; first = refl; free = ground arith },
      )
      | inr (k, at, s) ↦ inr (suc k, omega arith, later-Slot e other s)
    ])
    | inr taken ↦ rw taken (elim (slot_loop_lem errors (i + 1) app slot) [
      | inl stays ↦ inl stays
      | inr (k, at, s) ↦ inr (suc k, omega arith, later-Slot e other s)
    ])
  ])
]

find_error-set :
    (k : ℕ) (errors : List AppError) (app : List ℕ) (entry : AppError)
    → k < length errors
    → misses k errors app ≡ true
    → same_bytes entry.app app ≡ true
    → find_error (set errors k entry) app ≡ entry.message
unfolding find_error misses
find_error-set k [] app entry h m e = absurd (omega arith)
find_error-set zero (x ∷ errors) app entry h m e = rw e refl
find_error-set (suc k) (x ∷ errors) app entry h m e =
    ground (arith, find_error-set k errors app entry)

find_error-set_ne :
    (k : ℕ) (errors : List AppError) (app : List ℕ) (entry : AppError)
    → same_bytes entry.app app ≡ false
    → same_bytes (get_or errors k no_error).app app ≡ false
    → find_error (set errors k entry) app ≡ find_error errors app
unfolding find_error
find_error-set_ne k [] app entry n o = refl
find_error-set_ne zero (x ∷ errors) app entry n o = rw (n, o) refl
find_error-set_ne (suc k) (x ∷ errors) app entry n o =
    ground (arith, find_error-set_ne k errors app entry)

is_empty_sound : (x : List ℕ) → is_empty x ≡ true → x ≡ []
unfolding is_empty
is_empty_sound [] h = refl
is_empty_sound (c ∷ x) h = absurd cc

same_bytes_ne : (x y : List ℕ) → x ≢ y → same_bytes x y ≡ false
same_bytes_ne x y n = elim (Bool-cases (same_bytes x y)) [
  | inl e ↦ absurd (n (same_bytes_sound x y e))
  | inr e ↦ e
]

-- A free entry, or one of `app`, is not that of another application.
takes_other :
    (e : AppError) (app other : List ℕ)
    → takes e app ≡ true
    → app ≢ other
    → other ≢ []
    → same_bytes e.app other ≡ false
unfolding takes
takes_other e app other t n o = same_bytes_ne e.app other (λ same.
    elim (Bool-cases (same_bytes e.app app)) [
      | inl mine ↦ n (sym (same_bytes_sound e.app app mine) ∙ same)
      | inr free ↦ o (sym same ∙ is_empty_sound e.app (rw free at t))
    ])

record_error-true :
    (app message : List ℕ) (s : State) {s' : State}
    → record_error app message s ≡ (s', true)
    → (length app < app_id_size)
      × (length message < error_size)
      × (slot_loop s.errors 0 app max_app_errors ≢ max_app_errors)
      × (s' ≡ record s {
        errors = set s.errors (slot_loop s.errors 0 app max_app_errors) (record {
          app = copy_bounded app_id_size app;
          message = copy_bounded error_size message;
        });
      })
unfolding record_error
record_error-true app message s h = (ground arith, ground arith, ground arith, ground arith)

-- An error that was recorded is the one that is then read for its application, and what is read for
-- any other application stays the same. The texts hold no terminators, and the other name is not empty.
pub error_for-record_error :
    (app message other : List ℕ) (s : State) {s' : State}
    → record_error app message s ≡ (s', true)
    → has_nul app ≡ false
    → has_nul message ≡ false
    → app ≢ other
    → other ≢ []
    → (error_for s' app ≡ message) × (error_for s' other ≡ error_for s other)
unfolding error_for
error_for-record_error app message other s {s'} h n m ne full =
    let (short, small, slot, at) = record_error-true app message s h in
    let entry : AppError = record {
      app = copy_bounded app_id_size app;
      message = copy_bounded error_size message;
    } in
    elim (slot_loop_lem s.errors 0 app max_app_errors) [
      | inl none_free ↦ absurd (slot none_free)
      | inr (k, k_at, f) ↦
          let stored : slot_loop s.errors 0 app max_app_errors ≡ k = omega arith in
          let name = copy_bounded_all app_id_size app n short in
          let text = copy_bounded_all error_size message m small in
          let errors : s'.errors ≡ set s.errors k entry = rw at (rw stored refl) in
          (
            rw errors (
                find_error-set k s.errors app entry f.inside f.first (rw name (same_bytes_refl app))
                ∙ text),
            rw errors (
                find_error-set_ne k s.errors other entry (rw name (same_bytes_ne app other ne))
                  (takes_other (get_or s.errors k no_error) app other f.free ne full)),
          )
    ]
