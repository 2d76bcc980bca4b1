-- ===== src/Window/Slots.antt =====
-- The array of surfaces: what the loops find, and what a write to one slot changes.
use cyberdeck.Common.{
  ℕ, zero, suc, ◌+◌, ◌-◌, ◌≤◌, ◌<◌, ◌≡◌, ◌≢◌, refl, ◌⊎◌, inl, inr, Bool, true, false, not, ◌&&◌,
  ◌||◌, List, [], ◌∷◌, arith, length, get_or, set, ◌==◌, if◌then◌else◌, Bool-cases,
}
use cyberdeck.Window.{
  SurfaceState, absent, Surface, blank, invalid_slot, is_state, app_slot, state_slot,
}

abbrev pub is_live : Surface → Bool
is_live s = not (is_state s.state absent)

-- How many slots are taken.
abbrev pub live : List Surface → ℕ
live [] = 0
live (s ∷ rest) = (if is_live s then 1 else 0) + live rest

abbrev pub used : ℕ → List Surface → Bool
used app [] = false
used app (s ∷ rest) = is_live s && (s.app == app) || used app rest

-- No two live surfaces belong to one application.
abbrev pub AppsDistinct : List Surface → Type 0
AppsDistinct [] = Unit {0}
AppsDistinct (s ∷ rest) = ((is_live s && used s.app rest) ≡ false) × AppsDistinct rest

abbrev pub GenerationsBelow : ℕ → List Surface → Type 0
GenerationsBelow n [] = Unit {0}
GenerationsBelow n (s ∷ rest) = (s.generation < n) × GenerationsBelow n rest

state_slot_hit :
    (wanted : SurfaceState) (i : ℕ) (s : Surface) (rest : List Surface)
    → is_state s.state wanted ≡ true
    → state_slot wanted i (s ∷ rest) ≡ i
unfolding state_slot
state_slot_hit wanted i s rest e = rw e

state_slot_miss :
    (wanted : SurfaceState) (i : ℕ) (s : Surface) (rest : List Surface)
    → is_state s.state wanted ≡ false
    → state_slot wanted i (s ∷ rest) ≡ state_slot wanted (suc i) rest
unfolding state_slot
state_slot_miss wanted i s rest e = rw e

get_or-shift :
    (s : Surface) (rest : List Surface) (i r : ℕ)
    → suc i ≤ r
    → get_or (s ∷ rest) (r - i) blank ≡ get_or rest (r - suc i) blank
get_or-shift s rest i r h = let e : r - i ≡ suc (r - suc i) = omega arith in rw e

-- What a result of the loop over the slots `i` and on tells: the slot holds a surface in the
-- wanted state, and no slot before it does.
abbrev pub Hits : SurfaceState → ℕ → List Surface → ℕ → Type 0
Hits wanted i l r =
    (i ≤ r)
    × (r < i + length l)
    × (is_state (get_or l (r - i) blank).state wanted ≡ true)
    × ((j : ℕ) → i + j < r → is_state (get_or l j blank).state wanted ≡ false)

pub state_slot-cases :
    (wanted : SurfaceState) (i : ℕ) (l : List Surface)
    → (state_slot wanted i l ≡ invalid_slot) ⊎ Hits wanted i l (state_slot wanted i l)
unfolding state_slot
state_slot-cases wanted i [] = inl refl
state_slot-cases wanted i (s ∷ rest) = elim (Bool-cases (is_state s.state wanted)) [
  | inl e ↦ rw (state_slot_hit wanted i s rest e) (inr (here e))
  | inr e ↦ rw (state_slot_miss wanted i s rest e) (beyond e (state_slot-cases wanted (suc i) rest))
]
  where
    here : is_state s.state wanted ≡ true → Hits wanted i (s ∷ rest) i
    here e =
        let z : i - i ≡ 0 = omega arith in
        (omega arith, omega arith, rw z e, λ j h. absurd (omega arith))

    skip :
        is_state s.state wanted ≡ false
        → (r : ℕ) → ((j : ℕ) → suc i + j < r → is_state (get_or rest j blank).state wanted ≡ false)
        → (j : ℕ) → i + j < r
        → is_state (get_or (s ∷ rest) j blank).state wanted ≡ false
    skip e r h zero k = e
    skip e r h (suc j) k = h j (omega arith)

    beyond :
        is_state s.state wanted ≡ false
        → (state_slot wanted (suc i) rest ≡ invalid_slot)
          ⊎ Hits wanted (suc i) rest (state_slot wanted (suc i) rest)
        → (state_slot wanted (suc i) rest ≡ invalid_slot)
          ⊎ Hits wanted i (s ∷ rest) (state_slot wanted (suc i) rest)
    beyond e (inl missing) = inl missing
    beyond e (inr (a, b, c, d)) =
        let r = state_slot wanted (suc i) rest in
        inr (omega arith, omega arith, rw (get_or-shift s rest i r a) c, skip e r d)

-- When the loop finds none, no surface is in the wanted state.
pub state_slot_missing :
    (wanted : SurfaceState) (i : ℕ) (l : List Surface) (j : ℕ)
    → i + length l ≤ invalid_slot
    → state_slot wanted i l ≡ invalid_slot
    → j < length l
    → is_state (get_or l j blank).state wanted ≡ false
unfolding state_slot
state_slot_missing wanted i [] j h e k = elim k [ ]
state_slot_missing wanted i (s ∷ rest) zero h e k = ground arith
state_slot_missing wanted i (s ∷ rest) (suc j) h e k =
    ground (arith, state_slot_missing wanted (suc i) rest j)

pub app_slot-used :
    (app i : ℕ) (l : List Surface)
    → i + length l ≤ invalid_slot
    → (app_slot app i l ≡ invalid_slot) ⊎ (used app l ≡ true)
unfolding app_slot
app_slot-used app i [] h = inl refl
app_slot-used app i (s ∷ rest) h = ground (arith, app_slot-used app (suc i) rest)

pub app_slot_unused :
    (app i : ℕ) (l : List Surface)
    → i + length l ≤ invalid_slot
    → app_slot app i l ≡ invalid_slot
    → used app l ≡ false
unfolding app_slot
app_slot_unused app i [] h e = refl
app_slot_unused app i (s ∷ rest) h e = ground (arith, app_slot_unused app (suc i) rest)

pub live-set :
    (l : List Surface) (i : ℕ) (s : Surface)
    → i < length l
    → live (set l i s) + (if is_live (get_or l i blank) then 1 else 0)
      ≡ live l + (if is_live s then 1 else 0)
live-set [] i s h = elim h [ ]
live-set (x ∷ l) zero s h = omega arith
live-set (x ∷ l) (suc i) s h = omega (arith, live-set l i s (omega arith))

pub GenerationsBelow-set :
    (n : ℕ) (l : List Surface) (i : ℕ) (s : Surface)
    → GenerationsBelow n l
    → s.generation < n
    → GenerationsBelow n (set l i s)
GenerationsBelow-set n [] i s g h = tt
GenerationsBelow-set n (x ∷ l) zero s g h = (h, g.1)
GenerationsBelow-set n (x ∷ l) (suc i) s g h = (g.0, GenerationsBelow-set n l i s g.1 h)

pub GenerationsBelow-mono :
    (n m : ℕ) (l : List Surface) → GenerationsBelow n l → n ≤ m → GenerationsBelow m l
GenerationsBelow-mono n m [] g h = tt
GenerationsBelow-mono n m (x ∷ l) g h = (omega arith, GenerationsBelow-mono n m l g.1 h)

pub GenerationsBelow-get :
    (n : ℕ) (l : List Surface) (i : ℕ)
    → GenerationsBelow n l
    → 0 < n
    → (get_or l i blank).generation < n
GenerationsBelow-get n [] i g h = h
GenerationsBelow-get n (x ∷ l) zero g h = g.0
GenerationsBelow-get n (x ∷ l) (suc i) g h = GenerationsBelow-get n l i g.1 h

-- An application that a write to a slot does not bring stays unused.
used-set :
    (app : ℕ) (l : List Surface) (i : ℕ) (s : Surface)
    → used app l ≡ false
    → (is_live s && (s.app == app)) ≡ false
    → used app (set l i s) ≡ false
used-set app [] i s u h = refl
used-set app (x ∷ l) zero s u h = ground arith
used-set app (x ∷ l) (suc i) s u h = ground (arith, used-set app l i s)

used-get :
    (app : ℕ) (l : List Surface) (i : ℕ)
    → i < length l
    → used app l ≡ false
    → is_live (get_or l i blank) ≡ true
    → (get_or l i blank).app ≢ app
used-get app [] i h u a = elim h [ ]
used-get app (x ∷ l) zero h u a = ground arith
used-get app (x ∷ l) (suc i) h u a = used-get app l i (omega arith) (ground arith) a

-- A slot may take an application that no other uses, or keep its own.
pub AppsDistinct-set_unused :
    (l : List Surface) (i : ℕ) (s : Surface)
    → AppsDistinct l
    → (is_live s && used s.app l) ≡ false
    → AppsDistinct (set l i s)
AppsDistinct-set_unused [] i s d h = tt
AppsDistinct-set_unused (x ∷ l) zero s d h = ground arith
AppsDistinct-set_unused (x ∷ l) (suc i) s d h =
    ground (arith, AppsDistinct-set_unused l i s d.1, used-set x.app l i s)

pub AppsDistinct-set_same :
    (l : List Surface) (i : ℕ) (s : Surface)
    → i < length l
    → AppsDistinct l
    → is_live (get_or l i blank) ≡ true
    → s.app ≡ (get_or l i blank).app
    → AppsDistinct (set l i s)
AppsDistinct-set_same [] i s h d a e = tt
AppsDistinct-set_same (x ∷ l) zero s h d a e = rw e (ground arith)
AppsDistinct-set_same (x ∷ l) (suc i) s h d a e = ground (
  arith,
  AppsDistinct-set_same l i s (omega arith) d.1 a e,
  used-set x.app l i s,
  used-get x.app l i,
)

-- The loop from the first slot on.
pub record IsFirst (wanted : SurfaceState) (l : List Surface) (r : ℕ) : Type 0 where
  pub within : r < length l
  pub fits : is_state (get_or l r blank).state wanted ≡ true
  pub before : (j : ℕ) → j < r → is_state (get_or l j blank).state wanted ≡ false

pub IsFirst-slot-cases :
    (wanted : SurfaceState) (l : List Surface)
    → (state_slot wanted 0 l ≡ invalid_slot) ⊎ IsFirst wanted l (state_slot wanted 0 l)
IsFirst-slot-cases wanted l = from_zero (state_slot wanted 0 l) (state_slot-cases wanted 0 l)
  where
    from_zero :
        (r : ℕ) → (r ≡ invalid_slot) ⊎ Hits wanted 0 l r → (r ≡ invalid_slot) ⊎ IsFirst wanted l r
    from_zero r (inl e) = inl e
    from_zero r (inr (a, b, c, d)) =
        let z : r - 0 ≡ r = omega arith in
        inr (record { within = omega arith; fits = rw z at c; before = λ j h. d j (omega arith) })
