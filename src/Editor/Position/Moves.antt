-- ===== src/Editor/Position/Moves.antt =====
-- Every move of a cursor in a valid text ends at a place between two code points.
use cyberdeck.Common.{
  ℕ, zero, suc, ◌+◌, ◌-◌, ◌<◌, ◌≤◌, ◌≡◌, ◌⊎◌, refl, sym, subst, ◌∙◌, inl, inr, true, false, ◌&&◌,
  List, [], ◌∷◌, ◌++◌, ltb, leb, ◌==◌, length, get_or, drop, arith, Bool-cases, length-drop, min,
  some,
}
use cyberdeck.Editor.Utf8.{is_trail, valid_utf8}
use cyberdeck.Editor.Position.{
  back_loop, previous_codepoint_bounded, forward_loop, next_codepoint_bounded, find_char_loop,
  find_char, starts_with, find_loop, find,
}
use cyberdeck.Editor.Position.Places.{
  IsPlace, IsPlace-at, zero-IsPlace, length-IsPlace, get_or-drop, drop-drop,
}

back_loop_lem :
    (s : List ℕ) (lower pos : ℕ)
    → (back_loop s lower pos ≤ pos)
      × ((is_trail (get_or s (back_loop s lower pos) 0) ≡ false) ⊎ (back_loop s lower pos ≤ lower))
unfolding back_loop
back_loop_lem s lower zero = (omega arith, inr (omega arith))
back_loop_lem s lower (suc pos) =
    let (l, stop) = back_loop_lem s lower pos in
    let edge : (ltb lower (suc pos) && is_trail (get_or s (suc pos) 0)) ≡ false
        → (is_trail (get_or s (suc pos) 0) ≡ false) ⊎ (suc pos ≤ lower) =
      λ e. elim (Bool-cases (is_trail (get_or s (suc pos) 0))) [
        | inl t ↦ inr (ground arith)
        | inr t ↦ inl t
      ] in
    elim (Bool-cases (ltb lower (suc pos) && is_trail (get_or s (suc pos) 0))) [
      | inl e ↦ rw e (omega arith, stop)
      | inr e ↦ rw e (omega arith, edge e)
    ]

pub previous_codepoint_bounded-le : (s : List ℕ) (p : ℕ) → previous_codepoint_bounded s p 0 ≤ p
unfolding previous_codepoint_bounded
previous_codepoint_bounded-le s p = ground (arith, (back_loop_lem s 0 (min p (length s) - 1)).0)

pub previous_codepoint_bounded-lt :
    (s : List ℕ) (p : ℕ) → 0 < p → previous_codepoint_bounded s p 0 < p
unfolding previous_codepoint_bounded
previous_codepoint_bounded-lt s p h = ground (arith, (back_loop_lem s 0 (min p (length s) - 1)).0)

-- The code point before any position starts at a place.
pub previous_codepoint_bounded-IsPlace :
    {s : List ℕ} (p : ℕ) → valid_utf8 s ≡ true → IsPlace s (previous_codepoint_bounded s p 0)
unfolding previous_codepoint_bounded
previous_codepoint_bounded-IsPlace {s} p v =
    let q = min p (length s) in
    let (l, stop) = back_loop_lem s 0 (q - 1) in
    let r = back_loop s 0 (q - 1) in
    elim (Bool-cases (q == min 0 q)) [
      | inl e ↦ rw e (subst (IsPlace s) (omega arith) (zero-IsPlace v))
      | inr e ↦
          let low : min 0 q ≡ 0 = omega arith in
          rw (e, low)
            (elim stop [
              | inl t ↦ IsPlace-at v (ground arith) t
              | inr z ↦ subst (IsPlace s) (omega arith) (zero-IsPlace v)
            ])
    ]

forward_loop_lem :
    (n : ℕ) (s : List ℕ) (pos : ℕ)
    → (pos ≤ forward_loop n s pos)
      × (forward_loop n s pos ≤ pos + n)
      × ((is_trail (get_or s (forward_loop n s pos) 0) ≡ false) ⊎ (forward_loop n s pos ≡ pos + n))
unfolding forward_loop
forward_loop_lem zero s pos = (omega arith, omega arith, inr (omega arith))
forward_loop_lem (suc n) s pos =
    let (l, u, stop) = forward_loop_lem n s (pos + 1) in
    let next = forward_loop n s (pos + 1) in
    let map_right : (is_trail (get_or s next 0) ≡ false) ⊎ (next ≡ pos + 1 + n)
        → (is_trail (get_or s next 0) ≡ false) ⊎ (next ≡ pos + suc n) =
      λ h. elim h [ inl t ↦ inl t | inr t ↦ inr (omega arith) ] in
    elim (Bool-cases (is_trail (get_or s pos 0))) [
      | inl e ↦ rw e (omega arith, omega arith, map_right stop)
      | inr e ↦ rw e (omega arith, omega arith, inl e)
    ]

pub next_codepoint_bounded-le :
    (s : List ℕ) (p upper : ℕ) → next_codepoint_bounded s p upper ≤ upper
unfolding next_codepoint_bounded
next_codepoint_bounded-le s p upper = ground (
  arith,
  (forward_loop_lem (min upper (length s) - (min p (length s) + 1)) s (min p (length s) + 1)).1,
)

-- Towards a place, the code point behind any position ends at a place.
pub next_codepoint_bounded-IsPlace :
    {s : List ℕ} (p : ℕ) {upper : ℕ}
    → valid_utf8 s ≡ true
    → IsPlace s upper
    → IsPlace s (next_codepoint_bounded s p upper)
unfolding next_codepoint_bounded
next_codepoint_bounded-IsPlace {s} p {upper} v place =
    let q = min p (length s) in
    let up : min upper (length s) ≡ upper = omega (arith, place.within) in
    let (l, u, stop) = forward_loop_lem (upper - (q + 1)) s (q + 1) in
    let r = forward_loop (upper - (q + 1)) s (q + 1) in
    elim (Bool-cases (leb upper q)) [
      | inl e ↦ rw (up, e) place
      | inr e ↦
          rw (up, e)
            (elim stop [
              | inl t ↦ elim (Bool-cases (r == length s)) [
                | inl z ↦ subst (IsPlace s) (ground arith) (length-IsPlace v)
                | inr z ↦ IsPlace-at v (ground (arith, place.within)) t
              ]
              | inr z ↦ subst (IsPlace s) (ground arith) place
            ])
    ]

find_char_loop_lem :
    (c : ℕ) (s : List ℕ) (pos : ℕ) {p : ℕ}
    → find_char_loop c s pos ≡ some p
    → (i : ℕ) × (p ≡ pos + i) × (i < length s) × (get_or s i 0 ≡ c)
unfolding find_char_loop
find_char_loop_lem c [] pos e = absurd cc
find_char_loop_lem c (x ∷ s) pos {p} e = elim (Bool-cases (x == c)) [
  | inl here ↦ (0, ground arith, ground arith, ground arith)
  | inr there ↦
      let (i, at, l, g) = find_char_loop_lem c s (pos + 1) (rw there at e) in
      (suc i, omega arith, omega arith, g)
]

-- A byte that is found is there.
pub find_char_lem :
    (c : ℕ) (s : List ℕ) (pos : ℕ) {p : ℕ}
    → find_char c s pos ≡ some p
    → (p < length s) × (get_or s p 0 ≡ c)
unfolding find_char
find_char_lem c s pos {p} e =
    let (i, at, l, g) = find_char_loop_lem c (drop pos s) pos e in
    (omega (arith, length-drop pos s), rw at (sym (get_or-drop pos i s) ∙ g))

starts_with_lem :
    (needle s : List ℕ) → starts_with needle s ≡ true → (rest : List ℕ) × (s ≡ needle ++ rest)
unfolding starts_with
starts_with_lem [] s h = (s, refl)
starts_with_lem (x ∷ needle) [] h = absurd cc
starts_with_lem (x ∷ needle) (y ∷ s) h =
    let (rest, e) = starts_with_lem needle s (ground arith) in (rest, ground arith)

find_loop_lem :
    (needle s : List ℕ) (pos : ℕ) {p : ℕ}
    → find_loop needle s pos ≡ some p
    → (i : ℕ) × (p ≡ pos + i) × (i < length s) × (rest : List ℕ) × (drop i s ≡ needle ++ rest)
unfolding find_loop
find_loop_lem needle [] pos e = absurd cc
find_loop_lem needle (y ∷ s) pos {p} e = elim (Bool-cases (starts_with needle (y ∷ s))) [
  | inl here ↦
      let (rest, r) = starts_with_lem needle (y ∷ s) here in (0, ground arith, omega arith, rest, r)
  | inr there ↦
      let (i, at, l, rest, r) = find_loop_lem needle s (pos + 1) (rw there at e) in
      (suc i, omega arith, omega arith, rest, r)
]

-- A needle that is found stands there.
pub find_lem :
    (needle s : List ℕ) (pos : ℕ) {p : ℕ}
    → find needle s pos ≡ some p
    → (p < length s) × (rest : List ℕ) × (drop p s ≡ needle ++ rest)
unfolding find
find_lem needle s pos {p} e =
    let (i, at, l, rest, r) = find_loop_lem needle (drop pos s) pos e in
    (omega (arith, length-drop pos s), rest, rw at (drop-drop pos i s ∙ r))
