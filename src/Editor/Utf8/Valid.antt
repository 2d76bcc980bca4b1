-- ===== src/Editor/Utf8/Valid.antt =====
-- The check of a text, without its fuel, and on texts set one behind the other.
use cyberdeck.Common.{
  ℕ, zero, suc, ◌-◌, ◌<◌, ◌≤◌, ◌≡◌, refl, ◌∙◌, ap, true, false, not, List, [], ◌∷◌, ◌++◌,
  if◌then◌else◌, drop, get_or, length, arith, length-append, length-drop, append-nil,
}
use cyberdeck.Editor.Utf8.{
  lead_size, trails, bad_second, sequence_ok, valid_loop, valid_utf8, utf8_bytes, append_utf8,
}
use cyberdeck.Editor.Utf8.Scalar.{IsScalar, Written, utf8_bytes-Written, sequence_ok-Written}

valid_loop_enough :
    (n m : ℕ) (s : List ℕ) → length s ≤ n → length s ≤ m → valid_loop s n ≡ valid_loop s m
unfolding valid_loop
valid_loop_enough n m [] h k = refl
valid_loop_enough zero m (c ∷ s) h k = absurd (omega arith)
valid_loop_enough (suc n) zero (c ∷ s) h k = absurd (omega arith)
valid_loop_enough (suc n) (suc m) (c ∷ s) h k =
    let rest = drop (lead_size c - 1) s in
    ap (λ r. if not (sequence_ok c s) then false else r)
      (valid_loop_enough n m rest (omega (arith, length-drop (lead_size c - 1) s))
        (omega (arith, length-drop (lead_size c - 1) s)))

-- The check of a text by that of its first sequence.
pub valid_utf8_step :
    (c : ℕ) (s : List ℕ)
    → valid_utf8 (c ∷ s)
      ≡ (if sequence_ok c s then valid_utf8 (drop (lead_size c - 1) s) else false)
unfolding valid_utf8 valid_loop
valid_utf8_step c s =
    let rest = drop (lead_size c - 1) s in
    ground (
      arith,
      valid_loop_enough (length s) (length rest) rest
          (omega (arith, length-drop (lead_size c - 1) s)) (omega arith),
    )

trails-append : (n : ℕ) (s ys : List ℕ) → trails n s ≡ true → trails n (s ++ ys) ≡ true
unfolding trails
trails-append zero s ys h = refl
trails-append (suc n) [] ys h = absurd (ground arith)
trails-append (suc n) (b ∷ s) ys h = ground (arith, trails-append n s ys)

-- What the check of one sequence says.
pub sequence_ok_parts :
    (c : ℕ) (s : List ℕ)
    → sequence_ok c s ≡ true
    → (0 < lead_size c)
      × (lead_size c - 1 ≤ length s)
      × (trails (lead_size c - 1) s ≡ true)
      × (bad_second (lead_size c) c (get_or s 0 0) ≡ false)
unfolding sequence_ok
sequence_ok_parts c s h = ground arith

pub sequence_ok_of :
    (c : ℕ) (s : List ℕ)
    → 0 < lead_size c
    → lead_size c - 1 ≤ length s
    → trails (lead_size c - 1) s ≡ true
    → bad_second (lead_size c) c (get_or s 0 0) ≡ false
    → sequence_ok c s ≡ true
unfolding sequence_ok
sequence_ok_of c s n l t b = ground arith

bad_second-append :
    (n c : ℕ) (s ys : List ℕ)
    → n - 1 ≤ length s
    → bad_second n c (get_or s 0 0) ≡ false
    → bad_second n c (get_or (s ++ ys) 0 0) ≡ false
unfolding bad_second
bad_second-append n c [] ys l h = ground arith
bad_second-append n c (b ∷ s) ys l h = h

sequence_ok-append :
    (c : ℕ) (s ys : List ℕ) → sequence_ok c s ≡ true → sequence_ok c (s ++ ys) ≡ true
sequence_ok-append c s ys h =
    let (n, l, t, b) = sequence_ok_parts c s h in
    sequence_ok_of c (s ++ ys) n (omega (arith, length-append s ys))
      (trails-append (lead_size c - 1) s ys t) (bad_second-append (lead_size c) c s ys l b)

pub drop-append_le : (n : ℕ) (s ys : List ℕ) → n ≤ length s → drop n (s ++ ys) ≡ drop n s ++ ys
drop-append_le zero s ys h = refl
drop-append_le (suc n) [] ys h = absurd (omega arith)
drop-append_le (suc n) (x ∷ s) ys h = drop-append_le n s ys (omega arith)

append_valid :
    (fuel : ℕ) (s ys : List ℕ)
    → length s ≤ fuel
    → valid_utf8 s ≡ true
    → valid_utf8 (s ++ ys) ≡ valid_utf8 ys
append_valid fuel [] ys l h = refl
append_valid zero (c ∷ s) ys l h = absurd (omega arith)
append_valid (suc fuel) (c ∷ s) ys l h =
    let g = valid_utf8_step c s in
    let ok : sequence_ok c s ≡ true = ground arith in
    let (n, long, t, b) = sequence_ok_parts c s ok in
    let rest = drop (lead_size c - 1) s in
    let more =
      append_valid fuel rest ys (omega (arith, length-drop (lead_size c - 1) s)) (ground arith) in
    valid_utf8_step c (s ++ ys)
    ∙ rw (sequence_ok-append c s ys ok, drop-append_le (lead_size c - 1) s ys long) more

-- Behind a text that is valid UTF-8, a text is checked as it is alone.
pub valid_utf8-append : (s ys : List ℕ) → valid_utf8 s ≡ true → valid_utf8 (s ++ ys) ≡ valid_utf8 ys
valid_utf8-append s ys h = append_valid (length s) s ys (omega arith) h

valid_utf8-bytes :
    (cp : ℕ) (bytes rest : List ℕ)
    → IsScalar cp
    → Written cp bytes
    → valid_utf8 (bytes ++ rest) ≡ valid_utf8 rest
valid_utf8-bytes cp [] rest v w = elim w [ ]
valid_utf8-bytes cp (c ∷ s) rest v w =
    let (ok, after) = sequence_ok-Written cp c s rest v w in
    valid_utf8_step c (s ++ rest) ∙ rw (ok, after) refl

pub valid_utf8-utf8_bytes :
    (cp : ℕ) (rest : List ℕ) → IsScalar cp → valid_utf8 (utf8_bytes cp ++ rest) ≡ valid_utf8 rest
valid_utf8-utf8_bytes cp rest v = valid_utf8-bytes cp (utf8_bytes cp) rest v (utf8_bytes-Written cp)

-- A valid text with a code point behind it is valid.
pub valid_utf8-append_utf8 :
    (out : List ℕ) (cp : ℕ)
    → IsScalar cp
    → valid_utf8 out ≡ true
    → valid_utf8 (append_utf8 out cp) ≡ true
unfolding append_utf8 valid_utf8 valid_loop
valid_utf8-append_utf8 out cp v h =
    valid_utf8-append out (utf8_bytes cp) h
    ∙ rw (append-nil (utf8_bytes cp)) at (valid_utf8-utf8_bytes cp [] v)
