-- ===== src/Editor/Position/Splices.antt =====
-- Places in the parts of a text, and in a text in which a piece was replaced.
use cyberdeck.Common.{
  ℕ, suc, ◌+◌, ◌-◌, ◌<◌, ◌≡◌, refl, subst, ◌∙◌, true, List, ◌∷◌, ◌++◌, length, take, drop, arith,
  length-append, length-take, length-drop, take-append, drop-append, append_assoc,
}
use cyberdeck.Editor.Utf8.{valid_utf8, lead_size, sequence_ok}
use cyberdeck.Editor.Utf8.Valid.{valid_utf8_step, valid_utf8-append, sequence_ok_parts}
use cyberdeck.Editor.Position.Places.{IsPlace, Cut, Cut-behind, empty_valid, take_add, drop-drop}

pub append-IsPlace :
    (x y : List ℕ) → valid_utf8 x ≡ true → valid_utf8 y ≡ true → IsPlace (x ++ y) (length x)
append-IsPlace x y v w = record {
  within = omega (arith, length-append x y);
  before = rw (take-append x y) v;
  behind = rw (drop-append x y) w;
}

-- A piece of a valid text between two places, replaced by a valid text.
pub splice-IsPlace :
    (text repl : List ℕ) (b e : ℕ)
    → IsPlace text b
    → IsPlace text e
    → valid_utf8 repl ≡ true
    → (valid_utf8 (take b text ++ (repl ++ drop e text)) ≡ true)
      × IsPlace (take b text ++ (repl ++ drop e text)) (b + length repl)
splice-IsPlace text repl b e p q v =
    let x = take b text in
    let y = drop e text in
    let head : valid_utf8 (x ++ repl) ≡ true = valid_utf8-append x repl p.before ∙ v in
    let size : length (x ++ repl) ≡ b + length repl =
      omega (arith, length-append x repl, length-take b text, p.within) in
    let whole : (x ++ repl) ++ y ≡ x ++ (repl ++ y) = append_assoc x repl y in
    (
      rw (← whole) (valid_utf8-append (x ++ repl) y head ∙ q.behind),
      rw (whole, size) at (append-IsPlace (x ++ repl) y head q.behind),
    )

-- The end of the first sequence of a valid text.
pub first-IsPlace :
    (c : ℕ) (s : List ℕ)
    → valid_utf8 (c ∷ s) ≡ true
    → (0 < lead_size c) × IsPlace (c ∷ s) (lead_size c)
first-IsPlace c s v =
    let g = valid_utf8_step c s in
    let ok : sequence_ok c s ≡ true = ground arith in
    let (n, long, t, b) = sequence_ok_parts c s ok in
    let m = lead_size c - 1 in
    let (before, behind) : Cut (c ∷ s) (suc (m + 0)) =
      Cut-behind c m 0 s ok refl (empty_valid, ground arith) in
    let size : suc (m + 0) ≡ lead_size c = omega arith in
    (
      n,
      subst (IsPlace (c ∷ s)) size
          (record { within = omega arith; before = before; behind = behind }),
    )

-- A place in what stands behind a place.
pub IsPlace-further :
    {s : List ℕ} {p : ℕ} (k : ℕ) → IsPlace s p → IsPlace (drop p s) k → IsPlace s (p + k)
IsPlace-further {s} {p} k h further = record {
  within = omega (arith, h.within, further.within, length-drop p s);
  before =
      rw (take_add p k s)
        (valid_utf8-append (take p s) (take k (drop p s)) h.before ∙ further.before);
  behind = rw (drop-drop p k s) further.behind;
}
