-- ===== src/Editor/Position/Rows.antt =====
-- Lines: where one starts, and the cursor in the line above or below.
use cyberdeck.Common.{
  ℕ, zero, suc, ◌+◌, ◌-◌, ◌<◌, ◌≤◌, ◌≡◌, ◌⊎◌, refl, inl, inr, true, not, ◌&&◌, List, [], ◌∷◌, ltb,
  ◌==◌, length, get_or, drop, arith, Bool-cases, Option-cases,
}
use cyberdeck.Editor.Utf8.{
  is_trail, valid_utf8, valid_loop, sequence_ok, lead_size, trails, bad_second,
}
use cyberdeck.Editor.Position.{
  previous_codepoint_bounded, find_char, line_start_loop, line_start, advance, line_up, line_down,
  down_to, lines_up, lines_down, end_or,
}
use cyberdeck.Editor.Position.Places.{IsPlace, IsPlace-at, IsPlace-behind, length-IsPlace}
use cyberdeck.Editor.Position.Moves.{
  previous_codepoint_bounded-lt, previous_codepoint_bounded-IsPlace, next_codepoint_bounded-IsPlace,
  find_char_lem,
}

line_start_loop_lem :
    (fuel : ℕ) (s : List ℕ) (pos : ℕ)
    → pos ≤ fuel
    → (line_start_loop fuel s pos ≤ pos)
      × ((line_start_loop fuel s pos ≡ 0) ⊎ (get_or s (line_start_loop fuel s pos - 1) 0 ≡ 10))
unfolding line_start_loop
line_start_loop_lem zero s pos h = (omega arith, inl (omega arith))
line_start_loop_lem (suc fuel) s pos h = elim (Bool-cases (pos == 0)) [
  | inl z ↦ rw z (omega arith, inl (ground arith))
  | inr z ↦ elim (Bool-cases (get_or s (pos - 1) 0 == 10)) [
    | inl n ↦ rw (z, n) (omega arith, inr (ground arith))
    | inr n ↦
        let shorter = previous_codepoint_bounded-lt s pos (ground arith) in
        let (l, stop) =
          line_start_loop_lem fuel s (previous_codepoint_bounded s pos 0) (omega arith) in
        rw (z, n) (omega arith, stop)
  ]
]

-- The loop for the start of a line ends at the start of the text or right behind a line feed, at or
-- before the position that it started from.
pub line_start_lem :
    (s : List ℕ) (pos : ℕ)
    → (line_start s pos ≤ pos) × ((line_start s pos ≡ 0) ⊎ (get_or s (line_start s pos - 1) 0 ≡ 10))
unfolding line_start
line_start_lem s pos = line_start_loop_lem pos s pos (omega arith)

line_start_loop-IsPlace :
    (fuel : ℕ) {s : List ℕ} {pos : ℕ}
    → valid_utf8 s ≡ true
    → IsPlace s pos
    → IsPlace s (line_start_loop fuel s pos)
unfolding line_start_loop
line_start_loop-IsPlace zero v p = p
line_start_loop-IsPlace (suc fuel) {s} {pos} v p =
    elim (Bool-cases (not (pos == 0) && not (get_or s (pos - 1) 0 == 10))) [
      | inl e ↦ rw e (line_start_loop-IsPlace fuel v (previous_codepoint_bounded-IsPlace pos v))
      | inr e ↦ rw e p
    ]

line_start-IsPlace :
    {s : List ℕ} {pos : ℕ} → valid_utf8 s ≡ true → IsPlace s pos → IsPlace s (line_start s pos)
unfolding line_start
line_start-IsPlace {pos} v p = line_start_loop-IsPlace pos v p

advance-IsPlace :
    (column : ℕ) {s : List ℕ} {start stop : ℕ}
    → valid_utf8 s ≡ true
    → IsPlace s start
    → IsPlace s stop
    → IsPlace s (advance s start stop column)
unfolding advance
advance-IsPlace zero v p q = p
advance-IsPlace (suc column) {s} {start} {stop} v p q = elim (Bool-cases (ltb start stop)) [
  | inl e ↦ rw e (advance-IsPlace column v (next_codepoint_bounded-IsPlace start v q) q)
  | inr e ↦ rw e p
]

line_feed_valid : valid_utf8 (10 ∷ []) ≡ true
unfolding valid_utf8 valid_loop sequence_ok lead_size trails bad_second
line_feed_valid = refl

line_feed-IsPlace :
    {s : List ℕ} {p : ℕ} → valid_utf8 s ≡ true → p < length s → get_or s p 0 ≡ 10 → IsPlace s p
unfolding is_trail
line_feed-IsPlace v l e = IsPlace-at v l (ground arith)

pub drop-cons : (p : ℕ) (s : List ℕ) → p < length s → drop p s ≡ get_or s p 0 ∷ drop (suc p) s
drop-cons p [] h = absurd (omega arith)
drop-cons zero (x ∷ s) h = refl
drop-cons (suc p) (x ∷ s) h = drop-cons p s (omega arith)

behind_line_feed :
    {s : List ℕ} {p : ℕ}
    → valid_utf8 s ≡ true
    → p < length s
    → get_or s p 0 ≡ 10
    → IsPlace s (p + 1)
behind_line_feed {s} {p} v l e =
    IsPlace-behind (10 ∷ []) (drop (suc p) s) (line_feed-IsPlace v l e) line_feed_valid
      (rw e at (drop-cons p s l))

line_up-IsPlace :
    {s : List ℕ} {cursor : ℕ} (column : ℕ)
    → valid_utf8 s ≡ true
    → IsPlace s cursor
    → IsPlace s (line_up s column cursor)
unfolding line_up
line_up-IsPlace {s} {cursor} column v p =
    let start = line_start s cursor in
    let (l, stop) = line_start_lem s cursor in
    elim (Bool-cases (start == 0)) [
      | inl e ↦ rw e p
      | inr e ↦ rw e (elim stop [
        | inl z ↦ absurd (ground arith)
        | inr feed ↦
            let previous_end = line_feed-IsPlace v (ground (arith, p.within)) feed in
            advance-IsPlace column v (line_start-IsPlace v previous_end) previous_end
      ])
    ]

end_or-IsPlace :
    {s : List ℕ} (from : ℕ)
    → valid_utf8 s ≡ true
    → IsPlace s (end_or (find_char 10 s from) (length s))
unfolding end_or
end_or-IsPlace {s} from v = elim (Option-cases (find_char 10 s from)) [
  | inl e ↦ rw e (length-IsPlace v)
  | inr (p, e) ↦ let (l, g) = find_char_lem 10 s from e in rw e (line_feed-IsPlace v l g)
]

line_down-IsPlace :
    {s : List ℕ} {cursor : ℕ} (column : ℕ)
    → valid_utf8 s ≡ true
    → IsPlace s cursor
    → IsPlace s (line_down s column cursor)
unfolding line_down down_to
line_down-IsPlace {s} {cursor} column v p = elim (Option-cases (find_char 10 s cursor)) [
  | inl e ↦ rw e p
  | inr (q, e) ↦
      let (l, g) = find_char_lem 10 s cursor e in
      rw e (advance-IsPlace column v (behind_line_feed v l g) (end_or-IsPlace (q + 1) v))
]

pub lines_up-IsPlace :
    (column n : ℕ) {s : List ℕ} {cursor : ℕ}
    → valid_utf8 s ≡ true
    → IsPlace s cursor
    → IsPlace s (lines_up s column n cursor)
unfolding lines_up
lines_up-IsPlace column zero v p = p
lines_up-IsPlace column (suc n) v p = lines_up-IsPlace column n v (line_up-IsPlace column v p)

pub lines_down-IsPlace :
    (column n : ℕ) {s : List ℕ} {cursor : ℕ}
    → valid_utf8 s ≡ true
    → IsPlace s cursor
    → IsPlace s (lines_down s column n cursor)
unfolding lines_down
lines_down-IsPlace column zero v p = p
lines_down-IsPlace column (suc n) v p = lines_down-IsPlace column n v (line_down-IsPlace column v p)
