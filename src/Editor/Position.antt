-- ===== src/Editor/Position.antt =====
-- Positions in a text, in components/cyberdeck/src/apps/editor/cyberdeck_editor_model.cpp: the code
-- point before and behind one, lines and columns, and the search for a text.
pub mod Places
pub mod Splices
pub mod Moves
pub mod Rows
use cyberdeck.Common.{
  ℕ, zero, suc, ◌+◌, ◌-◌, min, Bool, true, false, not, ◌&&◌, ◌||◌, List, [], ◌∷◌, Option, none,
  some, ltb, leb, ◌==◌, if◌then◌else◌, length, get_or, drop,
}
use cyberdeck.Editor.Utf8.{is_trail}

-- `while (pos > lower && ...) --pos`
unfoldable pub back_loop : List ℕ → ℕ → ℕ → ℕ
back_loop s lower zero = zero
back_loop s lower (suc pos) =
    let rest = back_loop s lower pos in
    if ltb lower (suc pos) && is_trail (get_or s (suc pos) 0) then rest else suc pos

unfoldable pub previous_codepoint_bounded : List ℕ → ℕ → ℕ → ℕ
previous_codepoint_bounded s pos lower =
    let p = min pos (length s) in
    let low = min lower p in if p == low then low else back_loop s low (p - 1)

-- `while (pos < upper && ...) ++pos`; the first argument is what is left before `upper`.
unfoldable pub forward_loop : ℕ → List ℕ → ℕ → ℕ
forward_loop zero s pos = pos
forward_loop (suc n) s pos =
    let rest = forward_loop n s (pos + 1) in if is_trail (get_or s pos 0) then rest else pos

unfoldable pub next_codepoint_bounded : List ℕ → ℕ → ℕ → ℕ
next_codepoint_bounded s pos upper =
    let p = min pos (length s) in
    let up = min upper (length s) in if leb up p then up else forward_loop (up - (p + 1)) s (p + 1)

unfoldable pub previous_codepoint : List ℕ → ℕ → ℕ
previous_codepoint s p = previous_codepoint_bounded s p 0

unfoldable pub next_codepoint : List ℕ → ℕ → ℕ
next_codepoint s p = next_codepoint_bounded s p (length s)

-- `find(c, pos)`, in what stands from `pos` on.
unfoldable pub find_char_loop : ℕ → List ℕ → ℕ → Option ℕ
find_char_loop c [] pos = none
find_char_loop c (x ∷ s) pos = if x == c then some pos else find_char_loop c s (pos + 1)

unfoldable pub find_char : ℕ → List ℕ → ℕ → Option ℕ
find_char c s pos = find_char_loop c (drop pos s) pos

unfoldable pub starts_with : List ℕ → List ℕ → Bool
starts_with [] s = true
starts_with (x ∷ needle) [] = false
starts_with (x ∷ needle) (y ∷ s) = x == y && starts_with needle s

unfoldable pub find_loop : List ℕ → List ℕ → ℕ → Option ℕ
find_loop needle [] pos = none
find_loop needle (y ∷ s) pos =
    if starts_with needle (y ∷ s) then some pos else find_loop needle s (pos + 1)

-- `find(needle, pos)`, for a needle that is not empty.
unfoldable pub find : List ℕ → List ℕ → ℕ → Option ℕ
find needle s pos = find_loop needle (drop pos s) pos

-- The start of the line. A round goes back by a byte at least, so `pos` rounds are enough.
unfoldable pub line_start_loop : ℕ → List ℕ → ℕ → ℕ
line_start_loop zero s pos = pos
line_start_loop (suc fuel) s pos =
    let rest = line_start_loop fuel s (previous_codepoint_bounded s pos 0) in
    if not (pos == 0) && not (get_or s (pos - 1) 0 == 10) then rest else pos

unfoldable pub line_start : List ℕ → ℕ → ℕ
line_start s pos = line_start_loop pos s pos

-- The code points from `p` to `pos`. A round goes on by a byte at least.
unfoldable pub column_loop : ℕ → List ℕ → ℕ → ℕ → ℕ → ℕ
column_loop zero s p pos column = column
column_loop (suc fuel) s p pos column =
    let rest = column_loop fuel s (next_codepoint_bounded s p pos) pos (column + 1) in
    if ltb p pos then rest else column

unfoldable pub column_at : List ℕ → ℕ → ℕ → ℕ
column_at s start pos = column_loop (pos - start) s start pos 0

-- `while (column-- && start < end)`
unfoldable pub advance : List ℕ → ℕ → ℕ → ℕ → ℕ
advance s start stop zero = start
advance s start stop (suc column) =
    let rest = advance s (next_codepoint_bounded s start stop) stop column in
    if ltb start stop then rest else start

-- One line up; a cursor in the first line stays.
unfoldable pub line_up : List ℕ → ℕ → ℕ → ℕ
line_up s column cursor =
    let current_start = line_start s cursor in
    let previous_end = current_start - 1 in
    if current_start == 0 then cursor else advance s (line_start s previous_end) previous_end column

-- The end of the line that starts at `next_start`.
unfoldable pub end_or : Option ℕ → ℕ → ℕ
end_or none size = size
end_or (some pos) size = pos

unfoldable pub down_to : List ℕ → ℕ → ℕ → Option ℕ → ℕ
down_to s column cursor none = cursor
down_to s column cursor (some current_end) =
    advance s (current_end + 1) (end_or (find_char 10 s (current_end + 1)) (length s)) column

-- One line down; a cursor in the last line stays.
unfoldable pub line_down : List ℕ → ℕ → ℕ → ℕ
unfolding down_to
line_down s column cursor = down_to s column cursor (find_char 10 s cursor)

unfoldable pub lines_up : List ℕ → ℕ → ℕ → ℕ → ℕ
lines_up s column zero cursor = cursor
lines_up s column (suc n) cursor = lines_up s column n (line_up s column cursor)

unfoldable pub lines_down : List ℕ → ℕ → ℕ → ℕ → ℕ
lines_down s column zero cursor = cursor
lines_down s column (suc n) cursor = lines_down s column n (line_down s column cursor)
