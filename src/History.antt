-- ===== src/History.antt =====
-- components/cyberdeck/src/apps/shell/cyberdeck_history.cpp and its header: the commands entered in
-- the shell, and the place in them that the arrow keys move.
pub mod Recall
mod Tests
use cyberdeck.Common.{
  ℕ, zero, suc, ◌+◌, ◌-◌, Bool, true, false, not, ◌&&◌, ◌||◌, List, [], ◌∷◌, ◌++◌, length, get_or,
  drop, ltb, ◌==◌, if◌then◌else◌,
}

pub record History : Type 0 where
  pub entries : List (List ℕ)
  pub pos : ℕ

abbrev pub limit : ℕ
limit = 64

abbrev pub init : History
init = record { entries = []; pos = 0 }

-- Only spaces and tabs.
pub is_blank : List ℕ → Bool
is_blank [] = true
is_blank (c ∷ line) = ((c == 0x20) || (c == 0x09)) && is_blank line

-- The entries with one more line, the oldest one dropped beyond the limit.
pub push_entry : List (List ℕ) → List ℕ → List (List ℕ)
push_entry entries line =
    if ltb limit (length (entries ++ line ∷ []))
    then drop 1 (entries ++ line ∷ [])
    else entries ++ line ∷ []

abbrev pub reset_position : History → History
reset_position h = record h { pos = length h.entries }

pub add : History → List ℕ → History × Bool
unfolding is_blank push_entry
add h line =
    if is_blank line
    then (reset_position h, false)
    else (reset_position (record h { entries = push_entry h.entries line }), true)

pub move_up : History → History
move_up h = if (length h.entries == 0) || (h.pos == 0) then h else record h { pos = h.pos - 1 }

pub move_down : History → History
move_down h =
    if (length h.entries == 0) || not (ltb h.pos (length h.entries))
    then h
    else record h { pos = h.pos + 1 }

pub at : History → ℕ → List ℕ
at h i = if ltb i (length h.entries) then get_or h.entries i [] else []

pub current : History → List ℕ
current h = if ltb h.pos (length h.entries) then get_or h.entries h.pos [] else []

abbrev pub clear : History → History
clear h = init
