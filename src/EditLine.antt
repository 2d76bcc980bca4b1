-- ===== src/EditLine.antt =====
-- components/cyberdeck/src/apps/shell/cyberdeck_edit_line.cpp and its header: the line that is being
-- typed, as the list of its bytes, with a cursor, and what Enter makes of it.
pub mod Bounds
pub mod Places
pub mod Typing
mod Tests
use cyberdeck.Common.{
  ℕ, zero, suc, ◌+◌, ◌-◌, ◌/◌, min, Bool, true, false, not, ◌&&◌, ◌||◌, List, [], ◌∷◌, ◌++◌, Option,
  none, some, ltb, leb, ◌==◌, if◌then◌else◌, length, get_or, take, drop, replicate,
}

abbrev pub limit : ℕ
limit = 12288

pub data Session : Type 0 where
  menu password host_key connected : Session

pub data Action : Type 0 where
  no_action local_command send_password accept_host_key send_line_newline send_newline : Action

pub record EnterResult : Type 0 where
  pub action : Action
  pub payload : List ℕ
  pub echo : List ℕ

pub record EditLine : Type 0 where
  pub line : List ℕ
  pub cursor : ℕ
  pub session : Session

abbrev pub init : EditLine
init = record { line = []; cursor = 0; session = menu }

-- The tests of the bits of the first byte: `(c & 0xe0) == 0xc0` and so on.
unfoldable pub width : ℕ → ℕ
width c = if c / 32 == 6 then 2 else if c / 16 == 14 then 3 else if c / 8 == 30 then 4 else 1

unfoldable pub next_codepoint : List ℕ → ℕ → ℕ
unfolding width
next_codepoint s pos =
    if leb (length s) pos then length s else min (length s) (pos + width (get_or s pos 0))

-- `(s[start] & 0xc0) == 0x80`, back to the start of the line at most.
unfoldable pub back_from : List ℕ → ℕ → ℕ
back_from s zero = zero
back_from s (suc start) =
    let rest = back_from s start in if get_or s (suc start) 0 / 64 == 2 then rest else suc start

unfoldable pub previous_codepoint : List ℕ → ℕ → ℕ
unfolding back_from
previous_codepoint s zero = zero
previous_codepoint s (suc pos) = back_from s pos

unfoldable pub set_session : Session → EditLine → EditLine
set_session state l = record l { session = state }

-- The `n` bytes behind a pointer; a null pointer has none.
unfoldable pub bytes_at : Option (List ℕ) → ℕ → List ℕ
bytes_at none n = []
bytes_at (some text) n = take n text

unfoldable pub is_null : Option (List ℕ) → Bool
is_null none = true
is_null (some text) = false

unfoldable pub insert : Option (List ℕ) → ℕ → EditLine → EditLine × Bool
unfolding bytes_at is_null
insert text len l =
    if is_null text && not (len == 0)
    then (l, false)
    else if ltb limit (length l.line + len)
    then (l, false)
    else (
      record l {
        line = take l.cursor l.line ++ (bytes_at text len ++ drop l.cursor l.line);
        cursor = l.cursor + len;
      },
      true,
    )

unfoldable pub insert_physical : Option (List ℕ) → ℕ → EditLine → EditLine × Bool
insert_physical text len l = insert text len l

unfoldable pub insert_virtual : Option (List ℕ) → ℕ → EditLine → EditLine × Bool
insert_virtual text len l = insert text len l

-- `erase(start, stop - start)`
abbrev pub erase : List ℕ → ℕ → ℕ → List ℕ
erase s start stop = take start s ++ drop stop s

unfoldable pub backspace : EditLine → EditLine
backspace l =
    let start = previous_codepoint l.line l.cursor in
    if l.cursor == 0 then l else record l { line = erase l.line start l.cursor; cursor = start }

unfoldable pub del : EditLine → EditLine
del l =
    let stop = next_codepoint l.line l.cursor in
    if leb (length l.line) l.cursor then l else record l { line = erase l.line l.cursor stop }

unfoldable pub cursor_left : EditLine → EditLine
cursor_left l = record l { cursor = previous_codepoint l.line l.cursor }

unfoldable pub cursor_right : EditLine → EditLine
cursor_right l = record l { cursor = next_codepoint l.line l.cursor }

unfoldable pub cursor_home : EditLine → EditLine
cursor_home l = record l { cursor = 0 }

unfoldable pub cursor_end : EditLine → EditLine
cursor_end l = record l { cursor = length l.line }

-- A round goes on by a byte at least, so as many rounds as there are bytes are enough.
unfoldable pub length_loop : ℕ → List ℕ → ℕ → ℕ → ℕ
length_loop zero s pos count = count
length_loop (suc fuel) s pos count =
    let rest = length_loop fuel s (next_codepoint s pos) (count + 1) in
    if ltb pos (length s) then rest else count

unfoldable pub utf8_length : EditLine → ℕ
unfolding length_loop
utf8_length l = length_loop (length l.line) l.line 0 0

unfoldable pub visible_line : EditLine → List ℕ
visible_line l = by_session l.session
  where
    by_session : Session → List ℕ
    by_session password = replicate (length l.line) 42
    by_session _ = l.line

unfoldable pub clear : EditLine → EditLine
clear l = record l { line = []; cursor = 0 }

-- `find_first_not_of(" \t") == npos`
unfoldable pub is_blank : List ℕ → Bool
is_blank [] = true
is_blank (c ∷ s) = (c == 32 || c == 9) && is_blank s

abbrev pub nothing : EnterResult
nothing = record { action = no_action; payload = []; echo = [] }

unfoldable pub enter_result : Session → List ℕ → Bool → List ℕ → EnterResult
unfolding is_blank
enter_result host_key line sent cwd = record { action = accept_host_key; payload = []; echo = [] }
enter_result connected line sent cwd =
    if length line == 0 || sent
    then record { action = send_newline; payload = 10 ∷ []; echo = [] }
    else record { action = send_line_newline; payload = line ++ 10 ∷ []; echo = [] }
enter_result password line sent cwd =
    if not (is_blank line)
    then record { action = send_password; payload = line; echo = [] }
    else nothing
enter_result menu line sent cwd =
    if not (is_blank line)
    then record {
      action = local_command;
      payload = line;
      echo = cwd ++ (36 ∷ 32 ∷ []) ++ line ++ 10 ∷ [];
    }
    else nothing

unfoldable pub enter : Bool → List ℕ → EditLine → EditLine × EnterResult
unfolding enter_result clear
enter sent cwd l = (clear l, enter_result l.session l.line sent cwd)

-- The calls of the terminal.
pub data Call : Type 0 where
  physical virtual : Option (List ℕ) → ℕ → Call
  erase_back erase_at go_left go_right go_home go_end wipe : Call
  session_is : Session → Call
  press_enter : Bool → List ℕ → Call

unfoldable pub step : EditLine → Call → EditLine
step l (physical text len) = (insert_physical text len l).0
step l (virtual text len) = (insert_virtual text len l).0
step l erase_back = backspace l
step l erase_at = del l
step l go_left = cursor_left l
step l go_right = cursor_right l
step l go_home = cursor_home l
step l go_end = cursor_end l
step l wipe = clear l
step l (session_is state) = set_session state l
step l (press_enter sent cwd) = (enter sent cwd l).0

unfoldable pub run : EditLine → List Call → EditLine
run l [] = l
run l (c ∷ calls) = run (step l c) calls
