-- ===== src/EditLine/Bounds.antt =====
-- The line stays within its limit and the cursor within the line; what Enter gives and leaves.
use cyberdeck.Common.{
  ℕ, zero, suc, ◌+◌, ◌-◌, ◌≤◌, ◌<◌, ◌≡◌, List, [], ◌∷◌, ◌++◌, Option, none, some, length, take,
  drop, arith, length-append, length-take, length-drop,
}
use cyberdeck.EditLine.{
  EditLine, Call, physical, virtual, erase_back, erase_at, go_left, go_right, go_home, go_end, wipe,
  session_is, press_enter, step, run, limit, init, insert, insert_physical, insert_virtual,
  backspace, del, cursor_left, cursor_right, cursor_home, cursor_end, clear, set_session, enter,
  previous_codepoint, next_codepoint, back_from, erase, width,
}

pub record IsBounded (l : EditLine) : Type 0 where
  pub within : l.cursor ≤ length l.line
  pub small : length l.line ≤ limit

back_from-le : (s : List ℕ) (start : ℕ) → back_from s start ≤ start
unfolding back_from
back_from-le s zero = omega arith
back_from-le s (suc start) = ground (arith, back_from-le s start)

pub previous_codepoint-le : (s : List ℕ) (pos : ℕ) → previous_codepoint s pos ≤ pos
unfolding previous_codepoint
previous_codepoint-le s zero = omega arith
previous_codepoint-le s (suc pos) = omega (arith, back_from-le s pos)

pub next_codepoint-le : (s : List ℕ) (pos : ℕ) → next_codepoint s pos ≤ length s
unfolding next_codepoint
next_codepoint-le s pos = ground arith

pub next_codepoint-lt : (s : List ℕ) (pos : ℕ) → pos < length s → pos < next_codepoint s pos
unfolding next_codepoint width
next_codepoint-lt s pos h = ground arith

-- A text that is given has as many bytes as the call says; a null pointer can have none only.
pub data Given : Option (List ℕ) → ℕ → Type 0 where
  null : (n : ℕ) → Given none n
  readable : (t : List ℕ) (n : ℕ) → n ≤ length t → Given (some t) n

pub length-splice :
    (s x : List ℕ) (c : ℕ)
    → c ≤ length s
    → length (take c s ++ (x ++ drop c s)) ≡ length s + length x
length-splice s x c h = omega (
  arith,
  length-append (take c s) (x ++ drop c s),
  length-append x (drop c s),
  length-take c s,
  length-drop c s,
)

insert-IsBounded :
    {text : Option (List ℕ)} {len : ℕ} {l : EditLine}
    → Given text len
    → IsBounded l
    → IsBounded (insert text len l).0
unfolding insert
insert-IsBounded {l} (Given.null n) h = ground (arith, length-splice l.line [] l.cursor)
insert-IsBounded {l} (Given.readable t n g) h =
    ground (arith, length-splice l.line (take n t) l.cursor h.within, length-take n t)

length-erase :
    (s : List ℕ) (start stop : ℕ)
    → start ≤ stop
    → stop ≤ length s
    → length (erase s start stop) + (stop - start) ≡ length s
length-erase s start stop h k =
    omega
      (arith, length-append (take start s) (drop stop s), length-take start s, length-drop stop s)

backspace-IsBounded : {l : EditLine} → IsBounded l → IsBounded (backspace l)
unfolding backspace
backspace-IsBounded {l} h = ground (
  arith,
  previous_codepoint-le l.line l.cursor,
  length-erase l.line (previous_codepoint l.line l.cursor) l.cursor,
)

del-IsBounded : {l : EditLine} → IsBounded l → IsBounded (del l)
unfolding del
del-IsBounded {l} h = ground (
  arith,
  next_codepoint-le l.line l.cursor,
  next_codepoint-lt l.line l.cursor,
  length-erase l.line l.cursor (next_codepoint l.line l.cursor),
)

-- The text of an insertion is as long as it says.
abbrev pub IsGiven : Call → Type 0
IsGiven (physical text len) = Given text len
IsGiven (virtual text len) = Given text len
IsGiven _ = Unit {0}

step-IsBounded : (c : Call) {l : EditLine} → IsGiven c → IsBounded l → IsBounded (step l c)
unfolding step insert_physical insert_virtual cursor_left cursor_right cursor_home cursor_end clear
    set_session enter
step-IsBounded (physical text len) g h = insert-IsBounded g h
step-IsBounded (virtual text len) g h = insert-IsBounded g h
step-IsBounded erase_back g h = backspace-IsBounded h
step-IsBounded erase_at g h = del-IsBounded h
step-IsBounded go_left {l} g h = ground (arith, previous_codepoint-le l.line l.cursor)
step-IsBounded go_right {l} g h = ground (arith, next_codepoint-le l.line l.cursor)
step-IsBounded go_home g h = ground arith
step-IsBounded go_end g h = ground arith
step-IsBounded wipe g h = ground arith
step-IsBounded (session_is state) g h = ground arith
step-IsBounded (press_enter sent cwd) g h = ground arith

pub data AreGiven : List Call → Type 0 where
  nil : AreGiven []
  cons : {c : Call} {calls : List Call} → IsGiven c → AreGiven calls → AreGiven (c ∷ calls)

run-IsBounded :
    {calls : List Call} {l : EditLine} → AreGiven calls → IsBounded l → IsBounded (run l calls)
unfolding run
run-IsBounded AreGiven.nil h = h
run-IsBounded (AreGiven.cons {c} g r) h = run-IsBounded r (step-IsBounded c g h)

-- After any calls, insertions of arbitrary bytes and of null pointers among them, the line has at most
-- 12288 bytes and the cursor stands in it or at its end.
pub run-init-IsBounded : {calls : List Call} → AreGiven calls → IsBounded (run init calls)
run-init-IsBounded g = run-IsBounded g (record { within = omega arith; small = omega arith })
