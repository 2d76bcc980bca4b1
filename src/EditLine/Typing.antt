-- ===== src/EditLine/Typing.antt =====
-- Backspace after typing, and Enter.
use cyberdeck.Common.{
  ℕ, zero, suc, ◌+◌, ◌≤◌, ◌<◌, ◌≡◌, ◌⊎◌, inl, inr, ◌∙◌, ap, refl, Bool, true, false, List, [], ◌∷◌,
  ◌++◌, some, ltb, ◌==◌, length, get_or, take, drop, arith, length-append, length-take,
  take-append-drop, append_assoc, take-append, drop-append, take_all,
}
use cyberdeck.Editor.Utf8.{is_trail, trails, trail, utf8_bytes}
use cyberdeck.Editor.Utf8.Scalar.{IsScalar, Written, utf8_bytes-Written}
use cyberdeck.Editor.Position.Places.{trails-get_or}
use cyberdeck.EditLine.{
  EditLine, Session, menu, password, host_key, connected, EnterResult, nothing, accept_host_key,
  send_newline, is_blank, insert, backspace, clear, enter, enter_result, previous_codepoint,
  back_from, erase, limit, Call, physical, virtual, erase_back, erase_at, go_left, go_right,
  go_home, go_end, wipe, session_is, press_enter, step, run, next_codepoint, del, cursor_left,
  cursor_right, cursor_home, cursor_end, set_session,
}

get_or_append : (x y : List ℕ) (i : ℕ) → get_or (x ++ y) (length x + i) 0 ≡ get_or y i 0
get_or_append [] y i = ap (λ j. get_or y j 0) (omega arith)
get_or_append (a ∷ x) y i =
    let e : suc (length x) + i ≡ suc (length x + i) = omega arith in rw e (get_or_append x y i)

get_or-append_lt : (x y : List ℕ) (i : ℕ) → i < length x → get_or (x ++ y) i 0 ≡ get_or x i 0
get_or-append_lt [] y i h = absurd (omega arith)
get_or-append_lt (a ∷ x) y zero h = refl
get_or-append_lt (a ∷ x) y (suc i) h = get_or-append_lt x y i (omega arith)

-- The first byte of a code point continues nothing; the others do.
Written-trails :
    {cp c : ℕ} {s : List ℕ}
    → IsScalar cp
    → Written cp (c ∷ s)
    → (is_trail c ≡ false) × (trails (length s) s ≡ true)
unfolding is_trail trails trail
Written-trails v (Written.one h) = ground arith
Written-trails v (Written.two h k) = ground arith
Written-trails v (Written.three h k) = ground arith
Written-trails v (Written.four h) = ground arith

back_from_stop :
    (s : List ℕ) (i : ℕ) → is_trail (get_or s (suc i) 0) ≡ false → back_from s (suc i) ≡ suc i
unfolding back_from is_trail
back_from_stop s i h = ground arith

back_from_go :
    (s : List ℕ) (i : ℕ)
    → is_trail (get_or s (suc i) 0) ≡ true
    → back_from s (suc i) ≡ back_from s i
unfolding back_from is_trail
back_from_go s i h = ground arith

-- From inside a code point that stands behind `x`, the loop goes back to its first byte.
back_from_first :
    (k : ℕ) (x s y : List ℕ) (c : ℕ)
    → is_trail c ≡ false
    → trails (length s) s ≡ true
    → k ≤ length s
    → back_from (x ++ (c ∷ (s ++ y))) (length x + k) ≡ length x
back_from_first zero [] s y c h t l = unfold back_from in refl
back_from_first zero (a ∷ x) s y c h t l =
    let e : suc (length x) + 0 ≡ suc (length x) = omega arith in
    let here = rw e at (get_or_append (a ∷ x) (c ∷ (s ++ y)) 0) in
    rw e (back_from_stop (a ∷ (x ++ c ∷ (s ++ y))) (length x) (ap is_trail here ∙ h))
back_from_first (suc k) x s y c h t l =
    let e : length x + suc k ≡ suc (length x + k) = omega arith in
    let here = rw e at (get_or_append x (c ∷ (s ++ y)) (suc k)) ∙ get_or-append_lt s y k l in
    let goes = trails-get_or (length s) k s t l in
    rw e (
      back_from_go (x ++ c ∷ (s ++ y)) (length x + k) (ap is_trail here ∙ goes)
      ∙ back_from_first k x s y c h t (omega arith))

previous_codepoint-written :
    {cp : ℕ} {bytes : List ℕ} (x y : List ℕ)
    → IsScalar cp
    → Written cp bytes
    → previous_codepoint (x ++ (bytes ++ y)) (length x + length bytes) ≡ length x
unfolding previous_codepoint
previous_codepoint-written {bytes = []} x y v w = elim w [ ]
previous_codepoint-written {bytes = c ∷ s} x y v w =
    let (h, t) = Written-trails v w in
    let e : length x + suc (length s) ≡ suc (length x + length s) = omega arith in
    rw e (back_from_first (length s) x s y c h t (omega arith))

Written-pos : {cp : ℕ} {bytes : List ℕ} → Written cp bytes → 0 < length bytes
Written-pos {bytes = []} w = elim w [ ]
Written-pos {bytes = c ∷ s} w = omega arith

erase-splice :
    (x bytes y : List ℕ) → erase (x ++ (bytes ++ y)) (length x) (length x + length bytes) ≡ x ++ y
erase-splice x bytes y =
    let e = append_assoc x bytes y in
    let l : length (x ++ bytes) ≡ length x + length bytes = length-append x bytes in
    let rest = rw (e, l) at (drop-append (x ++ bytes) y) in
    rw (take-append x (bytes ++ y), rest) refl

-- A code point that was typed into a line, with the cursor inside it or at its end, goes away with one
-- Backspace: the line and the cursor are then as they were.
pub backspace-insert :
    (cp : ℕ) (l : EditLine)
    → IsScalar cp
    → l.cursor ≤ length l.line
    → length l.line + length (utf8_bytes cp) ≤ limit
    → backspace (insert (some (utf8_bytes cp)) (length (utf8_bytes cp)) l).0 ≡ l
unfolding backspace insert
backspace-insert cp l v h fits =
    let bytes = utf8_bytes cp in
    let x = take l.cursor l.line in
    let y = drop l.cursor l.line in
    let at : length x ≡ l.cursor = omega (arith, length-take l.cursor l.line) in
    let room : ltb limit (length l.line + length bytes) ≡ false = ground arith in
    let back = rw at at (previous_codepoint-written x y v (utf8_bytes-Written cp)) in
    let gone = rw at at (erase-splice x bytes y) in
    let some_bytes : (l.cursor + length bytes == 0) ≡ false =
      ground (arith, Written-pos (utf8_bytes-Written cp)) in
    rw
      (
        room,
        take_all (length bytes) bytes (omega arith),
        some_bytes,
        back,
        gone,
        take-append-drop l.cursor l.line,
      )
      refl

-- What Enter gives for an empty line.
abbrev pub leftover : Session → EnterResult
leftover menu = nothing
leftover password = nothing
leftover host_key = record { action = accept_host_key; payload = []; echo = [] }
leftover connected = record { action = send_newline; payload = 10 ∷ []; echo = [] }

empty_result :
    (state : Session) (sent : Bool) (cwd : List ℕ) → enter_result state [] sent cwd ≡ leftover state
unfolding enter_result is_blank
empty_result menu sent cwd = refl
empty_result password sent cwd = refl
empty_result host_key sent cwd = refl
empty_result connected sent cwd = refl

silent :
    (state : Session) (line : List ℕ) (sent : Bool) (cwd : List ℕ)
    → (state ≡ menu) ⊎ ((enter_result state line sent cwd).echo ≡ [])
unfolding enter_result
silent menu line sent cwd = inl refl
silent password line sent cwd = inr (ground arith)
silent host_key line sent cwd = inr refl
silent connected line sent cwd = inr (ground arith)

-- A call that types nothing.
abbrev pub IsQuiet : Call → Type 0
IsQuiet (physical text len) = ⊥
IsQuiet (virtual text len) = ⊥
IsQuiet _ = Unit {0}

pub data AreQuiet : List Call → Type 0 where
  nil : AreQuiet []
  cons : {c : Call} {calls : List Call} → IsQuiet c → AreQuiet calls → AreQuiet (c ∷ calls)

take-nil : (n : ℕ) → take {A = ℕ} n [] ≡ []
take-nil zero = refl
take-nil (suc n) = refl

drop-nil : (n : ℕ) → drop {A = ℕ} n [] ≡ []
drop-nil zero = refl
drop-nil (suc n) = refl

erase-empty : (s : List ℕ) (a b : ℕ) → s ≡ [] → erase s a b ≡ []
erase-empty s a b e = rw (e, take-nil a, drop-nil b) refl

step-empty : (c : Call) (l : EditLine) → IsQuiet c → l.line ≡ [] → (step l c).line ≡ []
unfolding step backspace del cursor_left cursor_right cursor_home cursor_end clear set_session enter
step-empty (physical text len) l q e = absurd q
step-empty (virtual text len) l q e = absurd q
step-empty erase_back l q e =
    ground (arith, erase-empty l.line (previous_codepoint l.line l.cursor) l.cursor e)
step-empty erase_at l q e =
    ground (arith, erase-empty l.line l.cursor (next_codepoint l.line l.cursor) e)
step-empty go_left l q e = e
step-empty go_right l q e = e
step-empty go_home l q e = e
step-empty go_end l q e = e
step-empty wipe l q e = refl
step-empty (session_is state) l q e = e
step-empty (press_enter sent cwd) l q e = refl

run-empty :
    {calls : List Call} (l : EditLine) → AreQuiet calls → l.line ≡ [] → (run l calls).line ≡ []
unfolding run
run-empty l AreQuiet.nil e = e
run-empty l (AreQuiet.cons {c} q r) e = run-empty (step l c) r (step-empty c l q e)

-- Enter hands a line on once, in every session: whatever was in the line, and whatever calls follow
-- that type nothing, be it a change of the session, moves, deletions or Enter again, the next Enter
-- gives what it gives for an empty line. Outside of the local shell the first one echoes nothing, so a
-- password never shows.
pub enter-enter :
    (l : EditLine) (sent again : Bool) (cwd cwd' : List ℕ) {calls : List Call}
    → AreQuiet calls
    → ((enter again cwd' (run (enter sent cwd l).0 calls)).1
        ≡ leftover (run (enter sent cwd l).0 calls).session)
      × ((l.session ≡ menu) ⊎ ((enter sent cwd l).1.echo ≡ []))
unfolding enter
enter-enter l sent again cwd cwd' {calls} quiet =
    let m = run (clear l) calls in
    let gone : m.line ≡ [] = run-empty (clear l) quiet (unfold clear in refl) in
    (rw gone (empty_result m.session again cwd'), silent l.session l.line sent cwd)
