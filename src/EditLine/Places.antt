-- ===== src/EditLine/Places.antt =====
-- A line of valid UTF-8: no operation cuts a code point, and Backspace takes back what was typed.
use cyberdeck.Common.{
  ℕ, zero, suc, ◌+◌, ◌/◌, ◌≤◌, ◌<◌, ◌≡◌, inl, inr, subst, true, List, [], ◌∷◌, Option, some, ltb,
  leb, ◌==◌, length, get_or, drop, arith, Bool-cases, take_all,
}
use cyberdeck.Editor.Utf8.{valid_utf8, lead_size, is_trail}
use cyberdeck.Editor.Position.Places.{
  IsPlace, empty_valid, zero-IsPlace, length-IsPlace, IsPlace-at,
}
use cyberdeck.Editor.Position.Splices.{splice-IsPlace, first-IsPlace, IsPlace-further}
use cyberdeck.Editor.Position.Rows.{drop-cons}
use cyberdeck.EditLine.{
  EditLine, Session, menu, Call, physical, virtual, erase_back, erase_at, go_left, go_right,
  go_home, go_end, wipe, session_is, press_enter, step, run, limit, init, insert, insert_physical,
  insert_virtual, backspace, del, cursor_left, cursor_right, cursor_home, cursor_end, clear,
  set_session, enter, previous_codepoint, next_codepoint, back_from, erase, width,
}

-- The line is valid UTF-8, and the cursor stands between two of its code points.
pub record IsText (l : EditLine) : Type 0 where
  pub valid : valid_utf8 l.line ≡ true
  pub place : IsPlace l.line l.cursor

back_from-IsPlace :
    {s : List ℕ} (start : ℕ)
    → valid_utf8 s ≡ true
    → start < length s
    → IsPlace s (back_from s start)
unfolding back_from is_trail
back_from-IsPlace zero v h = zero-IsPlace v
back_from-IsPlace {s} (suc start) v h = elim (Bool-cases (get_or s (suc start) 0 / 64 == 2)) [
  | inl e ↦ rw e (back_from-IsPlace start v (omega arith))
  | inr e ↦ rw e (IsPlace-at v h e)
]

previous_codepoint-IsPlace :
    {s : List ℕ} (pos : ℕ)
    → valid_utf8 s ≡ true
    → pos ≤ length s
    → IsPlace s (previous_codepoint s pos)
unfolding previous_codepoint
previous_codepoint-IsPlace zero v h = zero-IsPlace v
previous_codepoint-IsPlace (suc pos) v h = back_from-IsPlace pos v (omega arith)

width-lead_size : (c : ℕ) → 0 < lead_size c → width c ≡ lead_size c
unfolding width lead_size
width-lead_size c h = ground arith

width-IsPlace : (c : ℕ) (s : List ℕ) → valid_utf8 (c ∷ s) ≡ true → IsPlace (c ∷ s) (width c)
width-IsPlace c s v = let (n, place) = first-IsPlace c s v in rw (width-lead_size c n) place

next_codepoint-IsPlace :
    {s : List ℕ} (pos : ℕ) → IsPlace s pos → valid_utf8 s ≡ true → IsPlace s (next_codepoint s pos)
unfolding next_codepoint
next_codepoint-IsPlace {s} pos p v = elim (Bool-cases (leb (length s) pos)) [
  | inl e ↦ rw e (length-IsPlace v)
  | inr e ↦
      let head = drop-cons pos s (ground arith) in
      let first = width-IsPlace (get_or s pos 0) (drop (suc pos) s) (rw head at p.behind) in
      let further = IsPlace-further (width (get_or s pos 0)) p (rw (← head) at first) in
      rw e (subst (IsPlace s) (omega (arith, further.within)) further)
]

insert-IsText :
    (t : List ℕ) {l : EditLine}
    → valid_utf8 t ≡ true
    → IsText l
    → IsText (insert (some t) (length t) l).0
unfolding insert
insert-IsText t {l} v h =
    let (valid, place) = splice-IsPlace l.line t l.cursor l.cursor h.place h.place v in
    elim (Bool-cases (ltb limit (length l.line + length t))) [
      | inl e ↦ rw e h
      | inr e ↦
          rw (e, take_all (length t) t (omega arith)) (record { valid = valid; place = place })
    ]

erase-IsPlace :
    {s : List ℕ} {b e : ℕ}
    → IsPlace s b
    → IsPlace s e
    → (valid_utf8 (erase s b e) ≡ true) × IsPlace (erase s b e) b
erase-IsPlace {s} {b} {e} p q =
    let (valid, place) = splice-IsPlace s [] b e p q empty_valid in
    (valid, subst (IsPlace (erase s b e)) (omega arith) place)

backspace-IsText : {l : EditLine} → IsText l → IsText (backspace l)
unfolding backspace
backspace-IsText {l} h = elim (Bool-cases (l.cursor == 0)) [
  | inl e ↦ rw e h
  | inr e ↦
      let start = previous_codepoint-IsPlace l.cursor h.valid h.place.within in
      let (valid, place) = erase-IsPlace start h.place in
      rw e (record { valid = valid; place = place })
]

del-IsText : {l : EditLine} → IsText l → IsText (del l)
unfolding del
del-IsText {l} h = elim (Bool-cases (leb (length l.line) l.cursor)) [
  | inl e ↦ rw e h
  | inr e ↦
      let (valid, place) =
        erase-IsPlace h.place (next_codepoint-IsPlace l.cursor h.place h.valid) in
      rw e (record { valid = valid; place = place })
]

-- A text of as many bytes as the call says, which are valid UTF-8.
pub data IsTyped : Option (List ℕ) → ℕ → Type 0 where
  valid_text : (t : List ℕ) → valid_utf8 t ≡ true → IsTyped (some t) (length t)

-- What is inserted is valid UTF-8.
abbrev pub Types : Call → Type 0
Types (physical text len) = IsTyped text len
Types (virtual text len) = IsTyped text len
Types _ = Unit {0}

cleared-IsText : (state : Session) → IsText (record { line = []; cursor = 0; session = state })
cleared-IsText state = record { valid = empty_valid; place = zero-IsPlace empty_valid }

step-IsText : (c : Call) {l : EditLine} → Types c → IsText l → IsText (step l c)
unfolding step insert_physical insert_virtual cursor_left cursor_right cursor_home cursor_end clear
    set_session enter
step-IsText (physical text len) (IsTyped.valid_text t v) h = insert-IsText t v h
step-IsText (virtual text len) (IsTyped.valid_text t v) h = insert-IsText t v h
step-IsText erase_back t h = backspace-IsText h
step-IsText erase_at t h = del-IsText h
step-IsText go_left {l} t h = record {
  valid = h.valid;
  place = previous_codepoint-IsPlace l.cursor h.valid h.place.within;
}
step-IsText go_right {l} t h = record {
  valid = h.valid;
  place = next_codepoint-IsPlace l.cursor h.place h.valid;
}
step-IsText go_home t h = record { valid = h.valid; place = zero-IsPlace h.valid }
step-IsText go_end t h = record { valid = h.valid; place = length-IsPlace h.valid }
step-IsText wipe {l} t h = cleared-IsText l.session
step-IsText (session_is state) t h = record { valid = h.valid; place = h.place }
step-IsText (press_enter sent cwd) {l} t h = cleared-IsText l.session

pub data AllType : List Call → Type 0 where
  nil : AllType []
  cons : {c : Call} {calls : List Call} → Types c → AllType calls → AllType (c ∷ calls)

run-IsText : {calls : List Call} {l : EditLine} → AllType calls → IsText l → IsText (run l calls)
unfolding run
run-IsText AllType.nil h = h
run-IsText (AllType.cons {c} t r) h = run-IsText r (step-IsText c t h)

-- After any calls whose insertions are valid UTF-8, the line is valid UTF-8 and the cursor stands
-- between two of its code points.
pub run-init-IsText : {calls : List Call} → AllType calls → IsText (run init calls)
run-init-IsText t = run-IsText t (cleared-IsText menu)
