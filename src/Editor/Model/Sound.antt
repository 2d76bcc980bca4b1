-- ===== src/Editor/Model/Sound.antt =====
-- What every operation on an open document keeps.
use cyberdeck.Common.{
  ℕ, zero, suc, ◌+◌, ◌-◌, ◌≤◌, ◌≡◌, refl, inl, inr, Bool, true, false, not, ◌||◌, List, [], ◌∷◌,
  ◌++◌, ltb, ◌==◌, length, take, drop, arith, Bool-cases, Option, none, some, length-drop,
  length-append, length-take,
}
use cyberdeck.Editor.{max_document_bytes}
use cyberdeck.Editor.Utf8.{valid_utf8}
use cyberdeck.Editor.Position.{previous_codepoint, next_codepoint}
use cyberdeck.Editor.Position.Places.{IsPlace, length-IsPlace}
use cyberdeck.Editor.Position.Splices.{splice-IsPlace}
use cyberdeck.Editor.Position.Moves.{
  previous_codepoint_bounded-IsPlace, next_codepoint_bounded-IsPlace,
}
use cyberdeck.Editor.Position.Rows.{lines_up-IsPlace, lines_down-IsPlace}
use cyberdeck.Editor.Model.{
  Model, Snapshot, Key, now, remember, replace, at_cursor, commit, mutate, insert, undo, redo,
  Lines, up_by, down_by, move_vertical, gesture_scroll, handle,
}
use cyberdeck.Editor.Model.Snapshots.{
  IsGood, IsWithin, remember-IsWithin, take-IsWithin, newest-IsGood, nil-IsWithin,
}

-- The document as it stands could be put back later, and both histories are within their bounds.
pub record IsSound (m : Model) : Type 0 where
  pub present : IsGood (now m)
  pub undos_within : IsWithin m.undos
  pub redos_within : IsWithin m.redos

-- A piece of a valid text between two places, replaced by a valid text.
replaced-IsGood :
    (text repl : List ℕ) (b e : ℕ)
    → IsPlace text b
    → IsPlace text e
    → valid_utf8 repl ≡ true
    → b + length repl + (length text - e) ≤ max_document_bytes
    → IsGood (record {
      text = replace text repl b e;
      cursor = b + length repl;
      start = b + length repl;
      stop = b + length repl;
    })
replaced-IsGood text repl b e p q v small =
    let (valid, place) = splice-IsPlace text repl b e p q v in
    record {
      valid = valid;
      small = omega (
        arith,
        length-append (take b text) (repl ++ drop e text),
        length-append repl (drop e text),
        length-take b text,
        length-drop e text,
        p.within,
      );
      cursor_place = place;
      start_place = place;
      stop_place = place;
      ordered = omega arith;
    }

commit-IsSound :
    {m : Model} (change : List Snapshot → Model) (o : Option (List Snapshot))
    → IsSound m
    → ((history : List Snapshot) → o ≡ some history → IsSound (change history))
    → IsSound (commit m change o).0
unfolding commit
commit-IsSound change none h k = h
commit-IsSound change (some history) h k = k history refl

mutate-IsSound :
    (memory : Bool) (repl : List ℕ) (b e : ℕ) {m : Model}
    → IsSound m
    → IsPlace m.text b
    → IsPlace m.text e
    → IsSound (mutate memory repl b e m).0
unfolding mutate
mutate-IsSound memory repl b e {m} h p q =
    elim (Bool-cases (
      ltb e b
      || ltb (length m.text) e
      || ltb max_document_bytes (length m.text - (e - b) + length repl)
      || not (valid_utf8 repl))) [
        | inl bad ↦ rw bad h
        | inr good ↦ rw good (
            commit-IsSound _ (remember memory (now m) m.undos) h (λ history o. record {
              present =
                  replaced-IsGood m.text repl b e p q (ground arith) (ground (arith, q.within));
              undos_within = remember-IsWithin memory (now m) m.undos h.present h.undos_within o;
              redos_within = nil-IsWithin;
            }))
      ]

pub insert-IsSound :
    (memory : Bool) (s : List ℕ) {m : Model} → IsSound m → IsSound (insert memory s m).0
unfolding insert
insert-IsSound memory s {m} h =
    mutate-IsSound memory s m.selection_start m.selection_end h h.present.start_place
      h.present.stop_place

pub undo-IsSound : (memory : Bool) {m : Model} → IsSound m → IsSound (undo memory m).0
unfolding undo
undo-IsSound memory {m} h = elim (Bool-cases (length m.undos == 0)) [
  | inl e ↦ rw e h
  | inr e ↦ rw e (
      commit-IsSound _ (remember memory (now m) m.redos) h (λ history o. record {
        present = newest-IsGood h.undos_within.good (ground arith);
        undos_within = take-IsWithin (length m.undos - 1) h.undos_within;
        redos_within = remember-IsWithin memory (now m) m.redos h.present h.redos_within o;
      }))
]

pub redo-IsSound : (memory : Bool) {m : Model} → IsSound m → IsSound (redo memory m).0
unfolding redo
redo-IsSound memory {m} h = elim (Bool-cases (length m.redos == 0)) [
  | inl e ↦ rw e h
  | inr e ↦ rw e (
      commit-IsSound _ (remember memory (now m) m.undos) h (λ history o. record {
        present = newest-IsGood h.redos_within.good (ground arith);
        undos_within = remember-IsWithin memory (now m) m.undos h.present h.undos_within o;
        redos_within = take-IsWithin (length m.redos - 1) h.redos_within;
      }))
]

pub at_cursor-IsSound : (p : ℕ) {m : Model} → IsSound m → IsPlace m.text p → IsSound (at_cursor p m)
at_cursor-IsSound p h place = record {
  present = record {
    valid = h.present.valid;
    small = h.present.small;
    cursor_place = place;
    start_place = place;
    stop_place = place;
    ordered = omega arith;
  };
  undos_within = h.undos_within;
  redos_within = h.redos_within;
}

move_vertical-IsSound : (lines : Lines) {m : Model} → IsSound m → IsSound (move_vertical lines m).0
unfolding move_vertical
move_vertical-IsSound (up_by zero) h = h
move_vertical-IsSound (down_by zero) h = h
move_vertical-IsSound (up_by (suc n)) {m} h =
    at_cursor-IsSound _ h (lines_up-IsPlace _ (suc n) h.present.valid h.present.cursor_place)
move_vertical-IsSound (down_by (suc n)) {m} h =
    at_cursor-IsSound _ h (lines_down-IsPlace _ (suc n) h.present.valid h.present.cursor_place)

pub gesture_scroll-IsSound :
    (negative : Bool) (pixels : ℕ) {m : Model}
    → IsSound m
    → IsSound (gesture_scroll negative pixels m).0
unfolding gesture_scroll
gesture_scroll-IsSound true pixels h = move_vertical-IsSound _ h
gesture_scroll-IsSound false pixels h = move_vertical-IsSound _ h

previous-IsPlace : {m : Model} → IsSound m → IsPlace m.text (previous_codepoint m.text m.cursor)
unfolding previous_codepoint
previous-IsPlace {m} h = previous_codepoint_bounded-IsPlace m.cursor h.present.valid

next-IsPlace : {m : Model} → IsSound m → IsPlace m.text (next_codepoint m.text m.cursor)
unfolding next_codepoint
next-IsPlace {m} h =
    next_codepoint_bounded-IsPlace m.cursor h.present.valid (length-IsPlace h.present.valid)

pub handle-IsSound :
    (memory : Bool) (key : Key) (c : List ℕ) {m : Model}
    → IsSound m
    → IsSound (handle memory key c m).0
unfolding handle
handle-IsSound memory Key.left c h = at_cursor-IsSound _ h (previous-IsPlace h)
handle-IsSound memory Key.right c h = at_cursor-IsSound _ h (next-IsPlace h)
handle-IsSound memory Key.up c h = move_vertical-IsSound (up_by 1) h
handle-IsSound memory Key.down c h = move_vertical-IsSound (down_by 1) h
handle-IsSound memory Key.backspace c {m} h = elim (Bool-cases (m.cursor == 0)) [
  | inl e ↦ rw e (at_cursor-IsSound m.cursor h h.present.cursor_place)
  | inr e ↦ rw e (mutate-IsSound memory [] _ m.cursor h (previous-IsPlace h) h.present.cursor_place)
]
handle-IsSound memory Key.del c {m} h = elim (Bool-cases (ltb m.cursor (length m.text))) [
  | inl e ↦ rw e (mutate-IsSound memory [] m.cursor _ h h.present.cursor_place (next-IsPlace h))
  | inr e ↦ rw e (at_cursor-IsSound m.cursor h h.present.cursor_place)
]
handle-IsSound memory Key.enter c h = insert-IsSound memory (10 ∷ []) h
handle-IsSound memory Key.undo_key c h = undo-IsSound memory h
handle-IsSound memory Key.redo_key c h = redo-IsSound memory h
handle-IsSound memory Key.character c h = insert-IsSound memory c h
