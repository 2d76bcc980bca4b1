-- ===== src/Editor/Model/Reach.antt =====
-- The states of an editor that any sequence of its operations leads to.
use cyberdeck.Common.{
  ℕ, ◌+◌, ◌≡◌, ◌≢◌, ◌⊎◌, refl, sym, ap, ◌∙◌, inl, inr, Bool, true, false, not, ◌||◌, List, [], ◌∷◌,
  ltb, ◌==◌, length, drop, get_or, arith, Bool-cases, Option, none, some,
}
use cyberdeck.Editor.{
  max_document_bytes, LoadStatus, ok, too_large, binary, invalid_encoding, unsupported, Encoding,
  LineEnding,
}
use cyberdeck.Editor.Utf8.{valid_utf8, is_trail, lead_size, sequence_ok}
use cyberdeck.Editor.Utf8.Valid.{valid_utf8_step, sequence_ok_parts}
use cyberdeck.Editor.Codec.{decode}
use cyberdeck.Editor.Codec.Loaded.{AreBytes, decode_valid}
use cyberdeck.Editor.Position.{find}
use cyberdeck.Editor.Position.Places.{
  IsPlace, IsPlace-at, IsPlace-behind, zero-IsPlace, empty_valid, get_or-drop,
}
use cyberdeck.Editor.Position.Moves.{find_lem}
use cyberdeck.Editor.Model.{
  Model, Key, now, gesture_scroll, handle, insert, find_next, found, or_else, loaded, load,
  set_path, request_save_as, confirm_save_as, clear_dirty,
}
use cyberdeck.Editor.Model.Snapshots.{nil-IsWithin}
use cyberdeck.Editor.Model.Sound.{IsSound, handle-IsSound, gesture_scroll-IsSound, insert-IsSound}

-- A needle that is valid UTF-8 is found between two places.
found-IsSound :
    (needle : List ℕ) (o : Option ℕ) {m : Model}
    → IsSound m
    → ((p : ℕ) → o ≡ some p → IsPlace m.text p × IsPlace m.text (p + length needle))
    → IsSound (found needle o m).0
unfolding found
found-IsSound needle none h k = h
found-IsSound needle (some p) h k =
    let (start, stop) = k p refl in
    record {
      present = record {
        valid = h.present.valid;
        small = h.present.small;
        cursor_place = stop;
        start_place = start;
        stop_place = stop;
        ordered = omega arith;
      };
      undos_within = h.undos_within;
      redos_within = h.redos_within;
    }

head_starts : (x : ℕ) (s : List ℕ) → valid_utf8 (x ∷ s) ≡ true → is_trail x ≡ false
unfolding is_trail lead_size
head_starts x s v =
    let g = valid_utf8_step x s in
    let ok : sequence_ok x s ≡ true = ground arith in ground (arith, (sequence_ok_parts x s ok).0)

at_head : (p : ℕ) (s : List ℕ) → get_or (drop p s) 0 0 ≡ get_or s p 0
at_head p s = get_or-drop p 0 s ∙ ap (λ i. get_or s i 0) (omega arith)

find-places :
    (needle s : List ℕ) (pos : ℕ) {p : ℕ}
    → valid_utf8 s ≡ true
    → valid_utf8 needle ≡ true
    → length needle ≢ 0
    → find needle s pos ≡ some p
    → IsPlace s p × IsPlace s (p + length needle)
find-places [] s pos v w l e = absurd (l refl)
find-places (x ∷ needle) s pos {p} v w l e =
    let (within, rest, r) = find_lem (x ∷ needle) s pos e in
    let start = IsPlace-at v within (
      ap is_trail (sym (at_head p s) ∙ ap (λ (t : List ℕ). get_or t 0 0) r)
      ∙ head_starts x needle w) in
    (start, IsPlace-behind (x ∷ needle) rest start w r)

loaded_ok : (s : LoadStatus) → loaded s ≡ true → s ≡ ok
unfolding loaded
loaded_ok ok h = refl
loaded_ok too_large h = absurd cc
loaded_ok binary h = absurd cc
loaded_ok invalid_encoding h = absurd cc
loaded_ok unsupported h = absurd cc

or_else_lem : {a b : Option ℕ} {p : ℕ} → or_else a b ≡ some p → (a ≡ some p) ⊎ (b ≡ some p)
unfolding or_else
or_else_lem {a = none} e = inr e
or_else_lem {a = some q} e = inl e

find_next-IsSound :
    (needle : List ℕ) {m : Model}
    → valid_utf8 needle ≡ true
    → IsSound m
    → IsSound (find_next needle m).0
unfolding find_next
find_next-IsSound needle {m} w h = elim (Bool-cases (length needle == 0)) [
  | inl e ↦ rw e h
  | inr e ↦ rw e (
      found-IsSound needle (or_else (find needle m.text m.cursor) (find needle m.text 0)) h (λ p o.
        elim (or_else_lem o) [
          | inl f ↦ find-places needle m.text m.cursor h.present.valid w (ground arith) f
          | inr f ↦ find-places needle m.text 0 h.present.valid w (ground arith) f
        ]))
]

load-IsSound : {bytes : List ℕ} {m : Model} → AreBytes bytes → IsSound m → IsSound (load bytes m).0
unfolding load
load-IsSound {bytes} {m} b h =
    let r = decode bytes in
    elim (Bool-cases (not (loaded r.status) || ltb max_document_bytes (length r.text))) [
      | inl bad ↦ rw bad h
      | inr good ↦
          let v = decode_valid b (loaded_ok r.status (ground arith)) in
          let start = zero-IsPlace v in
          rw good (record {
            present = record {
              valid = v;
              small = ground arith;
              cursor_place = start;
              start_place = start;
              stop_place = start;
              ordered = omega arith;
            };
            undos_within = nil-IsWithin;
            redos_within = nil-IsWithin;
          })
    ]

-- A window that has just been opened.
abbrev pub blank : Model
blank = record {
  text = [];
  path = [];
  info = record { codec = Encoding.utf8; eol = LineEnding.lf; bom = false };
  undos = [];
  redos = [];
  cursor = 0;
  selection_start = 0;
  selection_end = 0;
  dirty = false;
  save_as_confirmation = false;
}

blank-IsSound : IsSound blank
blank-IsSound =
    let start = zero-IsPlace empty_valid in
    record {
      present = record {
        valid = empty_valid;
        small = omega arith;
        cursor_place = start;
        start_place = start;
        stop_place = start;
        ordered = omega arith;
      };
      undos_within = nil-IsWithin;
      redos_within = nil-IsWithin;
    }

same-IsSound :
    {m n : Model} → now n ≡ now m → n.undos ≡ m.undos → n.redos ≡ m.redos → IsSound m → IsSound n
same-IsSound p u r h = record {
  present = rw p h.present;
  undos_within = rw u h.undos_within;
  redos_within = rw r h.redos_within;
}

-- The operations, one by one; `memory` is free in each step.
pub data Reaches : Model → Type 0 where
  initial : Reaches blank
  press :
      {m : Model} (memory : Bool) (key : Key) (c : List ℕ)
      → Reaches m
      → Reaches (handle memory key c m).0
  replace_selection :
      {m : Model} (memory : Bool) (s : List ℕ) → Reaches m → Reaches (insert memory s m).0
  scroll :
      {m : Model} (negative : Bool) (pixels : ℕ)
      → Reaches m
      → Reaches (gesture_scroll negative pixels m).0
  search_text :
      {m : Model} (needle : List ℕ)
      → valid_utf8 needle ≡ true
      → Reaches m
      → Reaches (find_next needle m).0
  open_document :
      {m : Model} {bytes : List ℕ} → AreBytes bytes → Reaches m → Reaches (load bytes m).0
  name_document : {m : Model} (path : List ℕ) → Reaches m → Reaches (set_path path m)
  ask : {m : Model} → Reaches m → Reaches (request_save_as m)
  answer : {m : Model} (accepted : Bool) → Reaches m → Reaches (confirm_save_as accepted m)
  saved : {m : Model} → Reaches m → Reaches (clear_dirty m)

-- After any sequence of operations, with documents of any bytes and needles that are valid UTF-8, the
-- text is valid UTF-8 of at most 12000 bytes, the cursor and the selection stand between code points
-- in it, and each history holds at most eight states like that, of at most 32768 bytes together.
pub Reaches-IsSound : {m : Model} → Reaches m → IsSound m
unfolding set_path request_save_as confirm_save_as clear_dirty
Reaches-IsSound Reaches.initial = blank-IsSound
Reaches-IsSound (Reaches.press memory key c r) = handle-IsSound memory key c (Reaches-IsSound r)
Reaches-IsSound (Reaches.replace_selection memory s r) = insert-IsSound memory s (Reaches-IsSound r)
Reaches-IsSound (Reaches.scroll negative pixels r) =
    gesture_scroll-IsSound negative pixels (Reaches-IsSound r)
Reaches-IsSound (Reaches.search_text needle w r) = find_next-IsSound needle w (Reaches-IsSound r)
Reaches-IsSound (Reaches.open_document b r) = load-IsSound b (Reaches-IsSound r)
Reaches-IsSound (Reaches.name_document path r) = same-IsSound refl refl refl (Reaches-IsSound r)
Reaches-IsSound (Reaches.ask r) = same-IsSound refl refl refl (Reaches-IsSound r)
Reaches-IsSound (Reaches.answer accepted r) = same-IsSound refl refl refl (Reaches-IsSound r)
Reaches-IsSound (Reaches.saved r) = same-IsSound refl refl refl (Reaches-IsSound r)
