-- ===== src/EditLine/Tests.antt =====
-- The edited line on concrete keys, and its theorems applied to them.
use cyberdeck.Common.{ℕ, ◌≡◌, refl, true, false, List, [], ◌∷◌, length, some, none, inl, ◌⊎◌, arith}
use cyberdeck.Editor.Utf8.{
  valid_utf8, valid_loop, sequence_ok, lead_size, trails, bad_second, is_trail, utf8_bytes,
}
use cyberdeck.EditLine.{
  EditLine, Call, physical, virtual, erase_back, go_left, connected, password, menu, session_is,
  run, step, init, insert, insert_physical, insert_virtual, bytes_at, is_null, backspace,
  previous_codepoint, back_from, cursor_left, enter, utf8_length, length_loop, next_codepoint,
  width,
}
use cyberdeck.EditLine.Bounds.{IsBounded, Given, AreGiven, run-init-IsBounded}
use cyberdeck.EditLine.Places.{IsText, IsTyped, AllType, run-init-IsText}
use cyberdeck.EditLine.Typing.{backspace-insert, enter-enter, leftover, AreQuiet}

-- `a` and U+20AC.
abbrev typed : List ℕ
typed = 97 ∷ 0xe2 ∷ 0x82 ∷ 0xac ∷ []

abbrev keys : List Call
keys = physical (some typed) 4 ∷ go_left ∷ virtual none 3 ∷ []

keys_cursor : (run init keys).cursor ≡ 1
unfolding run step insert_physical insert_virtual insert bytes_at is_null cursor_left
    previous_codepoint back_from
keys_cursor = refl

keys_length : utf8_length (run init keys) ≡ 2
unfolding run step insert_physical insert_virtual insert bytes_at is_null cursor_left
    previous_codepoint back_from utf8_length length_loop next_codepoint width
keys_length = refl

run-init-IsBounded_example : IsBounded (run init keys)
run-init-IsBounded_example = run-init-IsBounded (
    AreGiven.cons (Given.readable typed 4 (omega arith))
      (AreGiven.cons tt (AreGiven.cons (Given.null 3) AreGiven.nil)))

abbrev calls : List Call
calls = physical (some typed) (length typed) ∷ go_left ∷ erase_back ∷ []

typed_valid : valid_utf8 typed ≡ true
unfolding valid_utf8 valid_loop sequence_ok lead_size trails is_trail bad_second
typed_valid = refl

run-init-IsText_example : IsText (run init calls)
run-init-IsText_example = run-init-IsText (
    AllType.cons (IsTyped.valid_text typed typed_valid)
      (AllType.cons tt (AllType.cons tt AllType.nil)))

abbrev abc : EditLine
abc = record { line = 97 ∷ 98 ∷ 99 ∷ []; cursor = 2; session = connected }

backspace-insert_example :
    backspace (insert (some (utf8_bytes 0x20ac)) (length (utf8_bytes 0x20ac)) abc).0 ≡ abc
backspace-insert_example =
    backspace-insert 0x20ac abc (inl (omega arith)) (omega arith) (unfold utf8_bytes in omega arith)

-- A password is entered, the session changes to the menu, and Enter comes again.
abbrev left : List Call
left = erase_back ∷ session_is menu ∷ go_left ∷ []

enter-enter_example :
    ((enter false [] (run (enter false [] (record abc { session = password })).0 left)).1
      ≡ leftover (run (enter false [] (record abc { session = password })).0 left).session)
    × ((password ≡ menu) ⊎ ((enter false [] (record abc { session = password })).1.echo ≡ []))
enter-enter_example =
    enter-enter (record abc { session = password }) false false [] []
      (AreQuiet.cons tt (AreQuiet.cons tt (AreQuiet.cons tt AreQuiet.nil)))
