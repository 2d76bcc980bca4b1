-- ===== src/Editor/Tests.antt =====
-- The editor on concrete documents, and its theorems applied to them.
use cyberdeck.Common.{ℕ, ◌≡◌, ◌&&◌, ltb, refl, true, Bool, List, [], ◌∷◌, arith}
use cyberdeck.Editor.{LineEnding, ok}
use cyberdeck.Editor.Utf8.{
  valid_utf8, valid_loop, sequence_ok, lead_size, trails, bad_second, is_trail, trail, utf8_bytes,
  append_utf8,
}
use cyberdeck.Editor.Utf8.Next.{next_utf8-valid_utf8, Reads}
use cyberdeck.Editor.Codec.{
  decode, detect, contains, decode_as, units, unit, is_le, decode_units, is_high, is_low, join,
  finish, first_eol, encode, lf_text,
}
use cyberdeck.Editor.Codec.Loaded.{AreBytes, decode_valid}
use cyberdeck.Editor.Codec.Lines.{with_eol}
use cyberdeck.Editor.Codec.Crlf.{IsWindows, encode-crlf_lost}
use cyberdeck.Editor.Model.{
  Model, Key, now, mutate, commit, remember, evict, undo, redo, handle, insert, move_vertical,
  find_next, found, or_else, newest, history_bytes,
}
use cyberdeck.Editor.Position.{
  previous_codepoint, column_at, column_loop, line_start, line_start_loop,
  previous_codepoint_bounded, back_loop, next_codepoint, next_codepoint_bounded, forward_loop,
  lines_up, line_up, advance, find, find_loop, starts_with,
}
use cyberdeck.Editor.Model.Sound.{IsSound}
use cyberdeck.Editor.Model.Reach.{Reaches, Reaches-IsSound, blank}
use cyberdeck.Editor.Model.Undo.{undo-mutate, travel, back, reverse, travel-reverse}

-- In UTF-16 with the high byte first: the mark, U+20AC, a line feed and U+1F600.
abbrev euro : List ℕ
euro = 0xfe ∷ 0xff ∷ 0x20 ∷ 0xac ∷ 0 ∷ 10 ∷ 0xd8 ∷ 0x3d ∷ 0xde ∷ 0 ∷ []

all_bytes : List ℕ → Bool
all_bytes [] = true
all_bytes (b ∷ s) = ltb b 256 && all_bytes s

all_bytes_sound : (s : List ℕ) → all_bytes s ≡ true → AreBytes s
unfolding all_bytes
all_bytes_sound [] h = AreBytes.nil
all_bytes_sound (b ∷ s) h = AreBytes.cons (ground arith) (all_bytes_sound s (ground arith))

euro-AreBytes : AreBytes euro
euro-AreBytes = all_bytes_sound euro (unfold all_bytes in refl)

euro_loads : (decode euro).status ≡ ok
unfolding decode detect decode_as units unit is_le decode_units is_high is_low join finish first_eol
    append_utf8 utf8_bytes trail
euro_loads = refl

decode_valid_example : valid_utf8 (decode euro).text ≡ true
decode_valid_example = decode_valid euro-AreBytes euro_loads

-- `a`, a line feed, `b`.
abbrev lines : List ℕ
lines = 97 ∷ 10 ∷ 98 ∷ []

lines-IsWindows : IsWindows lines
unfolding contains with_eol lf_text valid_utf8 valid_loop sequence_ok lead_size trails is_trail
    bad_second
lines-IsWindows = record {
  no_return = refl;
  some_line = refl;
  no_mark = omega arith;
  no_zero = refl;
  valid = refl;
  fits = refl;
}

encode-crlf_lost_example :
    ((decode (with_eol LineEnding.crlf lines)).status ≡ ok)
    × ((decode (with_eol LineEnding.crlf lines)).text ≡ with_eol LineEnding.crlf lines)
    × ((decode (with_eol LineEnding.crlf lines)).info.eol ≡ LineEnding.crlf)
    × (encode
          (decode (with_eol LineEnding.crlf lines)).text
          (decode (with_eol LineEnding.crlf lines)).info
          []
        ≡ (true, lines))
encode-crlf_lost_example = encode-crlf_lost [] lines-IsWindows

next_utf8-valid_utf8_example :
    (cp : ℕ) × (rest : List ℕ) × Reads (0xe2 ∷ 0x82 ∷ 0xac ∷ 98 ∷ []) cp rest
    × (valid_utf8 rest ≡ true)
next_utf8-valid_utf8_example =
    next_utf8-valid_utf8 0xe2 (0x82 ∷ 0xac ∷ 98 ∷ [])
      (unfold valid_utf8 valid_loop sequence_ok lead_size trails is_trail bad_second in refl)

abbrev typed : Model
typed = (handle true Key.character (97 ∷ 98 ∷ []) blank).0

typed-Reaches : Reaches typed
typed-Reaches = Reaches.press true Key.character (97 ∷ 98 ∷ []) Reaches.initial

Reaches-IsSound_example : IsSound typed
Reaches-IsSound_example = Reaches-IsSound typed-Reaches

abbrev marked : Model
marked = (mutate true (0xc3 ∷ 0xa9 ∷ []) 1 2 typed).0

typed_mutate : mutate true (0xc3 ∷ 0xa9 ∷ []) 1 2 typed ≡ (marked, true)
unfolding mutate commit remember evict handle insert history_bytes valid_utf8 valid_loop sequence_ok
    lead_size trails is_trail bad_second
typed_mutate = refl

undo-mutate_example : ((undo true marked).1 ≡ true) × (now (undo true marked).0 ≡ now typed)
undo-mutate_example = undo-mutate true (0xc3 ∷ 0xa9 ∷ []) 1 2 typed typed_mutate

abbrev undone : Model
undone = (undo true typed).0

typed_undo : undo true typed ≡ (undone, true)
unfolding mutate commit remember evict handle insert history_bytes undo newest valid_utf8 valid_loop
    sequence_ok lead_size trails is_trail bad_second
typed_undo = refl

travel-reverse_example : ((redo true undone).1 ≡ true) × (now (redo true undone).0 ≡ now typed)
unfolding travel reverse
travel-reverse_example = travel-reverse back true (Reaches-IsSound typed-Reaches) typed_undo

-- The two lines are `ab` and `cd`, and the cursor goes from the end up and to the right.
move_lem :
    (handle true Key.right []
      (handle true Key.up []
        (handle true Key.character (97 ∷ 98 ∷ 10 ∷ 99 ∷ []) blank).0).0).0.cursor
    ≡ 2
unfolding handle insert mutate commit remember evict history_bytes valid_utf8 valid_loop sequence_ok
    lead_size trails is_trail bad_second move_vertical column_at column_loop line_start
    line_start_loop previous_codepoint_bounded back_loop next_codepoint next_codepoint_bounded
    forward_loop lines_up line_up advance
move_lem = refl

-- The needle is found behind the cursor, then again from the start.
find_lem :
    (find_next
      (98 ∷ [])
      (find_next (98 ∷ []) (handle true Key.left [] typed).0).0).0.selection_start
    ≡ 1
unfolding find_next found or_else find find_loop starts_with handle insert mutate commit remember
    evict history_bytes valid_utf8 valid_loop sequence_ok lead_size trails is_trail bad_second
    previous_codepoint previous_codepoint_bounded back_loop
find_lem = refl
