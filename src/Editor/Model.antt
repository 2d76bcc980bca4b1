-- ===== src/Editor/Model.antt =====
-- `model` of components/cyberdeck/src/apps/editor/cyberdeck_editor_model.cpp: an open document with its
-- cursor, its selection and its history. The live slots of a history are a list, the oldest first.
pub mod Snapshots
pub mod Sound
pub mod Reach
pub mod Undo
use cyberdeck.Common.{
  ℕ, zero, suc, ◌+◌, ◌-◌, Bool, true, false, not, ◌&&◌, ◌||◌, List, [], ◌∷◌, ◌++◌, Option, none,
  some, ltb, leb, ◌==◌, if◌then◌else◌, length, get_or, take, drop,
}
use cyberdeck.Editor.{
  DocumentInfo, LoadStatus, LoadResult, ok, max_document_bytes, max_undo, max_history_bytes,
}
use cyberdeck.Editor.Utf8.{valid_utf8}
use cyberdeck.Editor.Codec.{decode, encode}
use cyberdeck.Editor.Position.{
  previous_codepoint, next_codepoint, find, line_start, column_at, lines_up, lines_down,
}

pub record Snapshot : Type 0 where
  pub text : List ℕ
  pub cursor : ℕ
  pub start : ℕ
  pub stop : ℕ

pub record Model : Type 0 where
  pub text : List ℕ
  pub path : List ℕ
  pub info : DocumentInfo
  pub undos : List Snapshot
  pub redos : List Snapshot
  pub cursor : ℕ
  pub selection_start : ℕ
  pub selection_end : ℕ
  pub dirty : Bool
  pub save_as_confirmation : Bool

pub data Key : Type 0 where
  left right up down backspace del enter undo_key redo_key character : Key

-- The value that `remember` stores.
abbrev pub now : Model → Snapshot
now m = record {
  text = m.text;
  cursor = m.cursor;
  start = m.selection_start;
  stop = m.selection_end;
}

unfoldable pub history_bytes : List Snapshot → ℕ
history_bytes [] = 0
history_bytes (h ∷ history) = length h.text + history_bytes history

-- The loop of `remember`: the oldest go until there is room.
unfoldable pub evict : List Snapshot → ℕ → List Snapshot
unfolding history_bytes
evict [] size = []
evict (h ∷ history) size =
    let rest = evict history size in
    if length (h ∷ history) == max_undo
      || ltb max_history_bytes (history_bytes (h ∷ history) + size)
    then rest
    else h ∷ history

-- `none` is a refusal. `memory` tells whether the allocation succeeds.
unfoldable pub remember : Bool → Snapshot → List Snapshot → Option (List Snapshot)
remember memory value history =
    if not memory || ltb max_document_bytes (length value.text)
    then none
    else some (evict history (length value.text) ++ value ∷ [])

abbrev no_document : Snapshot
no_document = record { text = []; cursor = 0; start = 0; stop = 0 }

unfoldable pub newest : List Snapshot → Snapshot
newest history = get_or history (length history - 1) no_document

abbrev pub replace : List ℕ → List ℕ → ℕ → ℕ → List ℕ
replace text repl b e = take b text ++ (repl ++ drop e text)

-- A change, unless the present state could not be remembered.
unfoldable pub commit : Model → (List Snapshot → Model) → Option (List Snapshot) → Model × Bool
commit m change none = (m, false)
commit m change (some history) = (change history, true)

unfoldable pub mutate : Bool → List ℕ → ℕ → ℕ → Model → Model × Bool
mutate memory repl b e m =
    let changed = λ (history : List Snapshot). record m {
      undos = history;
      redos = [];
      text = replace m.text repl b e;
      cursor = b + length repl;
      selection_start = b + length repl;
      selection_end = b + length repl;
      dirty = true;
    } in
    if ltb e b
      || ltb (length m.text) e
      || ltb max_document_bytes (length m.text - (e - b) + length repl)
      || not (valid_utf8 repl)
    then (m, false)
    else commit m changed (remember memory (now m) m.undos)

unfoldable pub insert : Bool → List ℕ → Model → Model × Bool
insert memory s m = mutate memory s m.selection_start m.selection_end m

-- What `undo` and `redo` put back.
abbrev pub restored : Snapshot → Model → Model
restored value m = record m {
  text = value.text;
  cursor = value.cursor;
  selection_start = value.start;
  selection_end = value.stop;
  dirty = true;
}

unfoldable pub undo : Bool → Model → Model × Bool
undo memory m =
    let back = λ (history : List Snapshot).
      restored (newest m.undos)
        (record m { undos = take (length m.undos - 1) m.undos; redos = history }) in
    if length m.undos == 0 then (m, false) else commit m back (remember memory (now m) m.redos)

unfoldable pub redo : Bool → Model → Model × Bool
redo memory m =
    let forth = λ (history : List Snapshot).
      restored (newest m.redos)
        (record m { redos = take (length m.redos - 1) m.redos; undos = history }) in
    if length m.redos == 0 then (m, false) else commit m forth (remember memory (now m) m.undos)

abbrev pub at_cursor : ℕ → Model → Model
at_cursor p m = record m { cursor = p; selection_start = p; selection_end = p }

-- Lines by which the cursor goes.
pub data Lines : Type 0 where
  up_by down_by : ℕ → Lines

unfoldable pub move_vertical : Lines → Model → Model × Bool
move_vertical lines m = go lines
  where
    column : ℕ
    column = column_at m.text (line_start m.text m.cursor) m.cursor

    go : Lines → Model × Bool
    go (up_by zero) = (m, true)
    go (down_by zero) = (m, true)
    go (up_by (suc n)) = (at_cursor (lines_up m.text column (suc n) m.cursor) m, true)
    go (down_by (suc n)) = (at_cursor (lines_down m.text column (suc n) m.cursor) m, true)

-- Whether the delta is negative, and how large it is.
unfoldable pub gesture_scroll : Bool → ℕ → Model → Model × Bool
gesture_scroll true pixels m = move_vertical (down_by (if pixels == 0 then 0 else 3)) m
gesture_scroll false pixels m = move_vertical (up_by (if pixels == 0 then 0 else 3)) m

unfoldable pub handle : Bool → Key → List ℕ → Model → Model × Bool
handle memory left c m = (at_cursor (previous_codepoint m.text m.cursor) m, true)
handle memory right c m = (at_cursor (next_codepoint m.text m.cursor) m, true)
handle memory up c m = move_vertical (up_by 1) m
handle memory down c m = move_vertical (down_by 1) m
handle memory backspace c m =
    if m.cursor == 0
    then (at_cursor m.cursor m, true)
    else mutate memory [] (previous_codepoint m.text m.cursor) m.cursor m
handle memory del c m =
    if ltb m.cursor (length m.text)
    then mutate memory [] m.cursor (next_codepoint m.text m.cursor) m
    else (at_cursor m.cursor m, true)
handle memory enter c m = insert memory (10 ∷ []) m
handle memory undo_key c m = undo memory m
handle memory redo_key c m = redo memory m
handle memory character c m = insert memory c m

unfoldable pub found : List ℕ → Option ℕ → Model → Model × Bool
found needle none m = (m, false)
found needle (some p) m = (
  record m { selection_start = p; selection_end = p + length needle; cursor = p + length needle },
  true,
)

unfoldable pub or_else : Option ℕ → Option ℕ → Option ℕ
or_else none again = again
or_else (some p) again = some p

-- From the cursor on, then from the start of the text.
unfoldable pub find_next : List ℕ → Model → Model × Bool
unfolding found or_else
find_next needle m =
    if length needle == 0
    then (m, false)
    else found needle (or_else (find needle m.text m.cursor) (find needle m.text 0)) m

unfoldable pub loaded : LoadStatus → Bool
loaded ok = true
loaded _ = false

unfoldable pub load : List ℕ → Model → Model × Bool
load bytes m =
    let r = decode bytes in
    let fresh = record m {
      text = r.text;
      info = r.info;
      cursor = 0;
      selection_start = 0;
      selection_end = 0;
      undos = [];
      redos = [];
      dirty = false;
      save_as_confirmation = false;
    } in
    if not (loaded r.status) || ltb max_document_bytes (length r.text)
    then (m, false)
    else (fresh, true)

unfoldable pub save : Model → List ℕ → Bool × List ℕ
save m bytes = encode m.text m.info bytes

unfoldable pub set_path : List ℕ → Model → Model
set_path path m = record m { path = path }

unfoldable pub request_save_as : Model → Model
request_save_as m = record m { save_as_confirmation = true }

unfoldable pub confirm_save_as : Bool → Model → Model
confirm_save_as accepted m = record m { save_as_confirmation = not accepted }

unfoldable pub clear_dirty : Model → Model
clear_dirty m = record m { dirty = false }
