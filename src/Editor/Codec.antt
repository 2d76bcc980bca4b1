-- ===== src/Editor/Codec.antt =====
-- Loading and saving in components/cyberdeck/src/apps/editor/cyberdeck_editor_model.cpp: `decode` and
-- `encode`. A loop gives the status with which it leaves, and the text that it has built so far.
use cyberdeck.Common.{
  ℕ, zero, suc, ◌+◌, ◌-◌, ◌*◌, ◌/◌, ◌%◌, Bool, true, false, not, ◌&&◌, ◌||◌, List, [], ◌∷◌, ◌++◌,
  Option, none, some, ltb, leb, ◌==◌, if◌then◌else◌, length, get_or, drop,
}
use cyberdeck.Editor.{
  Encoding, utf8, utf16_le, utf16_be, windows_1252, LineEnding, lf, crlf, cr, LoadStatus, ok,
  too_large, binary, invalid_encoding, DocumentInfo, LoadResult, max_document_bytes,
}
use cyberdeck.Editor.Utf8.{valid_utf8, append_utf8, next_utf8}
use cyberdeck.Editor.CodePage.{cp1252, undefined_point, append_cp1252}
pub mod Lines
pub mod Loaded
pub mod Units
pub mod RoundTrip
pub mod Crlf

-- The codec, whether there is a byte order mark, and the position behind it.
pub record Mark : Type 0 where
  pub codec : Encoding
  pub bom : Bool
  pub at : ℕ

unfoldable pub detect : List ℕ → Mark
detect b =
    if leb 3 (length b) && get_or b 0 0 == 0xef && get_or b 1 0 == 0xbb && get_or b 2 0 == 0xbf
    then record { codec = utf8; bom = true; at = 3 }
    else if leb 2 (length b) && get_or b 0 0 == 0xff && get_or b 1 0 == 0xfe
    then record { codec = utf16_le; bom = true; at = 2 }
    else if leb 2 (length b) && get_or b 0 0 == 0xfe && get_or b 1 0 == 0xff
    then record { codec = utf16_be; bom = true; at = 2 }
    else record { codec = utf8; bom = false; at = 0 }

-- `find(c) != npos`
unfoldable pub contains : ℕ → List ℕ → Bool
contains c [] = false
contains c (x ∷ s) = x == c || contains c s

-- The loop for Windows-1252.
unfoldable pub decode_1252 : List ℕ → List ℕ → LoadStatus × List ℕ
decode_1252 [] text = (ok, text)
decode_1252 (b ∷ s) text =
    let cp = cp1252 b in
    let rest = decode_1252 s (append_utf8 text cp) in
    if cp == undefined_point || cp == 0 then (invalid_encoding, text) else rest

unfoldable pub is_le : Encoding → Bool
is_le utf16_le = true
is_le _ = false

-- The 16-bit unit of two bytes.
unfoldable pub unit : Encoding → ℕ → ℕ → ℕ
unfolding is_le
unit codec x y = if is_le codec then x + y * 256 else y + x * 256

-- The units of a text whose size is even, in the order in which the loop comes to them.
unfoldable pub units : Encoding → List ℕ → List ℕ
units codec [] = []
units codec (x ∷ []) = []
units codec (x ∷ y ∷ s) = unit codec x y ∷ units codec s

unfoldable pub is_high : ℕ → Bool
is_high u = leb 0xd800 u && leb u 0xdbff

unfoldable pub is_low : ℕ → Bool
is_low u = leb 0xdc00 u && leb u 0xdfff

unfoldable pub join : ℕ → ℕ → ℕ
join high low = 0x10000 + (high - 0xd800) * 1024 + (low - 0xdc00)

-- The loop for UTF-16.
unfoldable pub decode_units : List ℕ → List ℕ → LoadStatus × List ℕ
unfolding is_high is_low
decode_units [] text = (ok, text)
decode_units (u ∷ []) text =
    if u == 0
    then (binary, text)
    else if is_high u
    then (invalid_encoding, text)
    else if is_low u
    then (invalid_encoding, text)
    else (ok, append_utf8 text u)
decode_units (u ∷ low ∷ us) text =
    let pair = decode_units us (append_utf8 text (join u low)) in
    let single = decode_units (low ∷ us) (append_utf8 text u) in
    if u == 0
    then (binary, text)
    else if is_high u
    then if not (is_low low) then (invalid_encoding, text) else pair
    else if is_low u
    then (invalid_encoding, text)
    else single

-- The first line ending of the text; a text with none keeps the default.
unfoldable pub first_eol : List ℕ → LineEnding
first_eol [] = lf
first_eol (c ∷ s) =
    if c == 13 then if get_or s 0 0 == 10 then crlf else cr else if c == 10 then lf else first_eol s

abbrev failed : LoadStatus → List ℕ → Encoding → Bool → LoadResult
failed status text codec bom = record {
  status = status;
  text = text;
  info = record { codec = codec; eol = lf; bom = bom };
}

-- What stands behind the loops. An error returns before the line ending is looked for.
unfoldable pub finish : LoadStatus × List ℕ → Encoding → Bool → LoadResult
finish (ok, text) codec bom = record {
  status = ok;
  text = text;
  info = record { codec = codec; eol = first_eol text; bom = bom };
}
finish (status, text) codec bom = failed status text codec bom

-- The document behind its mark.
unfoldable pub decode_as : Encoding → Bool → List ℕ → LoadResult
decode_as utf8 bom s =
    if contains 0 s
    then failed binary [] utf8 bom
    else if not (valid_utf8 s)
    then if bom
      then failed invalid_encoding [] utf8 bom
      else finish (decode_1252 s []) windows_1252 bom
    else finish (ok, s) utf8 bom
decode_as windows_1252 bom s = finish (decode_1252 s []) windows_1252 bom
decode_as codec bom s =
    if length s % 2 == 1
    then failed invalid_encoding [] codec bom
    else finish (decode_units (units codec s) []) codec bom

unfoldable pub decode : List ℕ → LoadResult
unfolding detect
decode b =
    let m = detect b in
    if ltb max_document_bytes (length b)
    then failed too_large [] utf8 false
    else decode_as m.codec m.bom (drop m.at b)

unfoldable pub cr_text : LineEnding → List ℕ
cr_text cr = 13 ∷ []
cr_text _ = 10 ∷ []

unfoldable pub lf_text : LineEnding → List ℕ
lf_text lf = 10 ∷ []
lf_text crlf = 13 ∷ 10 ∷ []
lf_text cr = 13 ∷ []

abbrev other : LineEnding → ℕ → List ℕ
other eol c = if c == 10 then lf_text eol else c ∷ []

-- The loop over the line endings: a carriage return takes a line feed behind it along.
unfoldable pub normalize : LineEnding → List ℕ → List ℕ
unfolding cr_text lf_text
normalize eol [] = []
normalize eol (c ∷ []) = if c == 13 then cr_text eol else other eol c
normalize eol (c ∷ d ∷ s) =
    let after = normalize eol s in
    let rest = normalize eol (d ∷ s) in
    if c == 13
    then if d == 10 then cr_text eol ++ after else cr_text eol ++ rest
    else other eol c ++ rest

-- `put`: the two bytes of a unit.
unfoldable pub put : Encoding → ℕ → List ℕ
unfolding is_le
put codec u = if is_le codec then u % 256 ∷ u / 256 % 256 ∷ [] else u / 256 % 256 ∷ u % 256 ∷ []

unfoldable pub put_utf16 : Encoding → ℕ → List ℕ
unfolding put
put_utf16 codec cp =
    let v = cp - 0x10000 in
    if ltb 0xffff cp
    then put codec ((0xd800 + v / 1024) % 65536) ++ put codec ((0xdc00 + v % 1024) % 65536)
    else put codec (cp % 65536)

-- One code point put behind `out`.
unfoldable pub encode_point : Encoding → List ℕ → ℕ → Bool × List ℕ
encode_point windows_1252 out cp = append_cp1252 out cp
encode_point codec out cp = (true, out ++ put_utf16 codec cp)

-- A round reads a byte at least, so as many rounds as there are bytes are enough.
unfoldable pub encode_loop : Encoding → List ℕ → ℕ → List ℕ → Bool × List ℕ
encode_loop codec [] fuel out = (true, out)
encode_loop codec (c ∷ s) zero out = (false, out)
encode_loop codec (c ∷ s) (suc fuel) out = elim (next_utf8 (c ∷ s)) [
  | none ↦ (false, out)
  | some r ↦
      let (cp, rest) = r in
      let (good, bytes) = encode_point codec out cp in
      let more = encode_loop codec rest fuel bytes in if good then more else (false, bytes)
]

unfoldable pub bom_bytes : DocumentInfo → List ℕ
bom_bytes info = by_codec info.codec info.bom
  where
    by_codec : Encoding → Bool → List ℕ
    by_codec utf8 true = 0xef ∷ 0xbb ∷ 0xbf ∷ []
    by_codec utf16_le true = 0xff ∷ 0xfe ∷ []
    by_codec utf16_be true = 0xfe ∷ 0xff ∷ []
    by_codec _ _ = []

unfoldable pub write : Encoding → List ℕ → List ℕ → Bool × List ℕ
write utf8 normalized out = (true, out ++ normalized)
write codec normalized out = encode_loop codec normalized (length normalized) out

-- The result, and what the caller's string then holds.
unfoldable pub encode : List ℕ → DocumentInfo → List ℕ → Bool × List ℕ
encode text info out =
    if not (valid_utf8 text)
    then (false, out)
    else let (written, bytes) = write info.codec (normalize info.eol text) (bom_bytes info) in
      (written && leb (length bytes) max_document_bytes, bytes)
