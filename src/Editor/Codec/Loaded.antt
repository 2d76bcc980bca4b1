-- ===== src/Editor/Codec/Loaded.antt =====
-- What `decode` gives is valid UTF-8, whatever the document was encoded in.
use cyberdeck.Common.{
  ℕ, zero, suc, ◌<◌, ◌≡◌, refl, inl, inr, Bool, true, false, ◌||◌, List, [], ◌∷◌, ltb, ◌==◌, drop,
  arith, Bool-cases,
}
use cyberdeck.Editor.{
  Encoding, utf8, utf16_le, utf16_be, windows_1252, LoadStatus, ok, too_large, binary,
  invalid_encoding, unsupported,
}
use cyberdeck.Editor.Utf8.{valid_utf8, valid_loop, append_utf8}
use cyberdeck.Editor.Utf8.Scalar.{IsScalar}
use cyberdeck.Editor.Utf8.Valid.{valid_utf8-append_utf8}
use cyberdeck.Editor.CodePage.{cp1252, undefined_point, cp1252-lt}
use cyberdeck.Editor.Codec.{
  decode_1252, unit, units, is_high, is_low, join, decode_units, finish, decode_as, decode, detect,
}

-- All of the bytes are bytes.
pub data AreBytes : List ℕ → Type 0 where
  nil : AreBytes []
  cons : {b : ℕ} {s : List ℕ} → b < 256 → AreBytes s → AreBytes (b ∷ s)

pub drop-AreBytes : (n : ℕ) {s : List ℕ} → AreBytes s → AreBytes (drop n s)
drop-AreBytes zero h = h
drop-AreBytes (suc n) AreBytes.nil = AreBytes.nil
drop-AreBytes (suc n) (AreBytes.cons b h) = drop-AreBytes n h

pub data AreUnits : List ℕ → Type 0 where
  nil : AreUnits []
  cons : {u : ℕ} {s : List ℕ} → u < 65536 → AreUnits s → AreUnits (u ∷ s)

pub units-AreUnits : (codec : Encoding) {s : List ℕ} → AreBytes s → AreUnits (units codec s)
unfolding units unit
units-AreUnits codec AreBytes.nil = AreUnits.nil
units-AreUnits codec (AreBytes.cons x AreBytes.nil) = AreUnits.nil
units-AreUnits codec (AreBytes.cons x (AreBytes.cons y s)) =
    AreUnits.cons (ground arith) (units-AreUnits codec s)

append_point :
    (text : List ℕ) (cp : ℕ)
    → cp < 0xd800
    → valid_utf8 text ≡ true
    → valid_utf8 (append_utf8 text cp) ≡ true
append_point text cp v h = valid_utf8-append_utf8 text cp (inl v) h

-- A loop that succeeds has built a valid text.
decode_1252_valid :
    {s : List ℕ} (text : List ℕ)
    → AreBytes s
    → valid_utf8 text ≡ true
    → (decode_1252 s text).0 ≡ ok
    → valid_utf8 (decode_1252 s text).1 ≡ true
unfolding decode_1252
decode_1252_valid text AreBytes.nil h e = h
decode_1252_valid text (AreBytes.cons {b} {s} k r) h e =
    elim (Bool-cases (cp1252 b == undefined_point || cp1252 b == 0)) [
      | inl bad ↦ ground arith
      | inr good ↦ rw good (
          decode_1252_valid (append_utf8 text (cp1252 b)) r
            (append_point text (cp1252 b) (cp1252-lt b k (ground arith)) h) (rw good at e))
    ]

pub join-IsScalar : (u low : ℕ) → is_high u ≡ true → is_low low ≡ true → IsScalar (join u low)
unfolding is_high is_low join
join-IsScalar u low h l = inr (ground arith, ground arith)

pub single-IsScalar : (u : ℕ) → u < 65536 → is_high u ≡ false → is_low u ≡ false → IsScalar u
unfolding is_high is_low
single-IsScalar u b h l = elim (Bool-cases (ltb u 0xd800)) [
  | inl e ↦ inl (ground arith)
  | inr e ↦ inr (ground arith, ground arith)
]

decode_units_valid :
    {s : List ℕ} (text : List ℕ)
    → AreUnits s
    → valid_utf8 text ≡ true
    → (decode_units s text).0 ≡ ok
    → valid_utf8 (decode_units s text).1 ≡ true
unfolding decode_units
decode_units_valid text AreUnits.nil h e = h
decode_units_valid text (AreUnits.cons {u} k AreUnits.nil) h e = ground (
  arith,
  λ (a : is_high u ≡ false) (b : is_low u ≡ false).
      valid_utf8-append_utf8 text u (single-IsScalar u k a b) h,
)
decode_units_valid text (AreUnits.cons {u} k (AreUnits.cons {u = low} {s} l r)) h e =
    elim (Bool-cases (is_high u)) [
      | inl a ↦ elim (Bool-cases (is_low low)) [
        | inl b ↦ ground (
          arith,
          decode_units_valid (append_utf8 text (join u low)) r
              (valid_utf8-append_utf8 text (join u low) (join-IsScalar u low a b) h),
        )
        | inr b ↦ ground arith
      ]
      | inr a ↦ elim (Bool-cases (is_low u)) [
        | inl b ↦ ground arith
        | inr b ↦ ground (
          arith,
          decode_units_valid (append_utf8 text u) (AreUnits.cons l r)
              (valid_utf8-append_utf8 text u (single-IsScalar u k a b) h),
        )
      ]
    ]

finish_valid :
    (r : LoadStatus × List ℕ) (codec : Encoding) (bom : Bool)
    → (r.0 ≡ ok → valid_utf8 r.1 ≡ true)
    → (finish r codec bom).status ≡ ok
    → valid_utf8 (finish r codec bom).text ≡ true
unfolding finish
finish_valid (ok, text) codec bom h e = h refl
finish_valid (too_large, text) codec bom h e = absurd cc
finish_valid (binary, text) codec bom h e = absurd cc
finish_valid (invalid_encoding, text) codec bom h e = absurd cc
finish_valid (unsupported, text) codec bom h e = absurd cc

empty_valid : valid_utf8 [] ≡ true
unfolding valid_utf8 valid_loop
empty_valid = refl

decode_as_valid :
    (codec : Encoding) (bom : Bool) {s : List ℕ}
    → AreBytes s
    → (decode_as codec bom s).status ≡ ok
    → valid_utf8 (decode_as codec bom s).text ≡ true
unfolding decode_as
decode_as_valid utf8 bom {s} b e = ground (
  arith,
  finish_valid (decode_1252 s []) windows_1252 bom (decode_1252_valid [] b empty_valid),
  finish_valid (ok, s) utf8 bom,
)
decode_as_valid windows_1252 bom {s} b e =
    finish_valid (decode_1252 s []) windows_1252 bom (decode_1252_valid [] b empty_valid) e
decode_as_valid utf16_le bom {s} b e = ground (
  arith,
  finish_valid (decode_units (units utf16_le s) []) utf16_le bom
      (decode_units_valid [] (units-AreUnits utf16_le b) empty_valid),
)
decode_as_valid utf16_be bom {s} b e = ground (
  arith,
  finish_valid (decode_units (units utf16_be s) []) utf16_be bom
      (decode_units_valid [] (units-AreUnits utf16_be b) empty_valid),
)

-- A document that is loaded has a text that is valid UTF-8, in whichever of the four codecs its bytes were.
pub decode_valid :
    {b : List ℕ} → AreBytes b → (decode b).status ≡ ok → valid_utf8 (decode b).text ≡ true
unfolding decode
decode_valid {b} h e =
    ground (arith, decode_as_valid (detect b).codec (detect b).bom (drop-AreBytes (detect b).at h))
