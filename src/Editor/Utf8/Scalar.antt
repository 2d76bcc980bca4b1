-- ===== src/Editor/Utf8/Scalar.antt =====
-- Code points, and what one of them is written as.
use cyberdeck.Common.{
  ℕ, ◌+◌, ◌-◌, ◌/◌, ◌%◌, ◌^◌, ◌<◌, ◌⊎◌, inl, inr, ◌≡◌, true, List, [], ◌∷◌, ◌++◌, some, leb, drop,
  arith, Bool-cases,
}
use cyberdeck.Editor.Utf8.{
  lead_size, is_trail, trails, bad_second, sequence_ok, trail, utf8_bytes, read_size, first_bits,
  more_bits, next_utf8,
}

-- A Unicode scalar value: not past the last code point, and no surrogate.
abbrev pub IsScalar : ℕ → Type 0
IsScalar cp = (cp < 0xd800) ⊎ ((0xdfff < cp) × (cp < 0x110000))

-- How `utf8_bytes` comes out, by the range of the code point.
pub data Written (cp : ℕ) : List ℕ → Type 0 where
  one : cp < 0x80 → Written cp (cp ∷ [])
  two : 0x7f < cp → cp < 0x800 → Written cp ((0xc0 + cp / 2 ^ 6) ∷ trail cp ∷ [])
  three :
      0x7ff < cp
      → cp < 0x10000
      → Written cp ((0xe0 + cp / 2 ^ 12) ∷ trail (cp / 2 ^ 6) ∷ trail cp ∷ [])
  four :
      0xffff < cp
      → Written cp
          ((0xf0 + cp / 2 ^ 18 % 16) ∷ trail (cp / 2 ^ 12) ∷ trail (cp / 2 ^ 6) ∷ trail cp ∷ [])

pub utf8_bytes-Written : (cp : ℕ) → Written cp (utf8_bytes cp)
unfolding utf8_bytes trail
utf8_bytes-Written cp = elim (Bool-cases (leb cp 0x7f)) [
  | inl a ↦ rw a (Written.one (ground arith))
  | inr a ↦ elim (Bool-cases (leb cp 0x7ff)) [
    | inl b ↦ rw (a, b) (Written.two (ground arith) (ground arith))
    | inr b ↦ elim (Bool-cases (leb cp 0xffff)) [
      | inl c ↦ rw (a, b, c) (Written.three (ground arith) (ground arith))
      | inr c ↦ rw (a, b, c) (Written.four (ground arith))
    ]
  ]
]

pub sequence_ok-Written :
    (cp c : ℕ) (s rest : List ℕ)
    → IsScalar cp
    → Written cp (c ∷ s)
    → (sequence_ok c (s ++ rest) ≡ true) × (drop (lead_size c - 1) (s ++ rest) ≡ rest)
unfolding sequence_ok lead_size trails bad_second is_trail trail
sequence_ok-Written cp _ _ rest v (Written.one h) = ground arith
sequence_ok-Written cp _ _ rest v (Written.two h k) = ground arith
sequence_ok-Written cp _ _ rest v (Written.three h k) = ground arith
sequence_ok-Written cp _ _ rest v (Written.four h) = ground arith

-- Reading back a code point that was written.
pub next_utf8-Written :
    (cp c : ℕ) (s rest : List ℕ)
    → IsScalar cp
    → Written cp (c ∷ s)
    → next_utf8 ((c ∷ s) ++ rest) ≡ some (cp, rest)
unfolding next_utf8 read_size first_bits more_bits trail
next_utf8-Written cp _ _ rest v (Written.one h) = ground arith
next_utf8-Written cp _ _ rest v (Written.two h k) = ground arith
next_utf8-Written cp _ _ rest v (Written.three h k) = ground arith
next_utf8-Written cp _ _ rest v (Written.four h) = ground arith
