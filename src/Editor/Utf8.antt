-- ===== src/Editor/Utf8.antt =====
-- UTF-8 in components/cyberdeck/src/apps/editor/cyberdeck_editor_model.cpp: the check of a text, and
-- one code point written and read. A position in a text is the list of the bytes from there on.
use cyberdeck.Common.{
  ℕ, zero, suc, ◌+◌, ◌-◌, ◌*◌, ◌/◌, ◌%◌, ◌^◌, ◌<◌, Bool, true, false, not, ◌&&◌, ◌||◌, List, [],
  ◌∷◌, ◌++◌, Option, none, some, ltb, leb, ◌==◌, if◌then◌else◌, length, get_or, drop,
}
pub mod Scalar
pub mod Valid
pub mod Next

-- The bytes of a sequence by its first byte; 0 for one that starts none.
unfoldable pub lead_size : ℕ → ℕ
lead_size c =
    if ltb c 0x80
    then 1
    else if leb 0xc2 c && leb c 0xdf
    then 2
    else if leb 0xe0 c && leb c 0xef
    then 3
    else if leb 0xf0 c && leb c 0xf4
    then 4
    else 0

-- `(b & 0xc0) == 0x80`, of a byte.
unfoldable pub is_trail : ℕ → Bool
is_trail b = b / 64 == 2

-- The `n` bytes at the head are continuation bytes.
unfoldable pub trails : ℕ → List ℕ → Bool
unfolding is_trail
trails zero s = true
trails (suc n) [] = false
trails (suc n) (b ∷ s) = is_trail b && trails n s

-- Overlong forms, surrogates and code points past the last, by the first two bytes.
unfoldable pub bad_second : ℕ → ℕ → ℕ → Bool
bad_second n c b =
    (n == 3 && ((c == 0xe0 && ltb b 0xa0) || (c == 0xed && leb 0xa0 b)))
    || (n == 4 && ((c == 0xf0 && ltb b 0x90) || (c == 0xf4 && ltb 0x8f b)))

-- One round of the loop: the sequence that `c` starts, before `s`, is a good one.
unfoldable pub sequence_ok : ℕ → List ℕ → Bool
unfolding lead_size trails bad_second
sequence_ok c s =
    let n = lead_size c in
    not (n == 0 || ltb (suc (length s)) n)
    && trails (n - 1) s
    && not (bad_second n c (get_or s 0 0))

-- A round takes a byte at least, so as many rounds as there are bytes are enough.
unfoldable pub valid_loop : List ℕ → ℕ → Bool
valid_loop [] fuel = true
valid_loop (c ∷ s) zero = false
valid_loop (c ∷ s) (suc fuel) =
    let rest = valid_loop (drop (lead_size c - 1) s) fuel in
    if not (sequence_ok c s) then false else rest

unfoldable pub valid_utf8 : List ℕ → Bool
valid_utf8 s = valid_loop s (length s)

-- `char(0x80 | (x & 63))`
unfoldable pub trail : ℕ → ℕ
trail x = 0x80 + x % 64

-- `0xc0 | x` and its like are sums, as the bits do not meet; the last byte is cut to eight bits.
unfoldable pub utf8_bytes : ℕ → List ℕ
unfolding trail
utf8_bytes cp =
    if leb cp 0x7f
    then cp ∷ []
    else if leb cp 0x7ff
    then (0xc0 + cp / 2 ^ 6) ∷ trail cp ∷ []
    else if leb cp 0xffff
    then (0xe0 + cp / 2 ^ 12) ∷ trail (cp / 2 ^ 6) ∷ trail cp ∷ []
    else (0xf0 + cp / 2 ^ 18 % 16) ∷ trail (cp / 2 ^ 12) ∷ trail (cp / 2 ^ 6) ∷ trail cp ∷ []

unfoldable pub append_utf8 : List ℕ → ℕ → List ℕ
append_utf8 out cp = out ++ utf8_bytes cp

-- The size that `next_utf8` takes from the first byte, with no check.
unfoldable pub read_size : ℕ → ℕ
read_size c = if ltb c 0x80 then 1 else if ltb c 0xe0 then 2 else if ltb c 0xf0 then 3 else 4

unfoldable pub first_bits : ℕ → ℕ → ℕ
first_bits n c =
    if n == 1 then c % 128 else if n == 2 then c % 32 else if n == 3 then c % 16 else c % 8

-- `cp = (cp << 6) | (s[pos + i] & 0x3f)`, for each of the other bytes. A byte past the end reads 0.
unfoldable pub more_bits : ℕ → ℕ → List ℕ → ℕ
more_bits zero cp s = cp
more_bits (suc n) cp s = more_bits n (cp * 64 + get_or s 0 0 % 64) (drop 1 s)

-- The code point, and the text from the new position on.
unfoldable pub next_utf8 : List ℕ → Option (ℕ × List ℕ)
unfolding read_size first_bits more_bits
next_utf8 [] = none
next_utf8 (c ∷ s) =
    let n = read_size c in some (more_bits (n - 1) (first_bits n c) s, drop (n - 1) s)
