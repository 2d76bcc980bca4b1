-- ===== src/Editor/Utf8/Next.antt =====
-- Code points read from a text, and written back.
use cyberdeck.Common.{
  ℕ, ◌+◌, ◌-◌, ◌*◌, ◌/◌, ◌%◌, ◌<◌, ◌≤◌, inl, inr, ◌≡◌, true, false, ◌&&◌, List, [], ◌∷◌, ◌++◌, some,
  leb, ltb, drop, get_or, arith, Bool-cases,
}
use cyberdeck.Editor.Utf8.{
  lead_size, is_trail, trails, bad_second, sequence_ok, trail, valid_utf8, utf8_bytes, next_utf8,
  read_size, first_bits, more_bits,
}
use cyberdeck.Editor.Utf8.Scalar.{IsScalar, Written, utf8_bytes-Written, next_utf8-Written}
use cyberdeck.Editor.Utf8.Valid.{sequence_ok_parts, valid_utf8_step}

next_utf8-bytes :
    (cp : ℕ) (bytes rest : List ℕ)
    → IsScalar cp
    → Written cp bytes
    → next_utf8 (bytes ++ rest) ≡ some (cp, rest)
next_utf8-bytes cp [] rest v w = elim w [ ]
next_utf8-bytes cp (c ∷ s) rest v w = next_utf8-Written cp c s rest v w

-- A code point that was written is read back, and the position is then behind it.
pub next_utf8-utf8_bytes :
    (cp : ℕ) (rest : List ℕ) → IsScalar cp → next_utf8 (utf8_bytes cp ++ rest) ≡ some (cp, rest)
next_utf8-utf8_bytes cp rest v = next_utf8-bytes cp (utf8_bytes cp) rest v (utf8_bytes-Written cp)

-- The code point `cp` stands at the head of `s`, before `rest`.
pub record Reads (s : List ℕ) (cp : ℕ) (rest : List ℕ) : Type 0 where
  pub scalar : IsScalar cp
  pub read : next_utf8 s ≡ some (cp, rest)
  pub written : utf8_bytes cp ++ rest ≡ s

Reads-one : (c : ℕ) (s : List ℕ) → c < 0x80 → Reads (c ∷ s) c s
unfolding next_utf8 read_size first_bits more_bits utf8_bytes trail
Reads-one c s h = ground arith

Reads-two :
    (c b : ℕ) (s : List ℕ)
    → 0xc2 ≤ c
    → c ≤ 0xdf
    → b / 64 ≡ 2
    → Reads (c ∷ b ∷ s) (c % 32 * 64 + b % 64) s
unfolding next_utf8 read_size first_bits more_bits utf8_bytes trail
Reads-two c b s l h t = ground arith

Reads-three :
    (c b d : ℕ) (s : List ℕ)
    → 0xe0 ≤ c
    → c ≤ 0xef
    → b / 64 ≡ 2
    → d / 64 ≡ 2
    → bad_second 3 c b ≡ false
    → Reads (c ∷ b ∷ d ∷ s) ((c % 16 * 64 + b % 64) * 64 + d % 64) s
unfolding next_utf8 read_size first_bits more_bits utf8_bytes trail bad_second
Reads-three c b d s l h t u k = ground arith

Reads-four :
    (c b d e : ℕ) (s : List ℕ)
    → 0xf0 ≤ c
    → c ≤ 0xf4
    → b / 64 ≡ 2
    → d / 64 ≡ 2
    → e / 64 ≡ 2
    → bad_second 4 c b ≡ false
    → Reads (c ∷ b ∷ d ∷ e ∷ s) (((c % 8 * 64 + b % 64) * 64 + d % 64) * 64 + e % 64) s
unfolding next_utf8 read_size first_bits more_bits utf8_bytes trail bad_second
Reads-four c b d e s l h t u v k = ground arith

-- The size of a sequence, and the bytes that give it.
data Lead (c : ℕ) : ℕ → Type 0 where
  no_lead : Lead c 0
  one : c < 0x80 → Lead c 1
  two : 0xc2 ≤ c → c ≤ 0xdf → Lead c 2
  three : 0xe0 ≤ c → c ≤ 0xef → Lead c 3
  four : 0xf0 ≤ c → c ≤ 0xf4 → Lead c 4

lead_size-Lead : (c : ℕ) → Lead c (lead_size c)
unfolding lead_size
lead_size-Lead c = elim (Bool-cases (ltb c 0x80)) [
  | inl e ↦ rw e (Lead.one (ground arith))
  | inr e ↦ elim (Bool-cases (leb 0xc2 c && leb c 0xdf)) [
    | inl f ↦ rw (e, f) (Lead.two (ground arith) (ground arith))
    | inr f ↦ elim (Bool-cases (leb 0xe0 c && leb c 0xef)) [
      | inl g ↦ rw (e, f, g) (Lead.three (ground arith) (ground arith))
      | inr g ↦ elim (Bool-cases (leb 0xf0 c && leb c 0xf4)) [
        | inl h ↦ rw (e, f, g, h) (Lead.four (ground arith) (ground arith))
        | inr h ↦ rw (e, f, g, h) Lead.no_lead
      ]
    ]
  ]
]

Reads-sequence :
    (c n : ℕ) (s : List ℕ)
    → Lead c n
    → 0 < n
    → trails (n - 1) s ≡ true
    → bad_second n c (get_or s 0 0) ≡ false
    → (cp : ℕ) × Reads (c ∷ s) cp (drop (n - 1) s)
unfolding trails is_trail
Reads-sequence c n s Lead.no_lead p t b = absurd (omega arith)
Reads-sequence c n s (Lead.one h) p t b = (c, Reads-one c s h)
Reads-sequence c n [] (Lead.two h k) p t b = absurd (ground arith)
Reads-sequence c n (x ∷ s) (Lead.two h k) p t b = (_, Reads-two c x s h k (ground arith))
Reads-sequence c n [] (Lead.three h k) p t b = absurd (ground arith)
Reads-sequence c n (x ∷ []) (Lead.three h k) p t b = absurd (ground arith)
Reads-sequence c n (x ∷ y ∷ s) (Lead.three h k) p t b =
    (_, Reads-three c x y s h k (ground arith) (ground arith) b)
Reads-sequence c n [] (Lead.four h k) p t b = absurd (ground arith)
Reads-sequence c n (x ∷ []) (Lead.four h k) p t b = absurd (ground arith)
Reads-sequence c n (x ∷ y ∷ []) (Lead.four h k) p t b = absurd (ground arith)
Reads-sequence c n (x ∷ y ∷ z ∷ s) (Lead.four h k) p t b =
    (_, Reads-four c x y z s h k (ground arith) (ground arith) (ground arith) b)

-- A text that passes the check and is not empty begins with a Unicode scalar value, which
-- `next_utf8` reads and which is written as the bytes it was read from; what follows passes the check.
pub next_utf8-valid_utf8 :
    (c : ℕ) (s : List ℕ)
    → valid_utf8 (c ∷ s) ≡ true
    → (cp : ℕ) × (rest : List ℕ) × Reads (c ∷ s) cp rest × (valid_utf8 rest ≡ true)
next_utf8-valid_utf8 c s h =
    let g = valid_utf8_step c s in
    let ok : sequence_ok c s ≡ true = ground arith in
    let (n, l, t, b) = sequence_ok_parts c s ok in
    let (cp, r) = Reads-sequence c (lead_size c) s (lead_size-Lead c) n t b in
    (cp, drop (lead_size c - 1) s, r, ground arith)
