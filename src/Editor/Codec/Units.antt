-- ===== src/Editor/Codec/Units.antt =====
-- What the loops of `decode` build, and what the loop of `encode` makes of it.
use cyberdeck.Common.{
  ℕ, zero, suc, ◌+◌, ◌-◌, ◌*◌, ◌/◌, ◌%◌, ◌<◌, ◌≤◌, ◌≡◌, ◌≢◌, refl, sym, ap, ◌∙◌, inl, inr, true,
  false, ◌||◌, List, [], ◌∷◌, ◌++◌, ltb, ◌==◌, if◌then◌else◌, length, arith, Bool-cases, append-nil,
  append_assoc, length-append,
}
use cyberdeck.Editor.{Encoding, windows_1252, ok}
use cyberdeck.Editor.Utf8.{append_utf8, utf8_bytes}
use cyberdeck.Editor.Utf8.Scalar.{IsScalar, Written, utf8_bytes-Written, next_utf8-Written}
use cyberdeck.Editor.CodePage.{cp1252, undefined_point, cp1252-lt, append_cp1252-cp1252}
use cyberdeck.Editor.Codec.{
  decode_1252, unit, units, is_high, is_low, join, decode_units, put, put_utf16, encode_point,
  encode_loop,
}
use cyberdeck.Editor.Codec.Loaded.{
  AreBytes, AreUnits, units-AreUnits, join-IsScalar, single-IsScalar,
}

point_step :
    (codec : Encoding) (cp c : ℕ) (s rest : List ℕ) (fuel : ℕ) (out out' : List ℕ)
    → IsScalar cp
    → Written cp (c ∷ s)
    → encode_point codec out cp ≡ (true, out')
    → encode_loop codec ((c ∷ s) ++ rest) (suc fuel) out ≡ encode_loop codec rest fuel out'
unfolding encode_loop
point_step codec cp c s rest fuel out out' v w e = ground (arith, next_utf8-Written cp c s rest v w)

point_loop :
    (codec : Encoding) (cp : ℕ) (bytes rest : List ℕ) (fuel : ℕ) (out out' result : List ℕ)
    → IsScalar cp
    → Written cp bytes
    → encode_point codec out cp ≡ (true, out')
    → length (bytes ++ rest) ≤ fuel
    → ((n : ℕ) → length rest ≤ n → encode_loop codec rest n out' ≡ (true, result))
    → encode_loop codec (bytes ++ rest) fuel out ≡ (true, result)
point_loop codec cp [] rest fuel out out' result v w e l k = elim w [ ]
point_loop codec cp (c ∷ s) rest zero out out' result v w e l k = absurd (omega arith)
point_loop codec cp (c ∷ s) rest (suc fuel) out out' result v w e l k =
    point_step codec cp c s rest fuel out out' v w e ∙ k fuel (omega (arith, length-append s rest))

-- One code point at the head of the text is written, and the loop goes on behind it.
encode_loop_point :
    (codec : Encoding) (cp : ℕ) (rest : List ℕ) (fuel : ℕ) (out out' result : List ℕ)
    → IsScalar cp
    → encode_point codec out cp ≡ (true, out')
    → length (utf8_bytes cp ++ rest) ≤ fuel
    → ((n : ℕ) → length rest ≤ n → encode_loop codec rest n out' ≡ (true, result))
    → encode_loop codec (utf8_bytes cp ++ rest) fuel out ≡ (true, result)
encode_loop_point codec cp rest fuel out out' result v e l k =
    point_loop codec cp (utf8_bytes cp) rest fuel out out' result v (utf8_bytes-Written cp) e l k

behind :
    (text : List ℕ) (cp : ℕ) (rest : List ℕ)
    → append_utf8 text cp ++ rest ≡ text ++ (utf8_bytes cp ++ rest)
unfolding append_utf8
behind text cp rest = append_assoc text (utf8_bytes cp) rest

-- The text of a Windows-1252 document.
pub text_1252 : List ℕ → List ℕ
text_1252 [] = []
text_1252 (b ∷ s) = utf8_bytes (cp1252 b) ++ text_1252 s

data Defined : List ℕ → Type 0 where
  nil : Defined []
  cons : {b : ℕ} {s : List ℕ} → b < 256 → cp1252 b ≢ undefined_point → Defined s → Defined (b ∷ s)

decode_1252_lem :
    {s : List ℕ} (text : List ℕ)
    → AreBytes s
    → (decode_1252 s text).0 ≡ ok
    → ((decode_1252 s text).1 ≡ text ++ text_1252 s) × Defined s
unfolding decode_1252 text_1252
decode_1252_lem text AreBytes.nil e = (sym (append-nil text), Defined.nil)
decode_1252_lem text (AreBytes.cons {b} {s} k r) e =
    elim (Bool-cases (cp1252 b == undefined_point || cp1252 b == 0)) [
      | inl bad ↦ absurd (ground arith)
      | inr good ↦
          let (t, d) = decode_1252_lem (append_utf8 text (cp1252 b)) r (rw good at e) in
          (rw good (t ∙ behind text (cp1252 b) (text_1252 s)), Defined.cons k (ground arith) d)
    ]

encode_1252 :
    {s : List ℕ} (fuel : ℕ) (out : List ℕ)
    → Defined s
    → length (text_1252 s) ≤ fuel
    → encode_loop windows_1252 (text_1252 s) fuel out ≡ (true, out ++ s)
unfolding encode_point text_1252
encode_1252 fuel out Defined.nil l = unfold encode_loop in rw (append-nil out) refl
encode_1252 fuel out (Defined.cons {b} {s} k d r) l =
    encode_loop_point windows_1252 (cp1252 b) (text_1252 s) fuel out (out ++ b ∷ []) (out ++ b ∷ s)
      (inl (cp1252-lt b k d)) (append_cp1252-cp1252 out b k d) l
      (λ n h. encode_1252 n (out ++ b ∷ []) r h ∙ ap (λ o. (true, o)) (append_assoc out (b ∷ []) s))

-- A document in Windows-1252 that is loaded is written as the bytes that it had.
pub encode-decode_1252 :
    {s : List ℕ} (out : List ℕ)
    → AreBytes s
    → (decode_1252 s []).0 ≡ ok
    → encode_loop windows_1252 (decode_1252 s []).1 (length (decode_1252 s []).1) out
      ≡ (true, out ++ s)
encode-decode_1252 {s} out b e =
    let (t, d) = decode_1252_lem [] b e in
    rw t (encode_1252 (length (text_1252 s)) out d (omega arith))

-- The text of the units of a UTF-16 document.
text_utf16 : List ℕ → List ℕ
text_utf16 [] = []
text_utf16 (u ∷ []) = utf8_bytes u ++ []
text_utf16 (u ∷ low ∷ us) =
    let pair = text_utf16 us in
    let single = text_utf16 (low ∷ us) in
    if is_high u then utf8_bytes (join u low) ++ pair else utf8_bytes u ++ single

data Paired : List ℕ → Type 0 where
  nil : Paired []
  single :
      {u : ℕ} {us : List ℕ}
      → u < 65536
      → is_high u ≡ false
      → is_low u ≡ false
      → Paired us
      → Paired (u ∷ us)
  pair :
      {u low : ℕ} {us : List ℕ}
      → is_high u ≡ true
      → is_low low ≡ true
      → Paired us
      → Paired (u ∷ low ∷ us)

decode_units_lem :
    {s : List ℕ} (text : List ℕ)
    → AreUnits s
    → (decode_units s text).0 ≡ ok
    → ((decode_units s text).1 ≡ text ++ text_utf16 s) × Paired s
unfolding decode_units text_utf16
decode_units_lem text AreUnits.nil e = (sym (append-nil text), Paired.nil)
decode_units_lem text (AreUnits.cons {u} k AreUnits.nil) e = elim (Bool-cases (u == 0)) [
  | inl z ↦ absurd (ground arith)
  | inr z ↦ elim (Bool-cases (is_high u)) [
    | inl a ↦ absurd (ground arith)
    | inr a ↦ elim (Bool-cases (is_low u)) [
      | inl b ↦ absurd (ground arith)
      | inr b ↦ (
        rw (z, a, b) (sym (append-nil (append_utf8 text u)) ∙ behind text u []),
        Paired.single k a b Paired.nil,
      )
    ]
  ]
]
decode_units_lem text (AreUnits.cons {u} k (AreUnits.cons {u = low} {s} l r)) e =
    elim (Bool-cases (u == 0)) [
      | inl z ↦ absurd (ground arith)
      | inr z ↦ elim (Bool-cases (is_high u)) [
        | inl a ↦ elim (Bool-cases (is_low low)) [
          | inl b ↦
              let (t, d) = decode_units_lem (append_utf8 text (join u low)) r (rw (z, a, b) at e) in
              (rw (z, a, b) (t ∙ behind text (join u low) (text_utf16 s)), Paired.pair a b d)
          | inr b ↦ absurd (ground arith)
        ]
        | inr a ↦ elim (Bool-cases (is_low u)) [
          | inl b ↦ absurd (ground arith)
          | inr b ↦
              let (t, d) =
                decode_units_lem (append_utf8 text u) (AreUnits.cons l r) (rw (z, a, b) at e) in
              (rw (z, a, b) (t ∙ behind text u (text_utf16 (low ∷ s))), Paired.single k a b d)
        ]
      ]
    ]

-- The bytes of the units.
put_units : Encoding → List ℕ → List ℕ
put_units codec [] = []
put_units codec (u ∷ us) = put codec u ++ put_units codec us

put_utf16-join :
    (codec : Encoding) (u low : ℕ)
    → is_high u ≡ true
    → is_low low ≡ true
    → put_utf16 codec (join u low) ≡ put codec u ++ put codec low
unfolding put_utf16 join is_high is_low
put_utf16-join codec u low h l =
    let v = 0x10000 + (u - 0xd800) * 1024 + (low - 0xdc00) - 0x10000 in
    let high_part : (0xd800 + v / 1024) % 65536 ≡ u = ground arith in
    let low_part : (0xdc00 + v % 1024) % 65536 ≡ low = ground arith in
    let wide : ltb 0xffff (0x10000 + (u - 0xd800) * 1024 + (low - 0xdc00)) ≡ true = ground arith in
    rw (wide, high_part, low_part) refl

put_utf16-single : (codec : Encoding) (u : ℕ) → u < 65536 → put_utf16 codec u ≡ put codec u
unfolding put_utf16
put_utf16-single codec u h = ground arith

put_units-units :
    (codec : Encoding) {s : List ℕ}
    → AreBytes s
    → length s % 2 ≡ 0
    → put_units codec (units codec s) ≡ s
unfolding put_units units unit put
put_units-units codec AreBytes.nil e = refl
put_units-units codec (AreBytes.cons x AreBytes.nil) e = absurd (omega arith)
put_units-units codec (AreBytes.cons x (AreBytes.cons y s)) e =
    ground (arith, put_units-units codec s (omega arith))

text_utf16-single :
    (u : ℕ) (us : List ℕ) → is_high u ≡ false → text_utf16 (u ∷ us) ≡ utf8_bytes u ++ text_utf16 us
unfolding text_utf16
text_utf16-single u [] h = refl
text_utf16-single u (low ∷ us) h = rw h refl

text_utf16-pair :
    (u low : ℕ) (us : List ℕ)
    → is_high u ≡ true
    → text_utf16 (u ∷ low ∷ us) ≡ utf8_bytes (join u low) ++ text_utf16 us
unfolding text_utf16
text_utf16-pair u low us h = rw h refl

-- The codec writes code points as UTF-16.
abbrev Wide : Encoding → Type 0
Wide codec = (out : List ℕ) (cp : ℕ) → encode_point codec out cp ≡ (true, out ++ put_utf16 codec cp)

encode_utf16 :
    (codec : Encoding) {us : List ℕ} (fuel : ℕ) (out : List ℕ)
    → Wide codec
    → Paired us
    → length (text_utf16 us) ≤ fuel
    → encode_loop codec (text_utf16 us) fuel out ≡ (true, out ++ put_units codec us)
unfolding put_units
encode_utf16 codec fuel out w Paired.nil l =
    unfold encode_loop text_utf16 in rw (append-nil out) refl
encode_utf16 codec fuel out w (Paired.single {u} {us} k a b r) l =
    let bytes = put codec u in
    let point = rw (put_utf16-single codec u k) at (w out u) in
    rw (text_utf16-single u us a) (
      encode_loop_point codec u (text_utf16 us) fuel out (out ++ bytes)
        (out ++ (bytes ++ put_units codec us)) (single-IsScalar u k a b) point
        (rw (text_utf16-single u us a) at l)
        (λ n h.
          encode_utf16 codec n (out ++ bytes) w r h
          ∙ ap (λ o. (true, o)) (append_assoc out bytes (put_units codec us))))
encode_utf16 codec fuel out w (Paired.pair {u} {low} {us} a b r) l =
    let bytes = put codec u ++ put codec low in
    let point = rw (put_utf16-join codec u low a b) at (w out (join u low)) in
    let tail = put_units codec us in
    rw (text_utf16-pair u low us a) (
      encode_loop_point codec (join u low) (text_utf16 us) fuel out (out ++ bytes)
        (out ++ (put codec u ++ (put codec low ++ tail))) (join-IsScalar u low a b) point
        (rw (text_utf16-pair u low us a) at l)
        (λ n h.
          encode_utf16 codec n (out ++ bytes) w r h
          ∙ ap (λ o. (true, o))
              (append_assoc out bytes tail
                ∙ ap (out ++◌) (append_assoc (put codec u) (put codec low) tail))))

-- A document in UTF-16 that is loaded is written as the bytes that it had.
pub encode-decode_units :
    (codec : Encoding) {s : List ℕ} (out : List ℕ)
    → Wide codec
    → AreBytes s
    → length s % 2 ≡ 0
    → (decode_units (units codec s) []).0 ≡ ok
    → encode_loop codec
        (decode_units (units codec s) []).1
        (length (decode_units (units codec s) []).1)
        out
      ≡ (true, out ++ s)
encode-decode_units codec {s} out w b even e =
    let (t, d) = decode_units_lem [] (units-AreUnits codec b) e in
    rw t (
      encode_utf16 codec (length (text_utf16 (units codec s))) out w d (omega arith)
      ∙ ap (λ o. (true, out ++ o)) (put_units-units codec b even))
