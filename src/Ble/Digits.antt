-- ===== src/Ble/Digits.antt =====
-- The digits of `format_passkey` and `parse_passkey` in
-- components/cyberdeck/src/apps/bluetooth/cyberdeck_ble_types.cpp.
use cyberdeck.Common.{ℕ, ◌+◌, ◌*◌, ◌/◌, ◌%◌, ◌<◌, ◌≡◌, refl, ap, ◌∙◌, false, some, [], ◌∷◌, arith}
use cyberdeck.Ble.{Text, passkey_modulus}
use cyberdeck.Ble.Addresses.{
  is_space, skip_spaces, drop_spaces, digits_loop, below_modulus, parse_passkey, digit,
  format_passkey,
}

abbrev six : ℕ → ℕ → ℕ → ℕ → ℕ → ℕ → Text
six a b c d e f = digit a ∷ digit b ∷ digit c ∷ digit d ∷ digit e ∷ digit f ∷ []

abbrev value : ℕ → ℕ → ℕ → ℕ → ℕ → ℕ → ℕ
value a b c d e f =
    ((((a % 10 * 10 + b % 10) * 10 + c % 10) * 10 + d % 10) * 10 + e % 10) * 10 + f % 10

digit-is_space : (n : ℕ) → is_space (digit n) ≡ false
unfolding is_space
digit-is_space n = ground arith

skip_spaces-digit : (n : ℕ) (s : Text) → skip_spaces (digit n ∷ s) ≡ digit n ∷ s
unfolding skip_spaces
skip_spaces-digit n s = rw (digit-is_space n) refl

drop_spaces-one : (n : ℕ) → drop_spaces (digit n ∷ []) ≡ digit n ∷ []
unfolding drop_spaces
drop_spaces-one n = rw (digit-is_space n) refl

digits_loop-end : (v : ℕ) → digits_loop [] v ≡ some v
unfolding digits_loop
digits_loop-end v = refl

digits_loop-digit :
    (n v : ℕ) (s : Text)
    → v < 100000
    → digits_loop (digit n ∷ s) v ≡ digits_loop s (v * 10 + n % 10)
unfolding digits_loop
digits_loop-digit n v s h = ground arith

value-parts :
    (p : ℕ)
    → p < passkey_modulus
    → value (p / 100000) (p / 10000) (p / 1000) (p / 100) (p / 10) p ≡ p
value-parts p h = omega arith

drop_spaces-more : (c d : ℕ) (s t : Text) → drop_spaces s ≡ d ∷ t → drop_spaces (c ∷ s) ≡ c ∷ d ∷ t
unfolding drop_spaces
drop_spaces-more c d s t h = rw h refl

module _ (a b c d e f : ℕ) where
  trim-six : drop_spaces (skip_spaces (six a b c d e f)) ≡ six a b c d e f
  trim-six =
      ap drop_spaces (skip_spaces-digit a _)
      ∙ drop_spaces-more (digit a) (digit b) _ _ (
          drop_spaces-more (digit b) (digit c) _ _ (
            drop_spaces-more (digit c) (digit d) _ _ (
              drop_spaces-more (digit d) (digit e) _ _
                (drop_spaces-more (digit e) (digit f) _ _ (drop_spaces-one f)))))

  digits_loop-six : digits_loop (six a b c d e f) 0 ≡ some (value a b c d e f)
  digits_loop-six =
      let two = (0 * 10 + a % 10) * 10 + b % 10 in
      let four = (two * 10 + c % 10) * 10 + d % 10 in
      digits_loop-digit a 0 _ (omega arith)
      ∙ digits_loop-digit b (0 * 10 + a % 10) _ (omega arith)
      ∙ digits_loop-digit c two _ (omega arith)
      ∙ digits_loop-digit d (two * 10 + c % 10) _ (omega arith)
      ∙ digits_loop-digit e four _ (omega arith)
      ∙ digits_loop-digit f (four * 10 + e % 10) _ (omega arith)
      ∙ digits_loop-end _
      ∙ ap some {x = (four * 10 + e % 10) * 10 + f % 10} (omega arith)

  parse-six :
      value a b c d e f < passkey_modulus
      → parse_passkey (six a b c d e f) ≡ some (value a b c d e f)
  unfolding parse_passkey below_modulus
  parse-six h = rw (trim-six, digits_loop-six) (ground arith)

-- A passkey of at most six digits that is written is read back.
pub parse-format : (p : ℕ) → p < passkey_modulus → parse_passkey (format_passkey p) ≡ some p
unfolding format_passkey
parse-format p h =
    let whole = value-parts p h in
    ap parse_passkey (ground arith)
    ∙ parse-six (p / 100000) (p / 10000) (p / 1000) (p / 100) (p / 10) p (omega (arith, whole))
    ∙ ap some whole
