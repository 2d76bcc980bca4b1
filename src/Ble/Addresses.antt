-- ===== src/Ble/Addresses.antt =====
-- Addresses, classes, signal strength and passkeys of
-- components/cyberdeck/src/apps/bluetooth/cyberdeck_ble_types.cpp.
use cyberdeck.Common.{
  ℕ, ◌+◌, ◌-◌, ◌*◌, ◌/◌, ◌%◌, ◌^◌, Bool, true, false, not, ◌&&◌, ◌||◌, Option, none, some, [], ◌∷◌,
  ◌++◌, length, ltb, leb, ◌==◌, if◌then◌else◌,
}
use cyberdeck.Wifi.{ℤ, pos, negsuc}
use cyberdeck.Ble.{Text, DeviceKind, keyboard, headset, mouse, unknown, passkey_modulus}

unfoldable pub kind_from_appearance : ℕ → DeviceKind
kind_from_appearance a =
    if a == 0x3c1
    then keyboard
    else if a == 0x3c2
    then mouse
    else if a == 0x401 || a == 0x408 || a == 0x418 || a == 0x419 || a == 0x41a || a == 0x41b
    then headset
    else unknown

-- `toupper`, in the C locale.
unfoldable pub to_upper : ℕ → ℕ
to_upper c = if leb 97 c && leb c 122 then c - 32 else c

unfoldable pub is_separator : ℕ → Bool
is_separator c = c == 58 || c == 45

-- The loop of `normalize_address`: whether the last byte was a separator, whether there was no other
-- byte yet, and what is kept.
unfoldable pub clean_loop : Text → Bool → Bool → Text → Option Text
unfolding is_separator to_upper
clean_loop [] last_sep first cleaned = if last_sep then none else some cleaned
clean_loop (c ∷ s) last_sep first cleaned =
    let separated = clean_loop s true first cleaned in
    let kept = clean_loop s false false (cleaned ++ to_upper c ∷ []) in
    if is_separator c
    then if first || last_sep then none else separated
    else if c == 32 || c == 9
    then none
    else kept

unfoldable pub is_hex : ℕ → Bool
is_hex c = (leb 48 c && leb c 57) || (leb 65 c && leb c 70)

unfoldable pub all_hex : Text → Bool
all_hex [] = true
all_hex (c ∷ s) = is_hex c && all_hex s

-- The loop that writes the digits in pairs.
unfoldable pub in_pairs : Text → Text
in_pairs [] = []
in_pairs (a ∷ []) = []
in_pairs (a ∷ b ∷ []) = a ∷ b ∷ []
in_pairs (a ∷ b ∷ c ∷ s) = a ∷ b ∷ 58 ∷ in_pairs (c ∷ s)

unfoldable pub format_address : Option Text → Option Text
unfolding all_hex in_pairs is_hex
format_address none = none
format_address (some cleaned) =
    if not (length cleaned == 12)
    then none
    else if not (all_hex cleaned)
    then none
    else some (in_pairs cleaned)

unfoldable pub normalize_address : Text → Option Text
unfolding clean_loop format_address
normalize_address raw =
    if length raw == 0 then none else format_address (clean_loop raw false true [])

unfoldable pub clamp_rssi : ℤ → ℤ
clamp_rssi (pos n) = if ltb 20 n then pos 20 else pos n
clamp_rssi (negsuc n) = if ltb 119 n then negsuc 119 else negsuc n

unfoldable pub is_space : ℕ → Bool
is_space c = c == 32 || c == 9

unfoldable pub skip_spaces : Text → Text
unfolding is_space
skip_spaces [] = []
skip_spaces (c ∷ s) = let rest = skip_spaces s in if is_space c then rest else c ∷ s

-- The end moves back over spaces.
unfoldable pub drop_spaces : Text → Text
drop_spaces [] = []
drop_spaces (c ∷ s) = elim (drop_spaces s) [
  | [] ↦ if is_space c then [] else c ∷ []
  | d ∷ rest ↦ c ∷ d ∷ rest
]

unfoldable pub digits_loop : Text → ℕ → Option ℕ
digits_loop [] value = some value
digits_loop (c ∷ s) value =
    if ltb c 48 || ltb 57 c then none else digits_loop s ((value * 10 + (c - 48)) % 2 ^ 32)

unfoldable pub below_modulus : Option ℕ → Option ℕ
below_modulus none = none
below_modulus (some value) = if leb passkey_modulus value then none else some value

unfoldable pub parse_passkey : Text → Option ℕ
unfolding skip_spaces drop_spaces digits_loop below_modulus
parse_passkey text =
    let trimmed = drop_spaces (skip_spaces text) in
    if length text == 0
    then none
    else if not (length trimmed == 6)
    then none
    else below_modulus (digits_loop trimmed 0)

abbrev pub digit : ℕ → ℕ
digit n = 48 + n % 10

-- `%06u`
unfoldable pub format_passkey : ℕ → Text
format_passkey p =
    if leb passkey_modulus p
    then []
    else digit (p / 100000)
      ∷ digit (p / 10000)
      ∷ digit (p / 1000)
      ∷ digit (p / 100)
      ∷ digit (p / 10)
      ∷ digit p
      ∷ []
