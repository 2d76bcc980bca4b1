-- ===== src/Editor/CodePage.antt =====
-- Windows-1252 in components/cyberdeck/src/apps/editor/cyberdeck_editor_model.cpp.
use cyberdeck.Common.{
  ℕ, ◌-◌, ◌<◌, ◌≡◌, ◌≢◌, refl, Bool, true, false, ◌&&◌, ◌||◌, List, [], ◌∷◌, ◌++◌, Option, none,
  some, ltb, leb, ◌==◌, if◌then◌else◌, get_or, arith, all_below, all_below_sound,
}

abbrev high_points : List ℕ
high_points =
    0x20ac ∷ 0 ∷ 0x201a ∷ 0x192 ∷ 0x201e ∷ 0x2026 ∷ 0x2020 ∷ 0x2021 ∷ 0x2c6 ∷ 0x2030 ∷ 0x160
    ∷ 0x2039 ∷ 0x152 ∷ 0 ∷ 0x17d ∷ 0 ∷ 0 ∷ 0x2018 ∷ 0x2019 ∷ 0x201c ∷ 0x201d ∷ 0x2022 ∷ 0x2013
    ∷ 0x2014 ∷ 0x2dc ∷ 0x2122 ∷ 0x161 ∷ 0x203a ∷ 0x153 ∷ 0 ∷ 0x17e ∷ 0x178 ∷ []

abbrev pub undefined_point : ℕ
undefined_point = 0xffff_ffff

unfoldable pub cp1252 : ℕ → ℕ
cp1252 c =
    let x = get_or high_points (c - 0x80) 0 in
    if leb 0x80 c && leb c 0x9f then if x == 0 then undefined_point else x else c

abbrev codes : List ℕ
codes =
    0x80 ∷ 0x82 ∷ 0x83 ∷ 0x84 ∷ 0x85 ∷ 0x86 ∷ 0x87 ∷ 0x88 ∷ 0x89 ∷ 0x8a ∷ 0x8b ∷ 0x8c ∷ 0x8e ∷ 0x91
    ∷ 0x92 ∷ 0x93 ∷ 0x94 ∷ 0x95 ∷ 0x96 ∷ 0x97 ∷ 0x98 ∷ 0x99 ∷ 0x9a ∷ 0x9b ∷ 0x9c ∷ 0x9e ∷ 0x9f ∷ []

abbrev values : List ℕ
values =
    0x20ac ∷ 0x201a ∷ 0x192 ∷ 0x201e ∷ 0x2026 ∷ 0x2020 ∷ 0x2021 ∷ 0x2c6 ∷ 0x2030 ∷ 0x160 ∷ 0x2039
    ∷ 0x152 ∷ 0x17d ∷ 0x2018 ∷ 0x2019 ∷ 0x201c ∷ 0x201d ∷ 0x2022 ∷ 0x2013 ∷ 0x2014 ∷ 0x2dc ∷ 0x2122
    ∷ 0x161 ∷ 0x203a ∷ 0x153 ∷ 0x17e ∷ 0x178 ∷ []

-- The loop over the two tables.
unfoldable pub find_code : List ℕ → List ℕ → ℕ → Option ℕ
find_code [] bytes cp = none
find_code (v ∷ vs) [] cp = none
find_code (v ∷ vs) (b ∷ bytes) cp = if v == cp then some b else find_code vs bytes cp

-- The byte that `append_cp1252` writes.
unfoldable pub cp1252_byte : ℕ → Option ℕ
unfolding find_code
cp1252_byte cp =
    if leb cp 0x7f || (leb 0xa0 cp && leb cp 0xff) then some cp else find_code values codes cp

unfoldable pub append_cp1252 : List ℕ → ℕ → Bool × List ℕ
append_cp1252 out cp = elim (cp1252_byte cp) [
  | none ↦ (false, out)
  | some b ↦ (true, out ++ b ∷ [])
]

is_byte : Option ℕ → ℕ → Bool
is_byte none c = false
is_byte (some b) c = b == c

is_byte_sound : (o : Option ℕ) (c : ℕ) → is_byte o c ≡ true → o ≡ some c
unfolding is_byte
is_byte_sound none c h = absurd (ground arith)
is_byte_sound (some b) c h = ground arith

keeps : ℕ → Bool
keeps c = cp1252 c == undefined_point || is_byte (cp1252_byte (cp1252 c)) c

keeps_table : all_below 256 keeps ≡ true
unfolding keeps cp1252 cp1252_byte is_byte
keeps_table = refl

pub cp1252_byte-cp1252 :
    (c : ℕ) → c < 256 → cp1252 c ≢ undefined_point → cp1252_byte (cp1252 c) ≡ some c
cp1252_byte-cp1252 c h d =
    let k = all_below_sound 256 keeps c keeps_table h in
    is_byte_sound (cp1252_byte (cp1252 c)) c (unfold keeps in ground (arith, k))

-- A byte that Windows-1252 defines comes back from its code point.
pub append_cp1252-cp1252 :
    (out : List ℕ) (c : ℕ)
    → c < 256
    → cp1252 c ≢ undefined_point
    → append_cp1252 out (cp1252 c) ≡ (true, out ++ c ∷ [])
unfolding append_cp1252
append_cp1252-cp1252 out c h d = ground (arith, cp1252_byte-cp1252 c h d)

in_range : ℕ → Bool
in_range c = cp1252 c == undefined_point || ltb (cp1252 c) 0xd800

in_range_table : all_below 256 in_range ≡ true
unfolding in_range cp1252
in_range_table = refl

pub cp1252-lt : (c : ℕ) → c < 256 → cp1252 c ≢ undefined_point → cp1252 c < 0xd800
cp1252-lt c h d =
    let k = all_below_sound 256 in_range c in_range_table h in unfold in_range in ground (arith, k)
