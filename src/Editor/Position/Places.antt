-- ===== src/Editor/Position/Places.antt =====
-- Places between code points: where a valid text can be cut into two.
use cyberdeck.Common.{
  ℕ, zero, suc, ◌+◌, ◌-◌, ◌<◌, ◌≤◌, ◌≡◌, refl, sym, subst, ap, ◌∙◌, inl, inr, true, false, List, [],
  ◌∷◌, ◌++◌, ltb, length, get_or, take, drop, arith, Bool-cases, length-append, length-drop,
  length-take, take-append, drop-append, take_all,
}
use cyberdeck.Editor.Utf8.{
  is_trail, valid_utf8, valid_loop, lead_size, trails, bad_second, sequence_ok,
}
use cyberdeck.Editor.Utf8.Valid.{
  valid_utf8_step, valid_utf8-append, sequence_ok_parts, sequence_ok_of,
}

pub record IsPlace (s : List ℕ) (p : ℕ) : Type 0 where
  pub within : p ≤ length s
  pub before : valid_utf8 (take p s) ≡ true
  pub behind : valid_utf8 (drop p s) ≡ true

pub empty_valid : valid_utf8 [] ≡ true
unfolding valid_utf8 valid_loop
empty_valid = refl

pub zero-IsPlace : {s : List ℕ} → valid_utf8 s ≡ true → IsPlace s 0
zero-IsPlace h = record { within = omega arith; before = empty_valid; behind = h }

drop_all : (s : List ℕ) → drop (length s) s ≡ []
drop_all [] = refl
drop_all (x ∷ s) = drop_all s

pub length-IsPlace : {s : List ℕ} → valid_utf8 s ≡ true → IsPlace s (length s)
length-IsPlace {s} h = record {
  within = omega arith;
  before = rw (take_all (length s) s (omega arith)) h;
  behind = rw (drop_all s) empty_valid;
}

-- Behind the first bytes of a sequence, the next byte continues it.
pub trails-get_or :
    (n i : ℕ) (s : List ℕ) → trails n s ≡ true → i < n → is_trail (get_or s i 0) ≡ true
unfolding trails
trails-get_or zero i s t h = absurd (omega arith)
trails-get_or (suc n) i [] t h = absurd (ground arith)
trails-get_or (suc n) zero (b ∷ s) t h = ground arith
trails-get_or (suc n) (suc i) (b ∷ s) t h = trails-get_or n i s (ground arith) (omega arith)

take_empty : (k : ℕ) → take {A = ℕ} k [] ≡ []
take_empty zero = refl
take_empty (suc k) = refl

drop_empty : (k : ℕ) → drop {A = ℕ} k [] ≡ []
drop_empty zero = refl
drop_empty (suc k) = refl

drop-take : (n k : ℕ) (s : List ℕ) → drop n (take (n + k) s) ≡ take k (drop n s)
drop-take zero k s = ap (λ i. take i s) (omega arith)
drop-take (suc n) k [] = rw (take_empty (suc n + k), take_empty k) refl
drop-take (suc n) k (x ∷ s) =
    let e : suc n + k ≡ suc (n + k) = omega arith in rw e (drop-take n k s)

pub drop-drop : (n k : ℕ) (s : List ℕ) → drop (n + k) s ≡ drop k (drop n s)
drop-drop zero k s = ap (λ i. drop i s) (omega arith)
drop-drop (suc n) k [] = rw (drop_empty (suc n + k), drop_empty k) refl
drop-drop (suc n) k (x ∷ s) =
    let e : suc n + k ≡ suc (n + k) = omega arith in rw e (drop-drop n k s)

pub get_or-drop : (n i : ℕ) (s : List ℕ) → get_or (drop n s) i 0 ≡ get_or s (n + i) 0
get_or-drop zero i s = ap (λ j. get_or s j 0) (omega arith)
get_or-drop (suc n) i [] = refl
get_or-drop (suc n) i (x ∷ s) =
    let e : suc n + i ≡ suc (n + i) = omega arith in rw e (get_or-drop n i s)

trails-take : (n k : ℕ) (s : List ℕ) → trails n s ≡ true → n ≤ k → trails n (take k s) ≡ true
unfolding trails
trails-take zero k s t h = refl
trails-take (suc n) k [] t h = absurd (ground arith)
trails-take (suc n) zero (b ∷ s) t h = absurd (omega arith)
trails-take (suc n) (suc k) (b ∷ s) t h = ground (arith, trails-take n k s)

bad_second-take :
    (n c k : ℕ) (s : List ℕ)
    → n - 1 ≤ k
    → bad_second n c (get_or s 0 0) ≡ false
    → bad_second n c (get_or (take k s) 0 0) ≡ false
unfolding bad_second
bad_second-take n c zero s h b = ground arith
bad_second-take n c (suc k) [] h b = b
bad_second-take n c (suc k) (x ∷ s) h b = b

sequence_ok-take :
    (c k : ℕ) (s : List ℕ)
    → sequence_ok c s ≡ true
    → lead_size c - 1 ≤ k
    → sequence_ok c (take k s) ≡ true
sequence_ok-take c k s ok h =
    let (n, l, t, b) = sequence_ok_parts c s ok in
    sequence_ok_of c (take k s) n (omega (arith, length-take k s))
      (trails-take (lead_size c - 1) k s t h) (bad_second-take (lead_size c) c k s h b)

abbrev pub Cut : List ℕ → ℕ → Type 0
Cut s p = (valid_utf8 (take p s) ≡ true) × (valid_utf8 (drop p s) ≡ true)

-- Behind the first sequence, a cut of the rest is one of the text.
pub Cut-behind :
    (c m k : ℕ) (s : List ℕ)
    → sequence_ok c s ≡ true
    → lead_size c - 1 ≡ m
    → Cut (drop m s) k
    → Cut (c ∷ s) (suc (m + k))
Cut-behind c m k s ok e (t, d) =
    let first = sequence_ok-take c (m + k) s ok (omega arith) in
    let g = valid_utf8_step c (take (m + k) s) in
    (rw (first, e, drop-take m k s, t) at g, rw (drop-drop m k s) d)

Cut-at :
    (fuel : ℕ) (s : List ℕ) (p : ℕ)
    → length s ≤ fuel
    → valid_utf8 s ≡ true
    → p < length s
    → is_trail (get_or s p 0) ≡ false
    → Cut s p
Cut-at fuel [] p l h w t = absurd (omega arith)
Cut-at zero (c ∷ s) p l h w t = absurd (omega arith)
Cut-at (suc fuel) (c ∷ s) zero l h w t = (empty_valid, h)
Cut-at (suc fuel) (c ∷ s) (suc i) l h w t =
    let g = valid_utf8_step c s in
    let ok : sequence_ok c s ≡ true = ground arith in
    let m = lead_size c - 1 in
    let (n, long, trailing, b) = sequence_ok_parts c s ok in
    elim (Bool-cases (ltb i m)) [
      | inl inside ↦ absurd (ground (arith, trails-get_or m i s trailing (ground arith)))
      | inr outside ↦
          let e : m + (i - m) ≡ i = ground arith in
          let rest =
            Cut-at fuel (drop m s) (i - m) (omega (arith, length-drop m s)) (ground arith)
              (omega (arith, length-drop m s)) (rw (get_or-drop m (i - m) s, e) t) in
          subst (λ j. Cut (c ∷ s) (suc j)) e (Cut-behind c m (i - m) s ok refl rest)
    ]

-- A byte that continues no sequence stands at a place.
pub IsPlace-at :
    {s : List ℕ} {p : ℕ}
    → valid_utf8 s ≡ true
    → p < length s
    → is_trail (get_or s p 0) ≡ false
    → IsPlace s p
IsPlace-at {s} {p} h w t =
    let (before, behind) : Cut s p = Cut-at (length s) s p (omega arith) h w t in
    record { within = omega arith; before = before; behind = behind }

pub take_add : (n k : ℕ) (s : List ℕ) → take (n + k) s ≡ take n s ++ take k (drop n s)
take_add zero k s = ap (λ i. take i s) (omega arith)
take_add (suc n) k [] = rw (take_empty (suc n + k), take_empty k) refl
take_add (suc n) k (x ∷ s) =
    let e : suc n + k ≡ suc (n + k) = omega arith in rw e (ap (x ∷◌) (take_add n k s))

-- Behind a valid text that stands at a place, there is a place.
pub IsPlace-behind :
    {s : List ℕ} {p : ℕ} (x rest : List ℕ)
    → IsPlace s p
    → valid_utf8 x ≡ true
    → drop p s ≡ x ++ rest
    → IsPlace s (p + length x)
IsPlace-behind {s} {p} x rest place v e =
    let here : take (length x) (drop p s) ≡ x = rw e (take-append x rest) in
    let there : drop (length x) (drop p s) ≡ rest = rw e (drop-append x rest) in
    let l = ap (λ (t : List ℕ). length t) e in
    record {
      within = omega (arith, place.within, l, length-drop p s, length-append x rest);
      before = rw (take_add p (length x) s, here) (valid_utf8-append (take p s) x place.before ∙ v);
      behind =
          rw (drop-drop p (length x) s, there)
            (sym (valid_utf8-append x rest v) ∙ rw e at place.behind);
    }
