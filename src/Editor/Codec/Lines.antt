-- ===== src/Editor/Codec/Lines.antt =====
-- What `encode` does to the line endings of a text.
use cyberdeck.Common.{
  inl, inr, ℕ, ◌≡◌, refl, sym, false, List, [], ◌∷◌, ◌++◌, ◌==◌, if◌then◌else◌, arith, Bool-cases,
  append-nil,
}
use cyberdeck.Editor.{LineEnding, lf, crlf, cr}
use cyberdeck.Editor.Codec.{contains, cr_text, lf_text, normalize}

-- Without a carriage return, every line feed becomes the document's line ending and nothing else
-- changes.
unfoldable pub with_eol : LineEnding → List ℕ → List ℕ
with_eol eol [] = []
with_eol eol (c ∷ s) = (if c == 10 then lf_text eol else c ∷ []) ++ with_eol eol s

-- A byte that is no carriage return is written by itself.
normalize_step :
    (eol : LineEnding) (c : ℕ) (s : List ℕ)
    → (c == 13) ≡ false
    → normalize eol (c ∷ s) ≡ (if c == 10 then lf_text eol else c ∷ []) ++ normalize eol s
unfolding normalize
normalize_step eol c [] h = rw h (sym (append-nil (if c == 10 then lf_text eol else c ∷ [])))
normalize_step eol c (d ∷ s) h = rw h refl

pub no_cr :
    (c : ℕ) (s : List ℕ)
    → contains 13 (c ∷ s) ≡ false
    → ((c == 13) ≡ false) × (contains 13 s ≡ false)
unfolding contains
no_cr c s h = ground arith

normalize-lf : (s : List ℕ) → contains 13 s ≡ false → normalize lf s ≡ s
unfolding normalize lf_text
normalize-lf [] h = refl
normalize-lf (c ∷ s) h =
    let (n, r) = no_cr c s h in ground (arith, normalize_step lf c s n, normalize-lf s r)

normalize-cr : (s : List ℕ) → contains 10 s ≡ false → normalize cr s ≡ s
unfolding normalize contains
normalize-cr [] h = refl
normalize-cr (c ∷ []) h = ground arith
normalize-cr (c ∷ d ∷ s) h = ground (arith, normalize-cr (d ∷ s))

pub normalize-crlf : (s : List ℕ) → contains 13 s ≡ false → normalize crlf (with_eol crlf s) ≡ s
unfolding normalize with_eol lf_text cr_text
normalize-crlf [] h = refl
normalize-crlf (c ∷ s) h =
    let (n, r) = no_cr c s h in
    elim (Bool-cases (c == 10)) [
      | inl e ↦ rw e (ground (arith, normalize-crlf s r))
      | inr e ↦ rw e (ground (arith, normalize_step crlf c (with_eol crlf s) n, normalize-crlf s r))
    ]

-- The text has no other line endings than these. No text with CR LF is written as it was.
abbrev pub HasOnly : LineEnding → List ℕ → Type 0
HasOnly lf s = contains 13 s ≡ false
HasOnly cr s = contains 10 s ≡ false
HasOnly crlf s = ⊥

pub normalize-HasOnly : (eol : LineEnding) (s : List ℕ) → HasOnly eol s → normalize eol s ≡ s
normalize-HasOnly lf s h = normalize-lf s h
normalize-HasOnly cr s h = normalize-cr s h
normalize-HasOnly crlf s h = absurd h
