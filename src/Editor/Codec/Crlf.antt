-- ===== src/Editor/Codec/Crlf.antt =====
-- A document with the line endings of Windows in `decode` and `encode`.
use cyberdeck.Common.{
  inl, inr, ℕ, ◌≤◌, ◌<◌, ◌≡◌, refl, true, false, List, [], ◌∷◌, ◌==◌, leb, length, get_or, arith,
  Bool-cases,
}
use cyberdeck.Editor.{utf8, crlf, ok, max_document_bytes, LoadResult}
use cyberdeck.Editor.Utf8.{valid_utf8}
use cyberdeck.Editor.Codec.{
  contains, lf_text, first_eol, decode, decode_as, detect, finish, encode, write, bom_bytes,
}
use cyberdeck.Editor.Codec.Lines.{with_eol, normalize-crlf}

length-with_eol : (s : List ℕ) → length s ≤ length (with_eol crlf s)
unfolding with_eol lf_text
length-with_eol [] = omega arith
length-with_eol (c ∷ s) = ground (arith, length-with_eol s)

first_eol-with_eol :
    (s : List ℕ) → contains 13 s ≡ false → contains 10 s ≡ true → first_eol (with_eol crlf s) ≡ crlf
unfolding first_eol with_eol lf_text contains
first_eol-with_eol [] h k = absurd cc
first_eol-with_eol (c ∷ s) h k = elim (Bool-cases (c == 10)) [
  | inl e ↦ rw e refl
  | inr e ↦ rw e (ground (arith, first_eol-with_eol s))
]

-- With CR LF for its line feeds, the text is a document in UTF-8 that starts with no byte of a mark.
pub record IsWindows (s : List ℕ) : Type 0 where
  pub no_return : contains 13 s ≡ false
  pub some_line : contains 10 s ≡ true
  pub no_mark : get_or (with_eol crlf s) 0 0 < 0xef
  pub no_zero : contains 0 (with_eol crlf s) ≡ false
  pub valid : valid_utf8 (with_eol crlf s) ≡ true
  pub fits : leb (length (with_eol crlf s)) max_document_bytes ≡ true

abbrev windows_document : List ℕ → LoadResult
windows_document s = record {
  status = ok;
  text = with_eol crlf s;
  info = record { codec = utf8; eol = crlf; bom = false };
}

detect-with_eol :
    (s : List ℕ)
    → IsWindows s
    → detect (with_eol crlf s) ≡ record { codec = utf8; bom = false; at = 0 }
unfolding detect
detect-with_eol s w = ground (arith, w.no_mark)

decode-with_eol : (s : List ℕ) → IsWindows s → decode (with_eol crlf s) ≡ windows_document s
unfolding decode decode_as finish
decode-with_eol s w =
    rw (detect-with_eol s w, w.no_zero, w.valid)
      (ground (arith, w.fits, first_eol-with_eol s w.no_return w.some_line))

-- A document in UTF-8 within the size limit, without zero bytes, whose first byte is below 0xEF and
-- which has line endings, all of them CR LF, is loaded as it is and with the line ending of Windows,
-- but saving it unchanged writes each of its line endings as a line feed alone.
pub encode-crlf_lost :
    {s : List ℕ} (out : List ℕ)
    → IsWindows s
    → ((decode (with_eol crlf s)).status ≡ ok)
      × ((decode (with_eol crlf s)).text ≡ with_eol crlf s)
      × ((decode (with_eol crlf s)).info.eol ≡ crlf)
      × (encode (decode (with_eol crlf s)).text (decode (with_eol crlf s)).info out ≡ (true, s))
unfolding encode write bom_bytes
encode-crlf_lost {s} out w = rw (decode-with_eol s w) (
  refl,
  refl,
  refl,
  ground (arith, w.valid, w.fits, normalize-crlf s w.no_return, length-with_eol s),
)
