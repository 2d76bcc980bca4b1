-- ===== src/Editor/Codec/RoundTrip.antt =====
-- Loading a document and saving it again.
use cyberdeck.Common.{ℕ, ◌≡◌, Bool, true, List, ◌++◌}
use cyberdeck.Editor.{Encoding, LineEnding, DocumentInfo, LoadResult}
use cyberdeck.Editor.Codec.{write, bom_bytes}

abbrev marked : Encoding → Bool → DocumentInfo
marked codec bom = record { codec = codec; eol = LineEnding.lf; bom = bom }

-- What is loaded is written as it was, and behind the same mark.
record Rewritten (s out : List ℕ) (codec : Encoding) (bom : Bool) (r : LoadResult) : Type 0 where
  same_bytes : write r.info.codec r.text out ≡ (true, out ++ s)
  same_mark : bom_bytes r.info ≡ bom_bytes (marked codec bom)
