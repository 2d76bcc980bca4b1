-- ===== src/Terminal.antt =====
-- components/cyberdeck/src/apps/shell/cyberdeck_terminal_filter.cpp and its header: the bytes of a
-- remote terminal, without their control sequences, fed in chunks.
pub mod Bytes
pub mod Chunks
pub mod Sequences
mod Tests
use cyberdeck.Common.{
  ℕ, zero, suc, ◌+◌, ◌*◌, ◌%◌, Bool, true, false, not, ◌&&◌, ◌||◌, List, [], ◌∷◌, ◌++◌, length, ltb,
  leb, ◌==◌, if◌then◌else◌,
}

pub data Seq : Type 0 where
  ground_text esc esc_int csi osc osc_st : Seq

pub record Filter : Type 0 where
  pub seq : Seq
  pub pending_cr : Bool
  pub discard_gap_tail : Bool
  pub gap_parameter_bytes : ℕ

abbrev pub gap_parameter_limit : ℕ
gap_parameter_limit = 16

abbrev pub init : Filter
init = record {
  seq = ground_text;
  pending_cr = false;
  discard_gap_tail = false;
  gap_parameter_bytes = 0;
}

abbrev pub resync_after_gap : Filter → Filter
resync_after_gap f = record {
  seq = ground_text;
  pending_cr = false;
  discard_gap_tail = true;
  gap_parameter_bytes = 0;
}

-- One pass of the loop of `feed`: the bytes given to `emit`, and whether the byte is used up.
pub record Pass : Type 0 where
  pub filter : Filter
  pub out : List ℕ
  pub consumed : Bool

abbrev pub within : ℕ → ℕ → ℕ → Bool
within low high c = leb low c && leb c high

abbrev pub lf : ℕ
lf = 0x0A

abbrev pub cr : ℕ
cr = 0x0D

abbrev pub escape : ℕ
escape = 0x1B

-- The bytes that `SEQ_GROUND` passes on.
abbrev pub is_text : ℕ → Bool
is_text c = (c == lf) || (c == 0x09) || within 0x20 0x7E c || leb 0x80 c

abbrev to : Filter → Seq → Pass
to f s = record { filter = record f { seq = s }; out = []; consumed = true }

abbrev again_in_ground : Filter → Pass
again_in_ground f = record { filter = record f { seq = ground_text }; out = []; consumed = false }

unfoldable pub ground_pass : Filter → ℕ → Pass
ground_pass f c =
    if c == cr
    then record { filter = record f { pending_cr = true }; out = []; consumed = true }
    else if c == escape
    then to f esc
    else if is_text c
    then record { filter = f; out = c ∷ []; consumed = true }
    else record { filter = f; out = []; consumed = true }

-- The `switch` over the state.
unfoldable pub seq_pass : Filter → ℕ → Pass
unfolding ground_pass
seq_pass f c = elim f.seq [
  | ground_text ↦ ground_pass f c
  | esc ↦
      if c == 0x5B
      then to f csi
      else if c == 0x5D
      then to f osc
      else if within 0x20 0x2F c
      then to f esc_int
      else if within 0x30 0x7E c
      then to f ground_text
      else again_in_ground f
  | esc_int ↦
      if within 0x20 0x2F c
      then to f esc_int
      else if within 0x30 0x7E c
      then to f ground_text
      else again_in_ground f
  | csi ↦
      if within 0x40 0x7E c
      then to f ground_text
      else if ltb c 0x20 || (c == 0x7F) || leb 0x80 c
      then again_in_ground f
      else to f csi
  | osc ↦ if c == 0x07 then to f ground_text else if c == escape then to f osc_st else to f osc
  | osc_st ↦ if c == 0x5C then to f ground_text else again_in_ground f
]

-- The carriage return that waits comes out as a line feed, which a line feed uses up.
unfoldable pub cr_pass : Filter → ℕ → Pass
unfolding seq_pass
cr_pass f c =
    if not f.pending_cr
    then seq_pass f c
    else let g = record f { pending_cr = false } in
      if c == lf
      then record { filter = g; out = lf ∷ []; consumed = true }
      else record (seq_pass g c) { out = lf ∷ (seq_pass g c).out }

abbrev count_gap : Filter → Filter
count_gap f =
    let n = (f.gap_parameter_bytes + 1) % 256 in
    record f { gap_parameter_bytes = n; discard_gap_tail = not (leb gap_parameter_limit n) }

unfoldable pub pass : Filter → ℕ → Pass
unfolding cr_pass
pass f c =
    if not f.discard_gap_tail
    then cr_pass f c
    else if c == 0x6D
    then record { filter = record f { discard_gap_tail = false }; out = []; consumed = true }
    else if within 0x30 0x39 c || (c == 0x3B)
    then record { filter = count_gap f; out = []; consumed = true }
    else cr_pass (record f { discard_gap_tail = false; gap_parameter_bytes = 0 }) c

-- `emit`, into a buffer of `cap` bytes.
unfoldable pub emit : ℕ → List ℕ → List ℕ → List ℕ
emit cap out [] = out
emit cap out (c ∷ cs) = emit cap (if ltb (length out) cap then out ++ c ∷ [] else out) cs

-- The loop of `feed`, for at most so many passes.
unfoldable pub feed_loop : ℕ → Filter → List ℕ → ℕ → List ℕ → Filter × List ℕ
unfolding pass emit
feed_loop zero f bytes cap out = (f, out)
feed_loop (suc n) f [] cap out = (f, out)
feed_loop (suc n) f (c ∷ bytes) cap out =
    feed_loop n (pass f c).filter (if (pass f c).consumed then bytes else c ∷ bytes) cap
      (emit cap out (pass f c).out)

unfoldable pub feed : Filter → List ℕ → ℕ → Filter × List ℕ
unfolding feed_loop
feed f bytes cap = feed_loop (2 * length bytes) f bytes cap []

unfoldable pub flush : Filter → ℕ → Filter × List ℕ
flush f cap = (init, if f.pending_cr && ltb 0 cap then lf ∷ [] else [])
