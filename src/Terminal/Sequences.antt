-- ===== src/Terminal/Sequences.antt =====
-- Complete control sequences, after the grammar that the header of the filter gives.
use cyberdeck.Common.{
  ℕ, ◌<◌, ◌≡◌, subst, refl, ap, ◌∙◌, append-nil, Bool, true, not, ◌&&◌, List, [], ◌∷◌, ◌++◌, length,
  ◌==◌, if◌then◌else◌, arith, take_all,
}
use cyberdeck.Terminal.{
  Seq, ground_text, esc, esc_int, csi, osc, osc_st, Filter, init, is_text, escape, within,
  ground_pass, seq_pass, cr_pass, pass, feed,
}
use cyberdeck.Terminal.Bytes.{byte_text, byte_state, text, state}
use cyberdeck.Terminal.Chunks.{feed_lem, state-append, text-append, text-fits, all_text}

unfoldable pub all_within : ℕ → ℕ → List ℕ → Bool
all_within low high [] = true
all_within low high (c ∷ cs) = within low high c && all_within low high cs

-- The bytes inside an OSC sequence: neither BEL nor escape.
unfoldable pub inside_osc : List ℕ → Bool
inside_osc [] = true
inside_osc (c ∷ cs) = not (c == 0x07) && not (c == escape) && inside_osc cs

-- A control sequence from its escape to its last byte.
pub data IsSequence : List ℕ → Type 0 where
  short :
      (c : ℕ)
      → (within 0x30 0x7E c && not (c == 0x5B) && not (c == 0x5D)) ≡ true
      → IsSequence (escape ∷ c ∷ [])
  intermediate :
      (i c : ℕ) (is : List ℕ)
      → all_within 0x20 0x2F (i ∷ is) ≡ true
      → within 0x30 0x7E c ≡ true
      → IsSequence (escape ∷ i ∷ (is ++ c ∷ []))
  control :
      (params : List ℕ) (c : ℕ)
      → all_within 0x20 0x3F params ≡ true
      → within 0x40 0x7E c ≡ true
      → IsSequence (escape ∷ 0x5B ∷ (params ++ c ∷ []))
  system_bel :
      (bytes : List ℕ) → inside_osc bytes ≡ true → IsSequence (escape ∷ 0x5D ∷ (bytes ++ 0x07 ∷ []))
  system_st :
      (bytes : List ℕ)
      → inside_osc bytes ≡ true
      → IsSequence (escape ∷ 0x5D ∷ (bytes ++ escape ∷ 0x5C ∷ []))

-- The filter in the middle of a sequence.
abbrev at : Seq → Filter
at s = record init { seq = s }

-- The bytes give nothing and take the filter from one state to another.
record Vanishes (f g : Filter) (bytes : List ℕ) : Type 0 where
  text_is : text f bytes ≡ []
  state_is : state f bytes ≡ g

vanish_append :
    (f g h : Filter) (a b : List ℕ) → Vanishes f g a → Vanishes g h b → Vanishes f h (a ++ b)
vanish_append f g h a b p q = record {
  text_is = text-append f a b ∙ rw (p.text_is, p.state_is) q.text_is;
  state_is = state-append f a b ∙ rw p.state_is q.state_is;
}

vanish_cons :
    (f g h : Filter) (c : ℕ) (bytes : List ℕ)
    → Vanishes f g (c ∷ [])
    → Vanishes g h bytes
    → Vanishes f h (c ∷ bytes)
vanish_cons f g h c bytes = vanish_append f g h (c ∷ []) bytes

vanish_none : (f : Filter) → Vanishes f f []
unfolding text state
vanish_none f = record { text_is = refl; state_is = refl }

-- What a single byte does within a sequence: the next state, for the bytes that continue it.
abbrev moves : Seq → ℕ → Seq
moves ground_text c = if c == escape then esc else ground_text
moves esc c =
    if c == 0x5B
    then csi
    else if c == 0x5D
    then osc
    else if within 0x20 0x2F c
    then esc_int
    else ground_text
moves esc_int c = if within 0x20 0x2F c then esc_int else ground_text
moves csi c = if within 0x40 0x7E c then ground_text else csi
moves osc c = if c == 0x07 then ground_text else if c == escape then osc_st else osc
moves osc_st c = ground_text

abbrev continues : Seq → ℕ → Bool
continues ground_text c = c == escape
continues esc c = within 0x20 0x7E c
continues esc_int c = within 0x20 0x7E c
continues csi c = within 0x20 0x7E c
continues osc c = true
continues osc_st c = c == 0x5C

one_byte : (s : Seq) (c : ℕ) → continues s c ≡ true → Vanishes (at s) (at (moves s c)) (c ∷ [])
unfolding text state byte_text byte_state pass cr_pass seq_pass ground_pass
one_byte ground_text c h = ground arith
one_byte esc c h = ground arith
one_byte esc_int c h = ground arith
one_byte csi c h = ground arith
one_byte osc c h = ground arith
one_byte osc_st c h = ground arith

-- The first byte of more, and the state that it leads to.
then_bytes :
    (s t u : Seq) (c : ℕ) (bytes : List ℕ)
    → continues s c ≡ true
    → moves s c ≡ t
    → Vanishes (at t) (at u) bytes
    → Vanishes (at s) (at u) (c ∷ bytes)
then_bytes s t u c bytes h e v =
    vanish_cons (at s) (at t) (at u) c bytes
      (subst (λ w. Vanishes (at s) (at w) (c ∷ [])) e (one_byte s c h)) v

within_bytes :
    (is bytes : List ℕ)
    → all_within 0x20 0x2F is ≡ true
    → Vanishes (at esc_int) init bytes
    → Vanishes (at esc_int) init (is ++ bytes)
unfolding all_within
within_bytes [] bytes h v = v
within_bytes (c ∷ is) bytes h v =
    then_bytes esc_int esc_int ground_text c (is ++ bytes) (ground arith) (ground arith)
      (within_bytes is bytes (ground arith) v)

csi_bytes :
    (params bytes : List ℕ)
    → all_within 0x20 0x3F params ≡ true
    → Vanishes (at csi) init bytes
    → Vanishes (at csi) init (params ++ bytes)
unfolding all_within
csi_bytes [] bytes h v = v
csi_bytes (c ∷ params) bytes h v =
    then_bytes csi csi ground_text c (params ++ bytes) (ground arith) (ground arith)
      (csi_bytes params bytes (ground arith) v)

osc_bytes :
    (inside bytes : List ℕ)
    → inside_osc inside ≡ true
    → Vanishes (at osc) init bytes
    → Vanishes (at osc) init (inside ++ bytes)
unfolding inside_osc
osc_bytes [] bytes h v = v
osc_bytes (c ∷ inside) bytes h v =
    then_bytes osc osc ground_text c (inside ++ bytes) refl (ground arith)
      (osc_bytes inside bytes (ground arith) v)

-- The last byte of a sequence.
last_byte :
    (s : Seq) (c : ℕ)
    → continues s c ≡ true
    → moves s c ≡ ground_text
    → Vanishes (at s) init (c ∷ [])
last_byte s c h e = then_bytes s ground_text ground_text c [] h e (vanish_none init)

vanishes : (bytes : List ℕ) → IsSequence bytes → Vanishes init init bytes
vanishes _ (short c h) =
    then_bytes ground_text esc ground_text escape (c ∷ []) refl refl
      (last_byte esc c (ground arith) (ground arith))
vanishes _ (intermediate i c is h k) =
    then_bytes ground_text esc ground_text escape (i ∷ (is ++ c ∷ [])) refl refl (
      then_bytes esc esc_int ground_text i (is ++ c ∷ []) (unfold all_within in ground arith)
        (unfold all_within in ground arith)
        (within_bytes is (c ∷ []) (unfold all_within in ground arith)
          (last_byte esc_int c (ground arith) (ground arith))))
vanishes _ (control params c h k) =
    then_bytes ground_text esc ground_text escape (0x5B ∷ (params ++ c ∷ [])) refl refl (
      then_bytes esc csi ground_text 0x5B (params ++ c ∷ []) refl refl
        (csi_bytes params (c ∷ []) h (last_byte csi c (ground arith) (ground arith))))
vanishes _ (system_bel inside h) =
    then_bytes ground_text esc ground_text escape (0x5D ∷ (inside ++ 0x07 ∷ [])) refl refl (
      then_bytes esc osc ground_text 0x5D (inside ++ 0x07 ∷ []) refl refl
        (osc_bytes inside (0x07 ∷ []) h (last_byte osc 0x07 refl refl)))
vanishes _ (system_st inside h) =
    then_bytes ground_text esc ground_text escape (0x5D ∷ (inside ++ escape ∷ 0x5C ∷ [])) refl refl
      (then_bytes esc osc ground_text 0x5D (inside ++ escape ∷ 0x5C ∷ []) refl refl (
        osc_bytes inside (escape ∷ 0x5C ∷ []) h (
          then_bytes osc osc_st ground_text escape (0x5C ∷ []) refl refl
            (last_byte osc_st 0x5C refl refl))))

plain_byte : (c : ℕ) → is_text c ≡ true → (byte_text init c ≡ c ∷ []) × (byte_state init c ≡ init)
unfolding byte_text byte_state pass cr_pass seq_pass ground_pass
plain_byte c h = ground arith

plain :
    (bytes : List ℕ) → all_text bytes ≡ true → (text init bytes ≡ bytes) × (state init bytes ≡ init)
unfolding all_text text state
plain [] h = (refl, refl)
plain (c ∷ bytes) h =
    let (t, s) = plain_byte c (ground arith) in
    let (ts, ss) = plain bytes (ground arith) in rw (t, s) (ap (c ∷◌) ts, ss)

around :
    (before bytes after : List ℕ)
    → all_text before ≡ true
    → IsSequence bytes
    → (text init (before ++ bytes ++ after) ≡ before ++ text init after)
      × (state init (before ++ bytes ++ after) ≡ state init after)
around before bytes after h q =
    let (t, s) = plain before h in
    let v = vanishes bytes q in
    let text_of : text init (before ++ bytes) ≡ before =
      text-append init before bytes ∙ rw (t, s, v.text_is) (append-nil before) in
    let state_of : state init (before ++ bytes) ≡ init =
      state-append init before bytes ∙ rw s v.state_is in
    (
      text-append init (before ++ bytes) after ∙ rw (text_of, state_of) refl,
      state-append init (before ++ bytes) after ∙ rw state_of refl,
    )

-- Text passes through unchanged and a complete control sequence vanishes: after text that the
-- filter keeps, a sequence of the grammar gives nothing, and what follows it is filtered as if it
-- stood at the start, with buffers that have room for a byte more than their input.
pub feed-IsSequence :
    (before bytes after : List ℕ) (m n : ℕ)
    → all_text before ≡ true
    → IsSequence bytes
    → length (before ++ bytes ++ after) < m
    → length after < n
    → ((feed init (before ++ bytes ++ after) m).1 ≡ before ++ (feed init after n).1)
      × ((feed init (before ++ bytes ++ after) m).0 ≡ (feed init after n).0)
feed-IsSequence before bytes after m n h q p r =
    rw
      (
        feed_lem init (before ++ bytes ++ after) m,
        feed_lem init after n,
        take_all m (text init (before ++ bytes ++ after))
            (omega (arith, text-fits init (before ++ bytes ++ after))),
        take_all n (text init after) (omega (arith, text-fits init after)),
      )
      (around before bytes after h q)
