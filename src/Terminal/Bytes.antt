-- ===== src/Terminal/Bytes.antt =====
-- One byte of the terminal filter: at most two passes, and what they give.
use cyberdeck.Common.{
  ℕ, zero, suc, ◌*◌, ◌≤◌, ◌≡◌, ◌⊎◌, inl, inr, refl, sym, ap, ◌∙◌, append_assoc, append-nil, true,
  false, List, [], ◌∷◌, ◌++◌, length, take, ltb, if◌then◌else◌, arith, Bool-cases,
}
use cyberdeck.Terminal.{
  Seq, ground_text, esc, esc_int, csi, osc, osc_st, Filter, ground_pass, seq_pass, cr_pass, pass,
  emit, feed_loop,
}

-- All that is given to `emit`, and the filter after it, without a buffer.
unfoldable pub byte_text : Filter → ℕ → List ℕ
byte_text f c =
    if (pass f c).consumed then (pass f c).out else (pass f c).out ++ (pass (pass f c).filter c).out

unfoldable pub byte_state : Filter → ℕ → Filter
byte_state f c =
    if (pass f c).consumed then (pass f c).filter else (pass (pass f c).filter c).filter

unfoldable pub text : Filter → List ℕ → List ℕ
text f [] = []
text f (c ∷ bytes) = byte_text f c ++ text (byte_state f c) bytes

unfoldable pub state : Filter → List ℕ → Filter
state f [] = f
state f (c ∷ bytes) = state (byte_state f c) bytes

-- A byte that is not used up comes again in the state for text, which uses it up.
pass_again :
    (f : Filter) (c : ℕ)
    → ((pass f c).consumed ≡ true) ⊎ ((pass (pass f c).filter c).consumed ≡ true)
unfolding pass cr_pass seq_pass ground_pass
pass_again f c = by_seq f.seq refl
  where
    by_seq :
        (s : Seq)
        → f.seq ≡ s
        → ((pass f c).consumed ≡ true) ⊎ ((pass (pass f c).filter c).consumed ≡ true)
    by_seq ground_text e = ground arith
    by_seq esc e = ground arith
    by_seq esc_int e = ground arith
    by_seq csi e = ground arith
    by_seq osc e = ground arith
    by_seq osc_st e = ground arith

take-snoc :
    (size : ℕ) (out : List ℕ) (c : ℕ)
    → (if ltb (length (take size out)) size then take size out ++ c ∷ [] else take size out)
      ≡ take size (out ++ c ∷ [])
take-snoc zero out c = ground arith
take-snoc (suc zero) [] c = ground arith
take-snoc (suc (suc n)) [] c = ground arith
take-snoc (suc n) (x ∷ out) c = ground (arith, take-snoc n out c)

emit-take : (size : ℕ) (out cs : List ℕ) → emit size (take size out) cs ≡ take size (out ++ cs)
unfolding emit
emit-take size out [] = ap (take size) (sym (append-nil out))
emit-take size out (c ∷ cs) =
    rw (take-snoc size out c)
      (emit-take size (out ++ c ∷ []) cs ∙ ap (take size) (append_assoc out (c ∷ []) cs))

-- One pass of the loop.
feed_loop_step :
    (n : ℕ) (f : Filter) (c : ℕ) (bytes : List ℕ) (size : ℕ) (out : List ℕ)
    → feed_loop (suc n) f (c ∷ bytes) size (take size out)
      ≡ feed_loop n
          (pass f c).filter
          (if (pass f c).consumed then bytes else c ∷ bytes)
          size
          (take size (out ++ (pass f c).out))
unfolding feed_loop
feed_loop_step n f c bytes size out =
    ap
      (λ o. feed_loop n (pass f c).filter (if (pass f c).consumed then bytes else c ∷ bytes) size o)
      (emit-take size out (pass f c).out)

byte_once :
    (f : Filter) (c : ℕ)
    → (pass f c).consumed ≡ true
    → (byte_text f c ≡ (pass f c).out) × (byte_state f c ≡ (pass f c).filter)
unfolding byte_text byte_state
byte_once f c e = ground arith

byte_twice :
    (f : Filter) (c : ℕ)
    → (pass f c).consumed ≡ false
    → (byte_text f c ≡ (pass f c).out ++ (pass (pass f c).filter c).out)
      × (byte_state f c ≡ (pass (pass f c).filter c).filter)
      × ((pass (pass f c).filter c).consumed ≡ true)
unfolding byte_text byte_state
byte_twice f c e = ground (arith, pass_again f c)

pub feed_loop_lem :
    (n : ℕ) (f : Filter) (bytes : List ℕ) (size : ℕ) (out : List ℕ)
    → 2 * length bytes ≤ n
    → feed_loop n f bytes size (take size out) ≡ (state f bytes, take size (out ++ text f bytes))
unfolding state text
feed_loop_lem zero f [] size out h = unfold feed_loop in rw (append-nil out) refl
feed_loop_lem zero f (c ∷ bytes) size out h = absurd (omega arith)
feed_loop_lem (suc n) f [] size out h = unfold feed_loop in rw (append-nil out) refl
feed_loop_lem (suc zero) f (c ∷ bytes) size out h = absurd (omega arith)
feed_loop_lem (suc (suc n)) f (c ∷ bytes) size out h =
    let p = pass f c in
    elim (Bool-cases p.consumed) [
      | inl e ↦
          let (t, s) = byte_once f c e in
          let first = rw e at (feed_loop_step (suc n) f c bytes size out) in
          let rest = feed_loop_lem (suc n) p.filter bytes size (out ++ p.out) (omega arith) in
          rw (t, s)
            (first
              ∙ rest
              ∙ ap (λ o. (state p.filter bytes, take size o))
                  (append_assoc out p.out (text p.filter bytes)))
      | inr e ↦
          let (t, s, once) = byte_twice f c e in
          let q = pass p.filter c in
          let first = rw e at (feed_loop_step (suc n) f c bytes size out) in
          let second = rw once at (feed_loop_step n p.filter c bytes size (out ++ p.out)) in
          let rest = feed_loop_lem n q.filter bytes size ((out ++ p.out) ++ q.out) (omega arith) in
          rw (t, s)
            (first
              ∙ second
              ∙ rest
              ∙ ap (λ o. (state q.filter bytes, take size o))
                  (append_assoc (out ++ p.out) q.out (text q.filter bytes)
                    ∙ append_assoc out p.out (q.out ++ text q.filter bytes)
                    ∙ ap (λ o. out ++ o) (sym (append_assoc p.out q.out (text q.filter bytes)))))
    ]
