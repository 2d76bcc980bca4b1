-- ===== src/Terminal/Chunks.antt =====
-- What `feed` promises of its chunks and its buffer.
use cyberdeck.Common.{
  ℕ, zero, suc, ◌+◌, ◌*◌, ◌≤◌, ◌<◌, ◌≡◌, refl, sym, ap, ◌∙◌, append_assoc, Bool, true, ◌&&◌, List,
  [], ◌∷◌, ◌++◌, length, take, if◌then◌else◌, arith, length-append, take_all,
}
use cyberdeck.Terminal.{
  Seq, ground_text, esc, esc_int, csi, osc, osc_st, Filter, is_text, ground_pass, seq_pass, cr_pass,
  pass, feed, feed_loop,
}
use cyberdeck.Terminal.Bytes.{byte_text, byte_state, text, state, feed_loop_lem}

abbrev pub one_if : Bool → ℕ
one_if b = if b then 1 else 0

unfoldable pub all_text : List ℕ → Bool
all_text [] = true
all_text (c ∷ cs) = is_text c && all_text cs

take-nil : (n : ℕ) → take {A = ℕ} n [] ≡ []
take-nil zero = refl
take-nil (suc n) = refl

pub feed_lem :
    (f : Filter) (bytes : List ℕ) (size : ℕ)
    → feed f bytes size ≡ (state f bytes, take size (text f bytes))
unfolding feed
feed_lem f bytes size =
    rw (take-nil size) at (feed_loop_lem (2 * length bytes) f bytes size [] (omega arith))

pub state-append : (f : Filter) (a b : List ℕ) → state f (a ++ b) ≡ state (state f a) b
unfolding state
state-append f [] b = refl
state-append f (c ∷ a) b = state-append (byte_state f c) a b

pub text-append : (f : Filter) (a b : List ℕ) → text f (a ++ b) ≡ text f a ++ text (state f a) b
unfolding text state
text-append f [] b = refl
text-append f (c ∷ a) b =
    ap (λ t. byte_text f c ++ t) (text-append (byte_state f c) a b)
    ∙ sym
        (append_assoc (byte_text f c) (text (byte_state f c) a) (text (state (byte_state f c) a) b))

-- A byte gives itself and a line feed that was owed, at most.
length-byte_text :
    (f : Filter) (c : ℕ)
    → length (byte_text f c) + one_if (byte_state f c).pending_cr ≤ 1 + one_if f.pending_cr
unfolding byte_text byte_state pass cr_pass seq_pass ground_pass
length-byte_text f c = by_seq f.seq refl
  where
    by_seq :
        (s : Seq)
        → f.seq ≡ s
        → length (byte_text f c) + one_if (byte_state f c).pending_cr ≤ 1 + one_if f.pending_cr
    by_seq ground_text e = ground arith
    by_seq esc e = ground arith
    by_seq esc_int e = ground arith
    by_seq csi e = ground arith
    by_seq osc e = ground arith
    by_seq osc_st e = ground arith

length-text :
    (f : Filter) (bytes : List ℕ)
    → length (text f bytes) + one_if (state f bytes).pending_cr ≤ length bytes + one_if f.pending_cr
unfolding text state
length-text f [] = omega arith
length-text f (c ∷ bytes) = omega (
  arith,
  length-append (byte_text f c) (text (byte_state f c) bytes),
  length-byte_text f c,
  length-text (byte_state f c) bytes,
)

pub text-fits : (f : Filter) (bytes : List ℕ) → length (text f bytes) ≤ suc (length bytes)
text-fits f bytes = ground (arith, length-text f bytes)

-- The loop of `feed` ends by itself and uses up all bytes: with twice as many passes as there are
-- bytes, or with any number above, it leaves the filter that has taken each byte in turn, and gives
-- the output of each byte in turn, as much of it as fits the buffer. A buffer with room for one byte
-- more than the input loses none of it.
pub feed-take :
    (f : Filter) (bytes : List ℕ) (size n : ℕ)
    → 2 * length bytes ≤ n
    → (feed_loop n f bytes size [] ≡ feed f bytes size)
      × ((feed f bytes size).0 ≡ state f bytes)
      × ((feed f bytes size).1 ≡ take size (text f bytes))
      × (take (suc (length bytes)) (text f bytes) ≡ text f bytes)
feed-take f bytes size n h =
    let enough = rw (take-nil size) at (feed_loop_lem n f bytes size [] h) in
    rw (feed_lem f bytes size)
      (enough, refl, refl, take_all (suc (length bytes)) (text f bytes) (text-fits f bytes))

-- A stream can be cut into chunks anywhere: two chunks, each into a buffer with room for a byte
-- more, give the same bytes and leave the same filter as the whole stream at once.
pub feed-append :
    (f : Filter) (a b : List ℕ) (m n k : ℕ)
    → length a < m
    → length b < n
    → length (a ++ b) < k
    → ((feed f (a ++ b) k).1 ≡ (feed f a m).1 ++ (feed (feed f a m).0 b n).1)
      × ((feed f (a ++ b) k).0 ≡ (feed (feed f a m).0 b n).0)
feed-append f a b m n k p q r =
    rw
      (
        feed_lem f (a ++ b) k,
        feed_lem f a m,
        feed_lem (state f a) b n,
        take_all m (text f a) (omega (arith, text-fits f a)),
        take_all n (text (state f a) b) (omega (arith, text-fits (state f a) b)),
        take_all k (text f (a ++ b)) (omega (arith, text-fits f (a ++ b))),
      )
      (text-append f a b, state-append f a b)

all_text-append : (a b : List ℕ) → all_text a ≡ true → all_text b ≡ true → all_text (a ++ b) ≡ true
unfolding all_text
all_text-append [] b p q = q
all_text-append (c ∷ a) b p q = ground (arith, all_text-append a b)

all_text-take : (n : ℕ) (a : List ℕ) → all_text a ≡ true → all_text (take n a) ≡ true
unfolding all_text
all_text-take zero a p = refl
all_text-take (suc n) [] p = refl
all_text-take (suc n) (c ∷ a) p = ground (arith, all_text-take n a)

all_text-byte_text : (f : Filter) (c : ℕ) → all_text (byte_text f c) ≡ true
unfolding all_text byte_text pass cr_pass seq_pass ground_pass
all_text-byte_text f c = by_seq f.seq refl
  where
    by_seq : (s : Seq) → f.seq ≡ s → all_text (byte_text f c) ≡ true
    by_seq ground_text e = ground arith
    by_seq esc e = ground arith
    by_seq esc_int e = ground arith
    by_seq csi e = ground arith
    by_seq osc e = ground arith
    by_seq osc_st e = ground arith

all_text-text : (f : Filter) (bytes : List ℕ) → all_text (text f bytes) ≡ true
unfolding text
all_text-text f [] = unfold all_text in refl
all_text-text f (c ∷ bytes) =
    all_text-append (byte_text f c) (text (byte_state f c) bytes) (all_text-byte_text f c)
      (all_text-text (byte_state f c) bytes)

-- Whatever comes in, in whatever state: only tabs, line feeds, printable characters and bytes from
-- 0x80 on come out, no escape and no other control character.
pub feed-all_text : (f : Filter) (bytes : List ℕ) (size : ℕ) → all_text (feed f bytes size).1 ≡ true
feed-all_text f bytes size =
    rw (feed_lem f bytes size) (all_text-take size (text f bytes) (all_text-text f bytes))
