-- ===== src/Terminal/Tests.antt =====
-- The terminal filter on concrete bytes, and its theorems applied to them.
use cyberdeck.Common.{ℕ, ◌≡◌, ◌++◌, refl, List, [], ◌∷◌, arith}
use cyberdeck.Terminal.{init, feed, escape, feed_loop, pass, cr_pass, seq_pass, ground_pass, emit}
use cyberdeck.Terminal.Chunks.{feed-take, feed-append, all_text}
use cyberdeck.Terminal.Sequences.{control, all_within, feed-IsSequence}

-- `hi`, a carriage return and a line feed, `ESC [ 3 1 m`, and `!`.
abbrev hi : List ℕ
hi = 104 ∷ 105 ∷ []

abbrev red : List ℕ
red = escape ∷ 0x5B ∷ 0x33 ∷ 0x31 ∷ 0x6D ∷ []

abbrev line : List ℕ
line = 104 ∷ 105 ∷ 0x0D ∷ 0x0A ∷ escape ∷ 0x5B ∷ 0x33 ∷ 0x31 ∷ 0x6D ∷ 33 ∷ []

line_lem : (feed init line 20).1 ≡ 104 ∷ 105 ∷ 0x0A ∷ 33 ∷ []
unfolding feed feed_loop pass cr_pass seq_pass ground_pass emit
line_lem = refl

feed-take_example : feed_loop 24 init line 3 [] ≡ feed init line 3
feed-take_example = (feed-take init line 3 24 (omega arith)).0

-- The cut falls inside the control sequence.
feed-append_example :
    (feed init (104 ∷ 0x0D ∷ escape ∷ 0x5B ∷ 0x6D ∷ 33 ∷ []) 9).1
    ≡ (feed init (104 ∷ 0x0D ∷ escape ∷ []) 4).1
      ++ (feed (feed init (104 ∷ 0x0D ∷ escape ∷ []) 4).0 (0x5B ∷ 0x6D ∷ 33 ∷ []) 4).1
feed-append_example =
    (feed-append init (104 ∷ 0x0D ∷ escape ∷ []) (0x5B ∷ 0x6D ∷ 33 ∷ []) 4 4 9 (ground arith)
      (ground arith) (ground arith)).0

feed-IsSequence_example : (feed init (hi ++ red ++ hi) 12).1 ≡ hi ++ (feed init hi 3).1
unfolding all_text all_within
feed-IsSequence_example =
    (feed-IsSequence hi red hi 12 3 refl (control (0x33 ∷ 0x31 ∷ []) 0x6D refl refl) (ground arith)
      (ground arith)).0
