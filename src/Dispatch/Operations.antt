-- ===== src/Dispatch/Operations.antt =====
-- What the processes know of the operations that were queued and of the calls that were made.
use Prim.{Unit}
use cyberdeck.Common.{
  ℕ, zero, suc, ◌^◌, ◌<◌, ◌≤◌, ◌≡◌, refl, Bool, true, false, ◌&&◌, ◌||◌, some, List, [], ◌∷◌, arith,
  ltb, leb, get_elem?,
}
use cyberdeck.Dispatch.{queued, idle, Payload, Job, is_state, state_of, token_of}
use cyberdeck.Dispatch.System.{
  Holder, Task, started, loaded, storing, publishing, System, next_token, remove_at,
}

-- The elements of the first list stand in the second one, in the same order.
pub data Subsequence {ℓ} {A : Type ℓ} : List A → List A → Type ℓ where
  nothing : {ys : List A} → Subsequence [] ys
  keep : (x : A) {xs ys : List A} → Subsequence xs ys → Subsequence (x ∷ xs) (x ∷ ys)
  skip : (y : A) {xs ys : List A} → Subsequence xs ys → Subsequence xs (y ∷ ys)

-- The tokens of the operations are below a bound, and each is below the later ones.
unfoldable pub below : ℕ → List (ℕ × Payload) → Bool
below n [] = true
below n ((t, p) ∷ ops) = ltb t n && below t ops

unfoldable pub all_below : ℕ → List ℕ → Bool
all_below n [] = true
all_below n (t ∷ ts) = ltb t n && all_below n ts

-- The operation that was queued last is the one in the job.
abbrev pub Current : Job → List (ℕ × Payload) → Type 0
Current j [] = state_of j ≡ idle
Current j ((t, p) ∷ ops) = (token_of j ≡ t) × (j.payload ≡ p) × (is_state (state_of j) idle ≡ false)

-- The LVGL task works on the operation in the job.
abbrev pub TaskKnows : Job → Task → Type 0
TaskKnows j (started t) = token_of j ≡ t
TaskKnows j (loaded t p) = (token_of j ≡ t) × (j.payload ≡ p)
TaskKnows j (storing t c owner) = token_of j ≡ t
TaskKnows j (publishing t owner) = token_of j ≡ t
TaskKnows j _ = Unit {0}

abbrev pub holder_knows : ℕ → List (ℕ × Payload) → Holder → Bool
holder_knows g ops (Holder.tokened p t) = leb t g && below t ops
holder_knows g ops (Holder.armed t) = leb t g
holder_knows g ops _ = true

unfoldable pub all_know : ℕ → List (ℕ × Payload) → List Holder → Bool
all_know g ops [] = true
all_know g ops (h ∷ hs) = holder_knows g ops h && all_know g ops hs

abbrev pub before_call : Task → Bool
before_call (started t) = true
before_call (loaded t p) = true
before_call _ = false

-- The operation in the job can still be called.
abbrev pub uncalled : System → Bool
uncalled s = is_state (state_of s.job) queued || before_call s.task

abbrev pub tail : List (ℕ × Payload) → List (ℕ × Payload)
tail [] = []
tail (x ∷ xs) = xs

-- The operations that a call has been made for, or may have been.
abbrev pub past : Bool → List (ℕ × Payload) → List (ℕ × Payload)
past true ops = tail ops
past false ops = ops

pub record IsFaithful (s : System) : Type 0 where
  pub current : Current s.job s.operations
  pub task_knows : TaskKnows s.job s.task
  pub holders_know : all_know s.generation s.operations s.holders ≡ true
  pub tokens : all_below (suc s.generation) s.pending ≡ true
  pub ordered : below (suc s.generation) s.operations ≡ true
  pub called : Subsequence s.calls (past (uncalled s) s.operations)

pub below-le :
    (m n : ℕ) (ops : List (ℕ × Payload)) → m ≤ n → below m ops ≡ true → below n ops ≡ true
unfolding below
below-le m n [] h e = refl
below-le m n ((t, p) ∷ ops) h e = ground arith

pub all_below-le : (m n : ℕ) (ts : List ℕ) → m ≤ n → all_below m ts ≡ true → all_below n ts ≡ true
unfolding all_below
all_below-le m n [] h e = refl
all_below-le m n (t ∷ ts) h e = ground (arith, all_below-le m n ts h)

pub all_below-remove_at :
    (n i : ℕ) (ts : List ℕ) → all_below n ts ≡ true → all_below n (remove_at i ts) ≡ true
unfolding all_below remove_at
all_below-remove_at n i [] e = refl
all_below-remove_at n zero (t ∷ ts) e = ground arith
all_below-remove_at n (suc i) (t ∷ ts) e = ground (arith, all_below-remove_at n i ts)

pub all_below-get_elem? :
    (n i t : ℕ) (ts : List ℕ) → all_below n ts ≡ true → get_elem? ts i ≡ some t → t < n
unfolding all_below
all_below-get_elem? n i t [] e f = ground arith
all_below-get_elem? n zero t (x ∷ ts) e f = ground arith
all_below-get_elem? n (suc i) t (x ∷ ts) e f = all_below-get_elem? n i t ts (ground arith) f

pub next_token_lem : (g : ℕ) → suc g < 2 ^ 29 → next_token g ≡ suc g
unfolding next_token
next_token_lem g h = ground arith
