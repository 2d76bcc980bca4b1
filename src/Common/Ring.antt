-- ===== src/Common/Ring.antt =====
-- Circular buffers as the firmware keeps them: a fixed array, an index that advances modulo the
-- capacity, and a count. `window` reads the live cells in order.
use native.Mathlib.Nat.{mod-add-mod}
use mathlib.Core.List.{List, [], ◌∷◌, ◌++◌}
use mathlib.Core.Path.{◌≡◌, refl, sym, ◌∙◌, ap, ap₂, subst}
use mathlib.Core.Logic.{◌≢◌}
use Prim.Native.Nat.{ℕ, zero, suc, ◌+◌, ◌%◌, ◌≤◌, ◌<◌}
use native.Mathlib.Omega.{arith}
use cyberdeck.Common.Lists.{length, get_or, set, get_or-set_self, get_or-set_ne}

-- One step of an index.
abbrev pub next : ℕ → ℕ → ℕ
next size p = (p + 1) % size

pub next-lt : (size p : ℕ) → 0 < size → next size p < size
next-lt size p h = grind arith

slot-next : (size p n : ℕ) → (next size p + n) % size ≡ (p + suc n) % size
slot-next size p n = mod-add-mod (p + 1) size n ∙ ap (λ k. k % size) (omega arith)

slot-ne : (size p n : ℕ) → p < size → suc n < size → (p + suc n) % size ≢ p
slot-ne size p n h k = grind arith

slot-after : (size p k : ℕ) → next size ((p + k) % size) ≡ (p + suc k) % size
slot-after size p k = mod-add-mod (p + k) size 1 ∙ ap (λ j. j % size) (omega arith)

module _ {ℓ} {A : Type ℓ} where
  -- The `n` cells from slot `p` on.
  abbrev pub window : ℕ → List A → A → ℕ → ℕ → List A
  window size cells d p zero = []
  window size cells d p (suc n) = get_or cells p d ∷ window size cells d (next size p) n

  pub length-window :
      (size : ℕ) (cells : List A) (d : A) (p n : ℕ) → length (window size cells d p n) ≡ n
  length-window size cells d p zero = refl
  length-window size cells d p (suc n) = ap suc (length-window size cells d (next size p) n)

  -- A write behind the window makes it longer by that cell, while there is room.
  pub window-set :
      (size : ℕ) (cells : List A) (d x : A) (p n : ℕ)
      → length cells ≡ size
      → p < size
      → n < size
      → window size (set cells ((p + n) % size) x) d p (suc n) ≡ window size cells d p n ++ x ∷ []
  window-set size cells d x p zero e h k =
      let at_p : (p + 0) % size ≡ p = grind arith in
      rw at_p (ap (λ y. y ∷ []) (get_or-set_self cells p x d (omega arith)))
  window-set size cells d x p (suc n) e h k =
      let rest =
        window-set size cells d x (next size p) n e (next-lt size p (omega arith)) (omega arith) in
      ap₂ ◌∷◌ (get_or-set_ne cells ((p + suc n) % size) p x d (slot-ne size p n h k)) (
        subst
          (λ k.
            window size (set cells k x) d (next size p) (suc n)
            ≡ window size cells d (next size p) n ++ x ∷ [])
          (slot-next size p n) rest)

  -- A write to the cell `p` does not change the cells from the one `suc k` further on, before the
  -- ring comes round to `p`.
  pub window-set_ne :
      (size : ℕ) (cells : List A) (d x : A) (p k n : ℕ)
      → p < size
      → suc k + n ≤ size
      → window size (set cells p x) d ((p + suc k) % size) n
        ≡ window size cells d ((p + suc k) % size) n
  window-set_ne size cells d x p k zero h e = refl
  window-set_ne size cells d x p k (suc n) h e =
      let ahead : next size ((p + suc k) % size) ≡ (p + suc (suc k)) % size =
        slot-after size p (suc k) in
      let rest = window-set_ne size cells d x p (suc k) n h (omega arith) in
      ap₂ ◌∷◌
        (get_or-set_ne cells p ((p + suc k) % size) x d
          (λ f. slot-ne size p k h (omega arith) (sym f)))
        (subst (λ q. window size (set cells p x) d q n ≡ window size cells d q n) (sym ahead) rest)
