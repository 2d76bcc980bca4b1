-- ===== src/History/Recall.antt =====
-- What the history keeps, and what the arrow keys bring back.
use cyberdeck.Common.{
  ℕ, zero, suc, ◌-◌, ◌<◌, ◌≤◌, ◌≡◌, refl, sym, ap, ◌∙◌, true, false, List, [], ◌∷◌, ◌++◌, length,
  length-append, length-drop, get_or, drop, ltb, if◌then◌else◌, arith, Bool-cases, inl, inr,
  append_assoc, append-nil,
}
use cyberdeck.History.{History, limit, init, is_blank, push_entry, add, move_up, current}

pub add_all : History → List (List ℕ) → History
add_all h [] = h
add_all h (line ∷ lines) = add_all (add h line).0 lines

-- The lines that are not blank.
pub commands : List (List ℕ) → List (List ℕ)
commands [] = []
commands (line ∷ lines) = if is_blank line then commands lines else line ∷ commands lines

abbrev pub last : ℕ → List (List ℕ) → List (List ℕ)
last n lines = drop (length lines - n) lines

drop-snoc :
    (k : ℕ) (xs : List (List ℕ)) (x : List ℕ)
    → k ≤ length xs
    → drop k (xs ++ x ∷ []) ≡ drop k xs ++ x ∷ []
drop-snoc zero xs x h = refl
drop-snoc (suc k) [] x h = absurd (omega arith)
drop-snoc (suc k) (y ∷ xs) x h = drop-snoc k xs x (omega arith)

drop-suc : (k : ℕ) (xs : List (List ℕ)) → drop 1 (drop k xs) ≡ drop (suc k) xs
drop-suc zero xs = refl
drop-suc (suc k) [] = refl
drop-suc (suc k) (y ∷ xs) = drop-suc k xs

push_entry-last :
    (xs : List (List ℕ)) (x : List ℕ) → push_entry (last limit xs) x ≡ last limit (xs ++ x ∷ [])
unfolding push_entry
push_entry-last xs x = elim (Bool-cases (ltb (length xs) limit)) [
  | inl e ↦
      let all : length xs - limit ≡ 0 = ground arith in
      let still : length (xs ++ x ∷ []) - limit ≡ 0 = ground (arith, length-append xs (x ∷ [])) in
      let fits : ltb limit (length (xs ++ x ∷ [])) ≡ false =
        ground (arith, length-append xs (x ∷ [])) in
      rw (all, still, fits) refl
  | inr e ↦
      let k = length xs - limit in
      let one_more : length (xs ++ x ∷ []) - limit ≡ suc k =
        ground (arith, length-append xs (x ∷ [])) in
      let full : ltb limit (length (drop k xs ++ x ∷ [])) ≡ true =
        ground (arith, length-append (drop k xs) (x ∷ []), length-drop k xs) in
      rw (one_more, full)
        (ap (drop 1) (sym (drop-snoc k xs x (omega arith))) ∙ drop-suc k (xs ++ x ∷ []))
]

add_cases :
    (h : History) (line : List ℕ) (lines : List (List ℕ))
    → ((add h line).0.entries ≡ (if is_blank line then h.entries else push_entry h.entries line))
      × ((add h line).0.pos ≡ length (add h line).0.entries)
      × (commands (line ∷ lines)
          ≡ (if is_blank line then commands lines else line ∷ commands lines))
unfolding add commands
add_cases h line lines = (ground arith, ground arith, refl)

add_all-last :
    (h : History) (old lines : List (List ℕ))
    → h.entries ≡ last limit old
    → (add_all h lines).entries ≡ last limit (old ++ commands lines)
unfolding add_all
add_all-last h old [] e = unfold commands in e ∙ ap (last limit) (sym (append-nil old))
add_all-last h old (line ∷ lines) e =
    let (kept, _, rest) = add_cases h line lines in
    elim (Bool-cases (is_blank line)) [
      | inl b ↦ rw (rest, b) (add_all-last (add h line).0 old lines (rw b at kept ∙ e))
      | inr b ↦
          rw (rest, b)
            (add_all-last (add h line).0 (old ++ line ∷ []) lines
                (rw b at kept ∙ ap (λ es. push_entry es line) e ∙ push_entry-last old line)
              ∙ ap (last limit) (append_assoc old (line ∷ []) (commands lines)))
    ]

-- However many lines are entered, the history holds the last 64 of those that are not blank, in
-- their order.
pub add_all-commands :
    (lines : List (List ℕ)) → (add_all init lines).entries ≡ last limit (commands lines)
add_all-commands lines = add_all-last init [] lines refl

pub ups : ℕ → History → History
ups zero h = h
ups (suc n) h = ups n (move_up h)

move_up_lem :
    (h : History)
    → h.pos ≤ length h.entries
    → ((move_up h).pos ≡ h.pos - 1) × ((move_up h).entries ≡ h.entries)
unfolding move_up
move_up_lem h f = ground arith

ups-pos :
    (n : ℕ) (h : History)
    → h.pos ≤ length h.entries
    → ((ups n h).pos ≡ h.pos - n) × ((ups n h).entries ≡ h.entries)
unfolding ups
ups-pos zero h f = (omega arith, refl)
ups-pos (suc n) h f =
    let (p, e) = move_up_lem h f in
    let (q, d) = ups-pos n (move_up h) (rw e (omega (arith, p))) in (omega (arith, p, q), d ∙ e)

-- Right after a line has been entered, the arrow up pressed `n + 1` times shows the entry `n` places
-- before the newest one, as long as there are so many.
pub add-ups :
    (h : History) (line : List ℕ) (n : ℕ)
    → n < length (add h line).0.entries
    → current (ups (suc n) (add h line).0)
      ≡ get_or (add h line).0.entries (length (add h line).0.entries - suc n) []
unfolding current
add-ups h line n f =
    let g = (add h line).0 in
    let (_, there, _) = add_cases h line [] in
    let (p, e) = ups-pos (suc n) g (omega (arith, there)) in
    let inside : ltb (length g.entries - suc n) (length g.entries) ≡ true = ground arith in
    rw (p, e, there, inside) refl
