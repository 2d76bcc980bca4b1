-- ===== src/Editor/Model/Undo.antt =====
-- Taking a change back, and making it again.
use cyberdeck.Common.{
  ℕ, ◌+◌, ◌-◌, ◌≤◌, ◌≡◌, refl, ap, inl, inr, Bool, true, false, not, ◌||◌, List, [], ◌∷◌, ◌++◌, ltb,
  ◌==◌, length, take, drop, arith, Bool-cases, Option, none, some, length-append, length-take,
  length-drop,
}
use cyberdeck.Editor.{max_document_bytes}
use cyberdeck.Editor.Utf8.{valid_utf8}
use cyberdeck.Editor.Model.{
  Model, Snapshot, now, evict, remember, newest, replace, commit, mutate, undo, redo,
}
use cyberdeck.Editor.Model.Snapshots.{remember-some, remember-small, newest-append}
use cyberdeck.Editor.Model.Sound.{IsSound, undo-IsSound, redo-IsSound}

commit-true :
    (m : Model) (change : List Snapshot → Model) (o : Option (List Snapshot)) {m' : Model}
    → commit m change o ≡ (m', true)
    → (history : List Snapshot) × (o ≡ some history) × (m' ≡ change history)
unfolding commit
commit-true m change none e = absurd cc
commit-true m change (some history) e = (history, refl, ground arith)

-- A state that remembered `v` last goes back to it, while its own text has the size of a document.
undo_last :
    (m : Model) (history : List Snapshot) (v : Snapshot)
    → m.undos ≡ history ++ v ∷ []
    → length m.text ≤ max_document_bytes
    → ((undo true m).1 ≡ true) × (now (undo true m).0 ≡ v)
unfolding undo commit
undo_last m history v e l =
    let n : (length m.undos == 0) ≡ false =
      ground (arith, ap (λ (h : List Snapshot). length h) e, length-append history (v ∷ [])) in
    let last : newest m.undos ≡ v = rw e (newest-append history v) in
    rw (n, remember-small (now m) m.redos l, last) (refl, refl)

redo_last :
    (m : Model) (history : List Snapshot) (v : Snapshot)
    → m.redos ≡ history ++ v ∷ []
    → length m.text ≤ max_document_bytes
    → ((redo true m).1 ≡ true) × (now (redo true m).0 ≡ v)
unfolding redo commit
redo_last m history v e l =
    let n : (length m.redos == 0) ≡ false =
      ground (arith, ap (λ (h : List Snapshot). length h) e, length-append history (v ∷ [])) in
    let last : newest m.redos ≡ v = rw e (newest-append history v) in
    rw (n, remember-small (now m) m.undos l, last) (refl, refl)

replace-small :
    (text repl : List ℕ) (b e : ℕ)
    → b ≤ e
    → e ≤ length text
    → length (replace text repl b e) ≡ length text - (e - b) + length repl
replace-small text repl b e h k = omega (
  arith,
  length-append (take b text) (repl ++ drop e text),
  length-append repl (drop e text),
  length-take b text,
  length-drop e text,
)

mutate-true :
    (memory : Bool) (repl : List ℕ) (b e : ℕ) (m : Model) {m' : Model}
    → mutate memory repl b e m ≡ (m', true)
    → (history : List Snapshot) × (m'.undos ≡ history ++ now m ∷ [])
      × (length m'.text ≤ max_document_bytes)
unfolding mutate
mutate-true memory repl b e m {m'} h =
    elim (Bool-cases (
      ltb e b
      || ltb (length m.text) e
      || ltb max_document_bytes (length m.text - (e - b) + length repl)
      || not (valid_utf8 repl))) [
        | inl bad ↦ absurd (ground arith)
        | inr good ↦
            let (history, o, at) =
              commit-true m _ (remember memory (now m) m.undos) (rw good at h) in
            let (small, kept) = remember-some memory (now m) m.undos o in
            (
              evict m.undos (length m.text),
              rw at kept,
              rw at (ground (arith, replace-small m.text repl b e)),
            )
      ]

-- After a change of the text that was made, `undo` succeeds as far as memory allows, and puts back the
-- text, the cursor and the selection as they were before.
pub undo-mutate :
    (memory : Bool) (repl : List ℕ) (b e : ℕ) (m : Model) {m' : Model}
    → mutate memory repl b e m ≡ (m', true)
    → ((undo true m').1 ≡ true) × (now (undo true m').0 ≡ now m)
undo-mutate memory repl b e m {m'} h =
    let (history, last, small) = mutate-true memory repl b e m h in
    undo_last m' history (now m) last small

undo-true :
    (memory : Bool) (m : Model) {m' : Model}
    → undo memory m ≡ (m', true)
    → (history : List Snapshot) × (m'.redos ≡ history ++ now m ∷ [])
unfolding undo
undo-true memory m {m'} h = elim (Bool-cases (length m.undos == 0)) [
  | inl e ↦ absurd (ground arith)
  | inr e ↦
      let (history, o, at) = commit-true m _ (remember memory (now m) m.redos) (rw e at h) in
      let (small, kept) = remember-some memory (now m) m.redos o in
      (evict m.redos (length m.text), rw at kept)
]

redo-true :
    (memory : Bool) (m : Model) {m' : Model}
    → redo memory m ≡ (m', true)
    → (history : List Snapshot) × (m'.undos ≡ history ++ now m ∷ [])
unfolding redo
redo-true memory m {m'} h = elim (Bool-cases (length m.redos == 0)) [
  | inl e ↦ absurd (ground arith)
  | inr e ↦
      let (history, o, at) = commit-true m _ (remember memory (now m) m.undos) (rw e at h) in
      let (small, kept) = remember-some memory (now m) m.undos o in
      (evict m.undos (length m.text), rw at kept)
]

redo-after_undo :
    (memory : Bool) {m m' : Model}
    → IsSound m
    → undo memory m ≡ (m', true)
    → ((redo true m').1 ≡ true) × (now (redo true m').0 ≡ now m)
redo-after_undo memory {m} {m'} s h =
    let (history, last) = undo-true memory m h in
    let kept : IsSound m' = rw h at (undo-IsSound memory s) in
    redo_last m' history (now m) last kept.present.small

undo-after_redo :
    (memory : Bool) {m m' : Model}
    → IsSound m
    → redo memory m ≡ (m', true)
    → ((undo true m').1 ≡ true) × (now (undo true m').0 ≡ now m)
undo-after_redo memory {m} {m'} s h =
    let (history, last) = redo-true memory m h in
    let kept : IsSound m' = rw h at (redo-IsSound memory s) in
    undo_last m' history (now m) last kept.present.small

-- A way through the history, the operation that goes it, and the way back.
pub data Way : Type 0 where
  back forth : Way

unfoldable pub travel : Way → Bool → Model → Model × Bool
travel back memory m = undo memory m
travel forth memory m = redo memory m

unfoldable pub reverse : Way → Way
reverse back = forth
reverse forth = back

-- In a sound state, `redo` after an `undo` that was made, and `undo` after a `redo` that was made,
-- succeed with enough memory and put back the text, the cursor and the selection.
pub travel-reverse :
    (w : Way) (memory : Bool) {m m' : Model}
    → IsSound m
    → travel w memory m ≡ (m', true)
    → ((travel (reverse w) true m').1 ≡ true) × (now (travel (reverse w) true m').0 ≡ now m)
unfolding travel reverse
travel-reverse back memory s h = redo-after_undo memory s h
travel-reverse forth memory s h = undo-after_redo memory s h
