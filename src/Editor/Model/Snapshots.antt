-- ===== src/Editor/Model/Snapshots.antt =====
-- Snapshots that can be put back, and histories within their bounds.
use cyberdeck.Common.{
  ℕ, zero, suc, ◌+◌, ◌-◌, ◌<◌, ◌≤◌, ◌≡◌, ◌≢◌, refl, sym, subst, inl, inr, Bool, true, ◌||◌, List,
  [], ◌∷◌, ◌++◌, ltb, ◌==◌, length, get_or, take, arith, Bool-cases, some, length-append,
  length-take,
}
use cyberdeck.Editor.{max_document_bytes, max_undo, max_history_bytes}
use cyberdeck.Editor.Utf8.{valid_utf8}
use cyberdeck.Editor.Position.Places.{IsPlace}
use cyberdeck.Editor.Model.{Snapshot, history_bytes, evict, remember, newest}

-- The text is valid UTF-8 within the size of a document, and the cursor and the ends of the selection
-- stand between code points, in order.
pub record IsGood (v : Snapshot) : Type 0 where
  pub valid : valid_utf8 v.text ≡ true
  pub small : length v.text ≤ max_document_bytes
  pub cursor_place : IsPlace v.text v.cursor
  pub start_place : IsPlace v.text v.start
  pub stop_place : IsPlace v.text v.stop
  pub ordered : v.start ≤ v.stop

pub data AreGood : List Snapshot → Type 0 where
  nil : AreGood []
  cons :
      {v : Snapshot} {history : List Snapshot} → IsGood v → AreGood history → AreGood (v ∷ history)

-- At most eight snapshots, and at most 32768 bytes of text in them.
pub record IsWithin (history : List Snapshot) : Type 0 where
  pub good : AreGood history
  pub few : length history ≤ max_undo
  pub light : history_bytes history ≤ max_history_bytes

pub nil-IsWithin : IsWithin []
unfolding history_bytes
nil-IsWithin = record { good = AreGood.nil; few = omega arith; light = omega arith }

append-AreGood :
    {history : List Snapshot} {v : Snapshot}
    → AreGood history
    → IsGood v
    → AreGood (history ++ v ∷ [])
append-AreGood AreGood.nil g = AreGood.cons g AreGood.nil
append-AreGood (AreGood.cons h hs) g = AreGood.cons h (append-AreGood hs g)

take-AreGood : (n : ℕ) {history : List Snapshot} → AreGood history → AreGood (take n history)
take-AreGood zero h = AreGood.nil
take-AreGood (suc n) AreGood.nil = AreGood.nil
take-AreGood (suc n) (AreGood.cons h hs) = AreGood.cons h (take-AreGood n hs)

history_bytes-append :
    (history : List Snapshot) (v : Snapshot)
    → history_bytes (history ++ v ∷ []) ≡ history_bytes history + length v.text
unfolding history_bytes
history_bytes-append [] v = omega arith
history_bytes-append (h ∷ history) v = omega (arith, history_bytes-append history v)

history_bytes-take :
    (n : ℕ) (history : List Snapshot) → history_bytes (take n history) ≤ history_bytes history
unfolding history_bytes
history_bytes-take zero history = omega arith
history_bytes-take (suc n) [] = omega arith
history_bytes-take (suc n) (h ∷ history) = omega (arith, history_bytes-take n history)

evict-AreGood :
    {history : List Snapshot} (size : ℕ) → AreGood history → AreGood (evict history size)
unfolding evict
evict-AreGood size AreGood.nil = AreGood.nil
evict-AreGood size (AreGood.cons {v} {history} h hs) =
    elim (Bool-cases (
      suc (length history) == max_undo
      || ltb max_history_bytes (history_bytes (v ∷ history) + size))) [
        | inl e ↦ rw e (evict-AreGood size hs)
        | inr e ↦ rw e (AreGood.cons h hs)
      ]

-- Enough of the oldest go that one more fits.
evict_fits :
    (history : List Snapshot) (size : ℕ)
    → size ≤ max_document_bytes
    → length history ≤ max_undo
    → (length (evict history size) < max_undo)
      × (history_bytes (evict history size) + size ≤ max_history_bytes)
unfolding evict history_bytes
evict_fits [] size s l = (omega arith, omega arith)
evict_fits (h ∷ history) size s l = ground (arith, evict_fits history size)

-- What `remember` stores, where it stores.
pub remember-some :
    (memory : Bool) (v : Snapshot) (history : List Snapshot) {history' : List Snapshot}
    → remember memory v history ≡ some history'
    → (length v.text ≤ max_document_bytes) × (history' ≡ evict history (length v.text) ++ v ∷ [])
unfolding remember
remember-some memory v history e = ground arith

pub remember-small :
    (v : Snapshot) (history : List Snapshot)
    → length v.text ≤ max_document_bytes
    → remember true v history ≡ some (evict history (length v.text) ++ v ∷ [])
unfolding remember
remember-small v history h = ground arith

-- A history stays within its bounds with one more good snapshot.
pub remember-IsWithin :
    (memory : Bool) (v : Snapshot) (history : List Snapshot) {history' : List Snapshot}
    → IsGood v
    → IsWithin history
    → remember memory v history ≡ some history'
    → IsWithin history'
remember-IsWithin memory v history {history'} g w e =
    let (small, at) = remember-some memory v history e in
    let kept = evict history (length v.text) in
    let (few, light) = evict_fits history (length v.text) small w.few in
    subst IsWithin (sym at) (record {
      good = append-AreGood (evict-AreGood (length v.text) w.good) g;
      few = omega (arith, length-append kept (v ∷ []));
      light = omega (arith, history_bytes-append kept v);
    })

pub take-IsWithin : (n : ℕ) {history : List Snapshot} → IsWithin history → IsWithin (take n history)
take-IsWithin n {history} w = record {
  good = take-AreGood n w.good;
  few = omega (arith, length-take n history, w.few);
  light = omega (arith, history_bytes-take n history, w.light);
}

get_or-IsGood :
    {history : List Snapshot} (i : ℕ) (d : Snapshot)
    → AreGood history
    → i < length history
    → IsGood (get_or history i d)
get_or-IsGood i d AreGood.nil h = absurd (omega arith)
get_or-IsGood zero d (AreGood.cons g hs) h = g
get_or-IsGood (suc i) d (AreGood.cons g hs) h = get_or-IsGood i d hs (omega arith)

pub newest-IsGood :
    {history : List Snapshot} → AreGood history → length history ≢ 0 → IsGood (newest history)
unfolding newest
newest-IsGood {history} g h = get_or-IsGood (length history - 1) _ g (omega arith)

last_of :
    (history : List Snapshot) (v d : Snapshot) → get_or (history ++ v ∷ []) (length history) d ≡ v
last_of [] v d = refl
last_of (h ∷ history) v d = last_of history v d

pub newest-append : (history : List Snapshot) (v : Snapshot) → newest (history ++ v ∷ []) ≡ v
unfolding newest
newest-append history v =
    let e : length (history ++ v ∷ []) - 1 ≡ length history =
      omega (arith, length-append history (v ∷ [])) in
    rw e (last_of history v _)
