-- ===== src/Persistence/Pending.antt =====
-- The snapshots that have not been stored yet, as one list: that in flight and those that wait.
use native.Mathlib.Numerals.{add-one}
use cyberdeck.Common.{
  ℕ, zero, suc, ◌+◌, ◌%◌, ◌<◌, ◌≤◌, ◌≡◌, refl, sym, ap, subst, Bool, true, false, not, ◌&&◌, ◌||◌,
  List, [], ◌∷◌, ◌++◌, length, length-set, get_or, set, ltb, if◌then◌else◌, arith,
}
use cyberdeck.Common.Ring.{next, window, window-set, window-set_ne}
use cyberdeck.Persistence.{
  Snapshot, Queue, capacity, wiped, init, same_text, same_key, initialize, has_key, enqueue,
  is_in_flight, retry, acknowledge, take_next, wipe, teardown, Call, initializes, takes, wipes,
  tears_down, enqueues, retries, acknowledges, step, run,
}

abbrev pub waiting : Queue → List Snapshot
waiting q = window capacity q.cells wiped q.head q.count

pub pending : Queue → List Snapshot
pending q = if q.has_in_flight then q.in_flight ∷ waiting q else waiting q

pub keyed : Snapshot → List Snapshot → Bool
keyed s [] = false
keyed s (x ∷ xs) = same_key x s || keyed s xs

pub record IsRing (q : Queue) : Type 0 where
  pub cells : length q.cells ≡ capacity
  pub head_fits : q.head < capacity
  pub tail_at : q.tail ≡ (q.head + q.count) % capacity
  pub count_fits : q.count ≤ capacity

has_key-keyed :
    (cells : List Snapshot) (s : Snapshot) (p n : ℕ)
    → has_key cells s p n ≡ keyed s (window capacity cells wiped p n)
unfolding has_key keyed
has_key-keyed cells s p zero = refl
has_key-keyed cells s p (suc n) = ground (arith, has_key-keyed cells s (next capacity p) n)

step-IsRing : (q : Queue) (c : Call) → IsRing q → IsRing (step q c)
unfolding step initialize enqueue retry acknowledge take_next wipe teardown
step-IsRing q (enqueues s) r = ground (arith, length-set q.cells q.tail s)
step-IsRing q takes r = ground (arith, length-set q.cells q.head wiped)
step-IsRing q _ r = ground arith

pub init-IsRing : IsRing init
unfolding init
init-IsRing = omega arith

pub run-IsRing : (q : Queue) (cs : List Call) → IsRing q → IsRing (run q cs)
unfolding run
run-IsRing q [] r = r
run-IsRing q (c ∷ cs) r = run-IsRing (step q c) cs (step-IsRing q c r)

-- The snapshot is taken on.
abbrev pub accepts : Queue → Snapshot → Bool
accepts q s = q.initialized && not (keyed s (pending q)) && ltb q.count capacity

waiting-push :
    (q : Queue) (s : Snapshot)
    → IsRing q
    → q.count < capacity
    → window capacity (set q.cells q.tail s) wiped q.head (q.count + 1) ≡ waiting q ++ s ∷ []
waiting-push q s r h =
    let at_end = window-set capacity q.cells wiped s q.head q.count r.cells r.head_fits h in
    rw add-one (
      subst
        (λ t. window capacity (set q.cells t s) wiped q.head (suc q.count) ≡ waiting q ++ s ∷ [])
        (sym r.tail_at) at_end)

-- `enqueue` puts a snapshot behind all that are pending, unless one for the same network is among
-- them, the queue is full, or it is not initialised; then it refuses and changes nothing pending.
pub enqueue-pending :
    (q : Queue) (s : Snapshot)
    → IsRing q
    → ((enqueue q s).1 ≡ accepts q s)
      × (pending (enqueue q s).0 ≡ (if accepts q s then pending q ++ s ∷ [] else pending q))
unfolding enqueue pending keyed
enqueue-pending q s r =
    ground (arith, has_key-keyed q.cells s q.head q.count, waiting-push q s r, r.count_fits)

waiting-pop :
    (q : Queue) (n : ℕ)
    → IsRing q
    → q.count ≡ suc n
    → waiting q
      ≡ get_or q.cells q.head wiped
        ∷ window capacity (set q.cells q.head wiped) wiped (next capacity q.head) n
waiting-pop q n r e =
    let same =
      window-set_ne capacity q.cells wiped wiped q.head 0 n r.head_fits
        (omega (arith, r.count_fits)) in
    rw e (ap (λ t. get_or q.cells q.head wiped ∷ t) (sym same))

-- `take` loses nothing and reorders nothing, wherever the queue stands.
pub take_next-pending : (q : Queue) → IsRing q → pending (take_next q).0 ≡ pending q
unfolding take_next pending
take_next-pending q r = by_count q.count refl
  where
    by_count : (n : ℕ) → q.count ≡ n → pending (take_next q).0 ≡ pending q
    by_count zero e = ground arith
    by_count (suc n) e = ground (arith, waiting-pop q n r e)

-- `acknowledge` takes the snapshot in flight off, when it is for the same network and has the same
-- token, and changes nothing pending otherwise.
pub acknowledge-pending :
    (q : Queue) (s : Snapshot)
    → ((acknowledge q s).1 ≡ is_in_flight q s)
      × (pending (acknowledge q s).0 ≡ (if is_in_flight q s then waiting q else pending q))
unfolding acknowledge pending
acknowledge-pending q s = ground arith

pub distinct : List Snapshot → Bool
distinct [] = true
distinct (x ∷ xs) = not (keyed x xs) && distinct xs

same_text_sym : (a b : List ℕ) → same_text a b ≡ same_text b a
unfolding same_text
same_text_sym [] [] = refl
same_text_sym [] (y ∷ ys) = refl
same_text_sym (x ∷ xs) [] = refl
same_text_sym (x ∷ xs) (y ∷ ys) = ground (arith, same_text_sym xs ys)

keyed-snoc :
    (x s : Snapshot) (xs : List Snapshot) → keyed x (xs ++ s ∷ []) ≡ (keyed x xs || same_key s x)
unfolding keyed
keyed-snoc x s [] = ground arith
keyed-snoc x s (y ∷ xs) = ground (arith, keyed-snoc x s xs)

distinct-snoc :
    (xs : List Snapshot) (s : Snapshot)
    → distinct xs ≡ true
    → keyed s xs ≡ false
    → distinct (xs ++ s ∷ []) ≡ true
unfolding distinct keyed
distinct-snoc [] s d k = refl
distinct-snoc (x ∷ xs) s d k =
    ground (arith, distinct-snoc xs s, keyed-snoc x s xs, same_text_sym x.ssid s.ssid)

-- A call drops what is pending, takes its first element off, adds one for a new network, or
-- leaves it as it is.
step-distinct :
    (q : Queue) (c : Call)
    → IsRing q
    → distinct (pending q) ≡ true
    → distinct (pending (step q c)) ≡ true
unfolding step
step-distinct q (enqueues s) r d =
    ground (arith, enqueue-pending q s r, distinct-snoc (pending q) s d)
step-distinct q takes r d = rw (take_next-pending q r) d
step-distinct q (acknowledges s) r d = unfold acknowledge pending distinct in ground arith
step-distinct q (retries s) r d = unfold retry pending in ground arith
step-distinct q initializes r d = unfold initialize pending distinct in ground arith
step-distinct q wipes r d = unfold wipe pending distinct in ground arith
step-distinct q tears_down r d = unfold teardown wipe pending distinct in ground arith

run-distinct_from :
    (q : Queue) (cs : List Call)
    → IsRing q
    → distinct (pending q) ≡ true
    → distinct (pending (run q cs)) ≡ true
unfolding run
run-distinct_from q [] r d = d
run-distinct_from q (c ∷ cs) r d =
    run-distinct_from (step q c) cs (step-IsRing q c r) (step-distinct q c r d)

-- After any calls on a new queue no two pending snapshots, the one in flight included, are for the
-- same network.
pub run-distinct : (cs : List Call) → distinct (pending (run init cs)) ≡ true
run-distinct cs = run-distinct_from init cs init-IsRing (unfold init pending distinct in refl)
