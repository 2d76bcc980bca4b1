-- ===== src/Storage/Leases.antt =====
-- The count of the coordinator is the number of leases that are held.
use cyberdeck.Common.{
  ℕ, zero, suc, ◌+◌, ◌<◌, ◌≡◌, ◌≢◌, refl, Bool, true, false, not, ◌&&◌, ◌||◌, List, [], ◌∷◌, length,
  length-set, get_or, set, ltb, ◌==◌, if◌then◌else◌, arith, sym, inl, inr, Bool-cases,
  get_or-set_self, get_or-set_ne,
}
use cyberdeck.Storage.{
  Lease, no_lease, System, lease_at, Event, releases, moves, acquire, begin_close, drain_end,
  reopen, release, release_lease, move_lease, record_persistence_failure, step, run, start, init,
}

abbrev weight : Lease → ℕ
weight l = if l.held then 1 else 0

pub held_count : List Lease → ℕ
held_count [] = 0
held_count (l ∷ ls) = weight l + held_count ls

-- A lease that is held has a number.
pub numbered : List Lease → Bool
numbered [] = true
numbered (l ∷ ls) = (not l.held || not (l.id == 0)) && numbered ls

held_count-set :
    (ls : List Lease) (i : ℕ) (l : Lease)
    → i < length ls
    → held_count (set ls i l) + weight (get_or ls i no_lease) ≡ held_count ls + weight l
unfolding held_count
held_count-set [] i l h = ground arith
held_count-set (x ∷ ls) zero l h = ground arith
held_count-set (x ∷ ls) (suc i) l h = omega (arith, held_count-set ls i l (omega arith))

numbered-set :
    (ls : List Lease) (i : ℕ) (l : Lease)
    → (not l.held || not (l.id == 0)) ≡ true
    → numbered ls ≡ true
    → numbered (set ls i l) ≡ true
unfolding numbered
numbered-set [] i l h n = refl
numbered-set (x ∷ ls) zero l h n = ground arith
numbered-set (x ∷ ls) (suc i) l h n = ground (arith, numbered-set ls i l h)

numbered-get_or :
    (ls : List Lease) (i : ℕ)
    → numbered ls ≡ true
    → (not (get_or ls i no_lease).held || not ((get_or ls i no_lease).id == 0)) ≡ true
unfolding numbered
numbered-get_or [] i n = refl
numbered-get_or (x ∷ ls) zero n = ground arith
numbered-get_or (x ∷ ls) (suc i) n = numbered-get_or ls i (ground arith)

held_in_range : (ls : List Lease) (i : ℕ) → (get_or ls i no_lease).held ≡ true → i < length ls
held_in_range [] i h = ground arith
held_in_range (x ∷ ls) zero h = omega arith
held_in_range (x ∷ ls) (suc i) h = omega (arith, held_in_range ls i h)

pub record IsCounted (s : System) : Type 0 where
  pub counted : s.coordinator.active ≡ held_count s.leases
  pub numbers : numbered s.leases ≡ true

release_lease-IsCounted : (s : System) (i : ℕ) → IsCounted s → IsCounted (release_lease s i)
unfolding release_lease release
release_lease-IsCounted s i c = ground (
  arith,
  held_in_range s.leases i,
  numbered-get_or s.leases i c.numbers,
  held_count-set s.leases i (record (lease_at s i) { held = false }),
  numbered-set s.leases i (record (lease_at s i) { held = false }),
)

release_lease-length : (s : System) (i : ℕ) → length (release_lease s i).leases ≡ length s.leases
unfolding release_lease
release_lease-length s i =
    ground (arith, length-set s.leases i (record (lease_at s i) { held = false }))

release_lease-held : (s : System) (i : ℕ) → (lease_at (release_lease s i) i).held ≡ false
unfolding release_lease
release_lease-held s i = ground (
  arith,
  held_in_range s.leases i,
  get_or-set_self s.leases i (record (lease_at s i) { held = false }) no_lease,
)

-- The two writes of a move, from an object to one that is not held.
transfer-IsCounted :
    (s : System) (i j : ℕ)
    → i ≢ j
    → i < length s.leases
    → j < length s.leases
    → (lease_at s j).held ≡ false
    → IsCounted s
    → IsCounted (record s {
      leases = set (set s.leases j (lease_at s i)) i (record (lease_at s i) { held = false });
    })
transfer-IsCounted s i j n p q h c =
    let l = lease_at s i in
    let gone : Lease = record l { held = false } in
    let once = set s.leases j l in
    record {
      counted = ground (
        arith,
        c.counted,
        held_count-set s.leases j l q,
        held_count-set once i gone (rw (length-set s.leases j l) p),
        get_or-set_ne s.leases j i l no_lease (λ e. n (sym e)),
      );
      numbers =
          numbered-set once i gone (ground arith)
            (numbered-set s.leases j l (numbered-get_or s.leases i c.numbers) c.numbers);
    }

move_lease-IsCounted :
    (s : System) (i j : ℕ)
    → i < length s.leases
    → j < length s.leases
    → IsCounted s
    → IsCounted (move_lease s i j)
unfolding move_lease
move_lease-IsCounted s i j p q c = elim (Bool-cases (i == j)) [
  | inl e ↦ ground arith
  | inr e ↦
      let t = release_lease s j in
      rw e (
        transfer-IsCounted t i j (λ f. ground arith) (rw (release_lease-length s j) p)
          (rw (release_lease-length s j) q) (release_lease-held s j)
          (release_lease-IsCounted s j c))
]

step-IsCounted : (s : System) (e : Event) → IsCounted s → IsCounted (step s e)
unfolding step acquire begin_close drain_end reopen record_persistence_failure held_count numbered
step-IsCounted s (releases i) c = release_lease-IsCounted s i c
step-IsCounted s (moves i j) c =
    elim (Bool-cases (ltb i (length s.leases) && ltb j (length s.leases))) [
      | inl e ↦ rw e (move_lease-IsCounted s i j (ground arith) (ground arith) c)
      | inr e ↦ rw e c
    ]
step-IsCounted s _ c = ground arith

pub run-IsCounted : (s : System) (es : List Event) → IsCounted s → IsCounted (run s es)
unfolding run
run-IsCounted s [] c = c
run-IsCounted s (e ∷ es) c = run-IsCounted (step s e) es (step-IsCounted s e c)

pub start-IsCounted : IsCounted start
unfolding start init held_count numbered
start-IsCounted = record { counted = refl; numbers = refl }
