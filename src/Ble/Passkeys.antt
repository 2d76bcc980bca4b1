-- ===== src/Ble/Passkeys.antt =====
-- The passkeys of components/cyberdeck/src/apps/bluetooth/cyberdeck_ble_state_machine.cpp, through its
-- completions and deadlines.
use cyberdeck.Common.{
  if◌then◌else◌, ℕ, ◌<◌, ◌≡◌, inl, inr, refl, ap, Bool, true, false, not, ◌&&◌, ◌||◌, List, [], ◌∷◌,
  ◌++◌, ltb, ◌==◌, arith, Bool-cases,
}
use cyberdeck.Ble.Machine.{Machine, next_token, emit_action, is_submit, is_searching}
use cyberdeck.Ble.Scans.{scan_timed_out}
use cyberdeck.Ble.Pairings.{pairing_finished, paired_with}
use cyberdeck.Ble.Links.{linked, unlinked, connection_finished}
use cyberdeck.Ble.Clocks.{
  scan_clock, pairing_late, pair_clock, auth_clock, connection_late, connect_clock, advance_time,
}
use cyberdeck.Ble.{
  AuthIoAction, display, input, compare_numbers, Text, AddressType, public_address, PairOutcome,
  bonded, rejected, pair_cancelled, pair_timed_out, pair_failed, ActionKind, cancel_scan,
  cancel_pair, cancel_connect, connect, Action, passkey_modulus,
}

-- The passkey of an answer: one that was typed has six digits at most, and a comparison has none.
-- One that was displayed is whatever the caller hands in.
abbrev pub answered : AuthIoAction → ℕ → Bool
answered input number = ltb number passkey_modulus
answered compare_numbers number = number == 0
answered display number = true

-- The passkey that an action of this kind carries.
abbrev pub carried : ActionKind → AuthIoAction → ℕ → Bool
carried kind io number = if is_submit kind then answered io number else number == 0

-- No passkey but in an answer, and no number to compare.
abbrev pub contained : Action → Bool
contained a = carried a.kind a.auth_action a.passkey && a.numcmp == 0

abbrev pub all_contained : List Action → Bool
all_contained [] = true
all_contained (a ∷ queue) = contained a && all_contained queue

all_contained-append :
    (queue : List Action) (a : Action)
    → all_contained queue ≡ true
    → contained a ≡ true
    → all_contained (queue ++ a ∷ []) ≡ true
all_contained-append [] a h k = ground arith
all_contained-append (x ∷ queue) a h k = ground (arith, all_contained-append queue a)

pub record IsSafe (m : Machine) : Type 0 where
  pub shown_short : m.displayed_passkey < passkey_modulus
  pub queue_safe : all_contained m.action_queue ≡ true

abbrev secrets : Machine → ℕ × List Action
secrets m = (m.displayed_passkey, m.action_queue)

pub same-IsSafe : {m n : Machine} → secrets n ≡ secrets m → IsSafe m → IsSafe n
same-IsSafe e h = record {
  shown_short = omega (arith, ap (λ (p : ℕ × List Action). p.0) e, h.shown_short);
  queue_safe = rw (ap (λ (p : ℕ × List Action). p.1) e) h.queue_safe;
}

-- The passkey goes away.
pub hidden-IsSafe : {m n : Machine} → secrets n ≡ (0, m.action_queue) → IsSafe m → IsSafe n
hidden-IsSafe e h = record {
  shown_short = omega (arith, ap (λ (p : ℕ × List Action). p.0) e);
  queue_safe = rw (ap (λ (p : ℕ × List Action). p.1) e) h.queue_safe;
}

pub emit-IsSafe :
    (kind : ActionKind) (address : Text) (number token : ℕ) (type : AddressType) {m : Machine}
    → carried kind m.pending_io number ≡ true
    → (not (is_submit kind) || m.displayed_passkey == 0) ≡ true
    → IsSafe m
    → IsSafe (emit_action kind address number token type m)
unfolding emit_action
emit-IsSafe kind address number token type {m} k z h = record {
  shown_short = h.shown_short;
  queue_safe = all_contained-append m.action_queue _ h.queue_safe (ground arith);
}

-- An action that is no answer carries no number.
pub plain-IsSafe :
    (kind : ActionKind)
    → is_submit kind ≡ false
    → (address : Text) (token : ℕ) (type : AddressType) {m : Machine} → IsSafe m
    → IsSafe (emit_action kind address 0 token type m)
plain-IsSafe kind n address token type h =
    emit-IsSafe kind address 0 token type (rw n refl) (rw n refl) h

outcome-IsSafe : (outcome : PairOutcome) {m : Machine} → IsSafe m → IsSafe (paired_with outcome m)
unfolding paired_with
outcome-IsSafe bonded {m} h =
    plain-IsSafe connect (unfold is_submit in refl) m.pairing_address (next_token m)
      m.pairing_addr_type (same-IsSafe refl h)
outcome-IsSafe rejected h = hidden-IsSafe refl h
outcome-IsSafe pair_cancelled h = hidden-IsSafe refl h
outcome-IsSafe pair_timed_out h = hidden-IsSafe refl h
outcome-IsSafe pair_failed h = hidden-IsSafe refl h

pub pairing_finished-IsSafe :
    (token : ℕ) (outcome : PairOutcome) {m : Machine}
    → IsSafe m
    → IsSafe (pairing_finished token outcome m)
unfolding pairing_finished
pairing_finished-IsSafe token outcome {m} h = ground (arith, outcome-IsSafe outcome h)

pub connection_finished-IsSafe :
    (token : ℕ) (success : Bool) {m : Machine}
    → IsSafe m
    → IsSafe (connection_finished token success m)
unfolding connection_finished linked unlinked
connection_finished-IsSafe token true h = ground (arith, h.shown_short, h.queue_safe)
connection_finished-IsSafe token false h = ground (arith, h.shown_short, h.queue_safe)

pub scan_timed_out-IsSafe : (token : ℕ) {m : Machine} → IsSafe m → IsSafe (scan_timed_out token m)
unfolding scan_timed_out
scan_timed_out-IsSafe token {m} h =
    elim (Bool-cases (not (is_searching m.current && token == m.scan_token))) [
      | inl e ↦ rw e h
      | inr e ↦ rw e (
          plain-IsSafe cancel_scan (unfold is_submit in refl) [] 0 public_address
            (same-IsSafe refl h))
    ]

scan_clock-IsSafe : (elapsed : ℕ) {m : Machine} → IsSafe m → IsSafe (scan_clock elapsed m)
unfolding scan_clock
scan_clock-IsSafe elapsed {m} h = ground (
  arith,
  scan_timed_out-IsSafe m.scan_token {m = record m { scan_deadline = 0 }} (same-IsSafe refl h),
)

pairing_late-IsSafe : {m : Machine} → IsSafe m → IsSafe (pairing_late m)
unfolding pairing_late
pairing_late-IsSafe {m} h =
    plain-IsSafe cancel_pair (unfold is_submit in refl) m.pairing_address m.pair_token
      (pairing_finished m.pair_token pair_timed_out m).pairing_addr_type
      (pairing_finished-IsSafe m.pair_token pair_timed_out h)

pair_clock-IsSafe : (elapsed : ℕ) {m : Machine} → IsSafe m → IsSafe (pair_clock elapsed m)
unfolding pair_clock
pair_clock-IsSafe elapsed {m} h =
    ground (arith, pairing_late-IsSafe {m = record m { pair_deadline = 0 }} (same-IsSafe refl h))

auth_clock-IsSafe : (elapsed : ℕ) {m : Machine} → IsSafe m → IsSafe (auth_clock elapsed m)
unfolding auth_clock
auth_clock-IsSafe elapsed {m} h =
    ground (arith, pairing_late-IsSafe {m = record m { auth_deadline = 0 }} (same-IsSafe refl h))

connection_late-IsSafe : {m : Machine} → IsSafe m → IsSafe (connection_late m)
unfolding connection_late
connection_late-IsSafe {m} h =
    let ended = connection_finished-IsSafe m.connect_token false h in
    elim (Bool-cases (not m.background.in_flight)) [
      | inl e ↦ rw e (
          plain-IsSafe cancel_connect (unfold is_submit in refl) m.connecting_address
            m.connect_token (connection_finished m.connect_token false m).connecting_addr_type
            (same-IsSafe refl ended))
      | inr e ↦ rw e (
          plain-IsSafe cancel_connect (unfold is_submit in refl) m.connecting_address
            m.connect_token (connection_finished m.connect_token false m).connecting_addr_type
            ended)
    ]

connect_clock-IsSafe : (elapsed : ℕ) {m : Machine} → IsSafe m → IsSafe (connect_clock elapsed m)
unfolding connect_clock
connect_clock-IsSafe elapsed {m} h =
    ground
      (arith, connection_late-IsSafe {m = record m { connect_deadline = 0 }} (same-IsSafe refl h))

pub advance_time-IsSafe : (elapsed : ℕ) {m : Machine} → IsSafe m → IsSafe (advance_time elapsed m)
unfolding advance_time
advance_time-IsSafe elapsed h =
    connect_clock-IsSafe elapsed
      (auth_clock-IsSafe elapsed (pair_clock-IsSafe elapsed (scan_clock-IsSafe elapsed h)))
