-- ===== src/Wifi/Attempts.antt =====
-- The end of an attempt to connect: old callbacks, and the time it is given.
use cyberdeck.Common.{
  ℕ, suc, ◌+◌, ◌^◌, ◌<◌, ◌≤◌, ◌≡◌, ◌≢◌, ◌⊎◌, inl, inr, refl, true, false, List, [], ◌∷◌, ◌++◌, map,
  length, append_assoc, Bool-cases, arith, ltb, if◌then◌else◌,
}
use cyberdeck.Wifi.{
  Screen, connecting, idle, timeout, cancel_connect, Machine, is_view, action, connect_timeout_ms,
  connect_to, finish_if_ready, begin_search, begin_saved, init, set_saved_networks, advance_time,
  type_password, begin_connection, cancel_connection,
}
use cyberdeck.Wifi.Calls.{
  ConnectionEvent, link_up, has_address, failed, Call, calls_back, waits, presses, scan_complete,
  connection_callback, press, press_search, press_password, press_connecting, press_saved,
  press_forget, take_actions, step, run,
}

-- The token was given out, and its attempt is over.
record IsStale (m : Machine) (t : ℕ) : Type 0 where
  given : t ≤ m.next_connection_token
  over : t ≢ m.active_connection_token

-- A call ends the attempt that is active, begins the next one, or leaves the tokens alone.
record Renews (m n : Machine) : Type 0 where
  grows :
      (m.next_connection_token ≤ n.next_connection_token)
      × (n.next_connection_token ≤ suc m.next_connection_token)
  token :
      (n.active_connection_token ≡ m.active_connection_token)
      ⊎ (n.active_connection_token ≡ 0)
      ⊎ (n.active_connection_token ≡ suc m.next_connection_token)

step-Renews : (m : Machine) (c : Call) → suc m.next_connection_token < 2 ^ 64 → Renews m (step m c)
unfolding step begin_search begin_saved scan_complete connection_callback finish_if_ready
    advance_time type_password begin_connection cancel_connection connect_to set_saved_networks
    take_actions press press_search press_password press_connecting press_saved press_forget
step-Renews m (presses k) g = by_view m.view refl
  where
    by_view : (v : Screen) → m.view ≡ v → Renews m (press m k)
    by_view v e = ground arith
step-Renews m (calls_back t link_up) g = ground arith
step-Renews m (calls_back t has_address) g = ground arith
step-Renews m (calls_back t failed) g = ground arith
step-Renews m _ g = ground arith

step-IsStale :
    (m : Machine) (c : Call) (t : ℕ)
    → suc m.next_connection_token < 2 ^ 64
    → 0 < t
    → IsStale m t
    → IsStale (step m c) t
step-IsStale m c t g p s = ground (arith, step-Renews m c g)

run-IsStale :
    (m : Machine) (cs : List Call) (t : ℕ)
    → m.next_connection_token + length cs < 2 ^ 64
    → 0 < t
    → IsStale m t
    → IsStale (run m cs) t
unfolding run
run-IsStale m [] t g p s = s
run-IsStale m (c ∷ cs) t g p s =
    run-IsStale (step m c) cs t (omega (arith, (step-Renews m c (omega arith)).grows)) p
      (step-IsStale m c t (omega arith) p s)

run-next_connection_token :
    (m : Machine) (cs : List Call)
    → m.next_connection_token + length cs < 2 ^ 64
    → (run m cs).next_connection_token ≤ m.next_connection_token + length cs
unfolding run
run-next_connection_token m [] g = omega arith
run-next_connection_token m (c ∷ cs) g =
    let (low, high) = (step-Renews m c (omega arith)).grows in
    omega (arith, run-next_connection_token (step m c) cs (omega arith))

connection_callback_stale :
    (m : Machine) (t : ℕ) (e : ConnectionEvent)
    → t ≢ m.active_connection_token
    → connection_callback m t e ≡ m
unfolding connection_callback
connection_callback_stale m t e h = ground arith

-- A connection token that was given out and is not active any more never acts again: whatever calls
-- follow, a callback with it changes nothing, while there are fewer than 2 ^ 64 calls.
pub connection_callback-stale :
    (before later : List Call) (t : ℕ) (e : ConnectionEvent)
    → length before + length later < 2 ^ 64
    → 0 < t
    → t ≤ (run init before).next_connection_token
    → t ≢ (run init before).active_connection_token
    → connection_callback (run (run init before) later) t e ≡ run (run init before) later
connection_callback-stale before later t e g p given over =
    let m = run init before in
    let few : m.next_connection_token ≤ length before =
      unfold init in omega (arith, run-next_connection_token init before (omega arith)) in
    connection_callback_stale (run m later) t e
      (run-IsStale m later t (omega arith) p (record { given = given; over = over })).over

unfoldable pub sum : List ℕ → ℕ
sum [] = 0
sum (n ∷ ns) = n + sum ns

run-waits_off :
    (m : Machine) (steps : List ℕ) → is_view m.view connecting ≡ false → run m (map waits steps) ≡ m
unfolding run step advance_time
run-waits_off m [] v = refl
run-waits_off m (n ∷ ns) v = ground (arith, run-waits_off m ns v)

advance_time_late :
    (m : Machine) (n : ℕ)
    → m.view ≡ connecting
    → (ltb (m.elapsed + n) connect_timeout_ms ≡ false)
    → ((advance_time m n).view ≡ idle)
      × ((advance_time m n).pending
          ≡ m.pending
            ++ action timeout m.selected_ssid [] m.active_connection_token
              ∷ action cancel_connect m.selected_ssid [] m.active_connection_token
              ∷ [])
unfolding advance_time
advance_time_late m n v h = ground (
  arith,
  append_assoc m.pending (action timeout m.selected_ssid [] m.active_connection_token ∷ [])
      (action cancel_connect m.selected_ssid [] m.active_connection_token ∷ []),
)

advance_time_early :
    (m : Machine) (n : ℕ)
    → m.view ≡ connecting
    → (ltb (m.elapsed + n) connect_timeout_ms ≡ true)
    → advance_time m n ≡ record m { elapsed = m.elapsed + n }
unfolding advance_time
advance_time_early m n v h = ground arith

-- Time that passes in steps, on the connecting screen within its time: the attempt lasts as long as the sum is below 15 seconds, and when it
-- is reached the attempt ends, with one report of the timeout and one request to cancel it.
pub run-waits :
    (m : Machine) (steps : List ℕ)
    → m.view ≡ connecting
    → m.elapsed < connect_timeout_ms
    → ((run m (map waits steps)).view
        ≡ (if ltb (m.elapsed + sum steps) connect_timeout_ms then connecting else idle))
      × ((run m (map waits steps)).pending ≡ (
          if ltb (m.elapsed + sum steps) connect_timeout_ms
          then m.pending
          else m.pending
            ++ action timeout m.selected_ssid [] m.active_connection_token
              ∷ action cancel_connect m.selected_ssid [] m.active_connection_token
              ∷ []))
unfolding run sum step
run-waits m [] v h = ground arith
run-waits m (n ∷ ns) v h = elim (Bool-cases (ltb (m.elapsed + n) connect_timeout_ms)) [
  | inl e ↦ ground (
    arith,
    advance_time_early m n v e,
    run-waits (record m { elapsed = m.elapsed + n }) ns v (ground arith),
  )
  | inr e ↦ ground (arith, advance_time_late m n v e, run-waits_off (advance_time m n) ns)
]
