-- ===== src/Net/Items.antt =====
-- Lists of the coordinator's items: how often each occurs, and which one is last.
use cyberdeck.Common.{
  ℕ, ◌+◌, ◌≤◌, ◌≡◌, ◌≢◌, refl, false, List, [], ◌∷◌, ◌++◌, arith, length, if◌then◌else◌,
}
use cyberdeck.Net.{
  Item, blank, teardown_ssh, teardown_wifi, run_scan, run_retry, cancel_connect, wifi_disconnect,
  ssh_offline, is_item,
}
use cyberdeck.Net.Queue.{listed}

abbrev pub occurs : Item → List Item → ℕ
occurs k [] = 0
occurs k (x ∷ xs) = (if is_item x k then 1 else 0) + occurs k xs

-- No item stands twice, and no cell that was never written is among them.
pub record AreDistinct (xs : List Item) : Type 0 where
  pub of_blank : occurs blank xs ≡ 0
  pub of_ssh : occurs teardown_ssh xs ≤ 1
  pub of_wifi : occurs teardown_wifi xs ≤ 1
  pub of_scan : occurs run_scan xs ≤ 1
  pub of_retry : occurs run_retry xs ≤ 1
  pub of_cancel : occurs cancel_connect xs ≤ 1
  pub of_disconnect : occurs wifi_disconnect xs ≤ 1
  pub of_notice : occurs ssh_offline xs ≤ 1

pub occurs-snoc :
    (k x : Item) (xs : List Item)
    → occurs k (xs ++ x ∷ []) ≡ occurs k xs + (if is_item x k then 1 else 0)
occurs-snoc k x [] = omega arith
occurs-snoc k x (y ∷ ys) = omega (arith, occurs-snoc k x ys)

pub occurs_unlisted : (k : Item) (xs : List Item) → listed k xs ≡ false → occurs k xs ≡ 0
occurs_unlisted k [] h = refl
occurs_unlisted k (x ∷ xs) h = ground (arith, occurs_unlisted k xs)

pub length-occurs :
    (xs : List Item)
    → length xs
      ≡ occurs blank xs
        + occurs teardown_ssh xs
        + occurs teardown_wifi xs
        + occurs run_scan xs
        + occurs run_retry xs
        + occurs cancel_connect xs
        + occurs wifi_disconnect xs
        + occurs ssh_offline xs
length-occurs [] = omega arith
length-occurs (blank ∷ xs) = omega (arith, length-occurs xs)
length-occurs (_ ∷ xs) = omega (arith, length-occurs xs)

pub snoc-AreDistinct :
    (x : Item) (xs : List Item)
    → x ≢ blank
    → AreDistinct xs
    → occurs x xs ≡ 0
    → AreDistinct (xs ++ x ∷ [])
snoc-AreDistinct blank xs b d h = absurd (b refl)
snoc-AreDistinct x xs b d h = record {
  of_blank = ground (arith, occurs-snoc blank x xs);
  of_ssh = ground (arith, occurs-snoc teardown_ssh x xs);
  of_wifi = ground (arith, occurs-snoc teardown_wifi x xs);
  of_scan = ground (arith, occurs-snoc run_scan x xs);
  of_retry = ground (arith, occurs-snoc run_retry x xs);
  of_cancel = ground (arith, occurs-snoc cancel_connect x xs);
  of_disconnect = ground (arith, occurs-snoc wifi_disconnect x xs);
  of_notice = ground (arith, occurs-snoc ssh_offline x xs);
}

pub tail-AreDistinct : (x : Item) (xs : List Item) → AreDistinct (x ∷ xs) → AreDistinct xs
tail-AreDistinct x xs d = omega arith

abbrev pub EndsInWifi : List Item → Type 0
EndsInWifi [] = ⊥
EndsInWifi (x ∷ []) = x ≡ teardown_wifi
EndsInWifi (x ∷ y ∷ ys) = EndsInWifi (y ∷ ys)

pub EndsInWifi-snoc : (xs : List Item) → EndsInWifi (xs ++ teardown_wifi ∷ [])
EndsInWifi-snoc [] = refl
EndsInWifi-snoc (x ∷ []) = refl
EndsInWifi-snoc (x ∷ y ∷ ys) = EndsInWifi-snoc (y ∷ ys)

pub EndsInWifi-occurs : (xs : List Item) → EndsInWifi xs → 1 ≤ occurs teardown_wifi xs
EndsInWifi-occurs [] h = absurd h
EndsInWifi-occurs (x ∷ []) h = ground arith
EndsInWifi-occurs (x ∷ y ∷ ys) h = omega (arith, EndsInWifi-occurs (y ∷ ys) h)
