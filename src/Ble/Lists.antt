-- ===== src/Ble/Lists.antt =====
-- The operations of `device_list` in components/cyberdeck/src/apps/bluetooth/cyberdeck_ble_types.cpp.
use cyberdeck.Common.{
  ◌≤◌, ◌<◌, ◌≡◌, ◌⊎◌, inl, inr, refl, sym, ◌∙◌, subst, Bool, true, false, not, ◌&&◌, Option, none,
  some, List, [], ◌∷◌, ◌++◌, length, leb, ◌==◌, if◌then◌else◌, arith, Bool-cases, Option-cases,
  length-append,
}
use cyberdeck.Ble.{Text, Device, max_devices}
use cyberdeck.Ble.Addresses.{normalize_address}
use cyberdeck.Ble.Devices.{
  DeviceList, clear, merge, is_same, merge_loop, clamp_selection, place, add_normal, add, add_all,
  move_up, move_down,
}

-- No entry is the device `d`.
abbrev pub absent : Device → List Device → Bool
absent d [] = true
absent d (e ∷ items) = not (is_same d e) && absent d items

-- No device twice.
abbrev pub distinct : List Device → Bool
distinct [] = true
distinct (e ∷ items) = absent e items && distinct items

pub record IsSound (l : DeviceList) : Type 0 where
  pub few : length l.items ≤ max_devices
  pub once : distinct l.items ≡ true
  pub inside : (length l.items ≡ 0 × l.selection ≡ 0) ⊎ (l.selection < length l.items)

is_same-merge : (d e item : Device) → is_same d (merge e item) ≡ is_same d e
unfolding is_same merge
is_same-merge d e item = refl

absent-merge :
    (e item : Device) (items : List Device) → absent (merge e item) items ≡ absent e items
unfolding is_same merge
absent-merge e item [] = refl
absent-merge e item (d ∷ items) = rw (absent-merge e item items) refl

abbrev rest : Device → Option (List Device) → Option (List Device)
rest e none = none
rest e (some items) = some (e ∷ items)

merge_loop-∷ :
    (e item : Device) (items : List Device)
    → merge_loop (e ∷ items) item
      ≡ (if is_same e item then some (merge e item ∷ items) else rest e (merge_loop items item))
unfolding merge_loop
merge_loop-∷ e item items = elim (Option-cases (merge_loop items item)) [
  | inl h ↦ rw h refl
  | inr (items', h) ↦ rw h refl
]

-- The merge into a list keeps its length, the devices that are not in it, and that none is twice.
abbrev Merged : List Device → Option (List Device) → Type 0
Merged items none = Unit {0}
Merged items (some merged) =
    (length merged ≡ length items)
    × ((d : Device) → absent d merged ≡ absent d items)
    × (distinct merged ≡ distinct items)

rest-Merged :
    (e : Device) (items : List Device) (o : Option (List Device))
    → Merged items o
    → Merged (e ∷ items) (rest e o)
rest-Merged e items none h = tt
rest-Merged e items (some merged) (l, a, u) =
    (omega (arith, l), (λ d. rw (a d) refl), rw (a e, u) refl)

merge_loop-Merged : (items : List Device) (item : Device) → Merged items (merge_loop items item)
unfolding merge_loop
merge_loop-Merged [] item = tt
merge_loop-Merged (e ∷ items) item =
    subst (Merged (e ∷ items)) (sym (merge_loop-∷ e item items))
      (elim (Bool-cases (is_same e item)) [
        | inl h ↦
            rw h
              (refl, (λ d. rw (is_same-merge d e item) refl), rw (absent-merge e item items) refl)
        | inr h ↦ rw h (rest-Merged e items (merge_loop items item) (merge_loop-Merged items item))
      ])

absent-append :
    (d item : Device) (items : List Device)
    → is_same d item ≡ false
    → absent d items ≡ true
    → absent d (items ++ item ∷ []) ≡ true
absent-append d item [] n h = rw n refl
absent-append d item (e ∷ items) n h = ground (arith, absent-append d item items n)

rest-none : (e : Device) (o : Option (List Device)) → rest e o ≡ none → o ≡ none
rest-none e none h = refl
rest-none e (some items) h = absurd cc

distinct-append :
    (items : List Device) (item : Device)
    → merge_loop items item ≡ none
    → distinct items ≡ true
    → distinct (items ++ item ∷ []) ≡ true
distinct-append [] item n h = refl
distinct-append (e ∷ items) item n h =
    let m = sym (merge_loop-∷ e item items) ∙ n in
    elim (Bool-cases (is_same e item)) [
      | inl k ↦ absurd (cc (rw k at m))
      | inr k ↦
          let none_later = rest-none e (merge_loop items item) (rw k at m) in
          ground (arith, distinct-append items item none_later, absent-append e item items k)
    ]

clamp-IsSound :
    (l : DeviceList)
    → length l.items ≤ max_devices
    → distinct l.items ≡ true
    → IsSound (clamp_selection l)
unfolding clamp_selection
clamp-IsSound l s u = elim (Bool-cases (length l.items == 0)) [
  | inl h ↦ rw h (record { few = s; once = u; inside = inl (ground arith, refl) })
  | inr h ↦ elim (Bool-cases (leb (length l.items) l.selection)) [
    | inl k ↦ rw (h, k) (record { few = s; once = u; inside = inr (ground arith) })
    | inr k ↦ ground (arith, s, u)
  ]
]

placed-IsSound :
    (items : List Device) (l : DeviceList)
    → Merged l.items (some items)
    → IsSound l
    → IsSound (record l { items = items })
placed-IsSound items l (n, a, u) h = record {
  few = omega (arith, n, h.few);
  once = u ∙ h.once;
  inside = ground (arith, n, h.inside);
}

place-IsSound :
    (o : Option (List Device)) (item : Device) {l : DeviceList}
    → merge_loop l.items item ≡ o
    → IsSound l
    → IsSound (place o item l).0
unfolding place
place-IsSound (some items) item {l} e h =
    placed-IsSound items l (subst (Merged l.items) e (merge_loop-Merged l.items item)) h
place-IsSound none item {l} e h = ground (
  arith,
  clamp-IsSound (record l { items = l.items ++ item ∷ [] }),
  length-append l.items (item ∷ []),
  distinct-append l.items item e h.once,
)

add_normal-IsSound :
    (o : Option Text) (item : Device) {l : DeviceList} → IsSound l → IsSound (add_normal o item l).0
unfolding add_normal
add_normal-IsSound none item h = h
add_normal-IsSound (some address) item {l} h =
    let known = record item { address = address } in
    place-IsSound (merge_loop l.items known) known refl h

pub add-IsSound : (item : Device) {l : DeviceList} → IsSound l → IsSound (add item l).0
unfolding add
add-IsSound item {l} h =
    ground
      (arith, add_normal-IsSound (normalize_address item.address) item h, h.few, h.once, h.inside)

pub add_all-IsSound :
    (devices : List Device) {l : DeviceList} → IsSound l → IsSound (add_all devices l)
unfolding add_all
add_all-IsSound [] h = h
add_all-IsSound (d ∷ devices) h = add_all-IsSound devices (add-IsSound d h)

pub clear-IsSound : IsSound clear
clear-IsSound = record { few = omega arith; once = refl; inside = inl (refl, refl) }

pub move_up-IsSound : {l : DeviceList} → IsSound l → IsSound (move_up l)
unfolding move_up
move_up-IsSound {l} h = ground (arith, h.few, h.once, h.inside)

pub move_down-IsSound : {l : DeviceList} → IsSound l → IsSound (move_down l)
unfolding move_down
move_down-IsSound {l} h = ground (arith, h.few, h.once, h.inside)
