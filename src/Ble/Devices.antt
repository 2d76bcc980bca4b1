-- ===== src/Ble/Devices.antt =====
-- `device_list` of components/cyberdeck/src/apps/bluetooth/cyberdeck_ble_types.cpp: devices in the
-- order in which they came, and a selection. The number that an entry has of its coming is never read.
use cyberdeck.Common.{
  ℕ, ◌+◌, ◌-◌, Bool, true, false, not, ◌&&◌, ◌||◌, Option, none, some, List, [], ◌∷◌, ◌++◌, length,
  get_elem?, ltb, leb, ◌==◌, if◌then◌else◌, same_bytes,
}
use cyberdeck.Wifi.{ℤ, pos, negsuc}
use cyberdeck.Ble.{
  Text, Device, DeviceKind, unknown, AddressType, public_address, random_static, random_resolvable,
  random_non_resolvable, max_address_bytes, max_devices,
}
use cyberdeck.Ble.Addresses.{normalize_address}

pub record DeviceList : Type 0 where
  pub items : List Device
  pub selection : ℕ

abbrev pub clear : DeviceList
clear = record { items = []; selection = 0 }

unfoldable pub same_type : AddressType → AddressType → Bool
same_type public_address public_address = true
same_type random_static random_static = true
same_type random_resolvable random_resolvable = true
same_type random_non_resolvable random_non_resolvable = true
same_type _ _ = false

unfoldable pub max_rssi : ℤ → ℤ → ℤ
max_rssi (pos a) (pos b) = if ltb a b then pos b else pos a
max_rssi (pos a) (negsuc b) = pos a
max_rssi (negsuc a) (pos b) = pos b
max_rssi (negsuc a) (negsuc b) = if ltb b a then negsuc b else negsuc a

unfoldable pub first_name : Text → Text → Text
first_name [] b = b
first_name (c ∷ a) b = c ∷ a

unfoldable pub known_kind : DeviceKind → DeviceKind → DeviceKind
known_kind unknown b = b
known_kind a b = a

-- What a device is known by, with another advertisement of it.
unfoldable pub merge : Device → Device → Device
unfolding max_rssi first_name known_kind
merge e item = record e {
  rssi = max_rssi e.rssi item.rssi;
  name = first_name e.name item.name;
  kind = known_kind e.kind item.kind;
  paired = e.paired || item.paired;
  connectable = e.connectable && item.connectable;
}

unfoldable pub is_same : Device → Device → Bool
unfolding same_type
is_same e item = same_bytes e.address item.address && same_type e.addr_type item.addr_type

-- The loop over the entries; `none` if there is no such device.
unfoldable pub merge_loop : List Device → Device → Option (List Device)
unfolding is_same
merge_loop [] item = none
merge_loop (e ∷ items) item =
    if is_same e item
    then some (merge e item ∷ items)
    else elim (merge_loop items item) [ none ↦ none | some rest ↦ some (e ∷ rest) ]

unfoldable pub clamp_selection : DeviceList → DeviceList
clamp_selection l =
    if length l.items == 0
    then record l { selection = 0 }
    else if leb (length l.items) l.selection
    then record l { selection = length l.items - 1 }
    else l

unfoldable pub place : Option (List Device) → Device → DeviceList → DeviceList × Bool
unfolding clamp_selection
place (some items) item l = (record l { items = items }, true)
place none item l =
    if leb max_devices (length l.items)
    then (l, false)
    else (clamp_selection (record l { items = l.items ++ item ∷ [] }), true)

unfoldable pub add_normal : Option Text → Device → DeviceList → DeviceList × Bool
unfolding place
add_normal none item l = (l, false)
add_normal (some address) item l =
    let known = record item { address = address } in place (merge_loop l.items known) known l

unfoldable pub add : Device → DeviceList → DeviceList × Bool
unfolding add_normal
add item l =
    if length item.address == 0 || ltb max_address_bytes (length item.address)
    then (l, false)
    else add_normal (normalize_address item.address) item l

unfoldable pub add_all : List Device → DeviceList → DeviceList
unfolding add
add_all [] l = l
add_all (d ∷ devices) l = add_all devices (add d l).0

unfoldable pub find : List Device → Text → Option Device
find [] address = none
find (e ∷ items) address = if same_bytes e.address address then some e else find items address

unfoldable pub find_typed : List Device → Text → AddressType → Option Device
find_typed [] address type = none
find_typed (e ∷ items) address type =
    if same_bytes e.address address && same_type e.addr_type type
    then some e
    else find_typed items address type

unfoldable pub without : List Device → Text → Option (List Device)
without [] address = none
without (e ∷ items) address =
    if same_bytes e.address address
    then some items
    else elim (without items address) [ none ↦ none | some rest ↦ some (e ∷ rest) ]

unfoldable pub removed : Option (List Device) → DeviceList → DeviceList × Bool
unfolding clamp_selection
removed none l = (l, false)
removed (some items) l = (clamp_selection (record l { items = items }), true)

unfoldable pub remove : Text → DeviceList → DeviceList × Bool
unfolding removed
remove address l = removed (without l.items address) l

unfoldable pub select : ℕ → DeviceList → DeviceList
select i l = if ltb i (length l.items) then record l { selection = i } else l

unfoldable pub move_up : DeviceList → DeviceList
move_up l = if ltb 0 l.selection then record l { selection = l.selection - 1 } else l

unfoldable pub move_down : DeviceList → DeviceList
move_down l =
    if not (length l.items == 0) && ltb (l.selection + 1) (length l.items)
    then record l { selection = l.selection + 1 }
    else l

-- `nullptr` when the selection is out of range.
unfoldable pub selected : DeviceList → Option Device
selected l = get_elem? l.items l.selection
