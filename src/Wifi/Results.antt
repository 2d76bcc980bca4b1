-- ===== src/Wifi/Results.antt =====
-- The results of a scan: each network once, in order.
use cyberdeck.Common.{
  ℕ, ◌+◌, ◌<◌, ◌≡◌, ◌⊎◌, Bool, true, false, not, ◌&&◌, ◌||◌, List, [], ◌∷◌, if◌then◌else◌,
}
use cyberdeck.Wifi.{ℤ, pos, negsuc, Text, AccessPoint}
use cyberdeck.Wifi.Calls.{eq_text, before}

-- How many of the networks have a name.
unfoldable pub named : Text → List AccessPoint → ℕ
named t [] = 0
named t (a ∷ aps) = (if eq_text a.ssid t then 1 else 0) + named t aps

-- One number is above another, and one text not behind another, byte for byte.
abbrev pub Above : ℤ → ℤ → Type 0
Above (pos a) (pos b) = b < a
Above (pos a) (negsuc b) = Unit {0}
Above (negsuc a) (pos b) = ⊥
Above (negsuc a) (negsuc b) = a < b

abbrev pub NotBehind : Text → Text → Type 0
NotBehind [] b = Unit {0}
NotBehind (x ∷ a) [] = ⊥
NotBehind (x ∷ a) (y ∷ b) = (x < y) ⊎ ((x ≡ y) × NotBehind a b)

-- The first network has a stronger signal, or the same and a name that is not behind.
abbrev pub Leads : AccessPoint → AccessPoint → Type 0
Leads a b = Above a.rssi b.rssi ⊎ ((a.rssi ≡ b.rssi) × NotBehind a.ssid b.ssid)

abbrev pub InOrder : List AccessPoint → Type 0
InOrder [] = Unit {0}
InOrder (a ∷ []) = Unit {0}
InOrder (a ∷ b ∷ aps) = Leads a b × InOrder (b ∷ aps)

-- No network stands right behind one that it should precede, as the comparison of the sort says.
unfoldable in_order : List AccessPoint → Bool
in_order [] = true
in_order (a ∷ []) = true
in_order (a ∷ b ∷ aps) = not (before b a) && in_order (b ∷ aps)

-- The input of the scan has a network of this name.
unfoldable pub heard : Text → List AccessPoint → Bool
heard t [] = false
heard t (c ∷ input) = eq_text c.ssid t || heard t input
