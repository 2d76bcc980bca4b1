-- ===== src/History/Tests.antt =====
-- The shell's history on concrete lines, and its theorems applied to them.
use cyberdeck.Common.{ℕ, ◌≡◌, List, [], ◌∷◌}
use cyberdeck.History.{init, limit}
use cyberdeck.History.Recall.{add_all, commands, last, add_all-commands}

-- `ls`, a blank line, and `cd`.
abbrev ls : List ℕ
ls = 108 ∷ 115 ∷ []

abbrev cd : List ℕ
cd = 99 ∷ 100 ∷ []

add_all-commands_example :
    (add_all init (ls ∷ (0x20 ∷ []) ∷ cd ∷ [])).entries
    ≡ last limit (commands (ls ∷ (0x20 ∷ []) ∷ cd ∷ []))
add_all-commands_example = add_all-commands (ls ∷ (0x20 ∷ []) ∷ cd ∷ [])
