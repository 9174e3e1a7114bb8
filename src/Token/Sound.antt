-- ===== src/Token/Sound.antt =====
-- What `domain_extract_token` returns, whatever the line.
use esp32_ad_blocker_reborn.Common.{ℕ, ◌<◌, ◌≡◌, Option, none, some, List, ◌++◌, length, IsSlice}
use esp32_ad_blocker_reborn.Token.Formats.{AllOk}

-- A token of allowed bytes that stands in the line, and no other.
abbrev pub Extracted : List ℕ → Option (List ℕ) → Type 0
Extracted line none = Unit {0}
Extracted line (some tok) = (0 < length tok) × AllOk tok × IsSlice tok line

abbrev Read : List ℕ → Option (List ℕ) → Type 0
Read p none = Unit {0}
Read p (some tok) = AllOk tok × ((back : List ℕ) × (p ≡ tok ++ back))
