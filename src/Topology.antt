-- ===== src/Topology.antt =====
-- The flags of types.go that say where the methods of a handler run.
use totem.Base.{
  ℕ, Bool, not, List, [], ◌∷◌, ◌+◌, ◌++◌, Text, codes, ◌==◌, bit_and, bit_or, if◌then◌else◌,
}

-- `1 << iota`
abbrev pub topology_local : ℕ
topology_local = 1

abbrev pub topology_self : ℕ
topology_self = 2

abbrev pub topology_spliced : ℕ
topology_spliced = 4

-- `flags & mask != 0`
abbrev pub has_flag : ℕ → ℕ → Bool
has_flag flags mask = not (bit_and flags mask == 0)

-- strings.Join(parts, "|")
join : List Text → Text
join [] = []
join (p ∷ []) = p
join (p ∷ q ∷ rest) = p ++ b'|' ∷ join (q ∷ rest)

-- the loop over `names`, with the bit of the first name
named : ℕ → ℕ → List Text → List Text
named tf bit [] = []
named tf bit (name ∷ names) =
    let rest = named tf (bit + bit) names in if has_flag tf bit then name ∷ rest else rest

unfoldable pub display_name : ℕ → Text
unfolding join named
display_name tf =
    let flags = named tf 1 (codes "local" ∷ codes "self" ∷ codes "spliced" ∷ []) in
    join (
      flags
      ++ (if has_flag tf (bit_or topology_self topology_local) then [] else codes "remote" ∷ []))
