-- ===== src/Thinking.antt =====
-- ai/model.go and ai/cost.go: the ladder of thinking levels and the clamp onto those of a model.
pub mod Nearest
use kern_proxy.Base.{
  ℕ, zero, suc, Bool, true, false, not, ◌&&◌, ◌||◌, Option, none, some, List, [], ◌∷◌, ◌++◌, String,
  ◌=ₛ◌, ◌==◌, if◌then◌else◌,
}

-- `ThinkingLevel` is a string; `other` is any that is no constant of the package.
pub data Level : Type 0 where
  off minimal low medium high xhigh : Level
  other : String → Level

-- `==` on levels.
unfoldable pub eq_level : Level → Level → Bool
eq_level Level.off Level.off = true
eq_level Level.minimal Level.minimal = true
eq_level Level.low Level.low = true
eq_level Level.medium Level.medium = true
eq_level Level.high Level.high = true
eq_level Level.xhigh Level.xhigh = true
eq_level (Level.other s) (Level.other t) = s =ₛ t
eq_level _ _ = false

-- A missing key is `none`, a key with a nil value `some none`.
abbrev pub LevelMap : Type 0
LevelMap = Level → Option (Option String)

-- `extendedThinkingLevels`
abbrev pub ladder : List Level
ladder = Level.off ∷ Level.minimal ∷ Level.low ∷ Level.medium ∷ Level.high ∷ Level.xhigh ∷ []

is_xhigh : Level → Bool
is_xhigh Level.xhigh = true
is_xhigh _ = false

-- The two tests of the loop of `GetSupportedThinkingLevels`.
unfoldable pub passes : Level → Option (Option String) → Bool
unfolding is_xhigh
passes level (some none) = false
passes level (some (some _)) = true
passes level none = not (is_xhigh level)

unfoldable pub keep_supported : LevelMap → List Level → List Level
unfolding passes
keep_supported m [] = []
keep_supported m (l ∷ ls) =
    let rest = keep_supported m ls in if passes l (m l) then l ∷ rest else rest

-- `GetSupportedThinkingLevels`, on the two fields of the model that it reads.
unfoldable pub supported_levels : Bool → LevelMap → List Level
unfolding keep_supported
supported_levels reasoning m = if reasoning then keep_supported m ladder else Level.off ∷ []

unfoldable pub contains : List Level → Level → Bool
unfolding eq_level
contains [] l = false
contains (a ∷ rest) l = eq_level a l || contains rest l

-- `extendedThinkingLevels` cut at the first level that is `level`: what stands before it, the last
-- first, and the rest with the level itself; `none` is `requested == -1`.
unfoldable pub split_at : Level → List Level → List Level → Option (List Level × List Level)
unfolding eq_level
split_at level below [] = none
split_at level below (l ∷ ls) =
    let rest = split_at level (l ∷ below) ls in
    if eq_level l level then some (below, l ∷ ls) else rest

-- The first of the list that is available: both `for` loops.
unfoldable pub first_available : List Level → List Level → Option Level
first_available available [] = none
first_available available (l ∷ ls) =
    let rest = first_available available ls in if contains available l then some l else rest

-- `available[0]`, or `off`.
abbrev first_or_off : List Level → Level
first_or_off [] = Level.off
first_or_off (l ∷ _) = l

abbrev search_around : List Level → Option (List Level × List Level) → Level
search_around available none = first_or_off available
search_around available (some (below, above)) = elim (first_available available above) [
  | some l ↦ l
  | none ↦ elim (first_available available below) [ some l ↦ l | none ↦ first_or_off available ]
]

-- `ClampThinkingLevel`
unfoldable pub clamp_thinking_level : Bool → LevelMap → Level → Level
unfolding split_at first_available
clamp_thinking_level reasoning m level =
    let available = supported_levels reasoning m in
    if contains available level then level else search_around available (split_at level [] ladder)
