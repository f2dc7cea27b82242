-- ===== src/Thinking/Nearest.antt =====
-- The clamp finds the nearest supported level.
use kern_proxy.Base.{ℕ, ◌≤◌, ◌<◌, ◌≡◌, ◌⊎◌, refl, Bool, true, false, arith}
use kern_proxy.Thinking.{Level, LevelMap, passes, supported_levels, contains, clamp_thinking_level}

abbrev pub rank : Level → ℕ
rank Level.off = 0
rank Level.minimal = 1
rank Level.low = 2
rank Level.medium = 3
rank Level.high = 4
rank Level.xhigh = 5
rank (Level.other _) = 6

abbrev pub IsOnLadder : Level → Type 0
IsOnLadder l = rank l < 6

-- A reasoning model supports a level of the ladder just if its map does not forbid it.
pub contains-supported :
    (m : LevelMap) (l : Level)
    → IsOnLadder l
    → contains (supported_levels true m) l ≡ passes l (m l)
unfolding contains supported_levels
contains-supported m Level.off h = ground arith
contains-supported m Level.minimal h = ground arith
contains-supported m _ h = ground arith

-- `c` is the supported level nearest to `l`, seen from the supported level `s`: it is no further up
-- than `s`, and it lies below `l` only if `s` does and no further down than `s`.
abbrev pub IsNearest : Level → Level → Level → Type 0
IsNearest l c s =
    (rank l ≤ rank s → (rank l ≤ rank c) × (rank c ≤ rank s))
    × (rank s < rank l → (rank l ≤ rank c) ⊎ (rank s ≤ rank c))

-- Where a model supports some level `s` of the ladder, a level `l` of the ladder is clamped to a
-- supported level, and to the nearest one: the lowest of those from `l` up, and if there is none,
-- the highest of those below.
pub clamp-IsNearest :
    (reasoning : Bool) (m : LevelMap) (l s : Level)
    → IsOnLadder l
    → IsOnLadder s
    → contains (supported_levels reasoning m) s ≡ true
    → (contains (supported_levels reasoning m) (clamp_thinking_level reasoning m l) ≡ true)
      × IsNearest l (clamp_thinking_level reasoning m l) s
unfolding clamp_thinking_level
clamp-IsNearest r m Level.off Level.off hl hs e = ground arith
clamp-IsNearest r m _ _ hl hs e = ground arith

clamp-of_contains :
    (reasoning : Bool) (m : LevelMap) (l : Level)
    → contains (supported_levels reasoning m) l ≡ true
    → clamp_thinking_level reasoning m l ≡ l
unfolding clamp_thinking_level
clamp-of_contains r m l e = rw e

-- Clamping twice is clamping once, under the same conditions.
clamp-idempotent :
    (reasoning : Bool) (m : LevelMap) (l s : Level)
    → IsOnLadder l
    → IsOnLadder s
    → contains (supported_levels reasoning m) s ≡ true
    → clamp_thinking_level reasoning m (clamp_thinking_level reasoning m l)
      ≡ clamp_thinking_level reasoning m l
clamp-idempotent r m l s hl hs e = clamp-of_contains r m _ (clamp-IsNearest r m l s hl hs e).0

-- A model that does not reason is never asked to: every level, known or not, is clamped to `off`.
clamp-off : (m : LevelMap) (l : Level) → clamp_thinking_level false m l ≡ Level.off
unfolding clamp_thinking_level supported_levels contains
clamp-off m Level.off = refl
clamp-off m Level.minimal = refl
clamp-off m _ = refl
