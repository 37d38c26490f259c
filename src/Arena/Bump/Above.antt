-- ===== src/Arena/Bump/Above.antt =====
-- Chains of blocks in agenc-arena/src/arena.c that have grown out of older ones.
use agenc_c.Base.{ℕ, ◌≤◌, ◌≡◌, ap, ap₂, arith, List, [], ◌∷◌, ◌++◌}
use agenc_c.Arena.Types.{Block}

-- The chain `now` has grown out of `then`: newer blocks stand on it, and its newest block may have
-- handed out more.
abbrev pub Above : List Block → List Block → Type 0
Above [] now = Unit
Above (block ∷ rest) now =
    (newer : List Block) × (fill_level : ℕ) × (now
      ≡ newer ++ (record block { used = fill_level } ∷ rest))
    × (block.used ≤ fill_level)

pub Above-pushed : (c now : List Block) (block : Block) → Above c now → Above c (block ∷ now)
Above-pushed [] now block u = tt
Above-pushed (x ∷ rest) now block (newer, level, e, l) =
    (block ∷ newer, level, ap (λ t. block ∷ t) e, l)

abbrev head_or : Block → List Block → Block
head_or d [] = d
head_or d (block ∷ rest) = block

abbrev refilled : ℕ → Block → List Block → List Block
refilled more block rest = record block { used = more } ∷ rest

abbrev tail : List Block → List Block
tail [] = []
tail (block ∷ rest) = rest

pub Above-raised :
    (c rest : List Block) (block : Block) (more : ℕ)
    → block.used ≤ more
    → Above c (block ∷ rest)
    → Above c (record block { used = more } ∷ rest)
Above-raised [] rest block more l u = tt
Above-raised (x ∷ old) rest block more l ([], level, e, k) = (
  [],
  more,
  ap₂ (refilled more) (ap (head_or block) e) (ap tail e),
  omega (arith, k, l, ap (λ c. (head_or block c).used) e),
)
Above-raised (x ∷ old) rest block more l (y ∷ newer, level, e, k) = (
  record block { used = more } ∷ newer,
  level,
  ap (λ r. record block { used = more } ∷ r) (ap tail e),
  k,
)
