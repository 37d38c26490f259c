-- ===== src/Arena/Scope.antt =====
-- Temp scopes of agenc-arena/src/arena.c.
pub mod Steps
pub mod Drop
pub mod Pop
pub mod Lower
pub mod Run
pub mod Trip
use agenc_c.Base.{
  ℕ, ◌+◌, ◌-◌, Bool, true, false, Option, none, some, List, [], ◌∷◌, ltb, if◌then◌else◌,
}
use agenc_c.Memory.{Heap}
use agenc_c.Arena.Types.{Build, Block, Arena, ArenaTemp, add_unsigned}
use agenc_c.Arena.Block.{arena_mark_dead, arena_pop_to_block}

-- The newest block's address and fill, or NULL and 0.
abbrev pub newest : List Block → ℕ × ℕ
newest [] = (0, 0)
newest (block ∷ rest) = (block.base, block.used)

abbrev pub temp_of : Arena → ArenaTemp
temp_of a = record {
  has_arena = true;
  block = (newest a.current).0;
  block_used = (newest a.current).1;
  used = a.used;
  generation = a.generation;
  depth = a.temp_depth;
}

-- The arena inside a scope.
abbrev pub begun : Arena → Arena
begun a = record a { temp_depth = add_unsigned a.temp_depth 1 }

unfoldable pub arena_temp_begin : Option Arena → Option Arena × ArenaTemp
arena_temp_begin none = (
  none,
  record { has_arena = false; block = 0; block_used = 0; used = 0; generation = 0; depth = 0 },
)
arena_temp_begin (some a) = (some (begun a), temp_of (begun a))

-- The newest block gives back what it took since the snapshot.
abbrev pub lower_newest : Build → Heap → Arena → ℕ → List Block → Heap × Arena
lower_newest b h a keep [] = (h, a)
lower_newest b h a keep (block ∷ rest) =
    if ltb keep block.used
    then (
      arena_mark_dead b h block keep block.used,
      record a { current = record block { used = keep } ∷ rest },
    )
    else (h, a)

abbrev pub lower_counters : ArenaTemp → Heap × Arena → Heap × Arena
lower_counters temp (h, a) = (
  h,
  record a {
    used = if ltb temp.used a.used then temp.used else a.used;
    temp_depth = if ltb 0 a.temp_depth then a.temp_depth - 1 else a.temp_depth;
  },
)

unfoldable pub temp_end_valid : Build → Heap → Arena → ArenaTemp → Heap × Arena
temp_end_valid b h a temp =
    let (h1, a1) = arena_pop_to_block b h a temp.block in
    lower_counters temp (lower_newest b h1 a1 temp.block_used a1.current)

-- `temp.arena` is the arena that is passed.
unfoldable pub arena_temp_end : Build → Heap → Option Arena → ArenaTemp → Heap × Option Arena
arena_temp_end b h none temp = (h, none)
arena_temp_end b h (some a) temp =
    let (h', a') = temp_end_valid b h a temp in
    if temp.has_arena then (h', some a') else (h, some a)
