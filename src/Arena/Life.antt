-- ===== src/Arena/Life.antt =====
-- The lifecycle and the observers of agenc-arena/src/arena.c.
pub mod Start
pub mod Release
use agenc_c.Base.{
  ℕ, ◌+◌, ◌-◌, Bool, true, false, ◌||◌, not, Option, none, some, List, [], ◌∷◌, ltb, ◌==◌,
  if◌then◌else◌,
}
use agenc_c.Memory.{Heap}
use agenc_c.Alloc.{Alloc, alloc_null, ptrdiff_max}
use agenc_c.Arena.Types.{
  ArenaStatus, ok, err_arg, err_alloc, err_overflow, Build, Block, Arena, block_hdr, fixed_overhead,
  min_block_default, max_block_default, add_unsigned,
}
use agenc_c.Arena.Align.{padding}
use agenc_c.Arena.Block.{
  arena_fail, arena_rewind_block, arena_release_chain, arena_drop_block, is_ok,
}

unfoldable pub arena_init : Alloc Heap → Arena
arena_init parent = record {
  parent = parent;
  current = [];
  free_blocks = [];
  min_block = min_block_default;
  max_block = max_block_default;
  next_block = min_block_default;
  used = 0;
  committed = 0;
  high_water = 0;
  temp_depth = 0;
  generation = 0;
  fixed = false;
  status = ok;
}

unfoldable pub arena_init_sized : Alloc Heap → ℕ → ℕ → Arena × ArenaStatus
arena_init_sized parent min_block max_block =
    let a = arena_init parent in
    if ltb min_block fixed_overhead || ltb max_block min_block || ltb ptrdiff_max max_block
    then (arena_fail a err_arg, err_arg)
    else (record a { min_block = min_block; max_block = max_block; next_block = min_block }, ok)

-- The arena over the buffer, with its one block if the header fits.
abbrev pub attached : Arena → ℕ → ℕ → Arena
attached a buffer size =
    let pad = padding buffer 8 in
    if ltb size pad || ltb (size - pad) block_hdr then record a { committed = size } else record a {
      committed = size;
      current =
          record { base = buffer + pad; cap = size - pad - block_hdr; used = 0; oversize = false }
          ∷ [];
    }

unfoldable pub arena_init_fixed : ℕ → ℕ → Arena
arena_init_fixed buffer size =
    let a = record (arena_init alloc_null) {
      fixed = true;
      min_block = 0;
      max_block = 0;
      next_block = 0;
    } in
    if (buffer == 0) || (size == 0)
    then arena_fail a err_arg
    else if ltb ptrdiff_max size
    then arena_fail a err_overflow
    else attached a buffer size

-- The chain, then the free list.
abbrev pub release_all : Build → Heap → Arena → Heap × Arena
release_all b h a =
    let (h1, a1) = arena_release_chain b h a a.current in arena_release_chain b h1 a1 a1.free_blocks

unfoldable pub deinit_valid : Build → Heap → Arena → Heap × Arena
deinit_valid b h a =
    let h' = if a.fixed then h else (release_all b h a).0 in
    (h', record (arena_init a.parent) { generation = add_unsigned a.generation 1 })

-- `oldest_normal`: the last block of the chain that is not oversize.
unfoldable pub find_oldest_normal : List Block → Option Block
find_oldest_normal [] = none
find_oldest_normal (block ∷ rest) = elim (find_oldest_normal rest) [
  | some older ↦ some older
  | none ↦ if block.oversize then none else some block
]

-- The second loop of `arena_reset`: all blocks but the one at `keep` leave the chain.
unfoldable pub reset_loop : Build → Heap → Arena → ℕ → List Block → Heap × Arena
reset_loop b h a keep [] = (h, a)
reset_loop b h a keep (block ∷ rest) =
    let (h', a') = if block.base == keep then (h, a) else arena_drop_block b h a block in
    reset_loop b h' a' keep rest

abbrev pub rewind_oldest : Build → Heap × Arena → Option Block → Heap × Arena
rewind_oldest b (h, a) none = (h, record a { current = [] })
rewind_oldest b (h, a) (some block) =
    let (h', rewound_block) = arena_rewind_block b h block in
    (h', record a { current = rewound_block ∷ [] })

-- The address of a block, or NULL.
abbrev pub address : Option Block → ℕ
address none = 0
address (some block) = block.base

abbrev pub reset_fixed : Build → Heap → Arena → List Block → Heap × Arena
reset_fixed b h a [] = (h, a)
reset_fixed b h a (block ∷ rest) =
    let (h', rewound_block) = arena_rewind_block b h block in
    (h', record a { current = rewound_block ∷ rest })

abbrev pub reset_growing : Build → Heap → Arena → Heap × Arena
reset_growing b h a =
    let oldest = find_oldest_normal a.current in
    rewind_oldest b (reset_loop b h a (address oldest) a.current) oldest

abbrev pub renewed : Heap × Arena → Heap × Arena
renewed (h, a) = (
  h,
  record a { used = 0; temp_depth = 0; generation = add_unsigned a.generation 1; status = ok },
)

unfoldable pub reset_valid : Build → Heap → Arena → Heap × Arena
reset_valid b h a = renewed (if a.fixed then reset_fixed b h a a.current else reset_growing b h a)

unfoldable pub trim_valid : Build → Heap → Arena → Heap × Arena
trim_valid b h a =
    if a.fixed
    then (h, a)
    else (let (h', a') = arena_release_chain b h a a.free_blocks in
        (h', record a' { free_blocks = [] }))

-- A call without a result, on an arena that may be NULL.
abbrev pub for_arena : Heap → Option Arena → (Arena → Heap × Arena) → Heap × Option Arena
for_arena h none next = (h, none)
for_arena h (some a) next = let (h', a') = next a in (h', some a')

abbrev pub arena_deinit : Build → Heap → Option Arena → Heap × Option Arena
arena_deinit b h arena = for_arena h arena (λ a. deinit_valid b h a)

abbrev pub arena_reset : Build → Heap → Option Arena → Heap × Option Arena
arena_reset b h arena = for_arena h arena (λ a. reset_valid b h a)

abbrev pub arena_trim : Build → Heap → Option Arena → Heap × Option Arena
arena_trim b h arena = for_arena h arena (λ a. trim_valid b h a)

abbrev pub arena_clear_error : Option Arena → Option Arena
arena_clear_error none = none
arena_clear_error (some a) = some (record a { status = ok })

abbrev pub arena_status : Option Arena → ArenaStatus
arena_status none = err_arg
arena_status (some a) = a.status

abbrev pub arena_ok : Option Arena → Bool
arena_ok none = false
arena_ok (some a) = is_ok a.status

abbrev pub arena_failed : Option Arena → Bool
arena_failed none = true
arena_failed (some a) = not (is_ok a.status)

abbrev pub arena_used : Option Arena → ℕ
arena_used none = 0
arena_used (some a) = a.used

abbrev pub arena_committed : Option Arena → ℕ
arena_committed none = 0
arena_committed (some a) = a.committed

abbrev pub arena_high_water : Option Arena → ℕ
arena_high_water none = 0
arena_high_water (some a) = a.high_water
