-- ===== src/Arena/Block.antt =====
-- Blocks in agenc-arena/src/arena.c: the data area, debug fills, retirement and release.
use agenc_c.Base.{
  ℕ, ◌+◌, ◌-◌, Bool, true, false, Option, none, some, List, [], ◌∷◌, leb, ◌==◌, if◌then◌else◌,
}
use agenc_c.Memory.{Heap, memset}
use agenc_c.Alloc.{alloc_free}
use agenc_c.Arena.Types.{
  ArenaStatus, ok, Build, release, debug, sanitized, Block, Arena, block_hdr, sub_word,
}

abbrev pub arena_block_data : Block → ℕ
arena_block_data block = block.base + block_hdr

-- ARENA_FILL_ALLOC and ARENA_FILL_DEAD
unfoldable pub fill : Build → Heap → ℕ → ℕ → ℕ → Heap
fill release h ptr value len = h
fill debug h ptr value len = memset h ptr value len
fill sanitized h ptr value len = h

abbrev pub arena_mark_live : Build → Heap → ℕ → ℕ → Heap
arena_mark_live b h ptr size = fill b h ptr 0xa5 size

unfoldable pub arena_mark_dead : Build → Heap → Block → ℕ → ℕ → Heap
arena_mark_dead b h block keep dead_end =
    if leb dead_end keep then h else fill b h (arena_block_data block + keep) 0x5a (dead_end - keep)

-- `arena_rewind_block`: the memory, and the block.
abbrev pub rewound : Block → Block
rewound block = record block { used = 0 }

abbrev pub arena_rewind_block : Build → Heap → Block → Heap × Block
arena_rewind_block b h block = (arena_mark_dead b h block 0 block.used, rewound block)

-- The first failure is recorded.
abbrev pub arena_fail : Arena → ArenaStatus → Arena
arena_fail a status = elim a.status [ ok ↦ record a { status = status } | _ ↦ a ]

abbrev pub is_ok : ArenaStatus → Bool
is_ok ok = true
is_ok _ = false

abbrev pub arena_can_serve : Option Arena → Bool
arena_can_serve none = false
arena_can_serve (some a) = is_ok a.status

unfoldable pub arena_retire_block : Build → Heap → Arena → Block → Heap × Arena
arena_retire_block b h a block =
    let (h', rewound_block) = arena_rewind_block b h block in
    (h', record a { free_blocks = rewound_block ∷ a.free_blocks })

abbrev pub block_size : Block → ℕ
block_size block = block_hdr + block.cap

unfoldable pub arena_release_block : Build → Heap → Arena → Block → Heap × Arena
arena_release_block b h a block = (
  alloc_free a.parent (fill b h (arena_block_data block) 0x5a block.used) block.base
      (block_size block) 0,
  record a { committed = sub_word a.committed (block_size block) },
)

-- The chain is read from the list that is passed; the fields of the arena are not touched.
unfoldable pub arena_release_chain : Build → Heap → Arena → List Block → Heap × Arena
arena_release_chain b h a [] = (h, a)
arena_release_chain b h a (block ∷ rest) =
    let (h', a') = arena_release_block b h a block in arena_release_chain b h' a' rest

-- What happens to a block that leaves the chain.
abbrev pub arena_drop_block : Build → Heap → Arena → Block → Heap × Arena
arena_drop_block b h a block =
    if block.oversize then arena_release_block b h a block else arena_retire_block b h a block

-- The loop of `arena_pop_to_block`: `stop` is the address of a block, or NULL.
unfoldable pub pop_loop : Build → Heap → Arena → ℕ → List Block → Heap × Arena
pop_loop b h a stop [] = (h, record a { current = [] })
pop_loop b h a stop (block ∷ rest) =
    let (h', a') = arena_drop_block b h a block in
    let popped = pop_loop b h' a' stop rest in
    if block.base == stop then (h, record a { current = block ∷ rest }) else popped

abbrev pub arena_pop_to_block : Build → Heap → Arena → ℕ → Heap × Arena
arena_pop_to_block b h a stop = pop_loop b h a stop a.current
