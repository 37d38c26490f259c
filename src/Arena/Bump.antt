-- ===== src/Arena/Bump.antt =====
-- Allocation in agenc-arena/src/arena.c: the bump, the slow path that acquires a block, and the
-- allocation entry points.
pub mod Take
pub mod Above
pub mod Frame
pub mod Room
pub mod Grow
pub mod Serve
use agenc_c.Base.{
  ℕ, ◌+◌, ◌-◌, ◌*◌, ◌/◌, ◌%◌, ◌^◌, Bool, true, false, ◌||◌, ◌&&◌, not, Option, none, some, List, [],
  ◌∷◌, ltb, leb, ◌==◌, if◌then◌else◌, word,
}
use Prim.Native.Nat.{bit_or}
use agenc_c.Memory.{Heap, memset, memmove}
use agenc_c.Alloc.{Alloc, alloc_alloc, ptrdiff_max}
use agenc_c.Arena.Types.{
  ArenaStatus, ok, err_arg, err_alloc, err_overflow, Build, redzone, Block, Arena, block_hdr,
  add_word, Served,
}
use agenc_c.Arena.Align.{arena_align_valid, arena_align_effective, padding}
use agenc_c.Arena.Block.{arena_block_data, arena_mark_live, arena_fail, arena_can_serve, is_ok}

-- The arena and the pointer after a bump of `total` bytes behind `pad` in the newest block.
abbrev pub raise : ℕ → ℕ → ℕ
raise high used = if ltb high used then used else high

abbrev pub bumped : Build → Heap → Arena → Block → List Block → ℕ → ℕ → ℕ → Served
bumped b h a block rest pad total size =
    let ptr = arena_block_data block + block.used + pad in
    let used = add_word a.used (pad + total) in
    (
      arena_mark_live b h ptr size,
      record a {
        current = record block { used = block.used + (pad + total) } ∷ rest;
        used = used;
        high_water = raise a.high_water used;
      },
      some ptr,
    )

unfoldable pub arena_try_bump : Build → Heap → Arena → ℕ → ℕ → Served
arena_try_bump b h a size align_eff = elim a.current [
  | [] ↦ (h, a, none)
  | block ∷ rest ↦
      let pad = padding (arena_block_data block + block.used) align_eff in
      let total = size + redzone b in
      if ltb (block.cap - block.used) (pad + total)
      then (h, a, none)
      else bumped b h a block rest pad total size
]

-- The first block of a free list with room, and the list without it.
unfoldable pub arena_take_free_block : List Block → ℕ → Option (Block × List Block)
arena_take_free_block [] data_need = none
arena_take_free_block (block ∷ rest) data_need =
    let later = arena_take_free_block rest data_need in
    if leb data_need block.cap
    then some (block, rest)
    else elim later [ none ↦ none | some found ↦ some (found.0, block ∷ found.1) ]

-- The block after the parent has granted `size` bytes at `base`.
abbrev pub granted_block : Arena → ℕ → ℕ → Arena × Block
granted_block a size base =
    let oversize = not (size == a.next_block) in
    (
      record a {
        next_block =
            if oversize
            then a.next_block
            else if ltb a.max_block (a.next_block * 2)
            then a.max_block
            else a.next_block * 2;
        committed = add_word a.committed size;
      },
      record { base = base; cap = size - block_hdr; used = 0; oversize = oversize },
    )

-- The policy size if it is large enough, else the exact size.
abbrev pub new_block_size : Arena → ℕ → ℕ
new_block_size a data_need =
    if leb (block_hdr + data_need) a.next_block then a.next_block else block_hdr + data_need

-- What the parent's answer to a request of `size` bytes makes of the arena.
abbrev pub obtained : Arena → ℕ → Heap × Option ℕ → Heap × Arena × Option Block
obtained a size (h, none) = (h, arena_fail a err_alloc, none)
obtained a size (h, some base) = let (a', block) = granted_block a size base in (h, a', some block)

unfoldable pub arena_new_block : Heap → Arena → ℕ → Heap × Arena × Option Block
arena_new_block h a data_need =
    let size = new_block_size a data_need in obtained a size (alloc_alloc a.parent h size 0)

-- A block joins the chain, and the bump is tried again.
abbrev pub chained : Build → ℕ → ℕ → Heap × Arena × Option Block → Served
chained b size align_eff (h, a, none) = (h, a, none)
chained b size align_eff (h, a, some block) =
    arena_try_bump b h (record a { current = block ∷ a.current }) size align_eff

unfoldable pub arena_grow_and_bump : Build → Heap → Arena → ℕ → ℕ → Served
arena_grow_and_bump b h a size align_eff =
    let data_need = size + (align_eff - 1) + redzone b in
    if a.fixed
    then (h, arena_fail a err_alloc, none)
    else if ltb (ptrdiff_max - block_hdr) data_need
    then (h, arena_fail a err_overflow, none)
    else elim (arena_take_free_block a.free_blocks data_need) [
      | some found ↦ chained b size align_eff (h, record a { free_blocks = found.1 }, some found.0)
      | none ↦ chained b size align_eff (arena_new_block h a data_need)
    ]

-- What follows the first try.
abbrev pub or_grown : Served → Served → Served
or_grown grown (h, a, some ptr) = (h, a, some ptr)
or_grown grown (h, a, none) = grown

unfoldable pub arena_alloc_core : Build → Heap → Arena → ℕ → ℕ → Served
arena_alloc_core b h a size align_eff =
    or_grown (arena_grow_and_bump b h a size align_eff) (arena_try_bump b h a size align_eff)

unfoldable pub arena_alloc_default : Build → Heap → Arena → ℕ → Served
arena_alloc_default b h a size =
    if not (is_ok a.status)
    then (h, a, none)
    else if size == 0
    then (h, a, none)
    else if ltb ptrdiff_max size
    then (h, arena_fail a err_overflow, none)
    else arena_alloc_core b h a size (arena_align_effective b 0)

unfoldable pub arena_alloc_impl : Build → Heap → Arena → ℕ → ℕ → ℕ → Served
arena_alloc_impl b h a count size align =
    if not (is_ok a.status)
    then (h, a, none)
    else if not (arena_align_valid align)
    then (h, arena_fail a err_arg, none)
    else if (count == 0) || (size == 0)
    then (h, a, none)
    else if not (bit_or count size / 2 ^ 32 == 0) && ltb (ptrdiff_max / size) count
    then (h, arena_fail a err_overflow, none)
    else if ltb ptrdiff_max (count * size % word)
    then (h, arena_fail a err_overflow, none)
    else arena_alloc_core b h a (count * size % word) (arena_align_effective b align)

-- The outcome of a call on an arena that may be NULL.
abbrev pub Answer : Type 0
Answer = Heap × Option Arena × Option ℕ

-- A NULL arena answers NULL.
abbrev pub on_arena : Heap → Option Arena → (Arena → Served) → Answer
on_arena h none next = (h, none, none)
on_arena h (some a) next = let (h', a', r) = next a in (h', some a', r)

-- The zeroed variants clear the bytes of a success.
abbrev pub zeroed : ℕ → Served → Served
zeroed size (h, a, none) = (h, a, none)
zeroed size (h, a, some ptr) = (memset h ptr 0 size, a, some ptr)

abbrev pub arena_alloc : Build → Heap → Option Arena → ℕ → Answer
arena_alloc b h arena size = on_arena h arena (λ a. arena_alloc_default b h a size)

abbrev pub arena_alloc_zeroed : Build → Heap → Option Arena → ℕ → Answer
arena_alloc_zeroed b h arena size =
    on_arena h arena (λ a. zeroed size (arena_alloc_default b h a size))

abbrev pub arena_alloc_n : Build → Heap → Option Arena → ℕ → ℕ → ℕ → Answer
arena_alloc_n b h arena count size align =
    on_arena h arena (λ a. arena_alloc_impl b h a count size align)

abbrev pub arena_alloc_n_zeroed : Build → Heap → Option Arena → ℕ → ℕ → ℕ → Answer
arena_alloc_n_zeroed b h arena count size align =
    on_arena h arena (λ a. zeroed (count * size % word) (arena_alloc_impl b h a count size align))

-- A copy of `size` bytes at `src` into a fresh allocation.
abbrev pub copied_in : ℕ → ℕ → Served → Served
copied_in src size (h, a, none) = (h, a, none)
copied_in src size (h, a, some ptr) = (memmove h ptr src size, a, some ptr)

unfoldable pub memdup_valid : Build → Heap → Arena → ℕ → ℕ → Served
memdup_valid b h a src size =
    if not (is_ok a.status)
    then (h, a, none)
    else if (src == 0) && not (size == 0)
    then (h, arena_fail a err_arg, none)
    else copied_in src size (arena_alloc_default b h a size)

abbrev pub arena_memdup : Build → Heap → Option Arena → ℕ → ℕ → Answer
arena_memdup b h arena src size = on_arena h arena (λ a. memdup_valid b h a src size)
