-- ===== src/Arena/Resize.antt =====
-- arena_realloc and the allocator adapter of agenc-arena/src/arena.c.
pub mod Last
pub mod InPlace
pub mod Move
use agenc_c.Base.{
  ℕ, ◌+◌, ◌-◌, min, ◌||◌, not, Option, none, some, List, [], ◌∷◌, ltb, leb, ◌==◌, if◌then◌else◌,
}
use agenc_c.Memory.{Heap, memmove}
use agenc_c.Alloc.{Alloc, ptrdiff_max, alloc_null}
use agenc_c.Arena.Types.{
  err_arg, err_overflow, Build, redzone, Block, Arena, add_word, sub_word, Served,
}
use agenc_c.Arena.Align.{arena_align_valid}
use agenc_c.Arena.Block.{arena_block_data, arena_mark_dead, fill, arena_fail, is_ok}
use agenc_c.Arena.Bump.{arena_alloc_impl, raise, Answer, on_arena, arena_alloc_n}

-- The offset in the newest block, if [ptr, ptr + size) is the most recent live allocation.
unfoldable pub arena_is_last_alloc : Build → Arena → ℕ → ℕ → Option ℕ
arena_is_last_alloc b a ptr size = elim a.current [
  | [] ↦ none
  | block ∷ rest ↦
      let offset = ptr - arena_block_data block in
      if ltb block.used size
      then none
      else if ltb ptr (arena_block_data block) || ltb block.cap offset
      then none
      else if offset + size + redzone b == block.used
      then some offset
      else none
]

-- The newest block and the counters, once the allocation at `offset` has changed its size.
abbrev pub shrink_last : Build → Heap → Arena → ℕ → ℕ → ℕ → ℕ → List Block → Served
shrink_last b h a ptr offset old_size new_size [] = (h, a, none)
shrink_last b h a ptr offset old_size new_size (block ∷ rest) =
    let block' = record block { used = block.used - (old_size - new_size) } in
    (
      arena_mark_dead b h block' (offset + new_size) (offset + old_size),
      record a { current = block' ∷ rest; used = sub_word a.used (old_size - new_size) },
      some ptr,
    )

abbrev pub extend_last : Build → Heap → Arena → ℕ → ℕ → ℕ → List Block → Served
extend_last b h a ptr old_size growth [] = (h, a, none)
extend_last b h a ptr old_size growth (block ∷ rest) =
    if ltb (block.cap - block.used) growth
    then (h, a, none)
    else (let used = add_word a.used growth in
        (
          fill b h (ptr + old_size) 0xa5 growth,
          record a {
            current = record block { used = block.used + growth } ∷ rest;
            used = used;
            high_water = raise a.high_water used;
          },
          some ptr,
        ))

unfoldable pub arena_try_resize_last : Build → Heap → Arena → ℕ → ℕ → ℕ → Served
arena_try_resize_last b h a ptr old_size new_size = elim (arena_is_last_alloc b a ptr old_size) [
  | none ↦ (h, a, none)
  | some offset ↦
      if leb new_size old_size
      then shrink_last b h a ptr offset old_size new_size a.current
      else extend_last b h a ptr old_size (new_size - old_size) a.current
]

-- The copy into the fresh region; the old one is dead.
abbrev pub moved_to : Build → ℕ → ℕ → ℕ → Served → Served
moved_to b ptr old_size new_size (h, a, none) = (h, a, none)
moved_to b ptr old_size new_size (h, a, some fresh) = (
  fill b (memmove h fresh ptr (min old_size new_size)) ptr 0x5a old_size,
  record a { used = sub_word a.used old_size },
  some fresh,
)

unfoldable pub arena_realloc_move : Build → Heap → Arena → ℕ → ℕ → ℕ → ℕ → Served
arena_realloc_move b h a ptr old_size new_size align =
    moved_to b ptr old_size new_size (arena_alloc_impl b h a 1 new_size align)

abbrev pub or_moved : Served → Served → Served
or_moved moved (h, a, some ptr) = (h, a, some ptr)
or_moved moved (h, a, none) = moved

unfoldable pub realloc_valid : Build → Heap → Arena → ℕ → ℕ → ℕ → ℕ → Served
realloc_valid b h a ptr old_size new_size align =
    if not (is_ok a.status)
    then (h, a, none)
    else if not (arena_align_valid align)
    then (h, arena_fail a err_arg, none)
    else if new_size == 0
    then (h, arena_fail a err_arg, none)
    else if ptr == 0
    then arena_alloc_impl b h a 1 new_size align
    else if ltb ptrdiff_max new_size
    then (h, arena_fail a err_overflow, none)
    else or_moved (arena_realloc_move b h a ptr old_size new_size align)
        (arena_try_resize_last b h a ptr old_size new_size)

abbrev pub arena_realloc : Build → Heap → Option Arena → ℕ → ℕ → ℕ → ℕ → Answer
arena_realloc b h arena ptr old_size new_size align =
    on_arena h arena (λ a. realloc_valid b h a ptr old_size new_size align)

-- The newest block and the counter after the last allocation has been given back.
abbrev pub roll_back : Build → Heap → Arena → ℕ → ℕ → List Block → Heap × Arena
roll_back b h a offset size [] = (h, a)
roll_back b h a offset size (block ∷ rest) = (
  arena_mark_dead b h block offset block.used,
  record a {
    current = record block { used = offset } ∷ rest;
    used = sub_word a.used (size + redzone b);
  },
)

unfoldable pub free_last : Build → Heap → Arena → ℕ → ℕ → Heap × Arena
free_last b h a ptr size = if ptr == 0 then (h, a) else elim (arena_is_last_alloc b a ptr size) [
  | none ↦ (h, a)
  | some offset ↦ roll_back b h a offset size a.current
]

-- The adapter acts on the memory and the arena together.
abbrev pub World : Type 0
World = Heap × Option Arena

abbrev pub arena_adapter_xalloc : Build → World → ℕ → ℕ → World × Option ℕ
arena_adapter_xalloc b (h, arena) size align =
    let (h', arena', r) = arena_alloc_n b h arena 1 size align in ((h', arena'), r)

abbrev pub arena_adapter_xrealloc : Build → World → ℕ → ℕ → ℕ → ℕ → World × Option ℕ
arena_adapter_xrealloc b (h, arena) ptr old_size new_size align =
    let (h', arena', r) = arena_realloc b h arena ptr old_size new_size align in ((h', arena'), r)

abbrev pub arena_adapter_xfree : Build → World → ℕ → ℕ → ℕ → World
arena_adapter_xfree b (h, none) ptr size align = (h, none)
arena_adapter_xfree b (h, some a) ptr size align =
    let (h', a') = free_last b h a ptr size in (h', some a')

abbrev pub arena_allocator : Build → Option Arena → Alloc World
arena_allocator b none = alloc_null
arena_allocator b (some a) = record {
  xalloc = arena_adapter_xalloc b;
  xrealloc = arena_adapter_xrealloc b;
  xfree = arena_adapter_xfree b;
}
