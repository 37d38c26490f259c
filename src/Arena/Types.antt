-- ===== src/Arena/Types.antt =====
-- The types of agenc-arena/include/arena.h and of the head of agenc-arena/src/arena.c.
use agenc_c.Base.{ℕ, ◌+◌, ◌-◌, ◌%◌, Bool, Option, List, word}
use agenc_c.Memory.{Heap}
use agenc_c.Alloc.{Alloc}

-- `arena_status_t`
pub data ArenaStatus : Type 0 where
  ok err_arg err_alloc err_overflow : ArenaStatus

-- The builds that arena.c distinguishes: without checks, with debug fills, under AddressSanitizer.
pub data Build : Type 0 where
  release debug sanitized : Build

-- ARENA_REDZONE
unfoldable pub redzone : Build → ℕ
redzone release = 0
redzone debug = 0
redzone sanitized = 16

-- sizeof(struct arena_block) rounded up to the default alignment
abbrev pub block_hdr : ℕ
block_hdr = 32

abbrev pub default_align : ℕ
default_align = 16

abbrev pub arena_max_align : ℕ
arena_max_align = 0x1_0000

-- ARENA_FIXED_OVERHEAD
abbrev pub fixed_overhead : ℕ
fixed_overhead = 64

abbrev pub min_block_default : ℕ
min_block_default = 4096

abbrev pub max_block_default : ℕ
max_block_default = 0x1_0000

-- `struct arena_block` at the address `base`. Its `link` is the place in a list.
pub record Block : Type 0 where
  pub base : ℕ
  pub cap : ℕ
  pub used : ℕ
  pub oversize : Bool

-- `arena_t`. The chain of blocks is a list, newest first; `fixed` is its flag.
pub record Arena : Type 0 where
  pub parent : Alloc Heap
  pub current : List Block
  pub free_blocks : List Block
  pub min_block : ℕ
  pub max_block : ℕ
  pub next_block : ℕ
  pub used : ℕ
  pub committed : ℕ
  pub high_water : ℕ
  pub temp_depth : ℕ
  pub generation : ℕ
  pub fixed : Bool
  pub status : ArenaStatus

-- `arena_temp_t`; `has_arena` says that its arena is not NULL, and `block` is an address or NULL.
pub record ArenaTemp : Type 0 where
  pub has_arena : Bool
  pub block : ℕ
  pub block_used : ℕ
  pub used : ℕ
  pub generation : ℕ
  pub depth : ℕ

-- The outcome of an allocation on an arena that is not NULL: a pointer, or NULL.
abbrev pub Served : Type 0
Served = Heap × Arena × Option ℕ

-- The counters are `size_t`, and `unsigned` of 32 bits.
abbrev pub add_word : ℕ → ℕ → ℕ
add_word a b = (a + b) % word

abbrev pub sub_word : ℕ → ℕ → ℕ
sub_word a b = (a + word - b) % word

abbrev pub add_unsigned : ℕ → ℕ → ℕ
add_unsigned a b = (a + b) % 0x1_0000_0000
