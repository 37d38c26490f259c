-- ===== src/Alloc.antt =====
-- The allocator interface of agenc-arena/include/alloc.h, and its two backends in
-- agenc-arena/src/arena.c. `W` is what the context pointer and the three functions act on.
pub mod Libc
use agenc_c.Base.{ℕ, ◌≤◌, Bool, ◌||◌, Option, none, some, ltb, leb, ◌==◌, if◌then◌else◌}
use agenc_c.Memory.{Heap, malloc, realloc, free, memset}

abbrev pub max_align : ℕ
max_align = 16

abbrev pub ptrdiff_max : ℕ
ptrdiff_max = 0x7fff_ffff_ffff_ffff

-- `alloc_t`. The arguments are those of the source: `xalloc` takes size and align, `xrealloc` the
-- block, its old and new size and align, `xfree` the block, its size and align.
pub record Alloc (W : Type 0) : Type 0 where
  pub xalloc : W → ℕ → ℕ → W × Option ℕ
  pub xrealloc : W → ℕ → ℕ → ℕ → ℕ → W × Option ℕ
  pub xfree : W → ℕ → ℕ → ℕ → W

abbrev pub alloc_alloc : {W : Type 0} → Alloc W → W → ℕ → ℕ → W × Option ℕ
alloc_alloc a w size align = a.xalloc w size align

abbrev pub alloc_realloc : {W : Type 0} → Alloc W → W → ℕ → ℕ → ℕ → ℕ → W × Option ℕ
alloc_realloc a w ptr old_size new_size align = a.xrealloc w ptr old_size new_size align

abbrev pub alloc_free : {W : Type 0} → Alloc W → W → ℕ → ℕ → ℕ → W
alloc_free a w ptr size align = a.xfree w ptr size align

unfoldable pub alloc_zeroed : Alloc Heap → Heap → ℕ → ℕ → Heap × Option ℕ
alloc_zeroed a h size align =
    let (h', r) = alloc_alloc a h size align in
    elim r [ none ↦ (h', none) | some ptr ↦ (memset h' ptr 0 size, some ptr) ]

unfoldable pub alloc_libc_xalloc : Heap → ℕ → ℕ → Heap × Option ℕ
alloc_libc_xalloc h size align =
    if (size == 0) || ltb ptrdiff_max size
    then (h, none)
    else if ltb max_align align
    then (h, none)
    else malloc h size

-- A failed shrink answers with the old block.
abbrev pub shrunk : ℕ → ℕ → ℕ → Heap × Option ℕ → Heap × Option ℕ
shrunk ptr old_size new_size (h, some grown) = (h, some grown)
shrunk ptr old_size new_size (h, none) = (h, if leb new_size old_size then some ptr else none)

unfoldable pub alloc_libc_xrealloc : Heap → ℕ → ℕ → ℕ → ℕ → Heap × Option ℕ
alloc_libc_xrealloc h ptr old_size new_size align =
    if (new_size == 0) || ltb ptrdiff_max new_size
    then (h, none)
    else if ltb max_align align
    then (h, none)
    else if ptr == 0
    then malloc h new_size
    else shrunk ptr old_size new_size (realloc h ptr new_size)

unfoldable pub alloc_libc_xfree : Heap → ℕ → ℕ → ℕ → Heap
alloc_libc_xfree h ptr size align = free h ptr

abbrev pub alloc_libc : Alloc Heap
alloc_libc = record {
  xalloc = alloc_libc_xalloc;
  xrealloc = alloc_libc_xrealloc;
  xfree = alloc_libc_xfree;
}

abbrev pub alloc_null_xalloc : {W : Type 0} → W → ℕ → ℕ → W × Option ℕ
alloc_null_xalloc w size align = (w, none)

abbrev pub alloc_null_xrealloc : {W : Type 0} → W → ℕ → ℕ → ℕ → ℕ → W × Option ℕ
alloc_null_xrealloc w ptr old_size new_size align = (w, none)

abbrev pub alloc_null_xfree : {W : Type 0} → W → ℕ → ℕ → ℕ → W
alloc_null_xfree w ptr size align = w

abbrev pub alloc_null : {W : Type 0} → Alloc W
alloc_null = record {
  xalloc = alloc_null_xalloc;
  xrealloc = alloc_null_xrealloc;
  xfree = alloc_null_xfree;
}
