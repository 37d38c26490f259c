-- ===== src/Arena/Tests.antt =====
-- Runs of the arena's model on small inputs, and each of its theorems that has hypotheses at an
-- input that meets them.
use agenc_c.Base.{
  ℕ, ◌+◌, ◌*◌, ◌<◌, ◌≡◌, ◌⊎◌, ◌↔◌, refl, inr, arith, [], ◌∷◌, some, none, true, false, leb,
  if◌then◌else◌,
}
use agenc_c.Memory.{Heap, malloc}
use agenc_c.Str.Valid.{IsHeap}
use agenc_c.Alloc.{alloc_libc, alloc_libc_xalloc, ptrdiff_max}
use agenc_c.Alloc.Libc.{alloc_libc-IsParent}
use agenc_c.Arena.Types.{Arena, Served, release, ok, err_overflow, redzone}
use agenc_c.Arena.Align.{padding, arena_align_valid, arena_align_effective}
use agenc_c.Arena.Align.Bits.{IsAlign}
use agenc_c.Arena.Align.Valid.{arena_align_valid_iff}
use agenc_c.Arena.Bump.{
  arena_alloc_impl, arena_alloc_core, arena_try_bump, arena_grow_and_bump, arena_new_block,
  arena_take_free_block,
}
use agenc_c.Arena.Block.{arena_fail, fill}
use agenc_c.Arena.Bump.Grow.{Allots}
use agenc_c.Arena.Bump.Serve.{arena_alloc_impl-Allots, arena_alloc_impl-product}
use agenc_c.Arena.Life.{arena_init}
use agenc_c.Arena.Life.Start.{arena_init-IsArena}
use agenc_c.Arena.Measure.{IsArena}
use agenc_c.Arena.Resize.{realloc_valid}
use agenc_c.Arena.Resize.Move.{Resizes, realloc_valid-Resizes}
use agenc_c.Arena.Life.{deinit_valid}
use agenc_c.Arena.Life.Release.{Released, deinit_valid-Released}
use agenc_c.Arena.Scope.{begun, arena_temp_begin, arena_temp_end}
use agenc_c.Arena.Scope.Run.{stay, allot}
use agenc_c.Arena.Scope.Trip.{Restores, temp_round_trip}

abbrev new_heap : Heap
new_heap = record {
  byte = λ x. 7;
  size = λ x. 0;
  brk = 16;
  live = 0;
  tries = 0;
  plan = λ n. some 0;
  scrap = λ x. 90;
}

abbrev new_arena : Arena
new_arena = arena_init alloc_libc

new_heap-IsHeap : IsHeap new_heap
new_heap-IsHeap = omega arith

new_arena-IsArena : IsArena new_heap new_arena []
new_arena-IsArena = arena_init-IsArena new_heap alloc_libc new_heap-IsHeap alloc_libc-IsParent

new_arena_ok : new_arena.status ≡ ok
unfolding arena_init
new_arena_ok = refl

abbrev line : ℕ
line = 64

arena_align_valid_iff_example : (arena_align_valid line ≡ true) ↔ ((line ≡ 0) ⊎ IsAlign line)
arena_align_valid_iff_example = arena_align_valid_iff line (omega arith)

line_valid : arena_align_valid line ≡ true
line_valid = (arena_align_valid_iff line (omega arith)).1 (inr (6, omega arith, refl))

arena_alloc_impl-product_example :
    arena_alloc_impl release new_heap new_arena 0x1_0000_0000 0x1_0000_0000 line ≡ (
      if leb (0x1_0000_0000 * 0x1_0000_0000) ptrdiff_max
      then arena_alloc_core release new_heap new_arena
          (0x1_0000_0000 * 0x1_0000_0000)
          (arena_align_effective release line)
      else (new_heap, arena_fail new_arena err_overflow, none))
arena_alloc_impl-product_example =
    arena_alloc_impl-product release new_heap new_arena 0x1_0000_0000 0x1_0000_0000 line
      new_arena_ok line_valid (omega arith) (omega arith)

arena_alloc_impl-Allots_example :
    Allots new_heap new_arena []
      (3 * 8)
      (arena_align_effective release line)
      (arena_alloc_impl release new_heap new_arena 3 8 line)
arena_alloc_impl-Allots_example =
    arena_alloc_impl-Allots release new_heap new_arena [] new_arena-IsArena 3 8 line new_arena_ok
      (omega arith) (omega arith) (omega arith)

room : new_arena.temp_depth + 1 < 0x1_0000_0000
unfolding arena_init
room = omega arith

-- Inside a scope of the new arena.
abbrev inside : Served
inside = arena_alloc_impl release new_heap (begun new_arena) 3 8 line

temp_round_trip_example :
    Restores new_heap new_arena []
      (arena_temp_end release inside.0 (some inside.1) (arena_temp_begin (some new_arena)).1)
temp_round_trip_example =
    temp_round_trip release new_heap new_arena [] new_arena-IsArena room inside.0 inside.1 _
      (allot stay 3 8 line (omega arith))

-- The first allocation.
abbrev first : Served
first = arena_alloc_impl release new_heap new_arena 3 8 line

first_facts :
    (first.2 ≡ some 64)
    × IsArena first.0 first.1 (record { ptr = 64; size = 24 } ∷ [])
    × (first.1.status ≡ ok)
    × (first.1.fixed ≡ false)
unfolding arena_alloc_impl arena_alloc_core arena_try_bump arena_grow_and_bump arena_new_block
    arena_take_free_block arena_init alloc_libc_xalloc malloc padding redzone arena_align_effective
    arena_align_valid fill
first_facts = (
  refl,
  (arena_alloc_impl-Allots release new_heap new_arena [] new_arena-IsArena 3 8 line new_arena_ok
      (omega arith) (omega arith) (omega arith)).arena,
  refl,
  refl,
)

no_redzone : redzone release ≡ 0
unfolding redzone
no_redzone = refl

realloc_valid-Resizes_example :
    Resizes first.0 first.1 64 24 100
      (arena_align_effective release line)
      []
      (realloc_valid release first.0 first.1 64 24 100 line)
realloc_valid-Resizes_example =
    realloc_valid-Resizes release first.0 first.1 [] 64 24 100 line first_facts.1 no_redzone
      first_facts.2 (omega arith) (omega arith) (omega arith)

deinit_valid-Released_example :
    Released first.0 first.1
      (deinit_valid release first.0 first.1).0
      (deinit_valid release first.0 first.1).1
deinit_valid-Released_example =
    deinit_valid-Released release first.0 first.1 (record { ptr = 64; size = 24 } ∷ [])
      first_facts.1 first_facts.3
