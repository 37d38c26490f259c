-- ===== src/Arena/Life/Start.antt =====
-- A new arena of agenc-arena/src/arena.c is well formed.
use agenc_c.Base.{
  ℕ, ◌+◌, ◌-◌, ◌≤◌, ◌<◌, ◌≡◌, inl, inr, refl, arith, true, false, ◌||◌, List, [], ◌∷◌, ltb, ◌==◌,
  Bool-cases,
}
use agenc_c.Memory.{Heap}
use agenc_c.Str.Valid.{IsHeap}
use agenc_c.Alloc.{Alloc, alloc_null, ptrdiff_max}
use agenc_c.Arena.Types.{
  ArenaStatus, ok, err_arg, err_overflow, Arena, Block, block_hdr, fixed_overhead,
  min_block_default, max_block_default,
}
use agenc_c.Arena.Align.{padding}
use agenc_c.Arena.Life.{arena_init, arena_init_sized, arena_init_fixed}
use agenc_c.Arena.Measure.{
  All, covers, serves, held, consumed, hits, handed_out, IsBlock, IsArena, IsParent,
}

-- A growing arena without blocks, under a policy of block sizes.
pub unused :
    (h : Heap) (parent : Alloc Heap) (min_block max_block generation : ℕ) (status : ArenaStatus)
    → IsHeap h
    → IsParent parent
    → min_block ≤ max_block
    → max_block ≤ ptrdiff_max
    → IsArena h
        (record (arena_init parent) {
          min_block = min_block;
          max_block = max_block;
          next_block = min_block;
          status = status;
          generation = generation;
        })
        []
unfolding arena_init covers serves held consumed hits handed_out
unused h parent min_block max_block generation status v p l m = record {
  pool = record {
    heap = v;
    parent = inr p;
    apart = λ x. omega arith;
    chain = tt;
    free = tt;
    total = omega (arith, v);
    committed = inr (omega arith);
    policy = l;
    policy_le = m;
  };
  room = λ x. omega arith;
  used_ge = omega arith;
  used_le = omega arith;
  high = omega arith;
}

pub arena_init-IsArena :
    (h : Heap) (parent : Alloc Heap) → IsHeap h → IsParent parent → IsArena h (arena_init parent) []
unfolding arena_init
arena_init-IsArena h parent v p =
    unused h parent min_block_default max_block_default 0 ok v p (omega arith) (omega arith)

bad_policy :
    (parent : Alloc Heap) (min_block max_block : ℕ)
    → ltb min_block fixed_overhead || ltb max_block min_block || ltb ptrdiff_max max_block ≡ true
    → (arena_init_sized parent min_block max_block).0
      ≡ record (arena_init parent) { status = err_arg }
unfolding arena_init_sized arena_init
bad_policy parent min_block max_block e = rw e refl

good_policy :
    (parent : Alloc Heap) (min_block max_block : ℕ)
    → ltb min_block fixed_overhead || ltb max_block min_block || ltb ptrdiff_max max_block ≡ false
    → (arena_init_sized parent min_block max_block).0 ≡ record (arena_init parent) {
      min_block = min_block;
      max_block = max_block;
      next_block = min_block;
    }
unfolding arena_init_sized arena_init
good_policy parent min_block max_block e = rw e refl

pub arena_init_sized-IsArena :
    (h : Heap) (parent : Alloc Heap) (min_block max_block : ℕ)
    → IsHeap h
    → IsParent parent
    → IsArena h (arena_init_sized parent min_block max_block).0 []
unfolding arena_init
arena_init_sized-IsArena h parent min_block max_block v p =
    elim (Bool-cases
      (ltb min_block fixed_overhead || ltb max_block min_block || ltb ptrdiff_max max_block)) [
        | inl e ↦ rw (bad_policy parent min_block max_block e) (
            unused h parent min_block_default max_block_default 0 err_arg v p (omega arith)
              (omega arith))
        | inr e ↦
            rw (good_policy parent min_block max_block e)
              (unused h parent min_block max_block 0 ok v p (ground arith) (ground arith))
      ]

-- A fixed arena with the chain `c` over `size` bytes.
abbrev over : List Block → ℕ → ArenaStatus → Arena
over c size status = record (arena_init alloc_null) {
  fixed = true;
  min_block = 0;
  max_block = 0;
  next_block = 0;
  committed = size;
  current = c;
  status = status;
}

over-IsArena :
    (h : Heap) (c : List Block) (size : ℕ) (status : ArenaStatus)
    → IsHeap h
    → All (IsBlock h true) c
    → ((x : ℕ) → covers x c ≤ 1)
    → held c ≤ h.brk
    → IsArena h (over c size status) []
unfolding arena_init covers held consumed hits handed_out
over-IsArena h c size status v u apart l = record {
  pool = record {
    heap = v;
    parent = inl refl;
    apart = λ x. omega (arith, apart x);
    chain = u;
    free = tt;
    total = omega (arith, l);
    committed = inl refl;
    policy = omega arith;
    policy_le = omega arith;
  };
  room = λ x. omega arith;
  used_ge = omega arith;
  used_le = omega arith;
  high = omega arith;
}

module _ (h : Heap) (v : IsHeap h) (buffer size : ℕ) where
  none_over : (n : ℕ) (status : ArenaStatus) → IsArena h (over [] n status) []
  unfolding covers held
  none_over n status = over-IsArena h [] n status v tt (λ x. omega arith) (omega arith)

  one_over :
      (pad : ℕ)
      → 0 < buffer
      → size ≤ ptrdiff_max
      → buffer + size ≤ h.brk
      → pad + block_hdr ≤ size
      → IsArena h
          (over
            (record {
              base = buffer + pad;
              cap = size - pad - block_hdr;
              used = 0;
              oversize = false;
            }
              ∷ [])
            size
            ok)
          []
  unfolding covers held
  one_over pad pos l below room =
      over-IsArena h _ size ok v
        (
          record {
            base_pos = omega arith;
            used_le = omega arith;
            cap_le = omega arith;
            below = omega arith;
            known = inl (refl, refl);
          },
          tt,
        )
        (λ x. ground arith) (omega arith)

  pub arena_init_fixed-IsArena : buffer + size ≤ h.brk → IsArena h (arena_init_fixed buffer size) []
  unfolding arena_init_fixed arena_init
  arena_init_fixed-IsArena below =
      let pad = padding buffer 8 in
      elim (Bool-cases ((buffer == 0) || (size == 0))) [
        | inl e ↦ rw e (none_over 0 err_arg)
        | inr e ↦ elim (Bool-cases (ltb ptrdiff_max size)) [
          | inl big ↦ rw (e, big) (none_over 0 err_overflow)
          | inr small ↦ elim (Bool-cases (ltb size pad || ltb (size - pad) block_hdr)) [
            | inl tight ↦ rw (e, small, tight) (none_over size ok)
            | inr room ↦
                rw (e, small, room)
                  (one_over pad (ground arith) (ground arith) below (ground arith))
          ]
        ]
      ]
