-- ===== src/Arena/Scope/Pop.antt =====
-- The loop of `arena_pop_to_block` in agenc-arena/src/arena.c: blocks leave the chain, to the free
-- list or to the parent.
use agenc_c.Arena.Scope.Drop.{arena_drop_block-Dropped}
use agenc_c.Base.{ℕ, ◌≡◌, ◌≢◌, refl, ap, ◌∙◌, arith, List, [], ◌∷◌, ◌++◌, ne→==, eq→==}
use agenc_c.Memory.{Heap}
use agenc_c.Arena.Types.{ArenaStatus, Build, Block, Arena}
use agenc_c.Arena.Block.{arena_drop_block, pop_loop}
use agenc_c.Arena.Measure.{All, covers, IsPool}

-- The chain ends at the block that the loop stops at, or with nothing.
abbrev pub Stops : ℕ → List Block → Type 0
Stops stop [] = Unit
Stops stop (block ∷ rest) = block.base ≡ stop

-- An arena with another chain, and with the pool of a second arena.
abbrev pub popped : List Block → Arena → Arena → Arena
popped c from a = record a {
  current = c;
  free_blocks = from.free_blocks;
  committed = from.committed;
}

-- The newer blocks have left the chain, and only their bytes may have changed.
pub record Popped (h : Heap) (a : Arena) (newer c : List Block) (h' : Heap) (a' : Arena)
    : Type 0 where
  pub pool : IsPool h' a' c
  pub arena : a' ≡ popped c a' a
  pub kept : (x : ℕ) → covers x newer ≡ 0 → h'.byte x ≡ h.byte x

-- The pool does not depend on the chain that the arena holds, nor on its other counters.
pub same-IsPool :
    (h : Heap) (a : Arena) (c d : List Block) (used high depth : ℕ) (status : ArenaStatus)
    → IsPool h a c
    → IsPool h
        (record a {
          current = d;
          used = used;
          high_water = high;
          temp_depth = depth;
          status = status;
        })
        c
same-IsPool h a c d used high depth status v = record {
  heap = v.heap;
  parent = v.parent;
  apart = v.apart;
  chain = v.chain;
  free = v.free;
  total = v.total;
  committed = v.committed;
  policy = v.policy;
  policy_le = v.policy_le;
}

module _ (b : Build) (stop : ℕ) where
  stopped :
      (c : List Block) (h : Heap) (a : Arena)
      → Stops stop c
      → IsPool h a c
      → Popped h a [] c (pop_loop b h a stop c).0 (pop_loop b h a stop c).1
  unfolding pop_loop
  stopped [] h a here v = record {
    pool = same-IsPool h a [] [] a.used a.high_water a.temp_depth a.status v;
    arena = refl;
    kept = λ x out. refl;
  }
  stopped (block ∷ rest) h a here v = rw (eq→== block.base stop here) (record {
    pool = same-IsPool h a _ (block ∷ rest) a.used a.high_water a.temp_depth a.status v;
    arena = refl;
    kept = λ x out. refl;
  })

  pub pop_loop-Popped :
      (newer c : List Block) (h : Heap) (a : Arena)
      → Stops stop c
      → IsPool h a (newer ++ c)
      → All (λ block. block.base ≢ stop) newer
      → Popped h a newer c (pop_loop b h a stop (newer ++ c)).0 (pop_loop b h a stop (newer ++ c)).1
  unfolding pop_loop covers
  pop_loop-Popped [] c h a here v away = stopped c h a here v
  pop_loop-Popped (block ∷ newer) c h a here v away =
      let d = arena_drop_block-Dropped b h a block (newer ++ c) v in
      let (h1, a1) = arena_drop_block b h a block in
      let z = pop_loop-Popped newer c h1 a1 here d.pool away.1 in
      rw (ne→== block.base stop away.0) (record {
        pool = z.pool;
        arena = z.arena ∙ ap (popped c (pop_loop b h1 a1 stop (newer ++ c)).1) d.arena;
        kept = λ x out. z.kept x (omega (arith, out)) ∙ d.kept x (omega (arith, out));
      })
