-- ===== src/Arena/Life/Release.antt =====
-- The release of all blocks in agenc-arena/src/arena.c: `arena_release_chain` and `arena_deinit`.
use agenc_c.Base.{
  ℕ, ◌+◌, ◌≤◌, ◌≡◌, refl, ap, sym, ◌∙◌, subst, arith, false, List, [], ◌∷◌, if◌then◌else◌,
}
use agenc_c.Memory.{Heap}
use agenc_c.Str.Valid.{IsHeap}
use agenc_c.Arena.Types.{
  ok, min_block_default, max_block_default, Build, Block, Arena, add_unsigned,
}
use agenc_c.Arena.Block.{
  arena_block_data, block_size, fill, arena_release_block, arena_release_chain,
}
use agenc_c.Arena.Bump.Frame.{fill-Filled, All-map}
use agenc_c.Arena.Life.{arena_init, deinit_valid, release_all}
use agenc_c.Arena.Life.Start.{unused}
use agenc_c.Arena.Scope.Drop.{Dropped, given_back, grown_from}
use agenc_c.Arena.Measure.{All, covers, held, Span, Returned, IsBlock, IsFree, IsPool, IsArena}

-- The blocks went back to the parent; memory outside them is as it was.
pub record Freed (h : Heap) (a : Arena) (blocks : List Block) (h' : Heap) (a' : Arena)
    : Type 0 where
  pub pool : IsPool h' a' []
  pub parent : a'.parent ≡ a.parent
  pub free : a'.free_blocks ≡ a.free_blocks
  pub fixed : a'.fixed ≡ a.fixed
  pub gone : All (λ block. h'.size block.base ≡ 0) blocks
  pub bytes : (x : ℕ) → covers x blocks ≡ 0 → h'.byte x ≡ h.byte x
  pub sizes : (x : ℕ) → covers x blocks ≡ 0 → h'.size x ≡ h.size x

released-free :
    (b : Build) (h : Heap) (a : Arena) (block : Block)
    → (arena_release_block b h a block).1.free_blocks ≡ a.free_blocks
unfolding arena_release_block
released-free b h a block = refl

module _ (b : Build) where
  -- The parent takes back the newest block.
  returned :
      (h : Heap) (a : Arena) (block : Block) (c : List Block)
      → IsPool h a (block ∷ c)
      → a.fixed ≡ false
      → Returned
          (fill b h (arena_block_data block) 0x5a block.used)
          block.base
          (block_size block)
          (arena_release_block b h a block).0
  unfolding arena_release_block
  returned h a block c v e =
      let w = fill-Filled b h (arena_block_data block) 0x5a block.used in
      let known : h.size block.base ≡ block_size block = ground (arith, v.chain.0.known, e) in
      let parent = grown_from v.parent e in
      parent.xfree _ block.base (block_size block) (omega (arith, v.heap, w.brk)) v.chain.0.base_pos
        (omega arith) (omega (arith, known, w.size block.base))

  dropped :
      (h : Heap) (a : Arena) (block : Block) (c : List Block)
      → IsPool h a (block ∷ c)
      → a.fixed ≡ false
      → Dropped h a block c (arena_release_block b h a block).0 (arena_release_block b h a block).1
  unfolding arena_release_block
  dropped h a block c v e =
      given_back b h a block c v _ _ (fill-Filled b h (arena_block_data block) 0x5a block.used)
        (returned h a block c v e) e

  pub arena_release_chain-Freed :
      (blocks : List Block) (h : Heap) (a : Arena)
      → IsPool h a blocks
      → a.fixed ≡ false
      → let r = arena_release_chain b h a blocks in Freed h a blocks r.0 r.1
  unfolding arena_release_chain covers
  arena_release_chain-Freed [] h a v e = record {
    pool = v;
    parent = refl;
    free = refl;
    fixed = refl;
    gone = tt;
    bytes = λ x out. refl;
    sizes = λ x out. refl;
  }
  arena_release_chain-Freed (block ∷ rest) h a v e =
      let d = dropped h a block rest v e in
      let g = returned h a block rest v e in
      let w = fill-Filled b h (arena_block_data block) 0x5a block.used in
      let (h1, a1) = arena_release_block b h a block in
      let same : a1.fixed ≡ a.fixed = ap (λ t. t.fixed) d.arena in
      let z = arena_release_chain-Freed rest h1 a1 d.pool (same ∙ e) in
      record {
        pool = z.pool;
        parent = z.parent ∙ ap (λ t. t.parent) d.arena;
        free = z.free ∙ released-free b h a block;
        fixed = z.fixed ∙ same;
        gone = (z.sizes block.base (ground (arith, v.apart block.base)) ∙ g.gone, z.gone);
        bytes = λ x out. z.bytes x (omega (arith, out)) ∙ d.kept x (omega (arith, out));
        sizes =
            λ x out. z.sizes x (omega (arith, out)) ∙ g.sizes x (ground (arith, out)) ∙ w.size x;
      }

-- The retained blocks as a chain.
retained-IsPool :
    (h : Heap) (a : Arena) → IsPool h a [] → IsPool h (record a { free_blocks = [] }) a.free_blocks
unfolding covers held
retained-IsPool h a v = record {
  heap = v.heap;
  parent = v.parent;
  apart = λ x. omega (arith, v.apart x);
  chain = All-map (IsFree h a.fixed) (IsBlock h a.fixed) a.free_blocks (λ block f. f.0) v.free;
  free = tt;
  total = omega (arith, v.total);
  committed = ground (arith, v.committed);
  policy = v.policy;
  policy_le = v.policy_le;
}

-- A release does not read the free list.
release_chain_heap :
    (b : Build) (c : List Block) (h : Heap) (a : Arena)
    → (arena_release_chain b h (record a { free_blocks = [] }) c).0
      ≡ (arena_release_chain b h a c).0
unfolding arena_release_chain arena_release_block
release_chain_heap b [] h a = refl
release_chain_heap b (block ∷ rest) h a =
    release_chain_heap b rest (arena_release_block b h a block).0
      (arena_release_block b h a block).1

-- No block of the chain starts inside a retained block.
uncovered :
    (c d : List Block)
    → ((x : ℕ) → covers x c + covers x d ≤ 1)
    → All (λ block. covers block.base d ≡ 0) c
unfolding covers
uncovered [] d u = tt
uncovered (block ∷ rest) d u =
    (ground (arith, u block.base), uncovered rest d (λ x. omega (arith, u x)))

All-both {ℓ} :
    {A : Type ℓ} (P Q R : A → Type 0) (xs : List A)
    → ((x : A) → P x → Q x → R x)
    → All P xs
    → All Q xs
    → All R xs
All-both P Q R [] f u v = tt
All-both P Q R (x ∷ xs) f u v = (f x u.0 v.0, All-both P Q R xs f u.1 v.1)

-- The arena has no block, no allocation and no error on record, and grows by the default policy.
pub record IsUnused (a : Arena) : Type 0 where
  pub status : a.status ≡ ok
  pub current : a.current ≡ []
  pub free : a.free_blocks ≡ []
  pub used : a.used ≡ 0
  pub committed : a.committed ≡ 0
  pub high_water : a.high_water ≡ 0
  pub depth : a.temp_depth ≡ 0
  pub growing : a.fixed ≡ false
  pub min_block : a.min_block ≡ min_block_default
  pub max_block : a.max_block ≡ max_block_default
  pub next_block : a.next_block ≡ min_block_default

-- All blocks are the parent's again, and the arena is as new but for its generation.
pub record Released (h : Heap) (a : Arena) (h' : Heap) (a' : Arena) : Type 0 where
  pub arena : IsArena h' a' []
  pub fresh : IsUnused a'
  pub parent : a'.parent ≡ a.parent
  pub generation : a'.generation ≡ add_unsigned a.generation 1
  pub chain : All (λ block. h'.size block.base ≡ 0) a.current
  pub retained : All (λ block. h'.size block.base ≡ 0) a.free_blocks
  pub kept : (x : ℕ) → covers x a.current + covers x a.free_blocks ≡ 0 → h'.byte x ≡ h.byte x

module _ (b : Build) (h : Heap) (a : Arena) (live : List Span) (v : IsArena h a live)
    (e : a.fixed ≡ false) where
  release_all-Released :
      Released h a
        (release_all b h a).0
        (record (arena_init a.parent) { generation = add_unsigned a.generation 1 })
  unfolding arena_init
  release_all-Released =
      let z = arena_release_chain-Freed b a.current h a v.pool e in
      let (h1, a1) = arena_release_chain b h a a.current in
      let w =
        arena_release_chain-Freed b a1.free_blocks h1 (record a1 { free_blocks = [] })
          (retained-IsPool h1 a1 z.pool) (z.fixed ∙ e) in
      let same = release_chain_heap b a1.free_blocks h1 a1 in
      let (h2, a2) = arena_release_chain b h1 a1 a1.free_blocks in
      record {
        arena =
            unused h2 a.parent min_block_default max_block_default (add_unsigned a.generation 1) ok
              (subst IsHeap same w.pool.heap) (grown_from v.pool.parent e) (omega arith)
              (omega arith);
        fresh = record {
          status = refl;
          current = refl;
          free = refl;
          used = refl;
          committed = refl;
          high_water = refl;
          depth = refl;
          growing = refl;
          min_block = refl;
          max_block = refl;
          next_block = refl;
        };
        parent = refl;
        generation = refl;
        chain =
            All-both (λ block. h1.size block.base ≡ 0)
              (λ block. covers block.base a.free_blocks ≡ 0) (λ block. h2.size block.base ≡ 0)
              a.current
              (λ block u q.
                sym (ap (λ t. t.size block.base) same)
                ∙ w.sizes block.base (ap (covers block.base) z.free ∙ q)
                ∙ u)
              z.gone (uncovered a.current a.free_blocks v.pool.apart);
        retained =
            subst (λ t. All (λ block. h2.size block.base ≡ 0) t) z.free
              (subst (λ t. All (λ block. t.size block.base ≡ 0) a1.free_blocks) same w.gone);
        kept = λ x out.
            sym (ap (λ t. t.byte x) same)
            ∙ w.bytes x (ap (covers x) z.free ∙ omega (arith, out))
            ∙ z.bytes x (omega (arith, out));
      }

  -- On a well-formed arena that is not fixed, arena_deinit leaves a well-formed arena without
  -- live allocations, with the same parent, the next generation and all other fields as in a new
  -- arena (no blocks, counters at zero, status ARENA_OK, the default block sizes); the parent
  -- has no block any more at the address of any block of the chain or of the free list, and
  -- memory outside those blocks is unchanged.
  pub deinit_valid-Released : let r = deinit_valid b h a in Released h a r.0 r.1
  unfolding deinit_valid
  deinit_valid-Released =
      subst
        (λ k.
          Released h a (if k then h else (release_all b h a).0)
            (record (arena_init a.parent) { generation = add_unsigned a.generation 1 }))
        (sym e) release_all-Released
