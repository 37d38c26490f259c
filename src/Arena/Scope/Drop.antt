-- ===== src/Arena/Scope/Drop.antt =====
-- One block leaves the chain of an arena of agenc-arena/src/arena.c.
use agenc_c.Base.{
  ℕ, ◌+◌, ◌-◌, ◌≤◌, ◌<◌, ◌≡◌, ◌≢◌, ◌⊎◌, inl, inr, refl, ◌∙◌, arith, Bool, true, false, List, [],
  ◌∷◌, leb, if◌then◌else◌, Bool-cases,
}
use agenc_c.Memory.{Heap}
use agenc_c.Alloc.{Alloc}
use agenc_c.Arena.Types.{Build, Block, Arena, sub_word}
use agenc_c.Arena.Block.{
  arena_block_data, arena_mark_dead, arena_retire_block, arena_release_block, arena_drop_block,
  block_size,
}
use agenc_c.Arena.Bump.Frame.{Filled, fill-Filled, Filled-IsBlock, All-map}
use agenc_c.Arena.Measure.{All, spans, covers, held, Returned, IsBlock, IsFree, IsPool, IsParent}

pub mark_dead-Filled :
    (b : Build) (h : Heap) (block : Block) (keep dead_end : ℕ)
    → Filled h
        (arena_block_data block + keep)
        (dead_end - keep)
        (arena_mark_dead b h block keep dead_end)
unfolding arena_mark_dead
mark_dead-Filled b h block keep dead_end = elim (Bool-cases (leb dead_end keep)) [
  | inl e ↦ rw e (record { brk = refl; size = λ x. refl; live = refl; kept = λ x o. refl })
  | inr e ↦ rw e (fill-Filled b h (arena_block_data block + keep) 0x5a (dead_end - keep))
]

-- A block that has handed out less is a block.
pub lower-IsBlock :
    (h : Heap) (fixed : Bool) (block : Block) (n : ℕ)
    → n ≤ block.used
    → IsBlock h fixed block
    → IsBlock h fixed (record block { used = n })
lower-IsBlock h fixed block n l v = record {
  base_pos = v.base_pos;
  used_le = omega (arith, l, v.used_le);
  cap_le = v.cap_le;
  below = v.below;
  known = v.known;
}

-- A block has left the chain: the rest of the pool is well formed, and only the block's bytes may
-- have changed.
pub record Dropped (h : Heap) (a : Arena) (block : Block) (c : List Block) (h' : Heap) (a' : Arena)
    : Type 0 where
  pub pool : IsPool h' a' c
  pub arena : a' ≡ record a { free_blocks = a'.free_blocks; committed = a'.committed }
  pub kept : (x : ℕ) → spans block.base (block_size block) x ≡ 0 → h'.byte x ≡ h.byte x

-- A block is apart from the blocks of a chain, so its address is none of theirs.
All-apart :
    (P Q : Block → Type 0) (p n : ℕ) (c : List Block)
    → 0 < n
    → ((x : ℕ) → spans p n x + covers x c ≤ 1)
    → ((other : Block) → P other → other.base ≢ p → Q other)
    → All P c
    → All Q c
unfolding covers
All-apart P Q p n [] pos u f v = tt
All-apart P Q p n (block ∷ rest) pos u f v = (
  f block v.0 (λ e. absurd (ground (arith, u p))),
  All-apart P Q p n rest pos (λ x. omega (arith, u x)) f v.1,
)

-- An arena that is not fixed has a parent.
pub grown_from :
    {fixed : Bool} {parent : Alloc Heap}
    → (fixed ≡ true) ⊎ IsParent parent
    → fixed ≡ false
    → IsParent parent
grown_from (inl e) f = absurd (ground arith)
grown_from (inr p) f = p

module _ (b : Build) (h : Heap) (a : Arena) (block : Block) (c : List Block)
    (v : IsPool h a (block ∷ c)) where
  retired :
      Dropped h a block c (arena_retire_block b h a block).0 (arena_retire_block b h a block).1
  unfolding arena_retire_block covers held
  retired =
      let w = mark_dead-Filled b h block 0 block.used in
      let now = Filled-IsBlock h _ _ _ a.fixed w in
      record {
        pool = record {
          heap = omega (arith, v.heap, w.brk);
          parent = v.parent;
          apart = λ x. omega (arith, v.apart x);
          chain = All-map (IsBlock h a.fixed) (IsBlock _ a.fixed) c now v.chain.1;
          free = (
            (lower-IsBlock _ a.fixed block 0 (omega arith) (now block v.chain.0), refl),
            All-map (IsFree h a.fixed) (IsFree _ a.fixed) a.free_blocks
                (λ free f. (now free f.0, f.1)) v.free,
          );
          total = omega (arith, v.total, w.brk);
          committed = ground (arith, v.committed);
          policy = v.policy;
          policy_le = v.policy_le;
        };
        arena = refl;
        kept = λ x out. w.kept x (ground (arith, v.chain.0));
      }

  -- What the parent does to other blocks.
  other-IsBlock :
      (h1 h2 : Heap)
      → Filled h (arena_block_data block) block.used h1
      → Returned h1 block.base (block_size block) h2
      → (other : Block) → IsBlock h a.fixed other
      → other.base ≢ block.base
      → IsBlock h2 a.fixed other
  other-IsBlock h1 h2 w g other u apart = record {
    base_pos = u.base_pos;
    used_le = u.used_le;
    cap_le = u.cap_le;
    below = omega (arith, u.below, w.brk, g.top);
    known = ground (arith, u.known, w.size other.base, g.sizes other.base);
  }

  pub given_back :
      (h1 h2 : Heap)
      → Filled h (arena_block_data block) block.used h1
      → Returned h1 block.base (block_size block) h2
      → a.fixed ≡ false
      → Dropped h a block c h2 (record a { committed = sub_word a.committed (block_size block) })
  unfolding covers held
  given_back h1 h2 w g e = record {
    pool = record {
      heap = omega (arith, v.heap, w.brk, g.top);
      parent = v.parent;
      apart = λ x. omega (arith, v.apart x);
      chain =
          All-apart (IsBlock h a.fixed) (IsBlock h2 a.fixed) block.base (block_size block) c
            (omega arith) (λ x. omega (arith, v.apart x)) (other-IsBlock h1 h2 w g) v.chain.1;
      free =
          All-apart (IsFree h a.fixed) (IsFree h2 a.fixed) block.base (block_size block)
            a.free_blocks (omega arith) (λ x. omega (arith, v.apart x))
            (λ other u n. (other-IsBlock h1 h2 w g other u.0 n, u.1)) v.free;
      total = omega (arith, v.total, w.brk, g.top);
      committed = ground (arith, v.committed, v.total, v.heap);
      policy = v.policy;
      policy_le = v.policy_le;
    };
    arena = refl;
    kept = λ x out. g.kept x (ground arith) ∙ w.kept x (ground (arith, v.chain.0));
  }

  released :
      block.oversize ≡ true
      → Dropped h a block c (arena_release_block b h a block).0 (arena_release_block b h a block).1
  unfolding arena_release_block
  released big =
      let w = fill-Filled b h (arena_block_data block) 0x5a block.used in
      let known : (a.fixed ≡ false) × (h.size block.base ≡ block_size block) =
        ground (arith, v.chain.0.known, big) in
      let parent = grown_from v.parent known.0 in
      given_back _ _ w
        (parent.xfree _ block.base (block_size block) (omega (arith, v.heap, w.brk))
          (v.chain.0.base_pos) (omega arith) (omega (arith, known.1, w.size block.base)))
        known.0

  chosen :
      (o : Bool)
      → block.oversize ≡ o
      → let r = if o then arena_release_block b h a block else arena_retire_block b h a block in
        Dropped h a block c r.0 r.1
  chosen true e = released e
  chosen false e = retired

  pub arena_drop_block-Dropped :
      Dropped h a block c (arena_drop_block b h a block).0 (arena_drop_block b h a block).1
  arena_drop_block-Dropped = chosen block.oversize refl
