-- ===== src/Arena/Bump/Room.antt =====
-- The bump in the newest block of an arena keeps the invariant of agenc-arena/src/arena.c.
use agenc_c.Arena.Bump.Above.{Above, Above-raised}
use agenc_c.Arena.Bump.Frame.{
  consumed-le-held, serves-le-covers, spans_behind, held-cons, consumed-cons, fill-Filled, All-map,
  Filled-IsBlock,
}
use agenc_c.Base.{
  ℕ, ◌+◌, ◌-◌, ◌%◌, ◌≤◌, ◌<◌, ◌≡◌, ◌⊎◌, inl, inr, refl, arith, none, some, List, [], ◌∷◌, le→ltb,
  lt→ltb,
}
use native.Mathlib.Decide.{dec_le}
use agenc_c.Memory.{Heap}
use agenc_c.Arena.Types.{Build, redzone, Block, Arena, Served}
use agenc_c.Arena.Align.{padding}
use agenc_c.Arena.Align.Bits.{IsAlign, padding-lt, padding-aligns}
use agenc_c.Arena.Block.{arena_block_data, fill}
use agenc_c.Arena.Bump.{arena_try_bump, bumped}
use agenc_c.Arena.Measure.{
  covers, serves, Span, hits, handed_out, held, consumed, IsBlock, IsFree, IsArena,
}

-- An allocation of `size` bytes at `p` joined the live ones; it is aligned, and the others kept
-- their bytes.
pub record Handed (h : Heap) (a : Arena) (live : List Span) (size align : ℕ) (h' : Heap)
    (a' : Arena) (p : ℕ) : Type 0 where
  pub arena : IsArena h' a' (record { ptr = p; size = size } ∷ live)
  pub not_null : 0 < p
  pub aligned : p % align ≡ 0
  pub kept : (x : ℕ) → 0 < hits x live → h'.byte x ≡ h.byte x
  pub above : (c : List Block) → Above c a.current → Above c a'.current
  pub more : a.used ≤ a'.used
  pub counts : (a'.temp_depth ≡ a.temp_depth) × (a'.generation ≡ a.generation)

module _ (b : Build) (h : Heap) (a : Arena) (block : Block) (rest : List Block) (live : List Span)
    (size align pad : ℕ) (v : IsArena h (record a { current = block ∷ rest }) live) where
  -- Bytes behind the fill of the newest block are in no live allocation.
  pub unserved :
      (x : ℕ)
      → arena_block_data block + block.used ≤ x
      → x < arena_block_data block + block.cap
      → hits x live ≡ 0
  unfolding covers serves
  unserved x lo hi =
      ground (arith, v.room x, v.pool.apart x, serves-le-covers h a.fixed x rest v.pool.chain.1)

  bumped-IsArena :
      pad + (size + redzone b) ≤ block.cap - block.used
      → IsArena
          (fill b h (arena_block_data block + block.used + pad) 0xa5 size)
          (bumped b h
            (record a { current = block ∷ rest })
            block
            rest
            pad
            (size + redzone b)
            size).1
          (record { ptr = arena_block_data block + block.used + pad; size = size } ∷ live)
  unfolding covers serves hits handed_out held consumed
  bumped-IsArena fits =
      let w = fill-Filled b h (arena_block_data block + block.used + pad) 0xa5 size in
      let c = consumed-le-held h a.fixed rest v.pool.chain.1 in
      record {
        pool = record {
          heap = omega (arith, v.pool.heap, w.brk);
          parent = v.pool.parent;
          apart = v.pool.apart;
          chain = (
            ground (arith, Filled-IsBlock h _ _ _ a.fixed w block v.pool.chain.0),
            All-map (IsBlock h a.fixed) (IsBlock _ a.fixed) rest (Filled-IsBlock h _ _ _ a.fixed w)
                v.pool.chain.1,
          );
          free =
              All-map (IsFree h a.fixed) (IsFree _ a.fixed) a.free_blocks
                (λ free f. (Filled-IsBlock h _ _ _ a.fixed w free f.0, f.1)) v.pool.free;
          total = omega (arith, v.pool.total, w.brk);
          committed = v.pool.committed;
          policy = v.pool.policy;
          policy_le = v.pool.policy_le;
        };
        room = λ x. omega (
          arith,
          v.room x,
          spans_behind (arena_block_data block) block.used pad size (redzone b) x,
        );
        used_ge = omega (arith, v.used_ge, v.used_le, v.pool.total, v.pool.heap, v.pool.chain.0, c);
        used_le = omega (arith, v.used_le);
        high = ground arith;
      }

-- The outcomes of a bump: an allocation, or nothing has changed.
abbrev pub Bumps : Heap → Arena → List Span → ℕ → ℕ → Served → Type 0
Bumps h a live size align (h', a', some p) = Handed h a live size align h' a' p
Bumps h a live size align (h', a', none) = (h' ≡ h) × (a' ≡ a)

module _ (b : Build) (h : Heap) (a : Arena) (live : List Span) (size align : ℕ)
    (i : IsAlign align) where
  pub bumped-Handed :
      (block : Block) (rest : List Block)
      → IsArena h (record a { current = block ∷ rest }) live
      → let pad = padding (arena_block_data block + block.used) align in
        pad + (size + redzone b) ≤ block.cap - block.used
        → Bumps h
            (record a { current = block ∷ rest })
            live
            size
            align
            (bumped b h
              (record a { current = block ∷ rest })
              block
              rest
              pad
              (size + redzone b)
              size)
  bumped-Handed block rest v fits =
      let cursor = arena_block_data block + block.used in
      let w = fill-Filled b h (cursor + padding cursor align) 0xa5 size in
      let pads = padding-lt cursor align i in
      record {
        arena = bumped-IsArena b h a block rest live size align (padding cursor align) v fits;
        not_null = omega arith;
        aligned = padding-aligns cursor align i (omega (arith, v.pool.chain.0, v.pool.heap));
        kept = λ x l. w.kept x (omega (arith, kept_from x l, fits, v.pool.chain.0));
        above = λ c.
            Above-raised c rest block (block.used + (padding cursor align + (size + redzone b)))
              (omega arith);
        more = omega (
          arith,
          v.used_le,
          v.pool.total,
          v.pool.heap,
          v.pool.chain.0,
          fits,
          consumed-le-held h a.fixed rest v.pool.chain.1,
          held-cons block rest,
          consumed-cons block rest,
        );
        counts = (refl, refl);
      }
    where
      kept_from :
          (x : ℕ)
          → 0 < hits x live
          → (x < arena_block_data block + block.used) ⊎ (arena_block_data block + block.cap ≤ x)
      kept_from x l = elim (dec_le (arena_block_data block + block.used) x) [
        | no before ↦ inl (omega arith)
        | yes from ↦ elim (dec_le (arena_block_data block + block.cap) x) [
          | yes past ↦ inr past
          | no within_cap ↦
              absurd
                (omega (arith, unserved b h a block rest live size align 0 v x from (omega arith)))
        ]
      ]

  pub arena_try_bump-Bumps :
      (c : List Block)
      → IsArena h (record a { current = c }) live
      → Bumps h
          (record a { current = c })
          live
          size
          align
          (arena_try_bump b h (record a { current = c }) size align)
  unfolding arena_try_bump
  arena_try_bump-Bumps [] v = (refl, refl)
  arena_try_bump-Bumps (block ∷ rest) v =
      elim (dec_le (padding (arena_block_data block + block.used) align + (size + redzone b))
        (block.cap - block.used)) [
          | yes fits ↦
              rw
                (le→ltb (block.cap - block.used)
                  (padding (arena_block_data block + block.used) align + (size + redzone b)) fits)
                (bumped-Handed block rest v fits)
          | no over ↦
              rw
                (lt→ltb (block.cap - block.used)
                  (padding (arena_block_data block + block.used) align + (size + redzone b))
                  (omega arith))
                (refl, refl)
        ]
