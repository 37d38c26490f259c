-- ===== src/Arena/Bump/Take.antt =====
-- A block joins the chain of an arena of agenc-arena/src/arena.c: a retained one, or a new one.
use agenc_c.Base.{
  ℕ, ◌+◌, ◌-◌, ◌≤◌, ◌≡◌, inr, refl, arith, Bool, false, Option, none, some, List, [], ◌∷◌, le→leb,
  lt→leb,
}
use native.Mathlib.Decide.{dec_le}
use agenc_c.Memory.{Heap}
use agenc_c.Alloc.{ptrdiff_max}
use agenc_c.Arena.Types.{Block, Arena, block_hdr}
use agenc_c.Arena.Block.{block_size}
use agenc_c.Arena.Bump.{arena_take_free_block, granted_block}
use agenc_c.Arena.Bump.Frame.{All-map}
use agenc_c.Arena.Measure.{
  All, spans, covers, serves, Span, held, consumed, IsBlock, IsFree, IsArena, Gained,
}

-- A block was taken out of a free list: it has room, and the two parts make up the list.
pub record Taken (P : Block → Type 0) (free : List Block) (data_need : ℕ) (block : Block)
    (rest : List Block) : Type 0 where
  pub room : data_need ≤ block.cap
  pub cover : (x : ℕ) → covers x free ≡ spans block.base (block_size block) x + covers x rest
  pub hold : held free ≡ block_size block + held rest
  pub here : P block
  pub there : All P rest

abbrev pub Takes : (Block → Type 0) → List Block → ℕ → Option (Block × List Block) → Type 0
Takes P free data_need none = Unit
Takes P free data_need (some found) = Taken P free data_need found.0 found.1

module _ (P : Block → Type 0) (data_need : ℕ) where
  take_later :
      (block : Block) (rest : List Block) (r : Option (Block × List Block))
      → P block
      → Takes P rest data_need r
      → Takes P
          (block ∷ rest)
          data_need
          (elim r [ none ↦ none | some found ↦ some (found.0, block ∷ found.1) ])
  unfolding covers held
  take_later block rest none v t = tt
  take_later block rest (some found) v t = record {
    room = t.room;
    cover = λ x. omega (arith, t.cover x);
    hold = omega (arith, t.hold);
    here = t.here;
    there = (v, t.there);
  }

  pub arena_take_free_block-Takes :
      (free : List Block)
      → All P free
      → Takes P free data_need (arena_take_free_block free data_need)
  unfolding arena_take_free_block covers held
  arena_take_free_block-Takes [] v = tt
  arena_take_free_block-Takes (block ∷ rest) v = elim (dec_le data_need block.cap) [
    | yes l ↦
        rw (le→leb data_need block.cap l)
          (record { room = l; cover = λ x. refl; hold = refl; here = v.0; there = v.1 })
    | no g ↦ rw (lt→leb data_need block.cap (omega arith)) (
        take_later block rest (arena_take_free_block rest data_need) v.0
          (arena_take_free_block-Takes rest v.1))
  ]

-- A block from the free list joins the chain.
pub retained-IsArena :
    (h : Heap) (a : Arena) (live : List Span) (data_need : ℕ) (block : Block) (rest : List Block)
    → IsArena h a live
    → Taken (IsFree h a.fixed) a.free_blocks data_need block rest
    → IsArena h (record a { free_blocks = rest; current = block ∷ a.current }) live
unfolding covers serves held consumed
retained-IsArena h a live data_need block rest v t = record {
  pool = record {
    heap = v.pool.heap;
    parent = v.pool.parent;
    apart = λ x. omega (arith, v.pool.apart x, t.cover x);
    chain = (t.here.0, v.pool.chain);
    free = t.there;
    total = omega (arith, v.pool.total, t.hold);
    committed = ground (arith, v.pool.committed, t.hold);
    policy = v.pool.policy;
    policy_le = v.pool.policy_le;
  };
  room = λ x. omega (arith, v.room x);
  used_ge = v.used_ge;
  used_le = omega (arith, v.used_le);
  high = v.high;
}

-- No block has a byte above all memory.
pub covers_fresh :
    (h : Heap) (fixed : Bool) (x : ℕ) (c : List Block)
    → h.brk ≤ x
    → All (IsBlock h fixed) c
    → covers x c ≡ 0
unfolding covers
covers_fresh h fixed x [] l u = refl
covers_fresh h fixed x (block ∷ rest) l u = ground (arith, u.0, covers_fresh h fixed x rest l u.1)

-- A block that the parent has granted joins the chain.
module _ (h : Heap) (a : Arena) (live : List Span) (v : IsArena h a live) (size p : ℕ) (h' : Heap)
    (g : Gained h size h' p) (e : a.fixed ≡ false) (big : block_hdr ≤ size)
    (small : size ≤ ptrdiff_max) where
  older : (block : Block) → IsBlock h a.fixed block → IsBlock h' a.fixed block
  older block u = record {
    base_pos = u.base_pos;
    used_le = u.used_le;
    cap_le = u.cap_le;
    below = omega (arith, u.below, g.fresh, g.fits);
    known = ground (arith, u.known, u.below, g.sizes block.base);
  }

  apart_now :
      (x : ℕ)
      → spans p (block_hdr + (size - block_hdr)) x + covers x a.current + covers x a.free_blocks ≤ 1
  apart_now x = elim (dec_le h.brk x) [
    | no old ↦ ground (arith, v.pool.apart x, g.fresh)
    | yes new ↦ ground (
      arith,
      covers_fresh h a.fixed x a.current new v.pool.chain,
      covers_fresh h a.fixed x a.free_blocks new (
          All-map (IsFree h a.fixed) (IsBlock h a.fixed) a.free_blocks (λ block f. f.0)
            v.pool.free),
    )
  ]

  newest-IsBlock : IsBlock h' a.fixed (granted_block a size p).1
  newest-IsBlock = record {
    base_pos = omega (arith, g.fresh, v.pool.heap);
    used_le = omega arith;
    cap_le = omega arith;
    below = omega (arith, g.fits);
    known = inr (e, omega (arith, g.size));
  }

  pub gained-IsArena :
      IsArena h'
        (record (granted_block a size p).0 { current = (granted_block a size p).1 ∷ a.current })
        live
  unfolding covers serves held consumed
  gained-IsArena = record {
    pool = record {
      heap = omega (arith, v.pool.heap, g.top, g.fresh, g.fits);
      parent = v.pool.parent;
      apart = apart_now;
      chain = (
        newest-IsBlock,
        All-map (IsBlock h a.fixed) (IsBlock h' a.fixed) a.current older v.pool.chain,
      );
      free =
          All-map (IsFree h a.fixed) (IsFree h' a.fixed) a.free_blocks
            (λ block f. (older block f.0, f.1)) v.pool.free;
      total = omega (arith, v.pool.total, g.fresh, g.fits);
      committed =
          ground (arith, v.pool.committed, v.pool.total, v.pool.heap, g.fresh, g.fits, g.top);
      policy = ground (arith, v.pool.policy);
      policy_le = v.pool.policy_le;
    };
    room = λ x. omega (arith, v.room x);
    used_ge = v.used_ge;
    used_le = omega (arith, v.used_le);
    high = v.high;
  }
