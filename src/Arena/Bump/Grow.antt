-- ===== src/Arena/Bump/Grow.antt =====
-- The slow path of an allocation in agenc-arena/src/arena.c: a retained block, or a new one.
use agenc_c.Arena.Bump.Take.{
  Takes, arena_take_free_block-Takes, retained-IsArena, covers_fresh, gained-IsArena,
}
use agenc_c.Base.{
  ℕ, ◌+◌, ◌-◌, ◌≤◌, ◌<◌, ◌≡◌, ◌⊎◌, inl, inr, refl, ◌∙◌, arith, true, false, Option, none, some,
  List, ◌∷◌, le→ltb, Bool-cases,
}
use native.Mathlib.Decide.{dec_le}
use agenc_c.Memory.{Heap}
use agenc_c.Alloc.{ptrdiff_max}
use agenc_c.Arena.Types.{
  ArenaStatus, ok, err_alloc, err_overflow, Build, redzone, Block, Arena, block_hdr, Served,
}
use agenc_c.Arena.Align.{padding}
use agenc_c.Arena.Align.Bits.{IsAlign, padding-lt}
use agenc_c.Arena.Block.{arena_block_data, arena_fail, is_ok}
use agenc_c.Arena.Bump.{
  arena_try_bump, arena_take_free_block, arena_new_block, granted_block, obtained, new_block_size,
  arena_grow_and_bump, chained,
}
use agenc_c.Arena.Bump.Room.{Handed, bumped-Handed}
use agenc_c.Arena.Bump.Above.{Above-pushed}
use agenc_c.Arena.Bump.Frame.{serves-le-covers}
use agenc_c.Arena.Measure.{Span, hits, IsFree, IsArena, Allocates, Denied, IsParent}

-- Nothing but the status of the arena has changed, and it tells of a failure.
pub record Failed (h : Heap) (a : Arena) (h' : Heap) (a' : Arena) : Type 0 where
  pub memory : Denied h h'
  pub arena : a' ≡ record a { status = a'.status }
  pub failed : is_ok a'.status ≡ false

-- The outcomes of an allocation of a positive size.
abbrev pub Allots : Heap → Arena → List Span → ℕ → ℕ → Served → Type 0
Allots h a live size align (h', a', some p) = Handed h a live size align h' a' p
Allots h a live size align (h', a', none) = Failed h a h' a'

pub arena_fail-Failed :
    (h h' : Heap) (a : Arena) (e : ArenaStatus)
    → Denied h h'
    → a.status ≡ ok
    → is_ok e ≡ false
    → Failed h a h' (arena_fail a e)
arena_fail-Failed h h' a e d fine bad = ground (arith, d)

pub Denied-refl : (h : Heap) → Denied h h
Denied-refl h = record { brk = refl; bytes = λ x. refl; block_sizes = λ x. refl; blocks = refl }

module _ (b : Build) (h : Heap) (a : Arena) (live : List Span) (size align : ℕ)
    (v : IsArena h a live) (i : IsAlign align) (pos : 0 < size) where
  -- The bump in a block that has just joined the chain succeeds.
  chained-Allots :
      (h1 : Heap) (a1 : Arena) (block : Block)
      → IsArena h1 (record a1 { current = block ∷ a.current }) live
      → block.used ≡ 0
      → size + (align - 1) + redzone b ≤ block.cap
      → ((x : ℕ) → 0 < hits x live → h1.byte x ≡ h.byte x)
      → a1.used ≡ a.used
      → (a1.temp_depth ≡ a.temp_depth) × (a1.generation ≡ a.generation)
      → Allots h a live size align
          (arena_try_bump b h1 (record a1 { current = block ∷ a.current }) size align)
  unfolding arena_try_bump
  chained-Allots h1 a1 block w empty big kept same counts =
      let cursor = arena_block_data block + block.used in
      let fits : padding cursor align + (size + redzone b) ≤ block.cap - block.used =
        omega (arith, padding-lt cursor align i) in
      let z = bumped-Handed b h1 a1 live size align i block a.current w fits in
      rw (le→ltb (block.cap - block.used) (padding cursor align + (size + redzone b)) fits)
        (record {
          arena = z.arena;
          not_null = z.not_null;
          aligned = z.aligned;
          kept = λ x l. z.kept x l ∙ kept x l;
          above = λ c u. z.above c (Above-pushed c a.current block u);
          more = omega (arith, z.more);
          counts = (z.counts.0 ∙ counts.0, z.counts.1 ∙ counts.1);
        })

  below_brk : (x : ℕ) → 0 < hits x live → x < h.brk
  below_brk x l = elim (dec_le h.brk x) [
    | no old ↦ omega arith
    | yes new ↦ absurd (
        omega (
          arith,
          v.room x,
          serves-le-covers h a.fixed x a.current v.pool.chain,
          covers_fresh h a.fixed x a.current new v.pool.chain,
        ))
  ]

  growing : (a.fixed ≡ true) ⊎ IsParent a.parent → a.fixed ≡ false → IsParent a.parent
  growing (inl e) f = absurd (ground arith)
  growing (inr p) f = p

  -- What the parent answers to a request of `n` bytes decides.
  obtained-Allots :
      (n : ℕ)
      → a.status ≡ ok
      → a.fixed ≡ false
      → block_hdr + (size + (align - 1) + redzone b) ≤ n
      → n ≤ ptrdiff_max
      → (r : Heap × Option ℕ) → Allocates h n r
      → Allots h a live size align (chained b size align (obtained a n r))
  obtained-Allots n fine e big small (h1, none) d = arena_fail-Failed h h1 a err_alloc d fine refl
  obtained-Allots n fine e big small (h1, some p) g =
      chained-Allots h1 (granted_block a n p).0 (granted_block a n p).1
        (gained-IsArena h a live v n p h1 g e (omega arith) small) refl (omega arith)
        (λ x l. g.kept x (below_brk x l)) refl (refl, refl)

  new_block_size-le :
      (need : ℕ)
      → need ≤ ptrdiff_max - block_hdr
      → (block_hdr + need ≤ new_block_size a need) × (new_block_size a need ≤ ptrdiff_max)
  new_block_size-le need room = ground (arith, v.pool.policy, v.pool.policy_le)

  arena_new_block-Allots :
      a.status ≡ ok
      → a.fixed ≡ false
      → IsParent a.parent
      → size + (align - 1) + redzone b ≤ ptrdiff_max - block_hdr
      → Allots h a live size align
          (chained b size align (arena_new_block h a (size + (align - 1) + redzone b)))
  unfolding arena_new_block
  arena_new_block-Allots fine e parent room =
      let need = size + (align - 1) + redzone b in
      let (big, small) = new_block_size-le need room in
      obtained-Allots (new_block_size a need) fine e big small _
        (parent.xalloc h (new_block_size a need) v.pool.heap (omega arith) small)

  -- The first retained block with room, or a new one.
  abbrev found_or_new : Option (Block × List Block) → Served
  found_or_new (some found) =
      chained b size align (h, record a { free_blocks = found.1 }, some found.0)
  found_or_new none = chained b size align (arena_new_block h a (size + (align - 1) + redzone b))

  found_or_new-Allots :
      a.status ≡ ok
      → a.fixed ≡ false
      → IsParent a.parent
      → size + (align - 1) + redzone b ≤ ptrdiff_max - block_hdr
      → (r : Option (Block × List Block))
      → Takes (IsFree h a.fixed) a.free_blocks (size + (align - 1) + redzone b) r
      → Allots h a live size align (found_or_new r)
  found_or_new-Allots fine e parent room none t = arena_new_block-Allots fine e parent room
  found_or_new-Allots fine e parent room (some found) t =
      chained-Allots h (record a { free_blocks = found.1 }) found.0
        (retained-IsArena h a live (size + (align - 1) + redzone b) found.0 found.1 v t) t.here.1
        t.room (λ x l. refl) refl (refl, refl)

  -- The three ways through `arena_grow_and_bump`.
  grow_fixed :
      a.fixed ≡ true → arena_grow_and_bump b h a size align ≡ (h, arena_fail a err_alloc, none)
  unfolding arena_grow_and_bump
  grow_fixed e = ground arith

  grow_big :
      a.fixed ≡ false
      → ptrdiff_max - block_hdr < size + (align - 1) + redzone b
      → arena_grow_and_bump b h a size align ≡ (h, arena_fail a err_overflow, none)
  unfolding arena_grow_and_bump
  grow_big e l = ground arith

  grow_room :
      a.fixed ≡ false
      → size + (align - 1) + redzone b ≤ ptrdiff_max - block_hdr
      → arena_grow_and_bump b h a size align
        ≡ found_or_new (arena_take_free_block a.free_blocks (size + (align - 1) + redzone b))
  unfolding arena_grow_and_bump
  grow_room e l = ground arith

  pub arena_grow_and_bump-Allots :
      a.status ≡ ok → Allots h a live size align (arena_grow_and_bump b h a size align)
  arena_grow_and_bump-Allots fine = elim (Bool-cases a.fixed) [
    | inl e ↦ rw (grow_fixed e) (arena_fail-Failed h h a err_alloc (Denied-refl h) fine refl)
    | inr e ↦ elim (dec_le (size + (align - 1) + redzone b) (ptrdiff_max - block_hdr)) [
      | no big ↦
          rw (grow_big e (omega arith))
            (arena_fail-Failed h h a err_overflow (Denied-refl h) fine refl)
      | yes room ↦ rw (grow_room e room) (
          found_or_new-Allots fine e (growing v.pool.parent e) room _ (
            arena_take_free_block-Takes (IsFree h a.fixed) (size + (align - 1) + redzone b)
              a.free_blocks v.pool.free))
    ]
  ]
