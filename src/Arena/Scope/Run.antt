-- ===== src/Arena/Scope/Run.antt =====
-- What may happen inside a temp scope of agenc-arena/src/arena.c, and what one allocation keeps.
use agenc_c.Arena.Bump.Frame.{resting-IsPool}
use agenc_c.Arena.Scope.Pop.{same-IsPool}
use agenc_c.Base.{ℕ, ◌+◌, ◌*◌, ◌≤◌, ◌<◌, ◌≡◌, refl, ◌∙◌, arith, Option, none, some, List, ◌∷◌, word}
use agenc_c.Memory.{Heap, poke}
use agenc_c.Arena.Types.{ArenaStatus, Build, Block, Arena}
use agenc_c.Arena.Bump.{arena_alloc_impl, arena_alloc_default}
use agenc_c.Arena.Bump.Above.{Above}
use agenc_c.Arena.Scope.{begun, temp_of, temp_end_valid}
use agenc_c.Arena.Measure.{Span, hits, Denied, IsArena}

-- What an allocation adds to the live ones.
abbrev pub granted : ℕ → Option ℕ → List Span → List Span
granted size none live = live
granted size (some p) live = record { ptr = p; size = size } ∷ live

-- What may happen in a scope: allocations with any arguments, writes outside the allocations that
-- are older than the scope, and whole scopes.
pub data Runs (b : Build) : Heap → Arena → List Span → Heap → Arena → List Span → Type 0 where
  stay : {h : Heap} {a : Arena} {live : List Span} → Runs b h a live h a live
  allot :
      {h h1 : Heap} {a a1 : Arena} {live live1 : List Span}
      → Runs b h a live h1 a1 live1
      → (count size align : ℕ) → align < word
      → Runs b h a live
          (arena_alloc_impl b h1 a1 count size align).0
          (arena_alloc_impl b h1 a1 count size align).1
          (granted (count * size) (arena_alloc_impl b h1 a1 count size align).2 live1)
  allot_default :
      {h h1 : Heap} {a a1 : Arena} {live live1 : List Span}
      → Runs b h a live h1 a1 live1
      → (size : ℕ)
      → Runs b h a live
          (arena_alloc_default b h1 a1 size).0
          (arena_alloc_default b h1 a1 size).1
          (granted size (arena_alloc_default b h1 a1 size).2 live1)
  write :
      {h h1 : Heap} {a a1 : Arena} {live live1 : List Span}
      → Runs b h a live h1 a1 live1
      → (x value : ℕ) → hits x live ≡ 0
      → Runs b h a live (poke h1 x value) a1 live1
  scope :
      {h h1 h2 : Heap} {a a1 a2 : Arena} {live live1 live2 : List Span}
      → Runs b h a live h1 a1 live1
      → a1.temp_depth + 1 < 0x1_0000_0000
      → Runs b h1 (begun a1) live1 h2 a2 live2
      → Runs b h a live
          (temp_end_valid b h2 a2 (temp_of (begun a1))).0
          (temp_end_valid b h2 a2 (temp_of (begun a1))).1
          live1

-- The arena is well formed with more live allocations, the older ones kept their bytes, and the
-- chain grew on top.
pub record Steady (h : Heap) (a : Arena) (live : List Span) (h' : Heap) (a' : Arena)
    (live' : List Span) : Type 0 where
  pub arena : IsArena h' a' live'
  pub kept : (x : ℕ) → 0 < hits x live → h'.byte x ≡ h.byte x
  pub grown : (x : ℕ) → hits x live ≤ hits x live'
  pub above : (c : List Block) → Above c a.current → Above c a'.current
  pub more : a.used ≤ a'.used
  pub counts : (a'.temp_depth ≡ a.temp_depth) × (a'.generation ≡ a.generation)

pub Steady-refl :
    (h : Heap) (a : Arena) (live : List Span) → IsArena h a live → Steady h a live h a live
Steady-refl h a live v = record {
  arena = v;
  kept = λ x l. refl;
  grown = λ x. omega arith;
  above = λ c u. u;
  more = omega arith;
  counts = (refl, refl);
}

pub Steady-trans :
    {h h1 h2 : Heap} {a a1 a2 : Arena} {live live1 live2 : List Span}
    → Steady h a live h1 a1 live1
    → Steady h1 a1 live1 h2 a2 live2
    → Steady h a live h2 a2 live2
Steady-trans u w = record {
  arena = w.arena;
  kept = λ x l. w.kept x (omega (arith, u.grown x)) ∙ u.kept x l;
  grown = λ x. omega (arith, u.grown x, w.grown x);
  above = λ c q. w.above c (u.above c q);
  more = omega (arith, u.more, w.more);
  counts = (w.counts.0 ∙ u.counts.0, w.counts.1 ∙ u.counts.1);
}

pub recounted-IsArena :
    (h h' : Heap) (a : Arena) (live : List Span) (depth : ℕ) (status : ArenaStatus)
    → Denied h h'
    → IsArena h a live
    → IsArena h' (record a { temp_depth = depth; status = status }) live
recounted-IsArena h h' a live depth status d v = record {
  pool =
      same-IsPool h' a a.current a.current a.used a.high_water depth status
        (resting-IsPool h h' a a.current d.brk d.block_sizes v.pool);
  room = v.room;
  used_ge = v.used_ge;
  used_le = v.used_le;
  high = v.high;
}
