-- ===== src/Arena/Scope/Trip.antt =====
-- A temp scope of agenc-arena/src/arena.c as a round trip: begin, allocations and scopes within, end.
use agenc_c.Arena.Scope.Steps.{arena_alloc_impl-Steady, arena_alloc_default-Steady, poke-Steady}
use agenc_c.Base.{
  ℕ, ◌+◌, ◌-◌, ◌≤◌, ◌<◌, ◌≡◌, refl, ap, sym, ◌∙◌, subst, arith, Option, none, some, List, [], ◌∷◌,
  ◌++◌, ltb, if◌then◌else◌,
}
use agenc_c.Memory.{Heap}
use agenc_c.Arena.Types.{Build, Block, Arena}
use agenc_c.Arena.Block.{pop_loop}
use agenc_c.Arena.Bump.Above.{Above}
use agenc_c.Arena.Bump.Frame.{serves-le-covers}
use agenc_c.Arena.Scope.{begun, newest, temp_of, arena_temp_begin, temp_end_valid, arena_temp_end}
use agenc_c.Arena.Scope.Pop.{Popped, same-IsPool, popped}
use agenc_c.Arena.Scope.Lower.{
  Above-split, raised, covers-append, covers-raised, Popped-back, Lowered, lower_newest-Lowered,
  with_chain,
}
use agenc_c.Arena.Scope.Run.{
  allot_default, write, Runs, stay, allot, scope, Steady, Steady-refl, Steady-trans,
  recounted-IsArena,
}
use agenc_c.Arena.Bump.Grow.{Denied-refl}
use agenc_c.Arena.Measure.{covers, serves, Span, hits, consumed, IsPool, IsArena}

-- The arena is as it was before: its chain with every fill, its counters and its live allocations.
pub record Ended (h : Heap) (a : Arena) (live : List Span) (h' : Heap) (a' : Arena) : Type 0 where
  pub arena : IsArena h' a' live
  pub chain : a'.current ≡ a.current
  pub used : a'.used ≡ a.used
  pub kept : (x : ℕ) → 0 < hits x live → h'.byte x ≡ h.byte x
  pub counts : (a'.temp_depth ≡ a.temp_depth) × (a'.generation ≡ a.generation)

Above-refl : (c : List Block) → Above c c
Above-refl [] = tt
Above-refl (block ∷ rest) = ([], block.used, refl, omega arith)

-- The counters at the end of a scope that `before` has begun.
abbrev closed : Arena → Arena → Arena
closed before a = record a {
  used = if ltb before.used a.used then before.used else a.used;
  temp_depth = if ltb 0 a.temp_depth then a.temp_depth - 1 else a.temp_depth;
}

module _ (b : Build) (h : Heap) (a : Arena) (live : List Span) (v : IsArena h a live)
    (room : a.temp_depth + 1 < 0x1_0000_0000) where
  -- The state at the end, from what popping and lowering have done.
  Ended-from_steps :
      (h2 h3 h4 : Heap) (a2 a3 a4 : Arena) (live2 : List Span) (newer : List Block) (level : ℕ)
      → a2.current ≡ newer ++ raised a.current level
      → Steady h (begun a) live h2 a2 live2
      → Popped h2 a2 newer (raised a.current level) h3 a3
      → Lowered h3 a3 a.current h4 a4
      → Ended h a live h4 (closed a a4)
  Ended-from_steps h2 h3 h4 a2 a3 a4 live2 newer level e z p l =
      let frame : a4 ≡ with_chain (popped (raised a.current level) a3 a2) a.current =
        l.arena ∙ ap (λ t. with_chain t a.current) p.arena in
      let same_used : a4.used ≡ a2.used = ap (λ t. t.used) frame in
      let same_depth : a4.temp_depth ≡ a2.temp_depth = ap (λ t. t.temp_depth) frame in
      let same_high : a4.high_water ≡ a2.high_water = ap (λ t. t.high_water) frame in
      let same_generation : a4.generation ≡ a2.generation = ap (λ t. t.generation) frame in
      let same_chain : a4.current ≡ a.current = ap (λ t. t.current) frame in
      let apart : (x : ℕ) → 0 < hits x live → covers x newer ≡ 0 = λ x u. omega (
        arith,
        v.room x,
        z.arena.pool.apart x,
        ap (covers x) e,
        covers-append x newer (raised a.current level),
        covers-raised x a.current level,
        serves-le-covers h a.fixed x a.current v.pool.chain,
      ) in
      let lowered : (closed a a4).used ≡ a.used = ground (arith, same_used, z.more) in
      record {
        arena = record {
          pool = subst (IsPool h4 (closed a a4)) (sym same_chain) (
              same-IsPool h4 a4 a.current a4.current (closed a a4).used a4.high_water
                (closed a a4).temp_depth a4.status l.pool);
          room = λ x. subst (λ c. hits x live ≤ serves x c) (sym same_chain) (v.room x);
          used_ge = omega (arith, v.used_ge, lowered);
          used_le =
              subst (λ c. (closed a a4).used ≤ consumed c) (sym same_chain)
                (omega (arith, v.used_le, lowered));
          high = omega (arith, same_high, z.arena.high, z.more, lowered);
        };
        chain = same_chain;
        used = lowered;
        kept = λ x u.
            l.kept x (omega (arith, v.room x)) ∙ p.kept x (omega (arith, apart x u)) ∙ z.kept x u;
        counts = (ground (arith, same_depth, z.counts.0, room), same_generation ∙ z.counts.1);
      }

  pub temp_end_valid-Ended :
      (h2 : Heap) (a2 : Arena) (live2 : List Span)
      → Steady h (begun a) live h2 a2 live2
      → let r = temp_end_valid b h2 a2 (temp_of (begun a)) in Ended h a live r.0 r.1
  unfolding temp_end_valid
  temp_end_valid-Ended h2 a2 live2 z =
      let (newer, level, e, m) =
        Above-split a.current a2.current (z.above a.current (Above-refl a.current)) in
      let p = Popped-back b h2 a2 a.current a2.current newer level e z.arena.pool in
      let (h3, a3) = pop_loop b h2 a2 (newest a.current).0 a2.current in
      let chain3 : a3.current ≡ raised a.current level = ap (λ t. t.current) p.arena in
      let l = lower_newest-Lowered b h3 a3 a.current a3.current level m refl chain3 p.pool in
      Ended-from_steps h2 h3 _ a2 a3 _ live2 newer level e z p l

Ended-Steady :
    {h h' : Heap} {a a' : Arena} {live : List Span}
    → Ended h a live h' a'
    → Steady h a live h' a' live
Ended-Steady z = record {
  arena = z.arena;
  kept = z.kept;
  grown = λ x. omega arith;
  above = λ c u. subst (Above c) (sym z.chain) u;
  more = omega (arith, z.used);
  counts = z.counts;
}

begun-IsArena :
    (h : Heap) (a : Arena) (live : List Span) → IsArena h a live → IsArena h (begun a) live
begun-IsArena h a live v =
    recounted-IsArena h h a live (begun a).temp_depth a.status (Denied-refl h) v

-- Inside a scope the older allocations stay as they are, whatever the steps.
pub Runs-Steady :
    {b : Build} {h h' : Heap} {a a' : Arena} {live live' : List Span}
    → IsArena h a live
    → Runs b h a live h' a' live'
    → Steady h a live h' a' live'
Runs-Steady v stay = Steady-refl _ _ _ v
Runs-Steady v (allot run count size align l) =
    let u = Runs-Steady v run in
    Steady-trans u (arena_alloc_impl-Steady _ _ _ u.arena _ count size align l)
Runs-Steady v (allot_default run size) =
    let u = Runs-Steady v run in Steady-trans u (arena_alloc_default-Steady _ _ _ u.arena _ size)
Runs-Steady v (write run x value out) = poke-Steady (Runs-Steady v run) x value out
Runs-Steady v (scope {a1} run room inner) =
    let u = Runs-Steady v run in
    let w = Runs-Steady (begun-IsArena _ a1 _ u.arena) inner in
    Steady-trans u (Ended-Steady (temp_end_valid-Ended _ _ a1 _ u.arena room _ _ _ w))

-- What the end of a scope answers for an arena that is not NULL.
abbrev pub Restores : Heap → Arena → List Span → Heap × Option Arena → Type 0
Restores h a live (h', none) = ⊥
Restores h a live (h', some a') = Ended h a live h' a'

-- On a well-formed arena with fewer than 2 ^ 32 - 1 scopes open, after arena_temp_begin, any
-- sequence of arena_alloc and arena_alloc_n calls, of writes outside the older allocations and
-- of scopes of the same kind, and arena_temp_end, the arena has the chain of blocks that it had
-- at the begin, each with its fill, the same `used`, scope depth and generation, and is well
-- formed with the allocations that were live at the begin, whose bytes are unchanged.
pub temp_round_trip :
    (b : Build) (h : Heap) (a : Arena) (live : List Span)
    → IsArena h a live
    → a.temp_depth + 1 < 0x1_0000_0000
    → (h2 : Heap) (a2 : Arena) (live2 : List Span) → Runs b h (begun a) live h2 a2 live2
    → Restores h a live (arena_temp_end b h2 (some a2) (arena_temp_begin (some a)).1)
unfolding arena_temp_begin arena_temp_end
temp_round_trip b h a live v room h2 a2 live2 run =
    temp_end_valid-Ended b h a live v room h2 a2 live2 (Runs-Steady (begun-IsArena h a live v) run)
