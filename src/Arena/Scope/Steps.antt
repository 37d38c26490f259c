-- ===== src/Arena/Scope/Steps.antt =====
-- Each step inside a temp scope of agenc-arena/src/arena.c keeps what is older than the scope.
use agenc_c.Arena.Scope.Run.{granted, Steady, Steady-refl, recounted-IsArena}
use agenc_c.Arena.Bump.Frame.{resting-IsPool}
use agenc_c.Base.{
  if◌then◌else◌, ne→==, ap, ℕ, ◌*◌, ◌<◌, ◌≡◌, ◌⊎◌, inl, inr, refl, sym, ◌∙◌, subst, arith, true,
  false, none, some, List, word, Bool-cases, ◌==◌, ◌||◌,
}
use agenc_c.Memory.{Heap, poke}
use native.Mathlib.Decide.{dec_le}
use agenc_c.Arena.Types.{ArenaStatus, ok, err_arg, err_alloc, err_overflow, Build, Arena, Served}
use agenc_c.Arena.Align.{arena_align_valid, arena_align_effective}
use agenc_c.Arena.Block.{is_ok}
use agenc_c.Arena.Bump.{arena_alloc_impl, arena_alloc_default}
use agenc_c.Arena.Bump.Grow.{Allots, Denied-refl}
use agenc_c.Arena.Bump.Serve.{arena_alloc_impl-Allots, arena_alloc_default-Allots}
use agenc_c.Arena.Measure.{Span, hits, Denied, IsArena}

status_cases : (s : ArenaStatus) → (s ≡ ok) ⊎ (is_ok s ≡ false)
status_cases ok = inl refl
status_cases err_arg = inr refl
status_cases err_alloc = inr refl
status_cases err_overflow = inr refl

module _ (h : Heap) (a : Arena) (live : List Span) (v : IsArena h a live) where
  -- The arena keeps its state but for its status.
  stained-Steady :
      (h' : Heap) (status : ArenaStatus)
      → Denied h h'
      → Steady h a live h' (record a { status = status }) live
  stained-Steady h' status d = record {
    arena = recounted-IsArena h h' a live a.temp_depth status d v;
    kept = λ x l. d.bytes x;
    grown = λ x. omega arith;
    above = λ c u. u;
    more = omega arith;
    counts = (refl, refl);
  }

  Allots-Steady :
      (size align : ℕ) (r : Served)
      → Allots h a live size align r
      → Steady h a live r.0 r.1 (granted size r.2 live)
  unfolding hits
  Allots-Steady size align (h', a', some p) z = record {
    arena = z.arena;
    kept = z.kept;
    grown = λ x. omega arith;
    above = z.above;
    more = z.more;
    counts = z.counts;
  }
  Allots-Steady size align (h', a', none) z =
      subst (λ t. Steady h a live h' t live) (sym z.arena) (stained-Steady h' a'.status z.memory)

  -- An arena that has failed, or a request for nothing, leaves the arena as it is.
  module _ (b : Build) (count size align : ℕ) where
    refused_when : is_ok a.status ≡ false → arena_alloc_impl b h a count size align ≡ (h, a, none)
    unfolding arena_alloc_impl
    refused_when e = ground (arith, e)

    nothing_asked :
        a.status ≡ ok
        → (count == 0) || (size == 0) ≡ true
        → arena_align_valid align ≡ true
        → arena_alloc_impl b h a count size align ≡ (h, a, none)
    unfolding arena_alloc_impl
    nothing_asked fine e valid = ground (arith, fine, e, valid)

    wrong_align :
        a.status ≡ ok
        → arena_align_valid align ≡ false
        → arena_alloc_impl b h a count size align ≡ (h, record a { status = err_arg }, none)
    unfolding arena_alloc_impl
    wrong_align fine e = ground (arith, fine, e)

    pub arena_alloc_impl-Steady :
        align < word
        → let r = arena_alloc_impl b h a count size align in
          Steady h a live r.0 r.1 (granted (count * size) r.2 live)
    arena_alloc_impl-Steady l = elim (status_cases a.status) [
      | inr bad ↦ rw (refused_when bad) (Steady-refl h a live v)
      | inl fine ↦ elim (Bool-cases ((count == 0) || (size == 0))) [
        | inr asked ↦ Allots-Steady (count * size) (arena_align_effective b align) _ (
            arena_alloc_impl-Allots b h a live v count size align fine l (ground arith)
              (ground arith))
        | inl nothing ↦ elim (Bool-cases (arena_align_valid align)) [
          | inl valid ↦ rw (nothing_asked fine nothing valid) (Steady-refl h a live v)
          | inr wrong ↦ rw (wrong_align fine wrong) (stained-Steady h err_arg (Denied-refl h))
        ]
      ]
    ]

  -- The default alignment.
  module _ (b : Build) (size : ℕ) where
    default_refused : is_ok a.status ≡ false → arena_alloc_default b h a size ≡ (h, a, none)
    unfolding arena_alloc_default
    default_refused e = ground (arith, e)

    default_nothing : a.status ≡ ok → size ≡ 0 → arena_alloc_default b h a size ≡ (h, a, none)
    unfolding arena_alloc_default
    default_nothing fine e = ground (arith, fine, e)

    pub arena_alloc_default-Steady :
        let r = arena_alloc_default b h a size in Steady h a live r.0 r.1 (granted size r.2 live)
    arena_alloc_default-Steady = elim (status_cases a.status) [
      | inr bad ↦ rw (default_refused bad) (Steady-refl h a live v)
      | inl fine ↦ elim (dec_le size 0) [
        | yes zero_size ↦ rw (default_nothing fine (omega arith)) (Steady-refl h a live v)
        | no some_size ↦
            Allots-Steady size (arena_align_effective b 0) _
              (arena_alloc_default-Allots b h a live v fine size (omega arith))
      ]
    ]

-- A write outside the allocations of a list keeps their bytes and the arena.
pub poke-Steady :
    {h h' : Heap} {a a' : Arena} {live live' : List Span}
    → Steady h a live h' a' live'
    → (x value : ℕ) → hits x live ≡ 0
    → Steady h a live (poke h' x value) a' live'
unfolding poke
poke-Steady {h} {h'} {a} {a'} {live} u x value out = record {
  arena = record {
    pool = resting-IsPool h' (poke h' x value) a' a'.current refl (λ y. refl) u.arena.pool;
    room = u.arena.room;
    used_ge = u.arena.used_ge;
    used_le = u.arena.used_le;
    high = u.arena.high;
  };
  kept = λ y l.
      ap (λ k. if k then value else h'.byte y)
        (ne→== y x (λ e. absurd (omega (arith, ap (λ z. hits z live) e))))
      ∙ u.kept y l;
  grown = u.grown;
  above = u.above;
  more = u.more;
  counts = u.counts;
}
