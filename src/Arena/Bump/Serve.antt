-- ===== src/Arena/Bump/Serve.antt =====
-- The allocation entry points of agenc-arena/src/arena.c: what they hand out, and how they fail.
use agenc_c.Base.{
  ℕ, ◌*◌, ◌/◌, ◌^◌, inl, inr, ◌≤◌, ◌<◌, ◌≡◌, refl, arith, Bool-cases, ◌==◌, ◌&&◌, Bool, true, false,
  not, none, some, List, word, ne→==, eq→==, le→ltb, lt→ltb, leb, le→leb, lt→leb, if◌then◌else◌,
}
use native.Mathlib.Nat.{le-div_iff_mul-le, div-lt_iff_lt-mul, mul-le-mul, mul-pos, mod-eq_of_lt}
use Prim.Native.Nat.{bit_or}
use native.Mathlib.Decide.{dec_le}
use agenc_c.Memory.{Heap}
use agenc_c.Alloc.{ptrdiff_max}
use agenc_c.Arena.Types.{ArenaStatus, ok, err_arg, err_overflow, Build, Arena, Served}
use agenc_c.Arena.Align.{arena_align_valid, arena_align_effective}
use agenc_c.Arena.Align.Bits.{IsAlign}
use agenc_c.Arena.Align.Valid.{arena_align_valid_iff, arena_align_effective-IsAlign, le-bit_or}
use agenc_c.Arena.Block.{arena_fail, is_ok}
use agenc_c.Arena.Bump.{
  arena_try_bump, arena_alloc_core, arena_alloc_default, arena_alloc_impl, or_grown,
}
use agenc_c.Arena.Bump.Room.{Bumps, arena_try_bump-Bumps}
use agenc_c.Arena.Bump.Grow.{
  Failed, Allots, Denied-refl, arena_fail-Failed, arena_grow_and_bump-Allots,
}
use agenc_c.Arena.Measure.{Span, IsArena}

module _ (b : Build) (h : Heap) (a : Arena) (live : List Span) (v : IsArena h a live)
    (fine : a.status ≡ ok) where
  or_grown-Allots :
      (size align : ℕ) (r grown : Served)
      → Bumps h a live size align r
      → Allots h a live size align grown
      → Allots h a live size align (or_grown grown r)
  or_grown-Allots size align (h', a', some p) grown u w = u
  or_grown-Allots size align (h', a', none) grown u w = w

  arena_alloc_core-Allots :
      (size align : ℕ)
      → IsAlign align
      → 0 < size
      → Allots h a live size align (arena_alloc_core b h a size align)
  unfolding arena_alloc_core
  arena_alloc_core-Allots size align i pos =
      or_grown-Allots size align (arena_try_bump b h a size align) _
        (arena_try_bump-Bumps b h a live size align i a.current v)
        (arena_grow_and_bump-Allots b h a live size align v i pos fine)

  fails : (e : ArenaStatus) → is_ok e ≡ false → Failed h a h (arena_fail a e)
  fails e bad = arena_fail-Failed h h a e (Denied-refl h) fine bad

  pub arena_alloc_default-Allots :
      (size : ℕ)
      → 0 < size
      → Allots h a live size (arena_align_effective b 0) (arena_alloc_default b h a size)
  unfolding arena_alloc_default
  arena_alloc_default-Allots size pos = elim (dec_le size ptrdiff_max) [
    | yes small ↦ rw (default_small size pos small) (
        arena_alloc_core-Allots size (arena_align_effective b 0)
          (arena_align_effective-IsAlign b 0 (inl refl)) pos)
    | no big ↦ rw (default_big size pos (omega arith)) (fails err_overflow refl)
  ]
    where
      default_small :
          (size : ℕ)
          → 0 < size
          → size ≤ ptrdiff_max
          → arena_alloc_default b h a size ≡ arena_alloc_core b h a size (arena_align_effective b 0)
      default_small size pos l = ground arith

      default_big :
          (size : ℕ)
          → 0 < size
          → ptrdiff_max < size
          → arena_alloc_default b h a size ≡ (h, arena_fail a err_overflow, none)
      default_big size pos l = ground arith

and_false : (x : Bool) → (x && false) ≡ false
and_false true = refl
and_false false = refl

-- The guard of `arena_alloc_impl` is exact: the shortcut by the high bits never lets a product wrap.
module _ (b : Build) (h : Heap) (a : Arena) (count size align : ℕ) (fine : a.status ≡ ok)
    (valid : arena_align_valid align ≡ true) (some_count : 0 < count) (some_size : 0 < size) where
  serves_core :
      count ≤ ptrdiff_max / size
      → count * size ≤ ptrdiff_max
      → arena_alloc_impl b h a count size align
        ≡ arena_alloc_core b h a (count * size) (arena_align_effective b align)
  unfolding arena_alloc_impl
  serves_core l m =
      rw (fine, valid, ne→== count 0 (λ e. absurd (omega arith)))
        (rw
          (
            ne→== size 0 (λ e. absurd (omega arith)),
            le→ltb (ptrdiff_max / size) count l,
            and_false (not (bit_or count size / 2 ^ 32 == 0)),
            mod-eq_of_lt {n = count * size} {m = word} (omega (arith, m)),
            le→ltb ptrdiff_max (count * size) m,
          )
          refl)

  low_product : bit_or count size ≤ 0xffff_ffff → count * size < word
  low_product l =
      let (p, q) = le-bit_or count size in
      let bound : count * size ≤ 0xffff_ffff * 0xffff_ffff =
        mul-le-mul {n₁ = count} {m₁ = size} {n₂ = 0xffff_ffff} {m₂ = 0xffff_ffff}
          (omega (arith, p, l)) (omega (arith, q, l)) in
      omega (arith, bound)

  overflows :
      ptrdiff_max / size < count
      → ptrdiff_max < count * size
      → arena_alloc_impl b h a count size align ≡ (h, arena_fail a err_overflow, none)
  unfolding arena_alloc_impl
  overflows l m = elim (dec_le 0x1_0000_0000 (bit_or count size)) [
    | yes high ↦
        rw
          (
            fine,
            valid,
            ne→== count 0 (λ e. absurd (omega arith)),
            ne→== size 0 (λ e. absurd (omega arith)),
            ne→== (bit_or count size / 2 ^ 32) 0 (λ e. absurd (omega arith)),
            lt→ltb (ptrdiff_max / size) count l,
          )
          refl
    | no low ↦
        rw
          (
            fine,
            valid,
            ne→== count 0 (λ e. absurd (omega arith)),
            ne→== size 0 (λ e. absurd (omega arith)),
            eq→== (bit_or count size / 2 ^ 32) 0 (omega arith),
            mod-eq_of_lt {n = count * size} {m = word} (low_product (omega arith)),
            lt→ltb ptrdiff_max (count * size) m,
          )
          refl
  ]

  -- On an arena with status ARENA_OK and with a valid alignment and positive `count` and `size`,
  -- arena_alloc_n serves the exact product if it is at most PTRDIFF_MAX, and else records
  -- ARENA_ERR_OVERFLOW and returns NULL with nothing else changed; so no product wraps.
  pub arena_alloc_impl-product : arena_alloc_impl b h a count size align ≡ (
      if leb (count * size) ptrdiff_max
      then arena_alloc_core b h a (count * size) (arena_align_effective b align)
      else (h, arena_fail a err_overflow, none))
  arena_alloc_impl-product = elim (dec_le (count * size) ptrdiff_max) [
    | yes l ↦
        rw (le→leb (count * size) ptrdiff_max l) (
          serves_core ((le-div_iff_mul-le {k = size} {x = count} {y = ptrdiff_max} some_size).1 l)
            l)
    | no big ↦
        let g : ptrdiff_max < count * size = omega arith in
        rw (lt→leb (count * size) ptrdiff_max g)
          (overflows ((div-lt_iff_lt-mul {k = size} {x = ptrdiff_max} {y = count} some_size).1 g) g)
  ]

-- Whatever the arguments ask for, the outcome is an aligned allocation beside the live ones, or a
-- recorded failure.
module _ (b : Build) (h : Heap) (a : Arena) (live : List Span) (v : IsArena h a live)
    (count size align : ℕ) where
  refused :
      a.status ≡ ok
      → arena_align_valid align ≡ false
      → arena_alloc_impl b h a count size align ≡ (h, arena_fail a err_arg, none)
  unfolding arena_alloc_impl
  refused fine e = rw (fine, e) refl

  -- On a well-formed arena with status ARENA_OK and a set of live allocations, arena_alloc_n of
  -- `count > 0` elements of `size > 0` bytes at an alignment below 2 ^ 64 either returns a
  -- pointer that is not NULL and a multiple of the effective alignment, the arena is well formed
  -- with the new region beside the live ones, which keep their bytes, and its chain has grown on
  -- top of the old one; or it returns NULL, records a failure, and neither the arena's other
  -- fields nor memory have changed.
  pub arena_alloc_impl-Allots :
      a.status ≡ ok
      → align < word
      → 0 < count
      → 0 < size
      → Allots h a live
          (count * size)
          (arena_align_effective b align)
          (arena_alloc_impl b h a count size align)
  arena_alloc_impl-Allots fine l some_count some_size =
      elim (Bool-cases (arena_align_valid align)) [
        | inl valid ↦ elim (dec_le (count * size) ptrdiff_max) [
          | yes small ↦
              rw
                (
                  arena_alloc_impl-product b h a count size align fine valid some_count some_size,
                  le→leb (count * size) ptrdiff_max small,
                )
                (arena_alloc_core-Allots b h a live v fine (count * size)
                  (arena_align_effective b align)
                  (arena_align_effective-IsAlign b align ((arena_align_valid_iff align l).0 valid))
                  (mul-pos {m = count} {n = size} some_count some_size))
          | no big ↦
              rw
                (
                  arena_alloc_impl-product b h a count size align fine valid some_count some_size,
                  lt→leb (count * size) ptrdiff_max (omega arith),
                )
                (fails b h a live v fine err_overflow refl)
        ]
        | inr invalid ↦ rw (refused fine invalid) (fails b h a live v fine err_arg refl)
      ]
