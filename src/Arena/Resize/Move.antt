-- ===== src/Arena/Resize/Move.antt =====
-- Reallocation in agenc-arena/src/arena.c: in place, or by a move, or refused.
use agenc_c.Arena.Bump.Frame.{resting-IsPool}
use agenc_c.Arena.Scope.Pop.{same-IsPool}
use agenc_c.Base.{
  ℕ, ◌+◌, ◌≤◌, ◌<◌, ◌≡◌, inl, inr, refl, ◌∙◌, subst, arith, true, false, none, some, List, ◌∷◌, min,
  le→ltb, lt→ltb, ne→==, Bool-cases, word,
}
use native.Mathlib.Nat.{one-mul}
use native.Mathlib.Decide.{dec_le}
use agenc_c.Memory.{Heap, memmove}
use agenc_c.Alloc.{ptrdiff_max}
use agenc_c.Arena.Types.{
  ArenaStatus, ok, err_arg, err_overflow, Build, redzone, Arena, Served, sub_word,
}
use agenc_c.Arena.Align.{arena_align_valid, arena_align_effective}
use agenc_c.Arena.Block.{fill, arena_fail, is_ok}
use agenc_c.Arena.Bump.{arena_alloc_impl}
use agenc_c.Arena.Bump.Frame.{fill-Filled}
use agenc_c.Arena.Bump.Grow.{Failed, Allots, Denied-refl, arena_fail-Failed}
use agenc_c.Arena.Bump.Serve.{arena_alloc_impl-Allots}
use agenc_c.Arena.Resize.{
  realloc_valid, arena_realloc_move, moved_to, arena_try_resize_last, or_moved,
}
use agenc_c.Arena.Resize.InPlace.{Resized, hits_le, used_lt, sub_word_lem}
use agenc_c.Arena.Resize.Last.{Tries, arena_try_resize_last-Tries}
use agenc_c.Arena.Measure.{spans, Span, hits, handed_out, IsArena}

-- The outcomes of a reallocation.
abbrev pub Resizes : Heap → Arena → ℕ → ℕ → ℕ → ℕ → List Span → Served → Type 0
Resizes h a ptr old_size new_size align live (h', a', some p) =
    Resized h ptr old_size new_size align live h' a' p
Resizes h a ptr old_size new_size align live (h', a', none) = Failed h a h' a'

-- An allocation is given up without its bytes going back.
abandoned-IsArena :
    (h h' : Heap) (a : Arena) (fresh old : Span) (live : List Span)
    → IsArena h a (fresh ∷ old ∷ live)
    → h'.brk ≡ h.brk
    → ((x : ℕ) → h'.size x ≡ h.size x)
    → IsArena h' (record a { used = sub_word a.used old.size }) (fresh ∷ live)
unfolding hits handed_out
abandoned-IsArena h h' a fresh old live v top sizes =
    let less =
      sub_word_lem a.used old.size (used_lt h a (fresh ∷ old ∷ live) v)
        (omega (arith, v.used_ge)) in
    record {
      pool =
          same-IsPool h' a a.current a.current (sub_word a.used old.size) a.high_water a.temp_depth
            a.status (resting-IsPool h h' a a.current top sizes v.pool);
      room = λ x. omega (arith, v.room x);
      used_ge = omega (arith, v.used_ge, less);
      used_le = omega (arith, v.used_le, less);
      high = omega (arith, v.high, less);
    }

module _ (b : Build) (h : Heap) (a : Arena) (live : List Span) (ptr old_size new_size align : ℕ)
    (v : IsArena h a (record { ptr = ptr; size = old_size } ∷ live)) where
  moved_to-Resizes :
      (r : Served)
      → Allots h a (record { ptr = ptr; size = old_size } ∷ live) new_size align r
      → Resizes h a ptr old_size new_size align live (moved_to b ptr old_size new_size r)
  unfolding hits memmove
  moved_to-Resizes (h1, a1, none) z = z
  moved_to-Resizes (h1, a1, some fresh) z =
      let copied = memmove h1 fresh ptr (min old_size new_size) in
      let w = fill-Filled b copied ptr 0x5a old_size in
      let single : (x : ℕ) → spans fresh new_size x + (spans ptr old_size x + hits x live) ≤ 1 =
        λ x.
          hits_le h1 a1
            (record { ptr = fresh; size = new_size } ∷ record { ptr = ptr; size = old_size } ∷ live)
            z.arena x in
      record {
        arena =
            abandoned-IsArena h1 (fill b copied ptr 0x5a old_size) a1
              (record { ptr = fresh; size = new_size }) (record { ptr = ptr; size = old_size }) live
              z.arena w.brk w.size;
        not_null = z.not_null;
        aligned = inr z.aligned;
        content = λ i l.
            w.kept (fresh + i) (ground (arith, single (fresh + i), l))
            ∙ ground (arith, l)
            ∙ z.kept (ptr + i) (ground (arith, l));
        kept = λ x l.
            w.kept x (ground (arith, single x, l))
            ∙ ground (arith, single x, l)
            ∙ z.kept x (omega (arith, l));
      }

  or_moved-Resizes :
      (r moved : Served)
      → Tries h a ptr old_size new_size align live r
      → Resizes h a ptr old_size new_size align live moved
      → Resizes h a ptr old_size new_size align live (or_moved moved r)
  or_moved-Resizes (h', a', some p) moved u w = u
  or_moved-Resizes (h', a', none) moved u w = w

  fails : a.status ≡ ok → (e : ArenaStatus) → is_ok e ≡ false → Failed h a h (arena_fail a e)
  fails fine e bad = arena_fail-Failed h h a e (Denied-refl h) fine bad

module _ (b : Build) (h : Heap) (a : Arena) (live : List Span) (ptr old_size new_size align : ℕ)
    (v : IsArena h a (record { ptr = ptr; size = old_size } ∷ live)) where
  arena_realloc_move-Resizes :
      a.status ≡ ok
      → align < word
      → 0 < new_size
      → Resizes h a ptr old_size new_size
          (arena_align_effective b align)
          live
          (arena_realloc_move b h a ptr old_size new_size align)
  unfolding arena_realloc_move
  arena_realloc_move-Resizes fine l pos =
      moved_to-Resizes b h a live ptr old_size new_size (arena_align_effective b align) v _ (
        subst
          (λ n.
            Allots h a (record { ptr = ptr; size = old_size } ∷ live) n
              (arena_align_effective b align) (arena_alloc_impl b h a 1 new_size align))
          (one-mul new_size)
          (arena_alloc_impl-Allots b h a _ v 1 new_size align fine l (omega arith) pos))

  wrong_align :
      a.status ≡ ok
      → arena_align_valid align ≡ false
      → realloc_valid b h a ptr old_size new_size align ≡ (h, arena_fail a err_arg, none)
  unfolding realloc_valid
  wrong_align fine e = rw (fine, e) refl

  too_big :
      a.status ≡ ok
      → arena_align_valid align ≡ true
      → ptrdiff_max < new_size
      → 0 < ptr
      → realloc_valid b h a ptr old_size new_size align ≡ (h, arena_fail a err_overflow, none)
  unfolding realloc_valid
  too_big fine e big pos =
      rw
        (
          fine,
          e,
          ne→== new_size 0 (λ z. absurd (omega arith)),
          ne→== ptr 0 (λ z. absurd (omega arith)),
          lt→ltb ptrdiff_max new_size big,
        )
        refl

  in_range :
      a.status ≡ ok
      → arena_align_valid align ≡ true
      → new_size ≤ ptrdiff_max
      → 0 < ptr
      → 0 < new_size
      → realloc_valid b h a ptr old_size new_size align
        ≡ or_moved
            (arena_realloc_move b h a ptr old_size new_size align)
            (arena_try_resize_last b h a ptr old_size new_size)
  unfolding realloc_valid
  in_range fine e small pos some_new =
      rw
        (
          fine,
          e,
          ne→== new_size 0 (λ z. absurd (omega arith)),
          ne→== ptr 0 (λ z. absurd (omega arith)),
          le→ltb ptrdiff_max new_size small,
        )
        refl

  -- In a build without redzones, on a well-formed arena with status ARENA_OK and a live
  -- allocation of `old_size` bytes at `ptr`, which is not NULL, arena_realloc to `new_size > 0`
  -- bytes at an alignment below 2 ^ 64 either returns a pointer that is `ptr` or a multiple of
  -- the effective alignment, the arena is well formed with a region of `new_size` bytes there in
  -- place of the old one, the bytes that both sizes have are those of the old region, and the
  -- other live allocations keep their bytes; or it returns NULL, records a failure, and neither
  -- the arena's other fields nor memory have changed.
  pub realloc_valid-Resizes :
      redzone b ≡ 0
      → a.status ≡ ok
      → align < word
      → 0 < ptr
      → 0 < new_size
      → Resizes h a ptr old_size new_size
          (arena_align_effective b align)
          live
          (realloc_valid b h a ptr old_size new_size align)
  realloc_valid-Resizes plain fine l pos some_new =
      let eff = arena_align_effective b align in
      elim (Bool-cases (arena_align_valid align)) [
        | inr wrong ↦
            rw (wrong_align fine wrong)
              (fails b h a live ptr old_size new_size eff v fine err_arg refl)
        | inl valid ↦ elim (dec_le new_size ptrdiff_max) [
          | no big ↦
              rw (too_big fine valid (omega arith) pos)
                (fails b h a live ptr old_size new_size eff v fine err_overflow refl)
          | yes small ↦ rw (in_range fine valid small pos some_new) (
              or_moved-Resizes b h a live ptr old_size new_size eff v _ _
                (arena_try_resize_last-Tries b plain h a live ptr old_size new_size eff pos
                  a.current v)
                (arena_realloc_move-Resizes fine l some_new))
        ]
      ]
