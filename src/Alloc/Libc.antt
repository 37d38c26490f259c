-- ===== src/Alloc/Libc.antt =====
-- The C library behind agenc-arena's `alloc_libc`, as the parent of an arena.
use agenc_c.Base.{ℕ, ◌+◌, ◌≤◌, ◌<◌, ◌≡◌, refl, arith, Option, none, some, size_max, ne→==, le→ltb}
use agenc_c.Memory.{Heap, malloc, free, place, granted, refused}
use agenc_c.Str.Valid.{IsHeap}
use agenc_c.Alloc.{ptrdiff_max, alloc_libc, alloc_libc_xalloc, alloc_libc_xfree}
use agenc_c.Arena.Measure.{Allocates, Returned, IsParent}

malloc-Allocates : (h : Heap) (n : ℕ) → IsHeap h → 0 < n → Allocates h n (malloc h n)
unfolding malloc
malloc-Allocates h n v pos = placed (place h n) (λ p e. ground arith)
  where
    placed :
        (r : Option ℕ)
        → ((p : ℕ) → r ≡ some p → (h.brk ≤ p) × (p + n ≤ size_max))
        → Allocates h n (elim r [ none ↦ (refused h, none) | some p ↦ (granted h p n, some p) ])
    placed none u = record { brk = refl; bytes = λ x. refl; block_sizes = λ x. refl; blocks = refl }
    placed (some p) u = record {
      fresh = (u p refl).0;
      fits = omega arith;
      top = (u p refl).1;
      kept = λ x l. refl;
      sizes = λ x l. ground (arith, l, (u p refl).0);
      size = ground arith;
      live = refl;
    }

xfree-Returned :
    (h : Heap) (p n : ℕ) → 0 < p → 0 < n → h.size p ≡ n → Returned h p n (alloc_libc_xfree h p n 0)
unfolding alloc_libc_xfree free
xfree-Returned h p n pos some_n e = rw (ne→== p 0 (λ z. absurd (omega arith))) (record {
  top = refl;
  kept = λ x out. ground (arith, e);
  sizes = λ x apart. ground arith;
  gone = ground arith;
  live = refl;
})

-- The libc backend is a parent as arenas need it: a request of at most PTRDIFF_MAX bytes is
-- granted outside all older memory, which is unchanged, or refused with memory unchanged; and
-- releasing a block of known size changes no byte outside it and takes one block off the live
-- ones.
pub alloc_libc-IsParent : IsParent alloc_libc
unfolding alloc_libc_xalloc
alloc_libc-IsParent = record {
  xalloc = λ h n v pos l.
      rw (ne→== n 0 (λ z. absurd (omega arith)), le→ltb ptrdiff_max n l)
        (malloc-Allocates h n v pos);
  xfree = λ h p n v pos some_n e. xfree-Returned h p n pos some_n e;
}
