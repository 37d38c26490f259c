-- ===== src/Str/Source/Overlaps.antt =====
-- The classification of a source pointer in agenc-str/src/str.c: the constant-time test and the ISO
-- scan agree, and sources outside, inside and in the spare capacity are told apart.
use agenc_c.Base.{
  ℕ, zero, suc, ◌+◌, ◌-◌, ◌≤◌, ◌<◌, ◌≡◌, arith, ltb, if◌then◌else◌, true, false, word, size_max,
}
use agenc_c.Memory.{Heap}
use agenc_c.Str.Types.{Str, done, failed, err_arg, npos}
use agenc_c.Str.Source.{
  find_allocation_offset, find_allocation_offset_iso, offset_loop, detect_overlap,
  validate_internal_source_span,
}
use agenc_c.Str.Valid.{IsValid, IsOutside, IsInside}

offset_loop-eq :
    (buf p k n : ℕ)
    → k + n ≤ size_max
    → offset_loop buf p k n
      ≡ (if ltb p (buf + k) then npos else if ltb (p - buf) (k + n) then p - buf else npos)
unfolding offset_loop
offset_loop-eq buf p k zero h = ground arith
offset_loop-eq buf p k (suc n) h = ground (arith, offset_loop-eq buf p (k + 1) n)

-- The subtraction in `uintptr_t` and the pointer-equality scan of STR_STRICT_ISO_OVERLAP
-- classify every address alike, for an allocation that ends inside the address space.
pub find_allocation_offset-iso :
    (s : Str) (p : ℕ)
    → p < word
    → s.buf + s.cap ≤ size_max
    → find_allocation_offset s p ≡ find_allocation_offset_iso s p
unfolding find_allocation_offset find_allocation_offset_iso
find_allocation_offset-iso s p hp fits = ground (arith, offset_loop-eq s.buf p 0 s.cap)

pub detect_overlap-outside :
    (h : Heap) (s : Str) (p n : ℕ)
    → IsValid h s
    → IsOutside h s p n
    → 0 < n
    → detect_overlap s p n ≡ done (record { is_inside = false; idx = 0 })
unfolding detect_overlap find_allocation_offset
detect_overlap-outside h s p n v o pos = ground (arith, v.shape, v.heap)

pub detect_overlap-inside :
    (h : Heap) (s : Str) (p n : ℕ)
    → IsValid h s
    → IsInside s p n
    → 0 < n
    → detect_overlap s p n ≡ done (record { is_inside = true; idx = p - s.buf })
unfolding detect_overlap find_allocation_offset validate_internal_source_span
detect_overlap-inside h s p n v o pos = ground (arith, v.shape, v.heap)

-- A nonempty source that begins in the allocation and runs past the terminator is refused.
pub detect_overlap-spare :
    (h : Heap) (s : Str) (p n : ℕ)
    → IsValid h s
    → s.buf ≤ p
    → p < s.buf + s.cap
    → s.buf + s.len + 1 < p + n
    → detect_overlap s p n ≡ failed err_arg
unfolding detect_overlap find_allocation_offset validate_internal_source_span
detect_overlap-spare h s p n v lo hi past = ground (arith, v.shape, v.heap)
