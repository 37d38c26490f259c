-- ===== src/Str/Api/CString.antt =====
-- str_set and str_append of agenc-str/src/str.c: C strings, measured before they are copied.
use agenc_c.Base.{ℕ, zero, suc, ◌+◌, ◌-◌, ◌≤◌, ◌<◌, ◌≡◌, ◌≢◌, inl, inr, ap, arith, ◌++◌, some, ◌∙◌}
use agenc_c.Memory.{Heap, strlen, scan_nul}
use agenc_c.Memory.Bytes.{bytes}
use agenc_c.Str.Types.{ok, Str, done, npos}
use agenc_c.Str.Source.{
  bounded_loop, measure_bounded_c_string, measure_internal_c_string, measure_valid_c_string_input,
  measure_c_string_input, validate_mutation, find_allocation_offset, validate_internal_source_span,
}
use agenc_c.Str.Valid.{IsValid, IsSource, IsInside, IsOutside, content}
use agenc_c.Str.Write.{append_cstr, set_cstr, measured, returned, set_valid_span, append_valid_span}
use agenc_c.Str.Write.Append.{append_valid_span-Mutates, set_valid_span-Mutates}
use agenc_c.Str.Api.{Answers, Answers-returned}

-- The `n` bytes at `p` have no NUL, and one follows them.
pub record IsTerminated (m : ℕ → ℕ) (p n : ℕ) : Type 0 where
  pub text : (i : ℕ) → i < n → m (p + i) ≢ 0
  pub nul : m (p + n) ≡ 0

scan_nul-IsTerminated : (m : ℕ → ℕ) (p n k : ℕ) → IsTerminated m p n → n < k → scan_nul m p k ≡ n
unfolding scan_nul
scan_nul-IsTerminated m p n zero t l = absurd (omega arith)
scan_nul-IsTerminated m p zero (suc k) t l =
    ground (arith, t.nul, ap m {x = p + 0} {y = p} (omega arith))
scan_nul-IsTerminated m p (suc n) (suc k) t l = ground (
  arith,
  t.text 0,
  ap m {x = p + 0} {y = p} (omega arith),
  scan_nul-IsTerminated m (p + 1) n k (IsTerminated-tail m p n t),
)
  where
    IsTerminated-tail : (m : ℕ → ℕ) (p n : ℕ) → IsTerminated m p (suc n) → IsTerminated m (p + 1) n
    IsTerminated-tail m p n t = record {
      text = λ i b e.
          t.text (suc i) (omega arith) (ap m {x = p + suc i} {y = p + 1 + i} (omega arith) ∙ e);
      nul = ap m {x = p + 1 + n} {y = p + suc n} (omega arith) ∙ t.nul;
    }

bounded_loop-IsTerminated :
    (m : ℕ → ℕ) (p n i k : ℕ)
    → IsTerminated m p n
    → i ≤ n
    → n < i + k
    → bounded_loop m p i k ≡ done n
unfolding bounded_loop
bounded_loop-IsTerminated m p n i zero t l enough = absurd (omega arith)
bounded_loop-IsTerminated m p n i (suc k) t l enough =
    ground (arith, t.text i, t.nul, bounded_loop-IsTerminated m p n (i + 1) k t)

module _ (h : Heap) (s : Str) (p n : ℕ) (v : IsValid h s) (t : IsTerminated h.byte p n) where
  offset_outside : IsOutside h s p (n + 1) → find_allocation_offset s p ≡ npos
  unfolding find_allocation_offset
  offset_outside out = ground (arith, v.shape, v.heap)

  offset_inside : IsInside s p (n + 1) → find_allocation_offset s p ≡ p - s.buf
  unfolding find_allocation_offset
  offset_inside inn = ground (arith, v.shape, v.heap)

  measure_internal : IsInside s p (n + 1) → measure_internal_c_string h s (p - s.buf) ≡ (s, done n)
  unfolding measure_internal_c_string measure_bounded_c_string validate_internal_source_span
  measure_internal inn = ground (
    arith,
    v.shape,
    ap (λ q. bounded_loop h.byte q 0 (s.len - (p - s.buf) + 1)) {x = s.buf + (p - s.buf)} {y = p}
        (omega (arith, inn)),
    bounded_loop-IsTerminated h.byte p n 0 (s.len - (p - s.buf) + 1) t,
  )

  measure_valid_c_string_input-done :
      IsSource h s p (n + 1) → measure_valid_c_string_input h s p ≡ (s, done n)
  unfolding measure_valid_c_string_input strlen
  measure_valid_c_string_input-done (inl out) =
      ground (arith, offset_outside out, scan_nul-IsTerminated h.byte p n (h.brk - p) t)
  measure_valid_c_string_input-done (inr inn) =
      ground (arith, offset_inside inn, measure_internal inn, v.shape, v.heap)

  pub measure_c_string_input-done :
      IsSource h s p (n + 1)
      → s.status ≡ ok
      → measure_c_string_input h (some s) p ≡ (some s, done n)
  unfolding measure_c_string_input validate_mutation
  measure_c_string_input-done source fine =
      ground (arith, measure_valid_c_string_input-done source, v.shape, source)

  set_cstr_lem :
      IsSource h s p (n + 1)
      → s.status ≡ ok
      → set_cstr h (some s) p ≡ returned (set_valid_span h s p n)
  unfolding set_cstr
  set_cstr_lem source fine =
      ap (λ r. measured h r (λ s' len. returned (set_valid_span h s' p len)))
        (measure_c_string_input-done source fine)

  append_cstr_lem :
      IsSource h s p (n + 1)
      → s.status ≡ ok
      → append_cstr h (some s) p ≡ returned (append_valid_span h s p n)
  unfolding append_cstr
  append_cstr_lem source fine =
      ap (λ r. measured h r (λ s' len. returned (append_valid_span h s' p len)))
        (measure_c_string_input-done source fine)

  IsSource-shorter : IsSource h s p (n + 1) → IsSource h s p n
  IsSource-shorter source = ground (arith, source)

-- On a valid string without a sticky status, with a source of `n` bytes other than NUL and a NUL
-- after them, all readable (outside the allocation, or inside the content through its
-- terminator), str_set either succeeds, and the string is valid and holds those `n` bytes, as
-- they were before the call, and memory outside its buffer is unchanged and, apart from that
-- buffer, as many blocks are live as before; or the call returns STR_ERR_ALLOC or
-- STR_ERR_OVERFLOW, records it, and changes neither memory nor the rest of the string.
pub set_cstr-Answers :
    (h : Heap) (s : Str) (p n : ℕ)
    → IsValid h s
    → s.status ≡ ok
    → IsSource h s p (n + 1)
    → IsTerminated h.byte p n
    → Answers h s (bytes h.byte p n) (set_cstr h (some s) p)
set_cstr-Answers h s p n v fine source t = rw (set_cstr_lem h s p n v t source fine) (
    Answers-returned h s _ _ (
      set_valid_span-Mutates h s p n v fine (λ _. IsSource-shorter h s p n v t source)
        (ground (arith, source, v.shape, v.heap))))

-- On a valid string without a sticky status, with a source of `n` bytes other than NUL and a NUL
-- after them, all readable (outside the allocation, or inside the content through its
-- terminator), str_append either succeeds, and the string is valid and holds its old bytes and
-- then those `n` bytes, as they were before the call, and memory outside its buffer is unchanged
-- and, apart from that buffer, as many blocks are live as before; or the call returns
-- STR_ERR_ALLOC or STR_ERR_OVERFLOW, records it, and changes neither memory nor the rest of the
-- string.
pub append_cstr-Answers :
    (h : Heap) (s : Str) (p n : ℕ)
    → IsValid h s
    → s.status ≡ ok
    → IsSource h s p (n + 1)
    → IsTerminated h.byte p n
    → Answers h s (content h s ++ bytes h.byte p n) (append_cstr h (some s) p)
append_cstr-Answers h s p n v fine source t = rw (append_cstr_lem h s p n v t source fine) (
    Answers-returned h s _ _ (
      append_valid_span-Mutates h s p n v fine (λ _. IsSource-shorter h s p n v t source)
        (ground (arith, source, v.shape, v.heap))))
