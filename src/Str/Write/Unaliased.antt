-- ===== src/Str/Write/Unaliased.antt =====
-- Appending bytes that lie outside the string, in agenc-str/src/str.c: str_append_unaliased_span.
use agenc_c.Base.{ℕ, zero, suc, ◌+◌, ◌≤◌, ◌≡◌, ◌≢◌, inl, refl, arith, ◌++◌, size_max, ne→==, false}
use native.Mathlib.Decide.{dec_le}
use agenc_c.Memory.{Heap}
use agenc_c.Memory.Bytes.{bytes}
use agenc_c.Str.Types.{Status, ok, err_alloc, err_arg, err_range, err_overflow, err_fmt, Str, Run}
use agenc_c.Str.Source.Overlaps.{detect_overlap-outside}
use agenc_c.Str.Valid.{IsValid, IsOutside, Mutates, content}
use agenc_c.Str.Buffer.{ensure_capacity}
use agenc_c.Str.Write.{
  append_unaliased_span, append_valid_span, append_content, appended, recorded, resolved, ensured,
}
use agenc_c.Str.Write.Prepare.{
  prepare_valid_span-overflow, prepare_valid_span-room, calculate_capacity-fits,
  calculate_capacity-big,
}
use agenc_c.Str.Write.Append.{append_valid_span-Mutates}

-- Of a source outside the string nothing is rebased.
ensured-eq :
    (p n : ℕ) (r : Run Status)
    → ensured r (λ h' s'. append_content h' s' p n)
      ≡ appended n (recorded (resolved (record { is_inside = false; idx = 0 }) p r))
ensured-eq p n (h, s, ok) = refl
ensured-eq p n (h, s, err_arg) = refl
ensured-eq p n (h, s, err_alloc) = refl
ensured-eq p n (h, s, err_range) = refl
ensured-eq p n (h, s, err_overflow) = refl
ensured-eq p n (h, s, err_fmt) = refl

append_unaliased_span-eq :
    (h : Heap) (s : Str) (p n : ℕ)
    → IsValid h s
    → (n ≢ 0 → IsOutside h s p n)
    → n ≤ size_max
    → append_unaliased_span h s p n ≡ append_valid_span h s p n
unfolding append_unaliased_span append_valid_span
append_unaliased_span-eq h s p zero v out small = refl
append_unaliased_span-eq h s p (suc n) v out small = elim (dec_le (s.len + suc n + 1) size_max) [
  | no big ↦
      let e = calculate_capacity-big s.len (suc n) small (omega arith) in
      rw
        (
          ne→== (suc n) 0 (omega arith),
          prepare_valid_span-overflow h s p (suc n) s.len err_overflow e,
          e,
        )
        refl
  | yes fits ↦
      let e = calculate_capacity-fits s.len (suc n) fits in
      let d = detect_overlap-outside h s p (suc n) v (out (omega arith)) (omega arith) in
      rw
        (
          ne→== (suc n) 0 (omega arith),
          prepare_valid_span-room h s p (suc n) s.len (s.len + suc n + 1) _ e d,
          e,
        )
        (ensured-eq p (suc n) (ensure_capacity h s (s.len + suc n + 1)))
]

pub append_unaliased_span-Mutates :
    (h : Heap) (s : Str) (p n : ℕ)
    → IsValid h s
    → s.status ≡ ok
    → (n ≢ 0 → IsOutside h s p n)
    → n ≤ size_max
    → Mutates h s (content h s ++ bytes h.byte p n) (append_unaliased_span h s p n)
append_unaliased_span-Mutates h s p n v fine out small =
    rw (append_unaliased_span-eq h s p n v out small)
      (append_valid_span-Mutates h s p n v fine (λ ne. inl (out ne)) small)
