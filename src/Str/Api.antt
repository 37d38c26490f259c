-- ===== src/Str/Api.antt =====
-- The public mutators of agenc-str/src/str.c on a pointer that may be NULL.
pub mod Others
pub mod Granted
pub mod Arguments
pub mod CString
pub mod Refusals
use agenc_c.Base.{
  ℕ, zero, suc, ◌+◌, ◌-◌, ◌≤◌, ◌<◌, ◌≡◌, ◌≢◌, refl, ◌⊎◌, inl, inr, arith, List, ◌++◌, size_max,
  none, some, Option, take, drop, replicate,
}
use agenc_c.Memory.{Heap}
use agenc_c.Memory.Bytes.{bytes}
use agenc_c.Str.Types.{
  Status, ok, err_arg, err_alloc, err_range, err_overflow, err_fmt, Str, Run, Call, View,
}
use agenc_c.Str.Source.{begin_mutation, validate_mutation, validate_source, set_failure}
use agenc_c.Str.Valid.{IsValid, IsSource, Mutates, content}
use agenc_c.Str.Write.{
  append_n, append_view, append_valid_span, append_char, append_cstr, set_n, set_view, set_cstr,
  set_valid_span, returned, proceed,
}
use agenc_c.Str.Write.Append.{append_valid_span-Mutates, set_valid_span-Mutates}
use agenc_c.Str.Edit.{
  insert_n, insert_view, insert_valid, remove, resize, resize_valid, reserve, shrink_to_fit,
}
use agenc_c.Str.Edit.Insert.{insert_valid-Mutates}
use agenc_c.Str.Edit.Resize.{resize_valid-Mutates}
use agenc_c.Str.Replace.{replace_view}

-- The outcomes of a public mutator on a non-NULL string.
abbrev pub Answers : Heap → Str → List ℕ → Call → Type 0
Answers h s text (h', some s', status) = Mutates h s text (h', s', status)
Answers h s text (h', none, status) = ⊥

pub Answers-returned :
    (h : Heap) (s : Str) (text : List ℕ) (r : Run Status)
    → Mutates h s text r
    → Answers h s text (returned r)
Answers-returned h s text (h', s', status) m = m

source_not_null : (h : Heap) (s : Str) (p n : ℕ) → IsValid h s → IsSource h s p n → 0 < p
source_not_null h s p n v source = ground (arith, v.shape)

pub begin_mutation-ok :
    (h : Heap) (s : Str) (p n : ℕ)
    → IsValid h s
    → s.status ≡ ok
    → (n ≢ 0 → IsSource h s p n)
    → begin_mutation (some s) p n ≡ (some s, ok)
unfolding begin_mutation
begin_mutation-ok h s p zero v fine source = ground arith
begin_mutation-ok h s p (suc n) v fine source =
    ground (arith, source_not_null h s p (suc n) v (source (omega arith)))

-- On a valid string without a sticky status, with `n <= SIZE_MAX` and, unless `n` is 0, a
-- readable source (outside the allocation, or inside the content through its terminator),
-- str_append_n either succeeds, and the string is valid and holds its old bytes and then the
-- source's `n` bytes as they were before the call, and memory outside its buffer is unchanged
-- and, apart from that buffer, as many blocks are live as before; or the call returns
-- STR_ERR_ALLOC or STR_ERR_OVERFLOW, records it, and changes neither memory nor the rest of the
-- string.
pub append_n-Answers :
    (h : Heap) (s : Str) (p n : ℕ)
    → IsValid h s
    → s.status ≡ ok
    → (n ≢ 0 → IsSource h s p n)
    → n ≤ size_max
    → Answers h s (content h s ++ bytes h.byte p n) (append_n h (some s) p n)
unfolding append_n
append_n-Answers h s p n v fine source small =
    rw (begin_mutation-ok h s p n v fine source, append_n, proceed)
      (Answers-returned h s _ _ (append_valid_span-Mutates h s p n v fine source small))

-- On a valid string without a sticky status, with `n <= SIZE_MAX` and, unless `n` is 0, a
-- readable source (outside the allocation, or inside the content through its terminator),
-- str_set_n either succeeds, and the string is valid and holds the source's `n` bytes as they
-- were before the call, and memory outside its buffer is unchanged and, apart from that buffer,
-- as many blocks are live as before; or the call returns STR_ERR_ALLOC or STR_ERR_OVERFLOW,
-- records it, and changes neither memory nor the rest of the string.
pub set_n-Answers :
    (h : Heap) (s : Str) (p n : ℕ)
    → IsValid h s
    → s.status ≡ ok
    → (n ≢ 0 → IsSource h s p n)
    → n ≤ size_max
    → Answers h s (bytes h.byte p n) (set_n h (some s) p n)
unfolding set_n
set_n-Answers h s p n v fine source small =
    rw (begin_mutation-ok h s p n v fine source, set_n, proceed)
      (Answers-returned h s _ _ (set_valid_span-Mutates h s p n v fine source small))

-- On a valid string without a sticky status, with `idx <= len`, `0 < n <= SIZE_MAX` and a
-- readable source (outside the allocation, or inside the content through its terminator),
-- str_insert_n either succeeds, and the string is valid and holds its first `idx` bytes, then
-- the source's `n` bytes as they were before the call, then its other bytes, and memory outside
-- its buffer is unchanged and, apart from that buffer, as many blocks are live as before; or the
-- call returns STR_ERR_ALLOC or STR_ERR_OVERFLOW, records it, and changes neither memory nor the
-- rest of the string.
pub insert_n-Answers :
    (h : Heap) (s : Str) (idx p n : ℕ)
    → IsValid h s
    → s.status ≡ ok
    → idx ≤ s.len
    → 0 < n
    → n ≤ size_max
    → IsSource h s p n
    → Answers h s
        (take idx (content h s) ++ (bytes h.byte p n ++ drop idx (content h s)))
        (insert_n h (some s) idx p n)
unfolding insert_n
insert_n-Answers h s idx p n v fine at_idx pos small source =
    rw (begin_mutation-ok h s p n v fine (λ _. source), insert_n, proceed)
      (Answers-returned h s _ _ (insert_valid-Mutates h s idx p n v fine at_idx pos small source))
