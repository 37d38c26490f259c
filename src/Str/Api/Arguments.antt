-- ===== src/Str/Api/Arguments.antt =====
-- Bad arguments of the mutators in agenc-str/src/str.c: refused, recorded, and nothing written.
use agenc_c.Base.{ℕ, ◌+◌, ◌≤◌, ◌<◌, ◌≡◌, arith, size_max, some}
use agenc_c.Memory.{Heap}
use agenc_c.Str.Types.{Status, ok, err_arg, err_range, Str, Call}
use agenc_c.Str.Size.{validate_span}
use agenc_c.Str.Source.{begin_mutation, validate_mutation, validate_source, set_failure}
use agenc_c.Str.Source.Overlaps.{detect_overlap-spare}
use agenc_c.Str.Valid.{IsValid}
use agenc_c.Str.Write.{
  append_n, set_n, set_valid_span, append_valid_span, prepare_valid_span, prepare_write,
}
use agenc_c.Str.Write.Prepare.{calculate_capacity-fits}
use agenc_c.Str.Edit.{insert_n, insert_valid, remove, remove_valid, prepare_insert}
use agenc_c.Str.Replace.{replace_view, replace_valid}

-- The call returned `e` with `e` recorded on the string, and wrote no memory.
abbrev pub Refuses : Heap → Str → Status → Call → Type 0
Refuses h s e call = call ≡ (h, some (set_failure s e), e)

-- On a string without a sticky status and with a source that is not NULL, an insertion past
-- `len`, a removal of a span that ends past `len`, and a replacement of such a span are refused:
-- STR_ERR_RANGE is returned and recorded, and nothing else changes.
pub range_refused :
    (h : Heap) (s : Str) (past idx k p n : ℕ)
    → s.status ≡ ok
    → 0 < p
    → s.len < past
    → s.len < idx + k
    → Refuses h s err_range (insert_n h (some s) past p n)
      × Refuses h s err_range (remove h (some s) idx k)
      × Refuses h s err_range (replace_view h (some s) idx k (record { ptr = p; len = n }))
unfolding insert_n insert_valid remove remove_valid replace_view replace_valid begin_mutation
    validate_mutation validate_source validate_span
range_refused h s past idx k p n fine nn beyond far = ground arith

-- On a valid string without a sticky status, a source of `n > 0` bytes that starts inside the
-- allocation and runs past the terminator is refused by setting, appending and inserting, given
-- `idx <= len` and `len + n < SIZE_MAX`: STR_ERR_ARG is returned and recorded, and nothing else
-- changes.
pub spare_refused :
    (h : Heap) (s : Str) (idx p n : ℕ)
    → IsValid h s
    → s.status ≡ ok
    → s.buf ≤ p
    → p < s.buf + s.cap
    → s.buf + s.len + 1 < p + n
    → 0 < n
    → idx ≤ s.len
    → s.len + n + 1 ≤ size_max
    → Refuses h s err_arg (set_n h (some s) p n)
      × Refuses h s err_arg (append_n h (some s) p n)
      × Refuses h s err_arg (insert_n h (some s) idx p n)
unfolding set_n append_n insert_n insert_valid set_valid_span append_valid_span prepare_valid_span
    prepare_write prepare_insert begin_mutation validate_mutation validate_source validate_span
spare_refused h s idx p n v fine from to past pos at_idx small = ground (
  arith,
  v.shape,
  detect_overlap-spare h s p n v from to past,
  calculate_capacity-fits s.len n small,
  calculate_capacity-fits 0 n (omega arith),
)
