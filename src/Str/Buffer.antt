-- ===== src/Str/Buffer.antt =====
-- Ownership and capacity in agenc-str/src/str.c: how the heap buffer of a string grows, shrinks
-- and is released. Without STR_TEST an allocation attempt is the call of the C library.
pub mod Grow
pub mod Budget
pub mod Granted
use agenc_c.Base.{ℕ, ◌+◌, Bool, Option, none, some, ltb, leb, ◌==◌, if◌then◌else◌, true, false}
use agenc_c.Memory.{Heap, malloc, realloc, free, poke}
use agenc_c.Str.Types.{
  Status, ok, err_alloc, Str, empty, Result, done, failed, Run, min_capacity_bytes,
}
use agenc_c.Str.Size.{choose_capacity}
use agenc_c.Str.Source.{set_failure}

abbrev pub is_owned : Str → Bool
is_owned string = ltb 0 string.cap

-- `str_reset_state`: the old storage is not released.
abbrev pub reset_state : Str → Str
reset_state string = empty

abbrev pub clear_failure : Str → Str
clear_failure string = record string { status = ok }

unfoldable pub clear_content : Heap → Str → Heap × Str
clear_content h string =
    (if ltb 0 string.cap then poke h string.buf 0 else h, record string { len = 0 })

unfoldable pub call_malloc : Heap → ℕ → Heap × Result ℕ
call_malloc h n =
    let (h', p) = malloc h n in (h', elim p [ none ↦ failed err_alloc | some q ↦ done q ])

unfoldable pub call_realloc : Heap → ℕ → ℕ → Heap × Result ℕ
call_realloc h buf n =
    let (h', p) = realloc h buf n in (h', elim p [ none ↦ failed err_alloc | some q ↦ done q ])

abbrev pub allocate_heap : Heap → ℕ → Heap × Result ℕ
allocate_heap = call_malloc

abbrev pub resize_heap : Heap → ℕ → ℕ → Heap × Result ℕ
resize_heap = call_realloc

abbrev pub release_heap : Heap → ℕ → Heap
release_heap = free

abbrev pub expand_heap : Heap → ℕ → ℕ → Bool → Heap × Result ℕ
expand_heap h buf n has_owned_buffer =
    if has_owned_buffer then resize_heap h buf n else allocate_heap h n

-- The owned buffer goes to the caller.
abbrev pub take_owned_buffer : Str → Str × ℕ
take_owned_buffer string = (reset_state string, string.buf)

unfoldable pub allocate_empty_buffer : Heap → Heap × Result ℕ
allocate_empty_buffer h =
    let (h', r) = allocate_heap h 1 in
    elim r [ failed e ↦ (h', failed e) | done p ↦ (poke h' p 0, done p) ]

unfoldable pub grow_heap : Heap → Str → ℕ → Run Status
grow_heap h string new_cap =
    let (h', r) = expand_heap h string.buf new_cap (is_owned string) in
    elim r [
      | failed e ↦ (h', string, e)
      | done p ↦ (
        if is_owned string then h' else poke h' p 0,
        record string { buf = p; cap = new_cap },
        ok,
      )
    ]

unfoldable pub ensure_capacity : Heap → Str → ℕ → Run Status
ensure_capacity h string need =
    if leb need string.cap then (h, string, ok) else elim (choose_capacity string.cap need) [
      | failed e ↦ (h, string, e)
      | done new_cap ↦ grow_heap h string new_cap
    ]

unfoldable pub shrink_heap : Heap → Str → ℕ → Run Status
shrink_heap h string exact_cap =
    if exact_cap == string.cap
    then (h, string, ok)
    else (let (h', r) = resize_heap h string.buf exact_cap in
        elim r [
          | failed e ↦ (h', string, e)
          | done p ↦ (h', record string { buf = p; cap = exact_cap }, ok)
        ])

unfoldable pub discard_heap : Heap → Str → Heap × Str
discard_heap h string = (release_heap h string.buf, reset_state string)
