-- ===== src/Str/Edit.antt =====
-- Inserting, removing, resizing and the capacity calls of agenc-str/src/str.c.
pub mod Gap
pub mod Insert
pub mod Resize
pub mod Reserve
pub mod Shrink
use agenc_c.Base.{
  ℕ, ◌+◌, ◌-◌, ◌<◌, Bool, true, false, Option, none, some, ltb, leb, ◌==◌, if◌then◌else◌,
}
use agenc_c.Memory.{Heap, poke, memmove, memset}
use agenc_c.Str.Types.{Status, ok, err_arg, Str, View, Result, done, failed, Run, Call, Overlap}
use agenc_c.Str.Size.{calculate_capacity, calculate_replacement_length, validate_span, add_size}
use agenc_c.Str.Source.{set_failure, validate_mutation, begin_mutation, detect_overlap}
use agenc_c.Str.Buffer.{ensure_capacity, discard_heap, shrink_heap, allocate_heap, release_heap}
use agenc_c.Str.Write.{
  write_terminator, move_bytes, returned, proceed, updated, ensured, recorded, resolved, rebased,
}

-- Where an internal source lies once the insertion has opened its gap.
abbrev pub adjust_source_offset : Overlap → ℕ → ℕ → ℕ
adjust_source_offset overlap idx len =
    if leb idx overlap.idx then overlap.idx + len else overlap.idx

-- An overlap as the insertion sees it: the offset is taken after the gap.
abbrev pub adjusted : Overlap → ℕ → ℕ → Overlap
adjusted overlap idx len = record overlap { idx = adjust_source_offset overlap idx len }

-- The result is the address to copy from after the tail has moved.
unfoldable pub prepare_insert : Heap → Str → ℕ → ℕ → ℕ → Run (Result ℕ)
prepare_insert h string idx source len = elim (calculate_capacity string.len len) [
  | failed e ↦ (h, string, failed e)
  | done need ↦ elim (detect_overlap string source len) [
    | failed e ↦ (h, string, failed e)
    | done overlap ↦ resolved (adjusted overlap idx len) source (ensure_capacity h string need)
  ]
]

-- The tail of the content, its terminator included, moves up by `len`.
abbrev pub open_gap : Heap → Str → ℕ → ℕ → Heap
open_gap h string idx len =
    move_bytes h (string.buf + idx + len) (string.buf + idx) (string.len - idx + 1)

unfoldable pub commit_insert : Heap → Str → ℕ → ℕ → ℕ → Heap × Str
commit_insert h string idx source len =
    let h2 = move_bytes (open_gap h string idx len) (string.buf + idx) source len in
    let s = record string { len = string.len + len } in (write_terminator h2 s, s)

-- The insertion that follows a preparation.
abbrev pub inserted : ℕ → ℕ → Run (Result ℕ) → Run Status
inserted idx len (h, string, failed e) = (h, string, e)
inserted idx len (h, string, done ready) = updated (commit_insert h string idx ready len)

unfoldable pub insert_valid : Heap → Str → ℕ → ℕ → ℕ → Run Status
insert_valid h string idx source len = elim (validate_span string.len idx 0) [
  | ok ↦
      if len == 0
      then (h, string, ok)
      else inserted idx len (recorded (prepare_insert h string idx source len))
  | e ↦ (h, set_failure string e, e)
]

unfoldable pub insert_n : Heap → Option Str → ℕ → ℕ → ℕ → Call
insert_n h string idx source len =
    proceed h (begin_mutation string source len) (λ s. returned (insert_valid h s idx source len))

unfoldable pub insert_view : Heap → Option Str → ℕ → View → Call
insert_view h string idx source = insert_n h string idx source.ptr source.len

unfoldable pub close_gap : Heap → Str → ℕ → ℕ → Heap × Str
close_gap h string idx len =
    let tail_len = string.len - idx - len + 1 in
    let h1 = move_bytes h (string.buf + idx) (string.buf + idx + len) tail_len in
    let s = record string { len = string.len - len } in (write_terminator h1 s, s)

unfoldable pub remove_valid : Heap → Str → ℕ → ℕ → Run Status
remove_valid h string idx len = elim (validate_span string.len idx len) [
  | ok ↦ if len == 0 then (h, string, ok) else updated (close_gap h string idx len)
  | e ↦ (h, set_failure string e, e)
]

-- The mutation of a non-NULL string without a sticky status.
abbrev pub mutate : Heap → Option Str → (Str → Run Status) → Call
mutate h none next = (h, none, err_arg)
mutate h (some string) next = proceed h (some string, string.status) (λ s. returned (next s))

unfoldable pub remove : Heap → Option Str → ℕ → ℕ → Call
remove h string idx len = mutate h string (λ s. remove_valid h s idx len)

unfoldable pub extend_content : Heap → Str → ℕ → ℕ → Heap × Str
extend_content h string len fill =
    let h1 = memset h (string.buf + string.len) fill (len - string.len) in
    let s = record string { len = len } in (write_terminator h1 s, s)

-- `str_grow_content` with its failure recorded by the caller.
unfoldable pub grow_content : Heap → Str → ℕ → ℕ → Run Status
grow_content h string len fill = elim (calculate_capacity 0 len) [
  | failed e ↦ (h, set_failure string e, e)
  | done need ↦ ensured (ensure_capacity h string need) (λ h' s. extend_content h' s len fill)
]

unfoldable pub resize_valid : Heap → Str → ℕ → ℕ → Run Status
resize_valid h string len fill =
    if len == string.len
    then (h, string, ok)
    else if ltb len string.len
    then updated (close_gap h string len (string.len - len))
    else grow_content h string len fill

unfoldable pub resize : Heap → Option Str → ℕ → ℕ → Call
resize h string len fill = mutate h string (λ s. resize_valid h s len fill)

unfoldable pub reserve_valid : Heap → Str → ℕ → Run Status
reserve_valid h string len = if len == 0 then (h, string, ok) else elim (calculate_capacity 0 len) [
  | failed e ↦ (h, set_failure string e, e)
  | done need ↦ ensured (ensure_capacity h string need) (λ h' s. (h', s))
]

unfoldable pub reserve : Heap → Option Str → ℕ → Call
reserve h string len = mutate h string (λ s. reserve_valid h s len)

unfoldable pub shrink_valid : Heap → Str → Run Status
shrink_valid h string =
    if string.cap == 0
    then (h, string, ok)
    else if string.len == 0
    then updated (discard_heap h string)
    else elim (add_size string.len 1) [
      | failed e ↦ (h, set_failure string e, e)
      | done exact_cap ↦ ensured (shrink_heap h string exact_cap) (λ h' s. (h', s))
    ]

unfoldable pub shrink_to_fit : Heap → Option Str → Call
shrink_to_fit h string = mutate h string (λ s. shrink_valid h s)
