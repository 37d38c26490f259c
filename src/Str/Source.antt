-- ===== src/Str/Source.antt =====
-- How agenc-str/src/str.c validates its inputs and classifies a source pointer against the
-- string's own allocation.
pub mod Overlaps
use agenc_c.Base.{
  ℕ, zero, suc, ◌+◌, ◌-◌, ◌%◌, Bool, true, false, ◌||◌, not, Option, none, some, ltb, ◌==◌,
  if◌then◌else◌, word,
}
use agenc_c.Memory.{Heap, strlen}
use agenc_c.Str.Types.{Status, ok, err_arg, Str, Result, done, failed, Overlap, npos, View}

-- `status` is not `ok` at any call.
abbrev pub set_failure : Str → Status → Str
set_failure string status = record string { status = status }

abbrev pub record_failure : Str → Status → Str × Status
record_failure string status = (set_failure string status, status)

unfoldable pub validate_mutation : Option Str → Status
validate_mutation none = err_arg
validate_mutation (some string) = string.status

unfoldable pub validate_source : ℕ → ℕ → Status
validate_source source len = if len == 0 then ok else if source == 0 then err_arg else ok

-- The heap is not touched, and only the status of the string may change.
unfoldable pub begin_mutation : Option Str → ℕ → ℕ → Option Str × Status
unfolding validate_mutation validate_source
begin_mutation none source len = (none, validate_mutation none)
begin_mutation (some string) source len = elim (validate_mutation (some string)) [
  | ok ↦ elim (validate_source source len) [
    | ok ↦ (some string, ok)
    | e ↦ (some (set_failure string e), e)
  ]
  | e ↦ (some string, e)
]

-- The constant-time classification: one subtraction in `uintptr_t`.
unfoldable pub find_allocation_offset : Str → ℕ → ℕ
find_allocation_offset string source =
    let delta = (source + word - string.buf) % word in
    if string.buf == 0 then npos else if ltb delta string.cap then delta else npos

-- The loop of the STR_STRICT_ISO_OVERLAP build, with `rounds` offsets left to compare.
offset_loop : ℕ → ℕ → ℕ → ℕ → ℕ
offset_loop buf source offset zero = npos
offset_loop buf source offset (suc rounds) =
    let rest = offset_loop buf source (offset + 1) rounds in
    if source == buf + offset then offset else rest

pub find_allocation_offset_iso : Str → ℕ → ℕ
find_allocation_offset_iso string source =
    if string.buf == 0 then npos else offset_loop string.buf source 0 string.cap

unfoldable pub validate_internal_source_span : Str → ℕ → ℕ → Status
validate_internal_source_span string offset len =
    if ltb string.len offset
    then err_arg
    else if ltb (string.len - offset + 1) len
    then err_arg
    else ok

unfoldable pub detect_overlap : Str → ℕ → ℕ → Result Overlap
detect_overlap string source len =
    let idx = find_allocation_offset string source in
    if idx == npos
    then done (record { is_inside = false; idx = 0 })
    else elim (validate_internal_source_span string idx len) [
      | ok ↦ done (record { is_inside = true; idx = idx })
      | e ↦ failed e
    ]

-- `str_measure_bounded_c_string` at index `idx` with `rounds` bytes left.
unfoldable pub bounded_loop : (ℕ → ℕ) → ℕ → ℕ → ℕ → Result ℕ
bounded_loop m source idx zero = failed err_arg
bounded_loop m source idx (suc rounds) =
    let rest = bounded_loop m source (idx + 1) rounds in
    if m (source + idx) == 0 then done idx else rest

unfoldable pub measure_bounded_c_string : Heap → ℕ → ℕ → Result ℕ
measure_bounded_c_string h source available = bounded_loop h.byte source 0 available

unfoldable pub measure_internal_c_string : Heap → Str → ℕ → Str × Result ℕ
measure_internal_c_string h string offset = elim (validate_internal_source_span string offset 1) [
  | ok ↦ elim (measure_bounded_c_string h (string.buf + offset) (string.len - offset + 1)) [
    | done n ↦ (string, done n)
    | failed e ↦ (set_failure string e, failed e)
  ]
  | e ↦ (set_failure string e, failed e)
]

unfoldable pub measure_valid_c_string_input : Heap → Str → ℕ → Str × Result ℕ
measure_valid_c_string_input h string source =
    let idx = find_allocation_offset string source in
    if idx == npos then (string, done (strlen h source)) else measure_internal_c_string h string idx

-- On a NULL string there is no object on which to record the status.
unfoldable pub measure_c_string_input : Heap → Option Str → ℕ → Option Str × Result ℕ
measure_c_string_input h none source = (none, failed err_arg)
measure_c_string_input h (some string) source = elim (validate_mutation (some string)) [
  | ok ↦
      if source == 0
      then (some (set_failure string err_arg), failed err_arg)
      else (let (s, r) = measure_valid_c_string_input h string source in (some s, r))
  | e ↦ (some string, failed e)
]
