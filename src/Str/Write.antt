-- ===== src/Str/Write.antt =====
-- Replacing and appending in agenc-str/src/str.c: the span operations behind str_set and
-- str_append.
pub mod Append
pub mod Unaliased
pub mod Prepare
pub mod Written
use agenc_c.Base.{ℕ, ◌+◌, ◌-◌, Bool, true, false, Option, none, some, ltb, leb, ◌==◌, if◌then◌else◌}
use agenc_c.Memory.{Heap, poke, memmove}
use agenc_c.Str.Types.{Status, ok, err_arg, Str, View, Result, done, failed, Run, Call, Overlap}
use agenc_c.Str.Size.{calculate_capacity}
use agenc_c.Str.Source.{
  set_failure, validate_mutation, begin_mutation, detect_overlap, measure_c_string_input,
}
use agenc_c.Str.Buffer.{ensure_capacity, clear_content}

abbrev pub write_terminator : Heap → Str → Heap
write_terminator h string = poke h (string.buf + string.len) 0

-- `str_move_bytes`; a length of zero permits NULL and copies nothing.
abbrev pub move_bytes : Heap → ℕ → ℕ → ℕ → Heap
move_bytes h destination source len = if len == 0 then h else memmove h destination source len

unfoldable pub replace_content : Heap → Str → ℕ → ℕ → Heap × Str
replace_content h string source len =
    let s = record string { len = len } in
    (write_terminator (move_bytes h string.buf source len) s, s)

unfoldable pub append_content : Heap → Str → ℕ → ℕ → Heap × Str
append_content h string source len =
    let s = record string { len = string.len + len } in
    (write_terminator (move_bytes h (string.buf + string.len) source len) s, s)

-- The address to copy from once the storage is ready.
abbrev pub rebased : Str → Overlap → ℕ → ℕ
rebased string overlap source = if overlap.is_inside then string.buf + overlap.idx else source

abbrev pub resolved : Overlap → ℕ → Run Status → Run (Result ℕ)
resolved overlap source (h, string, ok) = (h, string, done (rebased string overlap source))
resolved overlap source (h, string, e) = (h, string, failed e)

-- The result is the address to copy from, rebased if the source lies in the string's own buffer.
unfoldable pub prepare_write : Heap → Str → ℕ → ℕ → ℕ → Run (Result ℕ)
prepare_write h string source len base_len = elim (calculate_capacity base_len len) [
  | failed e ↦ (h, string, failed e)
  | done need ↦ elim (detect_overlap string source len) [
    | failed e ↦ (h, string, failed e)
    | done overlap ↦ resolved overlap source (ensure_capacity h string need)
  ]
]

-- A failure is recorded on the string.
abbrev pub recorded : Run (Result ℕ) → Run (Result ℕ)
recorded (h, string, failed e) = (h, set_failure string e, failed e)
recorded (h, string, done ready) = (h, string, done ready)

unfoldable pub prepare_valid_span : Heap → Str → ℕ → ℕ → ℕ → Run (Result ℕ)
prepare_valid_span h string source len base_len =
    recorded (prepare_write h string source len base_len)

-- A content update that cannot fail.
abbrev pub updated : Heap × Str → Run Status
updated (h, string) = (h, string, ok)

-- The write that follows a preparation.
abbrev pub replaced : ℕ → Run (Result ℕ) → Run Status
replaced len (h, string, failed e) = (h, string, e)
replaced len (h, string, done ready) = updated (replace_content h string ready len)

unfoldable pub set_valid_span : Heap → Str → ℕ → ℕ → Run Status
set_valid_span h string source len =
    if len == 0
    then updated (clear_content h string)
    else replaced len (prepare_valid_span h string source len 0)

abbrev pub appended : ℕ → Run (Result ℕ) → Run Status
appended len (h, string, failed e) = (h, string, e)
appended len (h, string, done ready) = updated (append_content h string ready len)

unfoldable pub append_valid_span : Heap → Str → ℕ → ℕ → Run Status
append_valid_span h string source len =
    if len == 0
    then (h, string, ok)
    else appended len (prepare_valid_span h string source len string.len)

-- What follows `ensure_capacity` where nothing is rebased: the write, or the recorded failure.
abbrev pub ensured : Run Status → (Heap → Str → Heap × Str) → Run Status
ensured (h, string, ok) write = updated (write h string)
ensured (h, string, e) write = (h, set_failure string e, e)

unfoldable pub append_unaliased_span : Heap → Str → ℕ → ℕ → Run Status
append_unaliased_span h string source len =
    if len == 0 then (h, string, ok) else elim (calculate_capacity string.len len) [
      | failed e ↦ (h, set_failure string e, e)
      | done need ↦ ensured (ensure_capacity h string need) (λ h' s. append_content h' s source len)
    ]

-- A call on a non-NULL string, as a call on a pointer.
abbrev pub returned : Run Status → Call
returned (h, string, status) = (h, some string, status)

-- What follows a status test: the call goes on with a non-NULL string exactly on `ok`.
abbrev pub proceed : Heap → Option Str × Status → (Str → Call) → Call
proceed h (none, status) next = (h, none, status)
proceed h (some string, ok) next = next string
proceed h (some string, e) next = (h, some string, e)

abbrev pub measured : Heap → Option Str × Result ℕ → (Str → ℕ → Call) → Call
measured h (string, failed e) next = (h, string, e)
measured h (none, done len) next = (h, none, err_arg)
measured h (some string, done len) next = next string len

unfoldable pub set_n : Heap → Option Str → ℕ → ℕ → Call
set_n h string source len =
    proceed h (begin_mutation string source len) (λ s. returned (set_valid_span h s source len))

unfoldable pub set_view : Heap → Option Str → View → Call
set_view h string source = set_n h string source.ptr source.len

unfoldable pub set_cstr : Heap → Option Str → ℕ → Call
set_cstr h string source =
    measured h (measure_c_string_input h string source)
      (λ s len. returned (set_valid_span h s source len))

unfoldable pub append_n : Heap → Option Str → ℕ → ℕ → Call
append_n h string source len =
    proceed h (begin_mutation string source len) (λ s. returned (append_valid_span h s source len))

unfoldable pub append_view : Heap → Option Str → View → Call
append_view h string source = append_n h string source.ptr source.len

unfoldable pub append_cstr : Heap → Option Str → ℕ → Call
append_cstr h string source =
    measured h (measure_c_string_input h string source)
      (λ s len. returned (append_valid_span h s source len))

-- `local` is the address of the one-byte array on the stack.
unfoldable pub append_char : Heap → Option Str → ℕ → ℕ → Call
append_char h none byte local = (h, none, err_arg)
append_char h (some string) byte local = elim (validate_mutation (some string)) [
  | ok ↦ returned (append_unaliased_span (poke h local byte) string local 1)
  | e ↦ (h, some string, e)
]
