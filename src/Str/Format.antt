-- ===== src/Str/Format.antt =====
-- Formatted appends of agenc-str/src/str.c: str_append_vfmt and str_append_fmt. vsnprintf is a
-- parameter, on the memory, the destination and its capacity, the format and the arguments: what it
-- leaves of memory and the length it returns, where `none` is a negative value.
pub mod Loan
pub mod Render
pub mod Refuse
mod Tests
use agenc_c.Base.{ℕ, ◌+◌, ◌-◌, Option, none, some, ltb, ◌==◌, if◌then◌else◌, size_max}
use agenc_c.Memory.{Heap}
use agenc_c.Str.Types.{Status, ok, err_overflow, err_fmt, Str, Result, done, failed, Run, Call}
use agenc_c.Str.Size.{calculate_capacity}
use agenc_c.Str.Source.{set_failure, measure_c_string_input}
use agenc_c.Str.Buffer.{allocate_heap, release_heap}
use agenc_c.Str.Write.{append_unaliased_span, returned, measured}

-- STR_FORMAT_STACK_BYTES
abbrev pub format_stack_bytes : ℕ
format_stack_bytes = 256

abbrev pub Vsnprintf : Type 0 → Type 0
Vsnprintf Args = Heap → ℕ → ℕ → ℕ → Args → Heap × Option ℕ

-- `str_format_destination_t`
pub record Destination : Type 0 where
  pub buf : ℕ
  pub capacity : ℕ

-- `str_format_payload_t`
pub record Payload : Type 0 where
  pub stack_destination : Destination
  pub rendered_len : ℕ
  pub format : ℕ

unfoldable pub convert_printed_length : Option ℕ → Result ℕ
convert_printed_length none = failed err_fmt
convert_printed_length (some value) = if ltb size_max value then failed err_overflow else done value

module _ {Args : Type 0} (vsnprintf : Vsnprintf Args) where
  unfoldable pub render_format : Heap → Destination → ℕ → Args → Heap × Result ℕ
  render_format h destination format arguments =
      let (h', printed) = vsnprintf h destination.buf destination.capacity format arguments in
      (h', elim printed [ none ↦ failed err_fmt | some n ↦ convert_printed_length (some n) ])

  unfoldable pub verify_format_render : Heap → Destination → ℕ → ℕ → Args → Heap × Status
  verify_format_render h destination expected_len format arguments =
      let (h', r) = render_format h destination format arguments in
      (h', elim r [ failed e ↦ e | done n ↦ if n == expected_len then ok else err_fmt ])

  -- The block goes to the caller if the second rendering is like the first, and back otherwise.
  abbrev pub verified : ℕ → Heap × Status → Heap × Result ℕ
  verified buf (h, ok) = (h, done buf)
  verified buf (h, e) = (release_heap h buf, failed e)

  unfoldable pub build_formatted_buffer : Heap → ℕ → ℕ → Args → Heap × Result ℕ
  build_formatted_buffer h expected_len format arguments =
      elim (calculate_capacity 0 expected_len) [
        | failed e ↦ (h, failed e)
        | done capacity ↦
            let (h', r) = allocate_heap h capacity in
            elim r [
              | failed e ↦ (h', failed e)
              | done buf ↦ verified buf (
                  verify_format_render h' (record { buf = buf; capacity = capacity }) expected_len
                    format arguments)
            ]
      ]

  -- The append of a rendered block, which is released on both ways out.
  abbrev pub appended_block : Str → ℕ → Heap × Result ℕ → Run Status
  appended_block string len (h, failed e) = (h, set_failure string e, e)
  appended_block string len (h, done rendered_buf) =
      let (h', s, status) = append_unaliased_span h string rendered_buf len in
      (release_heap h' rendered_buf, s, status)

  unfoldable pub append_format_payload : Heap → Str → Payload → Args → Run Status
  append_format_payload h string payload arguments =
      if ltb payload.rendered_len payload.stack_destination.capacity
      then append_unaliased_span h string payload.stack_destination.buf payload.rendered_len
      else appended_block string payload.rendered_len
          (build_formatted_buffer h payload.rendered_len payload.format arguments)

  -- The rest of `str_append_vfmt` after the first rendering.
  abbrev pub rendered : Str → Destination → ℕ → Args → Heap × Result ℕ → Run Status
  rendered string destination format arguments (h, failed e) = (h, set_failure string e, e)
  rendered string destination format arguments (h, done len) =
      append_format_payload h string
        (record { stack_destination = destination; rendered_len = len; format = format }) arguments

  -- `local` is the address of the array on the stack.
  unfoldable pub append_vfmt : Heap → Option Str → ℕ → Args → ℕ → Call
  append_vfmt h string format arguments local =
      let destination : Destination = record { buf = local; capacity = format_stack_bytes } in
      measured h (measure_c_string_input h string format) (λ s format_len.
        returned
          (rendered s destination format arguments (render_format h destination format arguments)))

  -- `va_start` and `va_end` around the call.
  unfoldable pub append_fmt : Heap → Option Str → ℕ → Args → ℕ → Call
  append_fmt h string format arguments local = append_vfmt h string format arguments local
