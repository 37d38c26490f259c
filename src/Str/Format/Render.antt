-- ===== src/Str/Format/Render.antt =====
-- str_append_vfmt of agenc-str/src/str.c against the text that a conforming vsnprintf renders.
use agenc_c.Base.{
  ℕ, ◌+◌, ◌≤◌, ◌<◌, ◌≡◌, ◌⊎◌, inl, inr, refl, ap, ap₂, sym, subst, ◌∙◌, arith, List, ◌++◌, length,
  size_max, Option, some, eq→==, le→ltb, lt→ltb,
}
use native.Mathlib.Decide.{dec_le, dec_lt}
use agenc_c.Memory.{Heap}
use agenc_c.Memory.Bytes.{bytes, bytes_ext}
use agenc_c.Str.Types.{
  ok, err_alloc, err_arg, err_range, err_overflow, err_fmt, Str, Call, Result, done, failed,
}
use agenc_c.Str.Valid.{IsValid, IsSource, IsOutside, Mutates, content}
use agenc_c.Str.Buffer.{call_malloc}
use agenc_c.Str.Write.{append_unaliased_span, returned}
use agenc_c.Str.Write.Prepare.{calculate_capacity-fits, calculate_capacity-big, Quiet-refl}
use agenc_c.Str.Api.CString.{IsTerminated, measure_c_string_input-done}
use agenc_c.Str.Lend.{IsLent, Quiet-Spared, lent-IsValid, lent-content}
use agenc_c.Str.Replace.Splice.{Replaces}
use agenc_c.Str.Write.Unaliased.{append_unaliased_span-Mutates}
use agenc_c.Str.Format.Loan.{Mutates-Replaces, lent-Replaces, Obtains, call_malloc-Obtains}
use agenc_c.Str.Format.{
  Vsnprintf, Destination, format_stack_bytes, convert_printed_length, render_format,
  verify_format_render, verified, build_formatted_buffer, appended_block, append_format_payload,
  rendered, append_vfmt,
}

-- What a call of vsnprintf promises: it writes in the destination only, returns the length of the
-- text, and a text that is shorter than the capacity stands in the destination.
pub record Prints (h : Heap) (buf cap : ℕ) (text : List ℕ) (h' : Heap) (printed : Option ℕ)
    : Type 0 where
  pub printed_all : printed ≡ some (length text)
  pub wrote : length text < cap → bytes h'.byte buf (length text) ≡ text
  pub other : (a : ℕ) → (a < buf) ⊎ (buf + cap ≤ a) → h'.byte a ≡ h.byte a
  pub size : h'.size ≡ h.size
  pub brk : h'.brk ≡ h.brk
  pub live : h'.live ≡ h.live

-- The format and the arguments render as `text`, on the stack array and, while all other memory is
-- as it was, in every block above it.
pub record Renders {Args : Type 0} (vsnprintf : Vsnprintf Args) (h : Heap) (local format : ℕ)
    (arguments : Args) (text : List ℕ) : Type 0 where
  pub on_stack :
      let (h', printed) = vsnprintf h local format_stack_bytes format arguments in
      Prints h local format_stack_bytes text h' printed
  pub in_block :
      (h1 : Heap) (buf cap : ℕ)
      → 0 < cap
      → h.brk ≤ buf
      → buf + cap ≤ h1.brk
      → ((a : ℕ)
          → a < h.brk
          → (a < local) ⊎ (local + format_stack_bytes ≤ a)
          → h1.byte a ≡ h.byte a)
      → let (h', printed) = vsnprintf h1 buf cap format arguments in
        Prints h1 buf cap text h' printed

module _ {Args : Type 0} (vsnprintf : Vsnprintf Args) (h : Heap) (s : Str) (local format : ℕ)
    (arguments : Args) (text : List ℕ) (v : IsValid h s) (fine : s.status ≡ ok)
    (stack : IsOutside h s local format_stack_bytes)
    (rs : Renders vsnprintf h local format arguments text) where
  -- Memory after the first rendering.
  abbrev pub on_stack : Heap
  on_stack = (vsnprintf h local format_stack_bytes format arguments).0

  on_stack-IsValid : IsValid on_stack s
  on_stack-IsValid =
      let p = rs.on_stack in
      record {
        heap = ground (arith, p.brk, v.heap);
        shape = elim v.shape [
          | inl u ↦ inl u
          | inr o ↦ inr (ground (arith, o, stack.apart, p.other (s.buf + s.len), p.size, p.brk))
        ];
      }

  on_stack-content : content on_stack s ≡ content h s
  on_stack-content =
      let p = rs.on_stack in
      bytes_ext on_stack.byte h.byte s.buf s.buf s.len
        (λ i l. p.other (s.buf + i) (ground (arith, stack.apart, v.shape)))

  short-Replaces :
      length text < format_stack_bytes
      → Replaces on_stack s
          (content h s ++ text)
          (returned (append_unaliased_span on_stack s local (length text)))
  short-Replaces l =
      let p = rs.on_stack in
      let m =
        append_unaliased_span-Mutates on_stack s local (length text) on_stack-IsValid fine
          (λ ne. record {
            not_null = stack.not_null;
            readable = omega (arith, stack.readable, p.brk);
            apart = ground (arith, stack.apart);
          })
          (omega arith) in
      Mutates-Replaces on_stack s _ _ (omega (arith, on_stack-IsValid.heap)) (
        subst (λ t. Mutates on_stack s t (append_unaliased_span on_stack s local (length text)))
          (ap₂ ◌++◌ on_stack-content (p.wrote l)) m)

  verify_format_render-ok :
      (h2 : Heap) (q cap : ℕ)
      → (let (h3, printed) = vsnprintf h2 q cap format arguments in Prints h2 q cap text h3 printed)
      → length text ≤ size_max
      → verify_format_render vsnprintf h2
          (record { buf = q; capacity = cap })
          (length text)
          format
          arguments
        ≡ ((vsnprintf h2 q cap format arguments).0, ok)
  unfolding verify_format_render render_format convert_printed_length
  verify_format_render-ok h2 q cap p small =
      rw
        (p.printed_all, le→ltb size_max (length text) small, eq→== (length text) (length text) refl)
        refl

  -- The text in a new block, which the call gives back after the append.
  block_Replaces :
      (r : Heap × Result ℕ)
      → length text + 1 ≤ size_max
      → Obtains on_stack (length text + 1) r
      → Replaces on_stack s (content h s ++ text) (
          returned (
            appended_block vsnprintf s (length text) (elim (r.1) [
              | failed e ↦ (r.0, failed e)
              | done q ↦ verified vsnprintf q (
                  verify_format_render vsnprintf
                    (r.0)
                    (record { buf = q; capacity = length text + 1 })
                    (length text)
                    format
                    arguments)
            ])))
  block_Replaces (h2, failed err_alloc) small o =
      (Quiet-Spared on_stack h2 (omega (arith, on_stack-IsValid.heap)) o, refl)
  block_Replaces (h2, failed ok) small o = absurd o
  block_Replaces (h2, failed err_arg) small o = absurd o
  block_Replaces (h2, failed err_range) small o = absurd o
  block_Replaces (h2, failed err_overflow) small o = absurd o
  block_Replaces (h2, failed err_fmt) small o = absurd o
  block_Replaces (h2, done q) small o =
      let first = rs.on_stack in
      let p =
        rs.in_block h2 q (length text + 1) (omega arith) (omega (arith, o, first.brk))
          (omega (arith, o)) (λ a l ap. ground (arith, first.other a ap, o)) in
      let h3 : Heap = (vsnprintf h2 q (length text + 1) format arguments).0 in
      let st : IsLent on_stack (length text + 1) h3 q = record {
        mono = omega (arith, o, p.brk);
        top = omega (arith, o, p.brk);
        kept = λ a l. ground (arith, p.other a, o);
        sizes = λ a l. ap (λ f. f a) p.size ∙ o.4 a (omega (arith, o));
        holds =
            inr
              (o.0, omega (arith, o, p.brk), ap (λ f. f q) p.size ∙ o.3, omega arith, p.live ∙ o.6);
      } in
      let valid = lent-IsValid on_stack s (length text + 1) on_stack-IsValid h3 q st in
      let same = lent-content on_stack s (length text + 1) on_stack-IsValid h3 q st in
      let m =
        append_unaliased_span-Mutates h3 s q (length text) valid fine
          (λ ne. record {
            not_null = ground (arith, o, on_stack-IsValid.heap);
            readable = omega (arith, p.brk, o);
            apart = ground (arith, on_stack-IsValid.shape, o, v.shape, first.brk);
          })
          (omega arith) in
      rw (verify_format_render-ok h2 q (length text + 1) p (omega arith)) (
        lent-Replaces on_stack s (length text + 1) h3 q (content h s ++ text)
          (append_unaliased_span h3 s q (length text)) on_stack-IsValid st
          (subst (λ t. Mutates h3 s t (append_unaliased_span h3 s q (length text)))
            (ap₂ ◌++◌ (same ∙ on_stack-content) (p.wrote (omega arith))) m))

  long_Replaces :
      length text ≤ size_max
      → Replaces on_stack s (content h s ++ text) (
          returned (
            appended_block vsnprintf s
              (length text)
              (build_formatted_buffer vsnprintf on_stack (length text) format arguments)))
  unfolding build_formatted_buffer
  long_Replaces small = elim (dec_le (0 + length text + 1) size_max) [
    | no big ↦
        rw (calculate_capacity-big 0 (length text) small (omega arith), build_formatted_buffer)
          (
            Quiet-Spared on_stack on_stack (omega (arith, on_stack-IsValid.heap))
                (Quiet-refl on_stack),
            refl,
          )
    | yes fits ↦
        rw
          (
            calculate_capacity-fits 0 (length text) fits
                ∙ ap done {x = 0 + length text + 1} {y = length text + 1} (omega arith),
            build_formatted_buffer,
          )
          (block_Replaces (call_malloc on_stack (length text + 1)) (omega arith)
            (call_malloc-Obtains on_stack (length text + 1) (omega arith)))
  ]

  abbrev destination : Destination
  destination = record { buf = local; capacity = format_stack_bytes }

  render_format-fits :
      length text ≤ size_max
      → render_format vsnprintf h destination format arguments ≡ (on_stack, done (length text))
  unfolding render_format convert_printed_length
  render_format-fits small = rw (rs.on_stack.printed_all, le→ltb size_max (length text) small) refl

  render_format-big :
      size_max < length text
      → render_format vsnprintf h destination format arguments ≡ (on_stack, failed err_overflow)
  unfolding render_format convert_printed_length
  render_format-big big = rw (rs.on_stack.printed_all, lt→ltb size_max (length text) big) refl

  payload_Replaces :
      length text ≤ size_max
      → Replaces on_stack s (content h s ++ text) (
          returned (
            append_format_payload vsnprintf on_stack s
              (record {
                stack_destination = destination;
                rendered_len = length text;
                format = format;
              })
              arguments))
  unfolding append_format_payload
  payload_Replaces small = elim (dec_lt (length text) format_stack_bytes) [
    | yes lt ↦
        rw (append_format_payload, lt→ltb (length text) format_stack_bytes lt) (short-Replaces lt)
    | no ge ↦
        rw (append_format_payload, le→ltb (length text) format_stack_bytes (omega arith))
          (long_Replaces small)
  ]

  abbrev rest : Heap × Result ℕ → Call
  rest r = returned (rendered vsnprintf s destination format arguments r)

  rendered_Replaces :
      Replaces on_stack s
        (content h s ++ text)
        (rest (render_format vsnprintf h destination format arguments))
  rendered_Replaces = elim (dec_le (length text) size_max) [
    | no big ↦
        subst (λ r. Replaces on_stack s (content h s ++ text) (rest r))
          (sym (render_format-big (omega arith)))
          (
            Quiet-Spared on_stack on_stack (omega (arith, on_stack-IsValid.heap))
                (Quiet-refl on_stack),
            refl,
          )
    | yes small ↦
        subst (λ r. Replaces on_stack s (content h s ++ text) (rest r))
          (sym (render_format-fits small)) (payload_Replaces small)
  ]

  -- On a valid string without a sticky status, with a format of bytes other than NUL and a NUL
  -- after them, all readable (outside the allocation, or inside the content through its
  -- terminator), an array on the stack outside the allocation, and a vsnprintf that renders the
  -- same text each time and writes in its destination only, counted from the first rendering:
  -- str_append_vfmt either succeeds, and the string is valid and holds its old bytes and then
  -- the text, and memory outside its buffer is unchanged and, apart from that buffer, as many
  -- blocks are live as before; or it returns and records STR_ERR_ALLOC or STR_ERR_OVERFLOW, the
  -- rest of the string and all memory below `brk` are unchanged, and as many blocks are live as
  -- before.
  pub append_vfmt-Replaces :
      (n : ℕ)
      → IsSource h s format (n + 1)
      → IsTerminated h.byte format n
      → Replaces on_stack s
          (content h s ++ text)
          (append_vfmt vsnprintf h (some s) format arguments local)
  unfolding append_vfmt
  append_vfmt-Replaces n source t =
      rw (measure_c_string_input-done h s format n v t source fine) rendered_Replaces
