-- ===== src/Str/Replace/Splice.antt =====
-- str_replace_view of agenc-str/src/str.c against lists of bytes.
use agenc_c.Base.{
  ℕ, ◌+◌, ◌-◌, ◌≤◌, ◌<◌, ◌≡◌, ◌≢◌, inl, inr, refl, ap, ap₂, ◌∙◌, arith, List, ◌++◌, size_max, take,
  drop, ne→==, eq→==, ◌&&◌, false, take-append-drop, le→ltb, lt→ltb, some, ◌==◌,
}
use native.Mathlib.Decide.{ℕ_discrete, dec_le}
use agenc_c.Memory.{Heap}
use agenc_c.Memory.Bytes.{bytes}
use agenc_c.Str.Types.{
  Status, ok, err_alloc, err_arg, err_range, err_overflow, err_fmt, Str, Run, Call, Result, done,
  failed,
}
use agenc_c.Str.Size.{calculate_replacement_length}
use agenc_c.Str.Size.Bounds.{add_size-eq, validate_span-ok}
use agenc_c.Str.Source.{set_failure}
use agenc_c.Str.Source.Overlaps.{detect_overlap-outside, detect_overlap-inside}
use agenc_c.Str.Valid.{IsValid, IsSource, Updated, content}
use agenc_c.Str.Buffer.Grow.{ensure_capacity-Grows, Grown-refl, IsOwner-of_cap}
use agenc_c.Str.Write.{returned, proceed}
use agenc_c.Str.Write.Prepare.{calculate_capacity-fits, calculate_capacity-big, Quiet-refl}
use agenc_c.Str.Write.Written.{Written-Updated}
use agenc_c.Str.Write.Append.{Updated-refl}
use agenc_c.Str.Api.{begin_mutation-ok}
use agenc_c.Str.Replace.{
  Staged, staged_replacement, replace_equal_span, replace_resized_span, apply_replacement, settled,
  replace_valid, replace_view, write_content,
}
use agenc_c.Str.Replace.Commit.{write_content-content, write_content-Written}
use agenc_c.Str.Replace.Stage.{Stages, stage_replacement-Stages}
use agenc_c.Str.Lend.{Spared, Quiet-Spared}
use agenc_c.Str.Replace.Release.{Applies, committed-Applies, staged-IsValid}

-- The outcomes of a replacement: the text, or a recorded failure that spared all older memory.
abbrev pub Replaces : Heap → Str → List ℕ → Call → Type 0
Replaces h s text (h', some s', ok) = Updated h s text h' s'
Replaces h s text (h', some s', err_alloc) = Spared h h' × (s' ≡ set_failure s err_alloc)
Replaces h s text (h', some s', err_overflow) = Spared h h' × (s' ≡ set_failure s err_overflow)
Replaces h s text _ = ⊥

settled-Replaces :
    (h : Heap) (s : Str) (text : List ℕ) (r : Run Status)
    → Applies h s text r
    → Replaces h s text (returned (settled r))
settled-Replaces h s text (h', s', ok) a = a
settled-Replaces h s text (h', s', err_alloc) a = (a.0, ap (λ t. set_failure t err_alloc) a.1)
settled-Replaces h s text (h', s', err_overflow) a = (a.0, ap (λ t. set_failure t err_overflow) a.1)
settled-Replaces h s text (h', s', err_arg) a = absurd a
settled-Replaces h s text (h', s', err_range) a = absurd a
settled-Replaces h s text (h', s', err_fmt) a = absurd a

module _ (h : Heap) (s : Str) (idx k p n : ℕ) (v : IsValid h s) (fine : s.status ≡ ok)
    (inside : idx + k ≤ s.len) where
  abbrev spliced : List ℕ
  spliced = take idx (content h s) ++ (bytes h.byte p n ++ drop (idx + k) (content h s))

  Spared-refl : Spared h h
  Spared-refl = Quiet-Spared h h (omega (arith, v.heap)) (Quiet-refl h)

  staged_replacement-Applies :
      s.len - k + n + 1 ≤ size_max
      → (r : Heap × Result Staged) → Stages h s (record { ptr = p; len = n }) r
      → Applies h s spliced (staged_replacement (s.len - k + n + 1) idx k s r)
  staged_replacement-Applies fits (h1, done staged) st =
      committed-Applies h s p n v h1 staged.view.ptr staged.owned_buf st.1 idx k staged.view
        (ap (λ l. record { ptr = staged.view.ptr; len = l }) st.0) inside fine _
        (ensure_capacity-Grows h1 s (s.len - k + n + 1)
          (staged-IsValid h s p n v h1 staged.view.ptr staged.owned_buf st.1) (omega arith) fits)
  staged_replacement-Applies fits (h1, failed err_alloc) q =
      (Quiet-Spared h h1 (omega (arith, v.heap)) q, refl)
  staged_replacement-Applies fits (h1, failed ok) q = absurd q
  staged_replacement-Applies fits (h1, failed err_arg) q = absurd q
  staged_replacement-Applies fits (h1, failed err_range) q = absurd q
  staged_replacement-Applies fits (h1, failed err_overflow) q = absurd q
  staged_replacement-Applies fits (h1, failed err_fmt) q = absurd q

  resized-Applies :
      n ≤ size_max
      → s.len - k + n ≤ size_max
      → (n ≢ 0 → IsSource h s p n)
      → Applies h s spliced
          (replace_resized_span h s idx k (s.len - k + n) (record { ptr = p; len = n }))
  unfolding replace_resized_span
  resized-Applies small len_fits source = elim (dec_le (0 + (s.len - k + n) + 1) size_max) [
    | no big ↦
        rw (calculate_capacity-big 0 (s.len - k + n) len_fits (omega arith), replace_resized_span)
          (Spared-refl, refl)
    | yes fits ↦
        rw
          (
            calculate_capacity-fits 0 (s.len - k + n) fits
                ∙ ap done {x = 0 + (s.len - k + n) + 1} {y = s.len - k + n + 1} (omega arith),
            replace_resized_span,
          )
          (staged_replacement-Applies (omega arith) _ (stage_replacement-Stages h s p n v source))
  ]

  in_place : k ≡ n → 0 < n → Updated h s spliced (write_content h s idx p n) s
  in_place same pos =
      Written-Updated h s s.len h s _ s _ fine
        (Grown-refl h s s.len v.heap (IsOwner-of_cap h s v (ground (arith, v.shape)))
          (ground (arith, v.shape)))
        (write_content-Written h s idx k p n inside same v pos) v
        (write_content-content h s idx k p n inside same v)

  -- The span in place: a source inside the string is where it was.
  equal-Applies :
      k ≡ n
      → 0 < n
      → IsSource h s p n
      → Applies h s spliced (replace_equal_span h s idx (record { ptr = p; len = n }))
  unfolding replace_equal_span
  equal-Applies same pos (inl out) =
      rw (detect_overlap-outside h s p n v out pos, replace_equal_span) (in_place same pos)
  equal-Applies same pos (inr inn) =
      rw
        (
          detect_overlap-inside h s p n v inn pos,
          replace_equal_span,
          ap (λ q. write_content h s idx q n) {x = s.buf + (p - s.buf)} {y = p}
              (omega (arith, inn)),
        )
        (in_place same pos)

  apply_replacement-Applies :
      (n ≢ 0 → IsSource h s p n)
      → ¬ ((k ≡ 0) × (n ≡ 0))
      → n ≤ size_max
      → Applies h s spliced (apply_replacement h s idx k (record { ptr = p; len = n }))
  unfolding apply_replacement calculate_replacement_length
  apply_replacement-Applies source some_work small = elim (ℕ_discrete k n) [
    | yes same ↦ rw (eq→== k n same) (equal-Applies same (ground arith) (source (ground arith)))
    | no differ ↦ elim (dec_le (s.len - k + n) size_max) [
      | no big ↦
          rw
            (
              ne→== k n differ,
              apply_replacement,
              add_size-eq (s.len - k) n small,
              lt→ltb size_max (s.len - k + n) (omega arith),
            )
            (Spared-refl, refl)
      | yes fits ↦
          rw
            (
              ne→== k n differ,
              apply_replacement,
              add_size-eq (s.len - k) n small,
              le→ltb size_max (s.len - k + n) fits,
            )
            (resized-Applies small fits source)
    ]
  ]

  idle_test : k + n ≢ 0 → ((k == 0) && (n == 0)) ≡ false
  idle_test work = ground arith

  nothing_spliced : k ≡ 0 → n ≡ 0 → spliced ≡ content h s
  nothing_spliced no_span no_bytes =
      ap₂ (λ i j. take idx (content h s) ++ (bytes h.byte p j ++ drop (idx + i) (content h s)))
        no_span no_bytes
      ∙ ap (λ i. take idx (content h s) ++ drop i (content h s)) {x = idx + 0} {y = idx}
          (omega arith)
      ∙ take-append-drop idx (content h s)

  replace_valid-Replaces :
      (n ≢ 0 → IsSource h s p n)
      → n ≤ size_max
      → Replaces h s spliced (returned (replace_valid h s idx k (record { ptr = p; len = n })))
  unfolding replace_valid
  replace_valid-Replaces source small =
      rw ((validate_span-ok s.len idx k).1 (omega arith, inside), replace_valid)
        (elim (ℕ_discrete (k + n) 0) [
          | yes idle ↦
              rw
                (
                  eq→== k 0 (omega arith),
                  eq→== n 0 (omega arith),
                  nothing_spliced (omega arith) (omega arith),
                )
                (Updated-refl h s v fine)
          | no work ↦ rw (idle_test work) (
              settled-Replaces h s spliced _
                (apply_replacement-Applies source (λ z. work (omega arith)) small))
        ])

-- On a valid string without a sticky status, with `idx + k <= len`, `n <= SIZE_MAX` and, unless
-- `n` is 0, a readable source (outside the allocation, or inside the content through its
-- terminator), str_replace_view either succeeds, and the string is valid and holds its first
-- `idx` bytes, then the source's `n` bytes as they were before the call, then its bytes from
-- `idx + k` on, and memory outside its buffer is unchanged and, apart from that buffer, as many
-- blocks are live as before; or it returns and records STR_ERR_ALLOC or STR_ERR_OVERFLOW, the
-- rest of the string and all memory below `brk` are unchanged, and as many blocks are live as
-- before.
pub replace_view-Replaces :
    (h : Heap) (s : Str) (idx k p n : ℕ)
    → IsValid h s
    → s.status ≡ ok
    → idx + k ≤ s.len
    → (n ≢ 0 → IsSource h s p n)
    → n ≤ size_max
    → Replaces h s
        (take idx (content h s) ++ (bytes h.byte p n ++ drop (idx + k) (content h s)))
        (replace_view h (some s) idx k (record { ptr = p; len = n }))
unfolding replace_view
replace_view-Replaces h s idx k p n v fine inside source small =
    rw (begin_mutation-ok h s p n v fine source, replace_view, proceed)
      (replace_valid-Replaces h s idx k p n v fine inside source small)
