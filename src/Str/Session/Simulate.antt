-- ===== src/Str/Session/Simulate.antt =====
-- Calls of mutators of agenc-str as steps of the abstract machine.
use agenc_c.Base.{
  ℕ, ◌+◌, ◌-◌, ◌≤◌, ◌<◌, ◌≡◌, inr, refl, ap, sym, subst, ◌∙◌, arith, none, some, List, [], ◌++◌,
  take, drop, replicate, size_max, le→leb, lt→leb, take-append-drop,
}
use native.Mathlib.Decide.{ℕ_discrete, dec_le}
use agenc_c.Memory.{Heap}
use agenc_c.Memory.Bytes.{bytes, length-bytes}
use agenc_c.Str.Types.{
  Status, ok, err_alloc, err_arg, err_range, err_overflow, err_fmt, Str, View, Run,
}
use agenc_c.Str.Source.{validate_mutation, validate_source, begin_mutation}
use agenc_c.Str.Size.{validate_span}
use agenc_c.Str.Buffer.{clear_failure}
use agenc_c.Str.Write.Append.{Updated-refl, clear_content-Updated}
use agenc_c.Str.Edit.Gap.{remove_valid-Sets}
use agenc_c.Str.Edit.Resize.{resize_valid-Mutates}
use agenc_c.Str.Edit.Reserve.{Reserves, reserve_valid-Reserves}
use agenc_c.Str.Valid.{IsValid, Mutates, content}
use agenc_c.Str.Write.{returned, proceed}
use agenc_c.Str.Edit.{
  insert_n, insert_valid, remove, remove_valid, resize, resize_valid, reserve, reserve_valid,
}
use agenc_c.Str.Replace.{replace_view}
use agenc_c.Str.Replace.Splice.{replace_view-Replaces}
use agenc_c.Str.Api.{insert_n-Answers}
use agenc_c.Str.Api.Arguments.{range_refused}
use agenc_c.Str.Life.{clear, clear_error}
use agenc_c.Str.Session.Outcome.{
  Simulates, Updated-Simulates, Replaces-Simulates, Answers-Simulates, Mutates-Simulates,
  range-Simulates,
}
use agenc_c.Str.Session.{
  splice, fit, keep, wipe, forgive, effect, took, clear_all, clear_status, perform, Readable,
}

module _ (h : Heap) (s : Str) (v : IsValid h s) where
  splice_in :
      (idx k : ℕ) (xs : List ℕ)
      → idx + k ≤ s.len
      → effect (splice idx k xs) (content h s)
        ≡ some (take idx (content h s) ++ (xs ++ drop (idx + k) (content h s)))
  splice_in idx k xs l = rw (length-bytes h.byte s.buf s.len, le→leb (idx + k) s.len l) refl

  splice_past :
      (idx k : ℕ) (xs : List ℕ) → s.len < idx + k → effect (splice idx k xs) (content h s) ≡ none
  splice_past idx k xs l = rw (length-bytes h.byte s.buf s.len, lt→leb (idx + k) s.len l) refl

  insert_n-zero :
      (idx p : ℕ) → s.status ≡ ok → idx ≤ s.len → insert_n h (some s) idx p 0 ≡ (h, some s, ok)
  unfolding insert_n insert_valid begin_mutation validate_mutation validate_source validate_span
  insert_n-zero idx p fine l = ground arith

  pub insert-Simulates :
      (idx p n : ℕ)
      → s.status ≡ ok
      → Readable h s p n
      → Simulates (splice idx 0 (bytes h.byte p n)) h s (insert_n h (some s) idx p n)
  insert-Simulates idx p n fine (pos, small, source) = elim (dec_le idx s.len) [
    | no past ↦
        range-Simulates h s v (splice idx 0 (bytes h.byte p n)) (insert_n h (some s) idx p n) fine
          (splice_past idx 0 (bytes h.byte p n) (omega arith))
          (range_refused h s idx idx (s.len + 1) p n fine pos (omega arith) (omega arith)).0
    | yes l ↦ elim (ℕ_discrete n 0) [
      | yes e ↦
          rw (e, insert_n-zero idx p fine l)
            (Updated-Simulates h s v (splice idx 0 []) (content h s) h s fine
              (splice_in idx 0 [] (omega arith)
                ∙ ap some (
                    ap (λ i. take idx (content h s) ++ drop i (content h s)) {x = idx + 0} {y = idx}
                      (omega arith)
                    ∙ take-append-drop idx (content h s)))
              (Updated-refl h s v fine))
      | no ne ↦
          Answers-Simulates h s v (splice idx 0 (bytes h.byte p n))
            (take idx (content h s) ++ (bytes h.byte p n ++ drop idx (content h s)))
            (insert_n h (some s) idx p n) fine
            (splice_in idx 0 (bytes h.byte p n) (omega arith)
              ∙ ap
                  (λ i. some (take idx (content h s) ++ (bytes h.byte p n ++ drop i (content h s))))
                  {x = idx + 0} {y = idx} (omega arith))
            (insert_n-Answers h s idx p n v fine l (omega arith) small (source ne))
    ]
  ]

  remove_fine :
      (idx n : ℕ) → s.status ≡ ok → remove h (some s) idx n ≡ returned (remove_valid h s idx n)
  unfolding remove
  remove_fine idx n fine =
      ap (λ e. proceed h (some s, e) (λ t. returned (remove_valid h t idx n))) fine

  pub remove-Simulates :
      (idx n : ℕ) → s.status ≡ ok → Simulates (splice idx n []) h s (remove h (some s) idx n)
  remove-Simulates idx n fine = elim (dec_le (idx + n) s.len) [
    | no past ↦
        range-Simulates h s v (splice idx n []) (remove h (some s) idx n) fine
          (splice_past idx n [] (omega arith))
          (range_refused h s (s.len + 1) idx n 1 0 fine (omega arith) (omega arith) (omega arith)).1
    | yes l ↦
        let (e, u, _, _, _, _, _) = remove_valid-Sets h s idx n v fine l in
        rw (remove_fine idx n fine) (
          subst
            (λ x.
              Simulates (splice idx n []) h s
                ((remove_valid h s idx n).0, some (remove_valid h s idx n).1, x))
            (sym e)
            (Updated-Simulates h s v (splice idx n [])
              (take idx (content h s) ++ drop (idx + n) (content h s)) (remove_valid h s idx n).0
              (remove_valid h s idx n).1 fine (splice_in idx n [] l) u))
  ]

  pub replace-Simulates :
      (idx k : ℕ) (view : View)
      → s.status ≡ ok
      → Readable h s view.ptr view.len
      → Simulates
          (splice idx k (bytes h.byte view.ptr view.len))
          h
          s
          (replace_view h (some s) idx k view)
  replace-Simulates idx k view fine (pos, small, source) = elim (dec_le (idx + k) s.len) [
    | no past ↦
        range-Simulates h s v (splice idx k (bytes h.byte view.ptr view.len))
          (replace_view h (some s) idx k view) fine
          (splice_past idx k (bytes h.byte view.ptr view.len) (omega arith))
          (range_refused h s (s.len + 1) idx k view.ptr view.len fine pos (omega arith)
            (omega arith)).2
    | yes l ↦
        Replaces-Simulates h s v (splice idx k (bytes h.byte view.ptr view.len))
          (take idx (content h s)
            ++ (bytes h.byte view.ptr view.len ++ drop (idx + k) (content h s)))
          (replace_view h (some s) idx k view) fine
          (splice_in idx k (bytes h.byte view.ptr view.len) l)
          (replace_view-Replaces h s idx k view.ptr view.len v fine l source small)
  ]

  pub resize-Simulates :
      (n fill : ℕ)
      → s.status ≡ ok
      → n ≤ size_max
      → Simulates (fit n fill) h s (resize h (some s) n fill)
  unfolding resize
  resize-Simulates n fill fine small =
      subst
        (λ e.
          Simulates (fit n fill) h s
            (proceed h (some s, e) (λ t. returned (resize_valid h t n fill))))
        (sym fine)
        (Mutates-Simulates h s v (fit n fill) (take n (content h s) ++ replicate (n - s.len) fill)
          (resize_valid h s n fill) fine
          (ap (λ k. some (take n (content h s) ++ replicate (n - k) fill))
            (length-bytes h.byte s.buf s.len))
          (resize_valid-Mutates h s n fill v fine small))

  Reserves-Mutates : (n : ℕ) (r : Run Status) → Reserves h s n r → Mutates h s (content h s) r
  Reserves-Mutates n (h', s', ok) m = m.update
  Reserves-Mutates n (h', s', err_alloc) m = m
  Reserves-Mutates n (h', s', err_overflow) m = m.0
  Reserves-Mutates n (h', s', err_arg) m = absurd m
  Reserves-Mutates n (h', s', err_range) m = absurd m
  Reserves-Mutates n (h', s', err_fmt) m = absurd m

  pub reserve-Simulates :
      (n : ℕ) → s.status ≡ ok → n ≤ size_max → Simulates keep h s (reserve h (some s) n)
  unfolding reserve
  reserve-Simulates n fine small =
      subst (λ e. Simulates keep h s (proceed h (some s, e) (λ t. returned (reserve_valid h t n))))
        (sym fine)
        (Mutates-Simulates h s v keep (content h s) (reserve_valid h s n) fine refl
          (Reserves-Mutates n (reserve_valid h s n) (reserve_valid-Reserves h s n v fine small)))

  pub clear-Simulates : Simulates wipe h s (perform clear_all h s)
  unfolding clear
  clear-Simulates =
      let cleared : IsValid h (clear_failure s) = record {
        heap = v.heap;
        shape = ground (arith, v.shape);
      } in
      let u = clear_content-Updated h (clear_failure s) cleared refl in
      (u.valid, took (inr refl) (ap some (sym u.holds)) u.status, sym u.status)

  pub clear_error-Simulates : Simulates forgive h s (perform clear_status h s)
  unfolding clear_error
  clear_error-Simulates =
      (record { heap = v.heap; shape = ground (arith, v.shape) }, took (inr refl) refl refl, refl)
