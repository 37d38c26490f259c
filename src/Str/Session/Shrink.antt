-- ===== src/Str/Session/Shrink.antt =====
-- str_shrink_to_fit of agenc-str as a step of the abstract machine.
use agenc_c.Base.{◌≡◌, ◌≢◌, inl, refl, ap, sym, subst, arith, some, ne→==, eq→==}
use native.Mathlib.Decide.{ℕ_discrete}
use agenc_c.Memory.{Heap, free}
use agenc_c.Memory.Bytes.{bytes}
use agenc_c.Str.Types.{ok, Str, empty}
use agenc_c.Str.Buffer.{discard_heap}
use agenc_c.Str.Write.Append.{Updated-refl}
use agenc_c.Str.Edit.Shrink.{shrink_valid-Mutates}
use agenc_c.Str.Valid.{IsValid, content}
use agenc_c.Str.Write.{returned, proceed}
use agenc_c.Str.Edit.{shrink_valid, shrink_to_fit}
use agenc_c.Str.Session.Outcome.{Simulates, Updated-Simulates, Mutates-Simulates}
use agenc_c.Str.Session.{keep, took}

module _ (h : Heap) (s : Str) (v : IsValid h s) where
  -- An empty string gives its block back.
  shrink_valid-zero : s.len ≡ 0 → s.cap ≢ 0 → shrink_valid h s ≡ (free h s.buf, empty, ok)
  unfolding shrink_valid discard_heap
  shrink_valid-zero none owned = rw (shrink_valid, ne→== s.cap 0 owned, eq→== s.len 0 none) refl

  shrink_valid-unowned : s.cap ≡ 0 → shrink_valid h s ≡ (h, s, ok)
  unfolding shrink_valid
  shrink_valid-unowned none = rw (shrink_valid, eq→== s.cap 0 none) refl

  discarded-IsValid : IsValid (free h s.buf) empty
  unfolding free
  discarded-IsValid = record {
    heap = ground (arith, v.heap);
    shape = inl (record { no_buf = refl; no_len = refl; no_cap = refl });
  }

  shrunk-Simulates : s.status ≡ ok → Simulates keep h s (returned (shrink_valid h s))
  shrunk-Simulates fine = elim (ℕ_discrete s.len 0) [
    | no some_bytes ↦
        Mutates-Simulates h s v keep (content h s) (shrink_valid h s) fine refl
          (shrink_valid-Mutates h s v fine (omega arith))
    | yes none ↦ elim (ℕ_discrete s.cap 0) [
      | yes unowned ↦
          rw (shrink_valid-unowned unowned)
            (Updated-Simulates h s v keep (content h s) h s fine refl (Updated-refl h s v fine))
      | no owned ↦ rw (shrink_valid-zero none owned) (
        discarded-IsValid,
        took (inl fine) (ap (λ n. some (bytes h.byte s.buf n)) none) refl,
        refl,
      )
    ]
  ]

  pub shrink-Simulates : s.status ≡ ok → Simulates keep h s (shrink_to_fit h (some s))
  unfolding shrink_to_fit
  shrink-Simulates fine =
      subst (λ e. Simulates keep h s (proceed h (some s, e) (λ t. returned (shrink_valid h t))))
        (sym fine) (shrunk-Simulates fine)
