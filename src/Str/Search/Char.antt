-- ===== src/Str/Search/Char.antt =====
-- str_find_char of agenc-str/src/str.c, which searches for a needle of one byte.
use agenc_c.Base.{
  ℕ, ◌+◌, ◌<◌, ◌≡◌, ◌≢◌, ◌⊎◌, refl, sym, inl, inr, ap, ◌∙◌, arith, Bool, true, false, some,
}
use agenc_c.Memory.{Heap}
use agenc_c.Str.Observe.{make_view, cstr}
use agenc_c.Str.Valid.{IsValid}
use agenc_c.Str.Types.{Str, View, npos, Result, done, failed, err_arg}
use agenc_c.Str.View.{view_from_n}
use agenc_c.Str.Search.{first, find_char}
use agenc_c.Str.Search.Loop.{Occurs}
use agenc_c.Str.Search.Find.{
  LocatesIn, Occurs-of_byte, Occurs-byte, make_view-IsValid, locate_view_match-LocatesIn,
}

-- `r` is the least index of `byte` in the content, or npos if the content has no such byte.
abbrev pub FirstByte : Heap → Str → ℕ → ℕ → Type 0
FirstByte h s byte r =
    ((r < s.len) × (h.byte (s.buf + r) ≡ byte) × ((i : ℕ) → i < r → h.byte (s.buf + i) ≢ byte))
    ⊎ ((r ≡ npos) × ((i : ℕ) → i < s.len → h.byte (s.buf + i) ≢ byte))

abbrev pub FindsChar : Heap → Bool → Str → ℕ → Result ℕ → Type 0
FindsChar h has_out s byte (done r) = (has_out ≡ true) × FirstByte h s byte r
FindsChar h has_out s byte (failed e) = (e ≡ err_arg) × (has_out ≡ false)

module _ (empty_buf : ℕ) (h : Heap) (s : Str) (local : ℕ) (v : IsValid h s) where
  abbrev needle : View
  needle = record { ptr = local; len = 1 }

  -- A nonempty string is viewed in its own buffer.
  viewed : (i : ℕ) → i < s.len → h.byte ((make_view empty_buf s).ptr + i) ≡ h.byte (s.buf + i)
  unfolding cstr
  viewed i l =
      ap (λ p. h.byte (p + i)) {x = (make_view empty_buf s).ptr} {y = s.buf}
        (ground (arith, v.shape))

  occurrence :
      (i : ℕ)
      → i < s.len
      → h.byte (s.buf + i) ≡ h.byte local
      → Occurs h.byte (make_view empty_buf s) needle i
  occurrence i l e = Occurs-of_byte h.byte (make_view empty_buf s) needle i refl (viewed i l ∙ e)

  LocatesIn-FirstByte :
      (r : ℕ)
      → LocatesIn h.byte (make_view empty_buf s) needle first r
      → FirstByte h s (h.byte local) r
  LocatesIn-FirstByte r (inl (e, none)) =
      inr (e, λ i l u. none i (omega arith) (omega arith) (occurrence i l u))
  LocatesIn-FirstByte r (inr (lt, occ, before)) = inl (
    omega arith,
    sym (viewed r (omega arith)) ∙ Occurs-byte h.byte (make_view empty_buf s) needle r refl occ,
    λ i l u. before i (omega arith) (omega arith) (occurrence i (omega arith) u),
  )

  needle-view : 0 < local → view_from_n empty_buf local 1 ≡ needle
  unfolding view_from_n
  needle-view pos = ground arith

  -- On a valid string and a byte at an address that is not NULL, str_find_char fails only on a
  -- NULL out pointer, with STR_ERR_ARG; otherwise its result is the least index of the byte in
  -- the content, or npos if the content does not have it.
  pub find_char-FindsChar :
      (has_out : Bool)
      → 0 < local
      → FindsChar h has_out s (h.byte local) (find_char empty_buf h.byte has_out (some s) local)
  unfolding find_char
  find_char-FindsChar false pos = (refl, refl)
  find_char-FindsChar true pos = rw (needle-view pos) (
    refl,
    LocatesIn-FirstByte _ (
        locate_view_match-LocatesIn h.byte (make_view empty_buf s) needle first
          (make_view-IsValid empty_buf h s v)),
  )
