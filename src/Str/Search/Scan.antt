-- ===== src/Str/Search/Scan.antt =====
-- The byte scans find the first and the last occurrence.
use agenc_c.Base.{
  ℕ, zero, suc, ◌+◌, ◌≤◌, ◌<◌, ◌≡◌, ◌≢◌, refl, ap, ◌∙◌, ◌⊎◌, inl, inr, arith, ne→==, ==_iff,
}
use native.Mathlib.Decide.{ℕ_discrete}
use agenc_c.Str.Types.{View, npos}
use agenc_c.Str.Search.{
  find_byte_loop, view_find_byte, rfind_byte_loop, view_rfind_byte, search_view_byte, SearchMode,
  first, last,
}

-- No byte of the `n` bytes at `p` is `b`.
abbrev pub Absent : (ℕ → ℕ) → ℕ → ℕ → ℕ → Type 0
Absent m p n b = (i : ℕ) → i < n → m (p + i) ≢ b

-- `r` is the first index of `b` in a view, or npos if there is none.
abbrev pub FirstByte : (ℕ → ℕ) → View → ℕ → ℕ → Type 0
FirstByte m v b r =
    ((r < v.len) × (m (v.ptr + r) ≡ b) × Absent m v.ptr r b) ⊎ ((r ≡ npos) × Absent m v.ptr v.len b)

abbrev pub LastByte : (ℕ → ℕ) → View → ℕ → ℕ → Type 0
LastByte m v b r =
    ((r < v.len) × (m (v.ptr + r) ≡ b) × ((i : ℕ) → r < i → i < v.len → m (v.ptr + i) ≢ b))
    ⊎ ((r ≡ npos) × Absent m v.ptr v.len b)

find_byte_loop-first :
    (m : ℕ → ℕ) (v : View) (b idx n : ℕ)
    → idx + n ≡ v.len
    → Absent m v.ptr idx b
    → FirstByte m v b (find_byte_loop m v.ptr b idx n)
unfolding find_byte_loop
find_byte_loop-first m v b idx zero e none = inr (refl, λ i l. none i (omega arith))
find_byte_loop-first m v b idx (suc n) e none = elim (ℕ_discrete (m (v.ptr + idx)) b) [
  | yes hit ↦ rw ((==_iff (m (v.ptr + idx)) b).1 hit) (inl (omega arith, hit, none))
  | no miss ↦ rw (ne→== (m (v.ptr + idx)) b miss) (
      find_byte_loop-first m v b (idx + 1) n (omega arith) (λ i l. elim (ℕ_discrete i idx) [
        | yes same ↦ (λ q. miss (ap (λ k. m (v.ptr + k)) {x = idx} {y = i} (omega arith) ∙ q))
        | no other ↦ none i (omega arith)
      ]))
]

rfind_byte_loop-last :
    (m : ℕ → ℕ) (v : View) (b idx : ℕ)
    → idx ≤ v.len
    → ((i : ℕ) → idx ≤ i → i < v.len → m (v.ptr + i) ≢ b)
    → LastByte m v b (rfind_byte_loop m v.ptr b idx)
unfolding rfind_byte_loop
rfind_byte_loop-last m v b zero l none = inr (refl, λ i k. none i (omega arith) k)
rfind_byte_loop-last m v b (suc idx) l none = elim (ℕ_discrete (m (v.ptr + idx)) b) [
  | yes hit ↦ rw ((==_iff (m (v.ptr + idx)) b).1 hit) (inl (omega arith, hit, λ i k u. none i k u))
  | no miss ↦ rw (ne→== (m (v.ptr + idx)) b miss) (
      rfind_byte_loop-last m v b idx (omega arith) (λ i k u. elim (ℕ_discrete i idx) [
        | yes same ↦ (λ q. miss (ap (λ j. m (v.ptr + j)) {x = idx} {y = i} (omega arith) ∙ q))
        | no other ↦ none i (omega arith) u
      ]))
]

-- What a byte search promises, by its mode.
abbrev pub FindsByte : (ℕ → ℕ) → View → ℕ → SearchMode → ℕ → Type 0
FindsByte m v b first r = FirstByte m v b r
FindsByte m v b last r = LastByte m v b r

-- The byte search returns the first or the last index of the byte, by its mode, or npos if the
-- byte does not occur.
pub search_view_byte-FindsByte :
    (m : ℕ → ℕ) (v : View) (b : ℕ) (mode : SearchMode)
    → FindsByte m v b mode (search_view_byte m v b mode)
unfolding search_view_byte view_find_byte view_rfind_byte
search_view_byte-FindsByte m v b first =
    find_byte_loop-first m v b 0 v.len (omega arith) (λ i l. absurd (omega arith))
search_view_byte-FindsByte m v b last =
    rfind_byte_loop-last m v b v.len (omega arith) (λ i l u. absurd (omega arith))
