-- ===== src/Str/Search/Loop.antt =====
-- The Two-Way loop ends within its rounds: every round moves the candidate forward.
use native.Mathlib.Decide.{ℕ_discrete}
use agenc_c.Base.{
  ℕ, zero, suc, ◌+◌, ◌≤◌, ◌<◌, ◌≡◌, sym, ap, ◌∙◌, ◌⊎◌, arith, true, false, ne→==, ==_iff,
}
use agenc_c.Str.Types.{View}
use agenc_c.Str.Search.{
  SearchState, SearchContext, SearchMode, search_step, search_loop, scan_right_loop,
  search_on_mismatch, search_after_right_match, search_advance, calculate_nonperiodic_shift,
  build_search_context, left_match_loop,
}
use agenc_c.Str.Search.Walk.{find_critical_factor_bounds}

-- A context whose shifts are positive and whose cut lies in the needle.
pub record IsContext (c : SearchContext) : Type 0 where
  pub shift_pos : 0 < c.full_shift
  pub saved_lt : c.saved_memory < c.needle.len
  pub cut_lt : c.factor.cut < c.needle.len

pub build_search_context-IsContext :
    (m : ℕ → ℕ) (haystack needle : View) (mode : SearchMode)
    → 0 < needle.len
    → IsContext (build_search_context m haystack needle mode)
unfolding build_search_context calculate_nonperiodic_shift
build_search_context-IsContext m haystack needle mode pos =
    ground (arith, find_critical_factor_bounds m needle pos)

-- A round keeps the candidate in range and the memory inside the needle, moves forward if the
-- search goes on, and records nothing but the candidate.
pub search_step_lem :
    (m : ℕ → ℕ) (c : SearchContext) (s : SearchState) (found : ℕ)
    → IsContext c
    → s.idx ≤ c.last_idx
    → s.memory < c.needle.len
    → let (s', next, found') = search_step m c s found in
      (s'.idx ≤ c.last_idx)
      × (s'.memory < c.needle.len)
      × ((next ≡ false) ⊎ (s.idx < s'.idx))
      × ((found' ≡ found) ⊎ (found' ≡ s.idx))
unfolding search_step search_on_mismatch search_after_right_match search_advance
search_step_lem m c s found k l mem = ground arith

-- From a state of a search context whose candidate is not past the last index and whose memory
-- is shorter than the needle, with more rounds than candidates left, further rounds do not
-- change the result: the search loop ends by its own test.
pub search_loop-add :
    (m : ℕ → ℕ) (c : SearchContext) (s : SearchState) (found rounds extra : ℕ)
    → IsContext c
    → s.idx ≤ c.last_idx
    → s.memory < c.needle.len
    → c.last_idx < s.idx + rounds
    → search_loop m c s found (rounds + extra) ≡ search_loop m c s found rounds
unfolding search_loop
search_loop-add m c s found zero extra k l mem enough = absurd (omega arith)
search_loop-add m c s found (suc rounds) extra k l mem enough =
    ap (search_loop m c s found) {x = suc rounds + extra} {y = suc (rounds + extra)} (omega arith)
    ∙ ground (
      arith,
      search_step_lem m c s found k l mem,
      search_loop-add m c (search_step m c s found).0 (search_step m c s found).2 rounds extra k,
    )

-- The needle stands at `idx`.
abbrev pub Occurs : (ℕ → ℕ) → View → View → ℕ → Type 0
Occurs m haystack needle idx =
    (i : ℕ) → i < needle.len → m (haystack.ptr + idx + i) ≡ m (needle.ptr + i)

pub scan_right_loop-match :
    (m : ℕ → ℕ) (p q scan n : ℕ)
    → let r = scan_right_loop m p q scan n in
      (r ≤ scan + n) × ((i : ℕ) → scan ≤ i → i < r → m (q + i) ≡ m (p + i))
unfolding scan_right_loop
scan_right_loop-match m p q scan zero = (omega arith, λ i a b. absurd (omega arith))
scan_right_loop-match m p q scan (suc n) = elim (ℕ_discrete (m (p + scan)) (m (q + scan))) [
  | yes e ↦ rw ((==_iff (m (p + scan)) (m (q + scan))).1 e) (
    omega (arith, (scan_right_loop-match m p q (scan + 1) n).0),
    λ i a b. elim (ℕ_discrete i scan) [
      | yes same ↦ ap (λ k. m (q + k)) same ∙ sym e ∙ ap (λ k. m (p + k)) (sym same)
      | no other ↦ (scan_right_loop-match m p q (scan + 1) n).1 i (omega arith) b
    ],
  )
  | no ne ↦ rw (ne→== (m (p + scan)) (m (q + scan)) ne) (omega arith, λ i a b. absurd (omega arith))
]

pub left_match_loop-match :
    (m : ℕ → ℕ) (p q memory n : ℕ)
    → left_match_loop m p q memory n ≡ true
    → (i : ℕ) → memory ≤ i
    → i < n
    → m (q + i) ≡ m (p + i)
unfolding left_match_loop
left_match_loop-match m p q memory zero t i a b = absurd (omega arith)
left_match_loop-match m p q memory (suc n) t i a b = elim (ℕ_discrete i n) [
  | yes same ↦
      let e : m (p + n) ≡ m (q + n) = ground arith in
      ap (λ k. m (q + k)) same ∙ sym e ∙ ap (λ k. m (p + k)) (sym same)
  | no other ↦ left_match_loop-match m p q memory n (ground arith) i a (omega arith)
]
