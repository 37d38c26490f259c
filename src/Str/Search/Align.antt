-- ===== src/Str/Search/Align.antt =====
-- What a candidate position of the Two-Way search tells of the positions behind it.
use agenc_c.Base.{
  ℕ, zero, suc, ◌+◌, ◌-◌, ◌≤◌, ◌<◌, ◌≡◌, ◌≢◌, sym, ap, ◌∙◌, arith, true, ltb, refl, ◌⊎◌, ne→==,
  ==_iff, ◌↔◌, if◌then◌else◌,
}
use native.Mathlib.Decide.{ℕ_discrete, dec_lt}
use agenc_c.Str.Search.{
  SearchState, SearchContext, scan_right_loop, left_match_loop, scan_right,
  has_candidate_left_match,
}
use agenc_c.Str.Search.Loop.{Occurs, scan_right_loop-match, left_match_loop-match}
use agenc_c.Str.Search.Critical.{Repeats, HasPeriod}
use agenc_c.Str.Search.Plan.{IsPlan}

-- The text `y` shows the bytes `x` of the needle from `l` up to `q`.
abbrev pub Matched : (ℕ → ℕ) → (ℕ → ℕ) → ℕ → ℕ → Type 0
Matched y x l q = (i : ℕ) → l ≤ i → i < q → y i ≡ x i

-- An occurrence `r` behind a candidate whose right part matches makes the needle repeat.
Matched-Repeats :
    (x y : ℕ → ℕ) (n l q r : ℕ)
    → Matched y x l q
    → ((i : ℕ) → i < n → y (r + i) ≡ x i)
    → ((j : ℕ) → j < r → l + j < n → l + j < q)
    → Repeats x n l r
Matched-Repeats x y n l q r h occ inside j a b d =
    sym (h (l + j) (omega arith) (inside j a b))
    ∙ ap y {x = l + j} {y = r + (l + j - r)} (omega arith)
    ∙ occ (l + j - r) (omega arith)

-- After a mismatch at `q` no occurrence lies within `q - l` bytes.
mismatch_gap :
    (x y : ℕ → ℕ) (n l q r : ℕ)
    → ((t : ℕ) → 0 < t → Repeats x n l t → HasPeriod x n t)
    → l ≤ q
    → q < n
    → Matched y x l q
    → y q ≢ x q
    → ((i : ℕ) → i < n → y (r + i) ≡ x i)
    → q - l < r
mismatch_gap x y n l q zero period a b h ne occ =
    absurd (ne (ap y {x = q} {y = 0 + q} (omega arith) ∙ occ q b))
mismatch_gap x y n l q (suc r) period a b h ne occ = elim (dec_lt (q - l) (suc r)) [
  | yes lt ↦ lt
  | no ge ↦
      let rep = Matched-Repeats x y n l q (suc r) h occ (λ j u v. omega arith) in
      let per = period (suc r) (omega arith) rep (q - suc r) (omega arith) in
      absurd (
        ne (
          ap y {x = q} {y = suc r + (q - suc r)} (omega arith)
          ∙ occ (q - suc r) (omega arith)
          ∙ sym per
          ∙ ap x {x = q - suc r + suc r} {y = q} (omega arith)))
]

scan_right_loop-stop :
    (m : ℕ → ℕ) (p q scan n : ℕ)
    → let r = scan_right_loop m p q scan n in (scan ≤ r) × (r < scan + n → m (q + r) ≢ m (p + r))
unfolding scan_right_loop
scan_right_loop-stop m p q scan zero = (omega arith, λ l. absurd (omega arith))
scan_right_loop-stop m p q scan (suc n) = elim (ℕ_discrete (m (p + scan)) (m (q + scan))) [
  | yes e ↦ rw ((==_iff (m (p + scan)) (m (q + scan))).1 e) (
    omega (arith, (scan_right_loop-stop m p q (scan + 1) n).0),
    λ l. (scan_right_loop-stop m p q (scan + 1) n).1 (omega arith),
  )
  | no ne ↦ rw (ne→== (m (p + scan)) (m (q + scan)) ne) (omega arith, λ l e. ne (sym e))
]

left_match_loop-true :
    (m : ℕ → ℕ) (p q memory n : ℕ)
    → ((i : ℕ) → i < n → m (q + i) ≡ m (p + i))
    → left_match_loop m p q memory n ≡ true
unfolding left_match_loop
left_match_loop-true m p q memory zero h = refl
left_match_loop-true m p q memory (suc n) h =
    let rest = left_match_loop-true m p q memory n (λ i l. h i (omega arith)) in
    let e = h n (omega arith) in ground arith

module _ (m : ℕ → ℕ) (c : SearchContext) where
  -- The bytes of the needle, and those of the haystack from a candidate on.
  abbrev pub bytes_of : ℕ → ℕ
  bytes_of i = m (c.needle.ptr + i)

  abbrev pub bytes_at : ℕ → ℕ → ℕ
  bytes_at idx i = m (c.haystack.ptr + idx + i)

  -- A state whose candidate is in range and whose memory counts bytes known to match.
  pub record Ready (s : SearchState) : Type 0 where
    pub bound : s.idx ≤ c.last_idx
    pub memory_lt : s.memory < c.needle.len
    pub known : Matched (bytes_at s.idx) bytes_of 0 s.memory

  module _ (k : IsPlan bytes_of c) (s : SearchState) (g : Ready s) where
    abbrev pub scanned : ℕ
    scanned = scan_right m c.haystack c.needle c.factor s

    pub scan_right_lem :
        (c.factor.cut ≤ scanned)
        × (scanned ≤ c.needle.len)
        × Matched (bytes_at s.idx) bytes_of c.factor.cut scanned
        × (scanned < c.needle.len → bytes_at s.idx scanned ≢ bytes_of scanned)
    unfolding scan_right
    scan_right_lem =
        let start : ℕ = if ltb c.factor.cut s.memory then s.memory else c.factor.cut in
        let rounds : ℕ = c.needle.len - start in
        let range : (c.factor.cut ≤ start)
            × (start < c.needle.len)
            × (start ≡ c.factor.cut ⊎ start ≡ s.memory) =
          ground (arith, k.cut_lt, g.memory_lt) in
        let match = scan_right_loop-match m c.needle.ptr (c.haystack.ptr + s.idx) start rounds in
        let stop = scan_right_loop-stop m c.needle.ptr (c.haystack.ptr + s.idx) start rounds in
        (
          omega (arith, range.0, stop.0),
          omega (arith, range.1, match.0),
          λ i a b. elim (dec_lt i start) [
            | yes lt ↦ g.known i (omega arith) (omega (arith, range.2))
            | no ge ↦ match.1 i (omega arith) b
          ],
          λ l. stop.1 (omega (arith, range.1)),
        )

    -- After a full right match the test of the left part decides an occurrence.
    pub has_candidate_left_match_iff :
        c.needle.len ≤ scanned
        → (has_candidate_left_match m c.haystack c.needle c.factor s ≡ true)
          ↔ Occurs m c.haystack c.needle s.idx
    unfolding has_candidate_left_match
    has_candidate_left_match_iff full = (
      λ e i l. elim (dec_lt i c.factor.cut) [
        | no ge ↦ scan_right_lem.2 i (omega arith) (omega arith)
        | yes lt ↦ elim (dec_lt i s.memory) [
          | yes kn ↦ g.known i (omega arith) kn
          | no un ↦
              left_match_loop-match m c.needle.ptr (c.haystack.ptr + s.idx) s.memory c.factor.cut e
                i (omega arith) lt
        ]
      ],
      λ h.
          left_match_loop-true m c.needle.ptr (c.haystack.ptr + s.idx) s.memory c.factor.cut
            (λ i l. h i (omega (arith, k.cut_lt))),
    )

    behind :
        (r : ℕ)
        → s.idx ≤ r
        → Occurs m c.haystack c.needle r
        → (i : ℕ) → i < c.needle.len
        → bytes_at s.idx (r - s.idx + i) ≡ bytes_of i
    behind r le occ i l =
        ap m {x = c.haystack.ptr + s.idx + (r - s.idx + i)} {y = c.haystack.ptr + r + i}
          (omega arith)
        ∙ occ i l

    -- No occurrence starts in front of the shift of a mismatch, nor behind a candidate whose right
    -- part matches in front of the full shift.
    pub mismatch_lem :
        (r : ℕ)
        → scanned < c.needle.len
        → s.idx ≤ r
        → Occurs m c.haystack c.needle r
        → s.idx + (scanned - c.factor.cut + 1) ≤ r
    mismatch_lem r l le occ =
        let q = scan_right_lem in
        let gap =
          mismatch_gap bytes_of (bytes_at s.idx) c.needle.len c.factor.cut scanned (r - s.idx)
            k.period q.0 l q.2 (q.3 l) (behind r le occ) in
        omega (arith, gap)

    pub full_lem :
        (r : ℕ)
        → c.needle.len ≤ scanned
        → s.idx < r
        → Occurs m c.haystack c.needle r
        → s.idx + c.full_shift ≤ r
    full_lem r l lt occ =
        let q = scan_right_lem in
        let rep =
          Matched-Repeats bytes_of (bytes_at s.idx) c.needle.len c.factor.cut scanned (r - s.idx)
            q.2 (behind r (omega arith) occ) (λ j a b. omega arith) in
        omega (arith, k.full (r - s.idx) (omega arith) rep)

    -- What a full right match leaves known at the candidate behind the full shift.
    pub saved_lem :
        c.needle.len ≤ scanned → Matched (bytes_at (s.idx + c.full_shift)) bytes_of 0 c.saved_memory
    saved_lem l i a b =
        ap m {x = c.haystack.ptr + (s.idx + c.full_shift) + i}
          {y = c.haystack.ptr + s.idx + (c.full_shift + i)} (omega arith)
        ∙ scan_right_lem.2 (c.full_shift + i) (k.cut_le i b) (omega (arith, k.saved_fits i b))
        ∙ k.saved i b
