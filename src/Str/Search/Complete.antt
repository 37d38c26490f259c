-- ===== src/Str/Search/Complete.antt =====
-- The Two-Way search finds the first or the last occurrence, and npos only if there is none.
use agenc_c.Base.{
  ℕ, zero, suc, ◌+◌, ◌-◌, ◌≤◌, ◌<◌, ◌≡◌, refl, ◌⊎◌, inl, inr, arith, Bool, true, false,
  if◌then◌else◌, lt→ltb, le→ltb, Bool-cases, subst, sym,
}
use native.Mathlib.Decide.{dec_lt}
use agenc_c.Str.Types.{View, npos}
use agenc_c.Str.Search.{
  SearchState, SearchContext, SearchMode, first, last, Step, search_step, search_loop,
  search_two_way, search_on_mismatch, search_after_right_match, search_advance,
  build_search_context, is_first, has_candidate_left_match,
}
use agenc_c.Str.Search.Loop.{Occurs}
use agenc_c.Str.Search.Plan.{IsPlan, build_search_context-IsPlan}
use agenc_c.Str.Search.Align.{
  Matched, Ready, bytes_of, bytes_at, scanned, has_candidate_left_match_iff, mismatch_lem, full_lem,
  saved_lem,
}

-- The needle does not occur at the indices from `a` up to `b`.
abbrev pub NoneIn : (ℕ → ℕ) → View → View → ℕ → ℕ → Type 0
NoneIn m haystack needle a b = (r : ℕ) → a ≤ r → r < b → Occurs m haystack needle r → ⊥

-- No occurrence below `b` comes before the one at `r`, or behind it, by the mode.
abbrev pub Outermost : (ℕ → ℕ) → View → View → SearchMode → ℕ → ℕ → Type 0
Outermost m haystack needle first b r = NoneIn m haystack needle 0 r
Outermost m haystack needle last b r = NoneIn m haystack needle (r + 1) b

-- `r` is the first or the last occurrence below `b`, by the mode, or npos if there is none.
abbrev pub Locates : (ℕ → ℕ) → View → View → SearchMode → ℕ → ℕ → Type 0
Locates m haystack needle mode b r =
    ((r ≡ npos) × NoneIn m haystack needle 0 b)
    ⊎ ((r < b) × Occurs m haystack needle r × Outermost m haystack needle mode b r)

module _ (m : ℕ → ℕ) (c : SearchContext) where
  -- What the search has found among the indices below `b`.
  abbrev Seen : ℕ → ℕ → Type 0
  Seen b found =
      ((found ≡ npos) × NoneIn m c.haystack c.needle 0 b)
      ⊎ ((c.mode ≡ last)
          × (found < b)
          × Occurs m c.haystack c.needle found
          × NoneIn m c.haystack c.needle (found + 1) b)

  Seen-Locates : (b found : ℕ) → Seen b found → Locates m c.haystack c.needle c.mode b found
  Seen-Locates b found (inl e) = inl e
  Seen-Locates b found (inr (e, l, occ, none)) =
      inr (l, occ, subst (λ mode. Outermost m c.haystack c.needle mode b found) (sym e) none)

  NoneIn-join :
      (a b d : ℕ)
      → NoneIn m c.haystack c.needle a b
      → NoneIn m c.haystack c.needle b d
      → NoneIn m c.haystack c.needle a d
  NoneIn-join a b d f g r u v occ = elim (dec_lt r b) [
    | yes lt ↦ f r u lt occ
    | no ge ↦ g r (omega arith) v occ
  ]

  Seen-add :
      (a b found : ℕ) → a ≤ b → Seen a found → NoneIn m c.haystack c.needle a b → Seen b found
  Seen-add a b found l (inl (e, none)) g = inl (e, NoneIn-join 0 a b none g)
  Seen-add a b found l (inr (e, lt, occ, none)) g =
      inr (e, omega arith, occ, NoneIn-join (found + 1) a b none g)

  -- After a step the search goes on from a later candidate, or its result is right.
  abbrev Outcome : SearchState → Step → Type 0
  Outcome s (s', next, found) =
      ((next ≡ true) × Ready m c s' × Seen s'.idx found × (s.idx < s'.idx))
      ⊎ ((next ≡ false) × Locates m c.haystack c.needle c.mode (c.last_idx + 1) found)

  advance_Outcome :
      (s : SearchState) (shift memory found : ℕ)
      → 0 < shift
      → s.idx ≤ c.last_idx
      → memory < c.needle.len
      → Matched (bytes_at m c (s.idx + shift)) (bytes_of m c) 0 memory
      → ((b : ℕ) → s.idx < b → b ≤ s.idx + shift → Seen b found)
      → let (s', next) = search_advance s c.last_idx shift in
        Outcome s (record s' { memory = memory }, next, found)
  unfolding search_advance
  advance_Outcome s shift memory found pos le mem known seen =
      elim (dec_lt (c.last_idx - s.idx) shift) [
        | yes lt ↦ rw (lt→ltb (c.last_idx - s.idx) shift lt) (
            inr (
              refl,
              Seen-Locates (c.last_idx + 1) found
                  (seen (c.last_idx + 1) (omega arith) (omega arith)),
            ))
        | no ge ↦ rw (le→ltb (c.last_idx - s.idx) shift (omega arith)) (
            inl (
              refl,
              record { bound = omega arith; memory_lt = mem; known = known },
              seen (s.idx + shift) (omega arith) (omega arith),
              omega arith,
            ))
      ]

  module _ (k : IsPlan (bytes_of m c) c) (s : SearchState) (g : Ready m c s) where
    mismatch_Outcome :
        (found : ℕ)
        → Seen s.idx found
        → scanned m c k s g < c.needle.len
        → let (s', next) = search_on_mismatch c s (scanned m c k s g) in Outcome s (s', next, found)
    unfolding search_on_mismatch
    mismatch_Outcome found seen l =
        advance_Outcome s (scanned m c k s g - c.factor.cut + 1) 0 found (omega arith) g.bound
          (omega (arith, k.cut_lt)) (λ i a b. absurd (omega arith))
          (λ b lt le.
            Seen-add s.idx b found (omega arith) seen
              (λ r u v occ. absurd (omega (arith, mismatch_lem m c k s g r l u occ))))

    full_Outcome :
        (found : ℕ)
        → c.needle.len ≤ scanned m c k s g
        → Seen (s.idx + 1) found
        → let (s', next) = search_advance s c.last_idx c.full_shift in
          Outcome s (record s' { memory = c.saved_memory }, next, found)
    full_Outcome found l seen =
        advance_Outcome s c.full_shift c.saved_memory found k.shift_pos g.bound k.saved_lt
          (saved_lem m c k s g l)
          (λ b lt le.
            Seen-add (s.idx + 1) b found (omega arith) seen
              (λ r u v occ. absurd (omega (arith, full_lem m c k s g r l (omega arith) occ))))

    Seen-miss :
        (found : ℕ)
        → Seen s.idx found
        → has_candidate_left_match m c.haystack c.needle c.factor s ≡ false
        → c.needle.len ≤ scanned m c k s g
        → Seen (s.idx + 1) found
    Seen-miss found seen e l = Seen-add s.idx (s.idx + 1) found (omega arith) seen (λ r u v occ.
        let same : s.idx ≡ r = omega arith in
        let hit =
          (has_candidate_left_match_iff m c k s g l).1
            (subst (Occurs m c.haystack c.needle) (sym same) occ) in
        absurd (cc))

    -- A hit is the first occurrence when the search looks for the first one.
    hit_Outcome :
        (found : ℕ)
        → Seen s.idx found
        → c.needle.len ≤ scanned m c k s g
        → has_candidate_left_match m c.haystack c.needle c.factor s ≡ true
        → (mode : SearchMode) → c.mode ≡ mode
        → Outcome s (
            if is_first mode
            then (s, false, s.idx)
            else (let (s', next) = search_advance s c.last_idx c.full_shift in
                (record s' { memory = c.saved_memory }, next, s.idx)))
    hit_Outcome found seen l e first same =
        let occ = (has_candidate_left_match_iff m c k s g l).0 e in
        let none : NoneIn m c.haystack c.needle 0 s.idx = elim seen [
          | inl f ↦ f.1
          | inr f ↦ absurd (cc)
        ] in
        inr (
          refl,
          inr (
            omega (arith, g.bound),
            occ,
            subst (λ mode. Outermost m c.haystack c.needle mode (c.last_idx + 1) s.idx) (sym same)
                none,
          ),
        )
    hit_Outcome found seen l e last same =
        let occ = (has_candidate_left_match_iff m c k s g l).0 e in
        full_Outcome s.idx l (inr (same, omega arith, occ, λ r u v w. absurd (omega arith)))

    search_step-Outcome : (found : ℕ) → Seen s.idx found → Outcome s (search_step m c s found)
    unfolding search_step search_after_right_match
    search_step-Outcome found seen = elim (dec_lt (scanned m c k s g) c.needle.len) [
      | yes lt ↦ rw (lt→ltb (scanned m c k s g) c.needle.len lt) (mismatch_Outcome found seen lt)
      | no ge ↦
          rw (le→ltb (scanned m c k s g) c.needle.len (omega arith))
            (elim (Bool-cases (has_candidate_left_match m c.haystack c.needle c.factor s)) [
              | inl e ↦ rw e (hit_Outcome found seen (omega arith) e c.mode refl)
              | inr e ↦
                  rw e (full_Outcome found (omega arith) (Seen-miss found seen e (omega arith)))
            ])
    ]

  search_loop-Locates :
      (k : IsPlan (bytes_of m c) c) (s : SearchState) (found rounds : ℕ)
      → Ready m c s
      → Seen s.idx found
      → c.last_idx < s.idx + rounds
      → Locates m c.haystack c.needle c.mode (c.last_idx + 1) (search_loop m c s found rounds)
  unfolding search_loop
  search_loop-Locates k s found zero g seen enough = absurd (omega (arith, g.bound))
  search_loop-Locates k s found (suc rounds) g seen enough =
      let (s', next, found') = search_step m c s found in
      let goal : Bool → Type 0 = λ b.
        Locates m c.haystack c.needle c.mode (c.last_idx + 1)
          (elim b [ true ↦ search_loop m c s' found' rounds | false ↦ found' ]) in
      elim (search_step-Outcome k s g found seen) [
        | inl o ↦
            subst goal (sym (o.0))
              (search_loop-Locates k s' found' rounds (o.1) (o.2) (omega (arith, o.3)))
        | inr o ↦ subst goal (sym (o.0)) (o.1)
      ]

-- The Two-Way search of a nonempty needle in a haystack that is not shorter.
pub search_two_way-Locates :
    (m : ℕ → ℕ) (haystack needle : View) (mode : SearchMode)
    → 0 < needle.len
    → Locates m haystack needle mode
        (haystack.len - needle.len + 1)
        (search_two_way m haystack needle mode)
unfolding search_two_way build_search_context
search_two_way-Locates m haystack needle mode pos =
    let c = build_search_context m haystack needle mode in
    let k = build_search_context-IsPlan m needle pos haystack mode in
    search_loop-Locates m c k (record { idx = 0; memory = 0 }) npos (c.last_idx + 1)
      (record { bound = omega arith; memory_lt = pos; known = λ i a b. absurd (omega arith) })
      (inl (refl, λ r a b. absurd (omega arith))) (omega arith)

-- What the Two-Way search returns is npos or an occurrence inside the haystack.
search_two_way-Occurs :
    (m : ℕ → ℕ) (haystack needle : View) (mode : SearchMode)
    → 0 < needle.len
    → let r = search_two_way m haystack needle mode in
      (r ≡ npos) ⊎ ((r ≤ haystack.len - needle.len) × Occurs m haystack needle r)
search_two_way-Occurs m haystack needle mode pos =
    elim (search_two_way-Locates m haystack needle mode pos) [
      | inl e ↦ inl (e.0)
      | inr e ↦ inr (omega (arith, e.0), e.1)
    ]
