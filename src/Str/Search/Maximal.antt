-- ===== src/Str/Search/Maximal.antt =====
-- The maximal-suffix walk of agenc-str/src/str.c computes the maximal suffix.
use agenc_c.Base.{
  ℕ, zero, suc, ◌+◌, ◌-◌, ◌≤◌, ◌<◌, ◌≡◌, ◌≢◌, ◌⊎◌, inl, inr, refl, ap, sym, ◌∙◌, subst, arith, Bool,
  true, false, ne→==, eq→==, Bool-cases,
}
use native.Mathlib.Decide.{ℕ_discrete}
use agenc_c.Str.Types.{View}
use agenc_c.Str.Search.{
  SuffixWalk, suffix_walk_step, suffix_walk_loop, run_suffix_walk_pass, first_walk,
  find_maximal_suffix_walk, find_maximal_suffix, is_byte_before, walk_is_complete,
}
use agenc_c.Str.Search.Walk.{InNeedle, suffix_walk_step-InNeedle, find_maximal_suffix_walk_complete}
use agenc_c.Str.Search.Suffix.{Before, IsSuffix, Maximal}
use agenc_c.Str.Search.Suffix.Tail.{IsSuffix-Maximal}
use agenc_c.Str.Search.Suffix.Step.{step_more, step_wrap, step_smaller, step_larger}

-- What the walk has found out about the bytes that it has read.
abbrev pub Walked : Bool → (ℕ → ℕ) → ℕ → SuffixWalk → Type 0
Walked o x n w =
    IsSuffix o x n w.factor.cut w.factor.period (w.candidate + 1) (w.offset - 1)
    × InNeedle n w
    × (w.candidate + w.offset ≤ n)

retarget :
    {o : Bool} {x : ℕ → ℕ} {n i p j k : ℕ} (p' j' k' : ℕ)
    → p ≡ p'
    → j ≡ j'
    → k ≡ k'
    → IsSuffix o x n i p j k
    → IsSuffix o x n i p' j' k'
retarget {o} {x} {n} {i} {p} {j} {k} p' j' k' e f g v =
    subst (λ t. IsSuffix o x n i p' j' t) g
      (subst (λ t. IsSuffix o x n i p' t k) f (subst (λ t. IsSuffix o x n i t j k) e v))

before_cases :
    (o : Bool) (a b : ℕ)
    → a ≢ b
    → ((is_byte_before a b o ≡ true) × Before o a b)
      ⊎ ((is_byte_before a b o ≡ false) × Before o b a)
before_cases false a b ne = ground arith
before_cases true a b ne = ground arith

moved : (o : Bool) {a b a' b' : ℕ} → a ≡ a' → b ≡ b' → Before o a b → Before o a' b'
moved o {a} {b} {a'} {b'} e f u = subst (Before o a') f (subst (λ c. Before o c b) e u)

module _ (o : Bool) (x : ℕ → ℕ) (n : ℕ) (w : SuffixWalk) where
  abbrev stepped : SuffixWalk
  stepped = suffix_walk_step w (x (w.candidate + w.offset)) (x (w.factor.cut + w.offset - 1)) o

  step_IsSuffix :
      Walked o x n w
      → w.candidate + w.offset < n
      → IsSuffix o x n stepped.factor.cut stepped.factor.period
          (stepped.candidate + 1)
          (stepped.offset - 1)
  unfolding suffix_walk_step
  step_IsSuffix (v, s, b) l =
      let read : x (w.candidate + 1 + (w.offset - 1)) ≡ x (w.candidate + w.offset) =
        ap x (omega (arith, s.offset_pos)) in
      let expect : x (w.factor.cut + (w.offset - 1)) ≡ x (w.factor.cut + w.offset - 1) =
        ap x (omega (arith, s.offset_pos)) in
      elim (ℕ_discrete (x (w.candidate + w.offset)) (x (w.factor.cut + w.offset - 1))) [
        | yes e ↦
            let same = read ∙ e ∙ sym expect in
            rw (eq→== _ _ e) (elim (ℕ_discrete w.offset w.factor.period) [
              | yes end ↦ rw (eq→== w.offset w.factor.period end) (
                  retarget w.factor.period (w.candidate + w.factor.period + 1) 0 refl (omega arith)
                    refl (step_wrap o x n _ _ _ _ v same (omega (arith, s.offset_pos, end))))
              | no mid ↦ rw (ne→== w.offset w.factor.period mid) (
                  retarget w.factor.period (w.candidate + 1) (w.offset + 1 - 1) refl refl
                    (omega (arith, s.offset_pos))
                    (step_more o x n _ _ _ _ v same (omega (arith, s.offset_pos, s.offset_le))))
            ])
        | no ne ↦ rw (ne→== _ _ ne) (elim (before_cases o _ _ ne) [
          | inl (e, less) ↦ rw e (
              retarget (w.candidate + w.offset - w.factor.cut + 1) (w.candidate + w.offset + 1) 0
                (omega (arith, s.offset_pos, s.period_le)) (omega (arith, s.offset_pos)) refl
                (step_smaller o x n _ _ _ _ v (moved o (sym read) (sym expect) less)))
          | inr (e, more) ↦ rw e (
              step_larger o x n _ _ _ _ v (moved o (sym expect) (sym read) more)
                (omega (arith, s.offset_pos)))
        ])
      ]

  step_Walked : Walked o x n w → w.candidate + w.offset < n → Walked o x n stepped
  unfolding suffix_walk_step
  step_Walked u l = (
    step_IsSuffix u l,
    (suffix_walk_step-InNeedle n w (x (w.candidate + w.offset)) (x (w.factor.cut + w.offset - 1)) o
        u.1 l).0,
    ground (arith, l, u.1),
  )

module _ (m : ℕ → ℕ) (needle : View) (o : Bool) where
  -- The bytes of the needle.
  abbrev text : ℕ → ℕ
  text i = m (needle.ptr + i)

  suffix_walk_loop-Walked :
      (steps : ℕ) (w : SuffixWalk)
      → Walked o text needle.len w
      → Walked o text needle.len (suffix_walk_loop m w needle o steps).0
  unfolding suffix_walk_loop
  suffix_walk_loop-Walked zero w u = u
  suffix_walk_loop-Walked (suc steps) w u = elim (Bool-cases (walk_is_complete w needle)) [
    | inl e ↦ rw e u
    | inr e ↦ rw e (
        suffix_walk_loop-Walked steps (stepped o text needle.len w)
          (step_Walked o text needle.len w u (ground arith)))
  ]

  first_Walked : 0 < needle.len → Walked o text needle.len first_walk
  first_Walked pos = (
    record {
      k_lt = omega arith;
      start = omega arith;
      grid = refl;
      per = λ t a b. absurd (omega arith);
      rotated = λ e a b. absurd (omega arith);
      left = λ t a. absurd (omega arith);
    },
    omega arith,
    omega arith,
  )

  find_maximal_suffix_walk-Walked :
      0 < needle.len → Walked o text needle.len (find_maximal_suffix_walk m needle o).0
  unfolding find_maximal_suffix_walk run_suffix_walk_pass
  find_maximal_suffix_walk-Walked pos =
      let u = suffix_walk_loop-Walked needle.len first_walk (first_Walked pos) in
      let (w, complete) = suffix_walk_loop m first_walk needle o needle.len in
      elim (Bool-cases complete) [
        | inl e ↦ rw e u
        | inr e ↦ rw e (suffix_walk_loop-Walked needle.len w u)
      ]

  pub find_maximal_suffix-Maximal :
      0 < needle.len
      → let f = find_maximal_suffix m needle o in Maximal o text needle.len f.cut f.period
  unfolding find_maximal_suffix
  find_maximal_suffix-Maximal pos =
      let u = find_maximal_suffix_walk-Walked pos in
      IsSuffix-Maximal o text needle.len _ _ _ _ u.0
        (omega (arith, u.1, u.2, find_maximal_suffix_walk_complete m needle o pos))
