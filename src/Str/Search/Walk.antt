-- ===== src/Str/Search/Walk.antt =====
-- The maximal-suffix walk of the Two-Way search: it stays inside the needle, two passes complete
-- it, and the right half of its factorization has the period that it reports.
use agenc_c.Base.{ℕ, zero, suc, ◌+◌, ◌-◌, ◌≤◌, ◌<◌, ◌≡◌, ◌⊎◌, arith, Bool, true, false}
use agenc_c.Str.Types.{View}
use agenc_c.Str.Search.{
  SuffixWalk, suffix_walk_step, suffix_walk_loop, run_suffix_walk_pass, first_walk,
  find_maximal_suffix_walk, find_maximal_suffix, find_critical_factor,
}

-- The walk stands inside a needle of `len` bytes.
pub record InNeedle (len : ℕ) (w : SuffixWalk) : Type 0 where
  pub offset_pos : 0 < w.offset
  pub offset_le : w.offset ≤ w.factor.period
  pub period_le : w.factor.cut + w.factor.period ≤ w.candidate + 1
  pub candidate_lt : w.candidate < len

abbrev progress : SuffixWalk → ℕ
progress w = w.factor.cut + w.candidate + w.offset

-- Both bytes that a round compares lie in the needle.
pub walk_reads :
    (len : ℕ) (w : SuffixWalk)
    → InNeedle len w
    → w.offset < len - w.candidate
    → (w.factor.cut + w.offset - 1 < len) × (w.candidate + w.offset < len)
walk_reads len w i l = omega arith

pub suffix_walk_step-InNeedle :
    (len : ℕ) (w : SuffixWalk) (a b : ℕ) (rev : Bool)
    → InNeedle len w
    → w.candidate + w.offset < len
    → InNeedle len (suffix_walk_step w a b rev)
      × (progress w < progress (suffix_walk_step w a b rev))
unfolding suffix_walk_step
suffix_walk_step-InNeedle len w a b rev i l = ground arith

-- What a pass of `steps` rounds leaves: a walk in the needle, complete or that much further.
abbrev Passed : ℕ → SuffixWalk → ℕ → SuffixWalk × Bool → Type 0
Passed len w steps (w', complete) =
    InNeedle len w'
    × (((complete ≡ true) × (len ≤ w'.candidate + w'.offset))
        ⊎ ((complete ≡ false)
            × (w'.candidate + w'.offset < len)
            × (progress w + steps ≤ progress w')))

suffix_walk_loop-Passed :
    (m : ℕ → ℕ) (w : SuffixWalk) (needle : View) (rev : Bool) (steps : ℕ)
    → InNeedle needle.len w
    → Passed needle.len w steps (suffix_walk_loop m w needle rev steps)
unfolding suffix_walk_loop
suffix_walk_loop-Passed m w needle rev zero i = ground arith
suffix_walk_loop-Passed m w needle rev (suc steps) i = ground (
  arith,
  suffix_walk_step-InNeedle needle.len w (m (needle.ptr + (w.candidate + w.offset)))
      (m (needle.ptr + (w.factor.cut + w.offset - 1))) rev i,
  suffix_walk_loop-Passed m
      (suffix_walk_step w (m (needle.ptr + (w.candidate + w.offset)))
        (m (needle.ptr + (w.factor.cut + w.offset - 1))) rev)
      needle rev steps,
)

-- On a nonempty needle, in either byte order, the walk for the maximal suffix is complete after
-- its two passes, so its closing assertion never fails, and it ends with a cut inside the needle
-- and a positive period.
pub find_maximal_suffix_walk_complete :
    (m : ℕ → ℕ) (needle : View) (rev : Bool)
    → 0 < needle.len
    → let (w, complete) = find_maximal_suffix_walk m needle rev in
      (complete ≡ true) × (needle.len ≤ w.candidate + w.offset) × InNeedle needle.len w
unfolding find_maximal_suffix_walk run_suffix_walk_pass
find_maximal_suffix_walk_complete m needle rev pos = ground (
  arith,
  suffix_walk_loop-Passed m first_walk needle rev needle.len,
  suffix_walk_loop-Passed m (suffix_walk_loop m first_walk needle rev needle.len).0 needle rev
      needle.len,
)

-- On a nonempty needle the critical factorization cuts inside the needle, and its period is
-- positive and fits in the right part.
pub find_critical_factor_bounds :
    (m : ℕ → ℕ) (needle : View)
    → 0 < needle.len
    → let f = find_critical_factor m needle in
      (f.cut < needle.len) × (0 < f.period) × (f.cut + f.period ≤ needle.len)
unfolding find_critical_factor find_maximal_suffix
find_critical_factor_bounds m needle pos = ground (
  arith,
  find_maximal_suffix_walk_complete m needle false pos,
  find_maximal_suffix_walk_complete m needle true pos,
)
