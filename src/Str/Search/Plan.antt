-- ===== src/Str/Search/Plan.antt =====
-- The shifts that the Two-Way search of agenc-str/src/str.c plans from the critical factorization.
use agenc_c.Base.{
  ℕ, ◌+◌, ◌-◌, ◌≤◌, ◌<◌, ◌≡◌, inl, inr, refl, ap, sym, ◌∙◌, arith, Bool, true, false, not, lt→ltb,
  le→ltb, Bool-cases, ◌↔◌,
}
use native.Mathlib.Decide.{dec_le, dec_lt}
use agenc_c.Str.Types.{View}
use agenc_c.Str.View.{is_byte_span_equal}
use agenc_c.Str.View.Order.{is_byte_span_equal_iff}
use agenc_c.Str.Search.Loop.{build_search_context-IsContext}
use agenc_c.Memory.Bytes.{bytes_get, bytes_ext}
use agenc_c.Str.Search.{
  Factor, SearchContext, SearchMode, find_critical_factor, find_maximal_suffix, is_factor_periodic,
  calculate_nonperiodic_shift, build_search_context,
}
use agenc_c.Str.Search.Suffix.{Maximal}
use agenc_c.Str.Search.Critical.{
  Repeats, HasPeriod, Repeats-long, Repeats-HasPeriod, Repeats-period, Repeats-fits,
}
use agenc_c.Str.Search.Maximal.{find_maximal_suffix-Maximal}

-- A cut around which every repetition is a period, longer than the left part and no shorter than p.
pub record IsCritical (x : ℕ → ℕ) (n l p : ℕ) : Type 0 where
  pub period_pos : 0 < p
  pub fits : l + p ≤ n
  pub per : (t : ℕ) → l + p ≤ t → t < n → x t ≡ x (t - p)
  pub long : (r : ℕ) → 0 < r → Repeats x n l r → l < r
  pub least : (r : ℕ) → 0 < r → Repeats x n l r → p ≤ r
  pub period : (r : ℕ) → 0 < r → Repeats x n l r → HasPeriod x n r
  pub fitting : (r : ℕ) → 0 < r → Repeats x n l r → l + r ≤ n → HasPeriod x n p

Maximal-IsCritical :
    (o : Bool) (x : ℕ → ℕ) (n l p l' p' : ℕ)
    → Maximal o x n l p
    → Maximal (not o) x n l' p'
    → l' ≤ l
    → IsCritical x n l p
Maximal-IsCritical o x n l p l' p' v u le = record {
  period_pos = v.period_pos;
  fits = v.fits;
  per = v.per;
  long = Repeats-long o x n l p v;
  least = Repeats-period o x n l p v l' p' u le;
  period = Repeats-HasPeriod o x n l p v l' p' u le;
  fitting = Repeats-fits o x n l p v l' p' u le;
}

-- What the loop of the search needs of the shifts of a context, for the bytes `x` of the needle.
pub record IsPlan (x : ℕ → ℕ) (c : SearchContext) : Type 0 where
  pub cut_lt : c.factor.cut < c.needle.len
  pub shift_pos : 0 < c.full_shift
  pub saved_lt : c.saved_memory < c.needle.len
  pub period : (r : ℕ) → 0 < r → Repeats x c.needle.len c.factor.cut r → HasPeriod x c.needle.len r
  pub full : (r : ℕ) → 0 < r → Repeats x c.needle.len c.factor.cut r → c.full_shift ≤ r
  pub cut_le : (k : ℕ) → k < c.saved_memory → c.factor.cut ≤ c.full_shift + k
  pub saved_fits : (k : ℕ) → k < c.saved_memory → c.full_shift + k < c.needle.len
  pub saved : (k : ℕ) → k < c.saved_memory → x (c.full_shift + k) ≡ x k

HasPeriod-Repeats : (x : ℕ → ℕ) (n l p : ℕ) → HasPeriod x n p → Repeats x n l p
HasPeriod-Repeats x n l p h j a b d =
    ap x {x = l + j} {y = l + j - p + p} (omega arith) ∙ h (l + j - p) (omega arith)

span_iff :
    (m : ℕ → ℕ) (p q n : ℕ)
    → (is_byte_span_equal m p q n ≡ true) ↔ ((i : ℕ) → i < n → m (p + i) ≡ m (q + i))
span_iff m p q n = (
  λ e i l. bytes_get m p q n i ((is_byte_span_equal_iff m p q n).0 e) l,
  λ h. (is_byte_span_equal_iff m p q n).1 (bytes_ext m m p q n h),
)

module _ (m : ℕ → ℕ) (needle : View) (pos : 0 < needle.len) where
  abbrev bytes_of : ℕ → ℕ
  bytes_of i = m (needle.ptr + i)

  -- On a nonempty needle of length `n` with the chosen cut `l` and period `p`: `p` is positive
  -- and fits in the right part, of which it is a period; and every positive `r` such that the
  -- bytes around the cut repeat after `r` (as far as they lie in the needle) is above `l`, at
  -- least `p` and a period of the whole needle, which has the period `p` if `l + r <= n`.
  pub find_critical_factor-IsCritical :
      let f = find_critical_factor m needle in
      IsCritical (λ i. m (needle.ptr + i)) needle.len f.cut f.period
  unfolding find_critical_factor
  find_critical_factor-IsCritical =
      let forward = find_maximal_suffix-Maximal m needle false pos in
      let reverse = find_maximal_suffix-Maximal m needle true pos in
      let f = find_maximal_suffix m needle false in
      let r = find_maximal_suffix m needle true in
      elim (dec_lt f.cut r.cut) [
        | yes lt ↦
            rw (lt→ltb f.cut r.cut lt)
              (Maximal-IsCritical true _ _ _ _ _ _ reverse forward (omega arith))
        | no ge ↦
            rw (le→ltb f.cut r.cut (omega arith))
              (Maximal-IsCritical false _ _ _ _ _ _ forward reverse (omega arith))
      ]

  module _ (f : Factor) (v : IsCritical bytes_of needle.len f.cut f.period) where
    -- The test for a periodic needle decides whether the period of the factor is one of the needle.
    pub is_factor_periodic_iff :
        (is_factor_periodic m needle f ≡ true) ↔ HasPeriod bytes_of needle.len f.period
    unfolding is_factor_periodic
    is_factor_periodic_iff = rw (le→ltb (needle.len - f.cut) f.period (omega (arith, v.fits))) (
      λ e t l. elim (dec_lt t f.cut) [
        | yes lt ↦
            ap m {x = needle.ptr + (t + f.period)} {y = needle.ptr + f.period + t} (omega arith)
            ∙ sym ((span_iff m needle.ptr (needle.ptr + f.period) f.cut).0 e t lt)
        | no ge ↦
            v.per (t + f.period) (omega arith) l
            ∙ ap bytes_of {x = t + f.period - f.period} {y = t} (omega arith)
      ],
      λ h. (span_iff m needle.ptr (needle.ptr + f.period) f.cut).1 (λ i l.
          sym (h i (omega (arith, v.fits)))
          ∙ ap m {x = needle.ptr + (i + f.period)} {y = needle.ptr + f.period + i} (omega arith)),
    )

    nonperiodic_full :
        (r : ℕ)
        → is_factor_periodic m needle f ≡ false
        → 0 < r
        → Repeats bytes_of needle.len f.cut r
        → calculate_nonperiodic_shift needle f ≤ r
    unfolding calculate_nonperiodic_shift
    nonperiodic_full r e p h = elim (dec_le (f.cut + r) needle.len) [
      | yes le ↦ let t = is_factor_periodic_iff.1 (v.fitting r p h le) in absurd (cc)
      | no gt ↦ let l = v.long r p h in ground arith
    ]

  module _ (haystack : View) (mode : SearchMode) where
    abbrev built : SearchContext
    built = build_search_context m haystack needle mode

    abbrev cut_factor : Factor
    cut_factor = find_critical_factor m needle

    periodic_shift :
        is_factor_periodic m needle cut_factor ≡ true
        → (built.full_shift ≡ cut_factor.period)
          × (built.saved_memory ≡ needle.len - cut_factor.period)
    unfolding build_search_context
    periodic_shift e = ground arith

    nonperiodic_shift :
        is_factor_periodic m needle cut_factor ≡ false
        → (built.full_shift ≡ calculate_nonperiodic_shift needle cut_factor)
          × (built.saved_memory ≡ 0)
    unfolding build_search_context
    nonperiodic_shift e = ground arith

    built_lem : (built.factor ≡ cut_factor) × (built.needle ≡ needle)
    unfolding build_search_context
    built_lem = (refl, refl)

    -- On a nonempty needle the context of the search is a plan for the needle.
    pub build_search_context-IsPlan : IsPlan (λ i. m (needle.ptr + i)) built
    unfolding build_search_context
    build_search_context-IsPlan =
        let v = find_critical_factor-IsCritical in
        let bounds = build_search_context-IsContext m haystack needle mode pos in
        elim (Bool-cases (is_factor_periodic m needle cut_factor)) [
          | inl e ↦
              let h = (is_factor_periodic_iff cut_factor v).0 e in
              let s = periodic_shift e in
              let long =
                v.long cut_factor.period v.period_pos (HasPeriod-Repeats bytes_of _ _ _ h) in
              record {
                cut_lt = bounds.cut_lt;
                shift_pos = bounds.shift_pos;
                saved_lt = bounds.saved_lt;
                period = v.period;
                full = λ r p q. omega (arith, s.0, v.least r p q);
                cut_le = λ k l. omega (arith, s.0, long);
                saved_fits = λ k l. omega (arith, s.0, s.1, v.fits);
                saved = λ k l.
                    ap bytes_of {x = built.full_shift + k} {y = k + cut_factor.period}
                      (omega (arith, s.0))
                    ∙ h k (omega (arith, s.1, v.fits));
              }
          | inr e ↦
              let s = nonperiodic_shift e in
              record {
                cut_lt = bounds.cut_lt;
                shift_pos = bounds.shift_pos;
                saved_lt = bounds.saved_lt;
                period = v.period;
                full = λ r p q. omega (arith, s.0, nonperiodic_full cut_factor v r e p q);
                cut_le = λ k l. absurd (omega (arith, s.1));
                saved_fits = λ k l. absurd (omega (arith, s.1));
                saved = λ k l. absurd (omega (arith, s.1));
              }
        ]
