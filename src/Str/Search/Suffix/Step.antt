-- ===== src/Str/Search/Suffix/Step.antt =====
-- The steps of the walk for the maximal suffix in agenc-str/src/str.c.
use agenc_c.Base.{ℕ, ◌+◌, ◌-◌, ◌%◌, ◌≤◌, ◌<◌, ◌≡◌, ◌⊎◌, inl, inr, ap, sym, ◌∙◌, subst, arith, Bool}
use native.Mathlib.Nat.{add-mod_right, mod_self}
use native.Mathlib.Decide.{dec_lt, ℕ_discrete}
use agenc_c.Str.Search.Suffix.{Before, before_trans, Loses, IsSuffix, mod_behind}
use agenc_c.Str.Search.Suffix.Tail.{p_pos, read, Tail, tail, step_equal}

module _ (o : Bool) (x : ℕ → ℕ) (n i p j k : ℕ) (v : IsSuffix o x n i p j k) where
  pub step_more : x (j + k) ≡ x (i + k) → k + 1 < p → IsSuffix o x n i p j (k + 1)
  step_more e l = record {
    k_lt = l;
    start = v.start;
    grid = v.grid;
    per = λ t a b. (step_equal o x n i p j k v) e t a (omega arith);
    rotated = v.rotated;
    left = v.left;
  }

  pub step_wrap : x (j + k) ≡ x (i + k) → k + 1 ≡ p → IsSuffix o x n i p (j + p) 0
  step_wrap e l = record {
    k_lt = (p_pos o x n i p j k v);
    start = omega (arith, v.start);
    grid =
        ap (λ t. t % p) {x = j + p - i} {y = j - i + p} (omega (arith, v.start))
        ∙ add-mod_right (j - i) p
        ∙ v.grid;
    per = λ t a b. (step_equal o x n i p j k v) e t a (omega arith);
    rotated = v.rotated;
    left = v.left;
  }

  -- The byte (read o x n i p j k v) comes before the expected one: all bytes (read o x n i p j k v) make up the new period.
  shorter :
      (e : ℕ)
      → 0 < e
      → e < j + k + 1 - i
      → Before o (x (j + k)) (x (i + k))
      → (Tail o x n i p j k v) (i + e)
      → Loses o x (i + e) i (i + (j + k + 1 - i) - e)
  shorter e a b less (inl (d, l, match, w)) = (d, omega arith, match, w)
  shorter e a b less (inr (match, expected)) = (
    j + k - (i + e),
    omega (arith, v.start),
    match,
    subst (λ c. Before o (x c) (x (i + (j + k - (i + e))))) {x = j + k}
        {y = i + e + (j + k - (i + e))} (omega (arith, v.start))
        (elim expected [
          | inl same ↦ subst (Before o (x (j + k))) same less
          | inr more ↦ before_trans o _ _ _ less more
        ]),
  )

  pub step_smaller :
      Before o (x (j + k)) (x (i + k)) → IsSuffix o x n i (j + k + 1 - i) (j + k + 1) 0
  step_smaller less = record {
    k_lt = omega (arith, v.start);
    start = omega (arith, v.start);
    grid = mod_self (j + k + 1 - i);
    per = λ t a b. absurd (omega (arith, v.start));
    rotated =
        λ e a b. shorter e a b less ((tail o x n i p j k v) (i + e) (omega arith) (omega arith));
    left = v.left;
  }

  aligned_start : (f : ℕ) → f < k → x (j + f) ≡ x (i + f)
  aligned_start f l =
      ap x {x = j + f} {y = i + (j - i + f)} (omega (arith, v.start))
      ∙ (read o x n i p j k v) (j - i + f) (omega (arith, v.start))
      ∙ ap (λ s. x (i + s)) (mod_behind p (j - i) f v.grid)
      ∙ sym ((read o x n i p j k v) f (omega (arith, v.start)))

  -- The byte (read o x n i p j k v) comes after the expected one: the suffix at j is larger than all before it.
  overtaken :
      (t : ℕ)
      → Before o (x (i + k)) (x (j + k))
      → j + k < n
      → (Loses o x t i n ⊎ ((f : ℕ) → f ≤ k → x (t + f) ≡ x (i + f)))
      → Loses o x t j n
  overtaken t more l (inl (d, b, match, w)) = elim (dec_lt d k) [
    | yes early ↦ (
      d,
      omega arith,
      λ f q. match f q ∙ sym (aligned_start f (omega arith)),
      subst (Before o (x (t + d))) (sym (aligned_start d early)) w,
    )
    | no late ↦ (
      k,
      l,
      λ f q. match f (omega arith) ∙ sym (aligned_start f q),
      elim (dec_lt k d) [
        | yes past ↦ subst (λ c. Before o c (x (j + k))) (sym (match k past)) more
        | no at ↦
            before_trans o _ _ _
              (subst (λ f. Before o (x (t + f)) (x (i + f))) {x = d} {y = k} (omega arith) w) more
      ],
    )
  ]
  overtaken t more l (inr match) = (
    k,
    l,
    λ f q. match f (omega arith) ∙ sym (aligned_start f q),
    subst (λ c. Before o c (x (j + k))) (sym (match k (omega arith))) more,
  )

  later :
      (t : ℕ)
      → i < t
      → t < j
      → j + k < n
      → (Tail o x n i p j k v) t
      → Loses o x t i n ⊎ ((f : ℕ) → f ≤ k → x (t + f) ≡ x (i + f))
  later t a l b (inl (d, q, match, w)) = inl (d, omega (arith, v.start), match, w)
  later t a l b (inr (match, expected)) = inr (λ f q. match f (omega arith))

  -- Any suffix in front of j comes before the maximal one, or repeats it past the mismatch.
  behind : (t : ℕ) → t < j → j + k < n → Loses o x t i n ⊎ ((f : ℕ) → f ≤ k → x (t + f) ≡ x (i + f))
  behind t l b = elim (dec_lt t i) [
    | yes lt ↦ inl (v.left t lt)
    | no ge ↦ elim (ℕ_discrete t i) [
      | yes same ↦ inr (λ f q. ap (λ s. x (s + f)) same)
      | no other ↦ later t (omega arith) l b ((tail o x n i p j k v) t (omega arith) (omega arith))
    ]
  ]

  pub step_larger : Before o (x (i + k)) (x (j + k)) → j + k < n → IsSuffix o x n j 1 (j + 1) 0
  step_larger more l = record {
    k_lt = omega arith;
    start = omega arith;
    grid = ap (λ t. t % 1) {x = j + 1 - j} {y = 1} (omega arith);
    per = λ t a b. absurd (omega arith);
    rotated = λ e a b. absurd (omega arith);
    left = λ t a. overtaken t more l (behind t a l);
  }
