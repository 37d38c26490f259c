-- ===== src/Str/Search/Critical.antt =====
-- The critical factorization of the Two-Way search in agenc-str/src/str.c: of the two maximal
-- suffixes, one for each byte order, the shorter one cuts the needle where every local repetition
-- is a period of the whole needle.
use agenc_c.Base.{
  ℕ, ◌+◌, ◌-◌, ◌*◌, ◌/◌, ◌%◌, ◌≤◌, ◌<◌, ◌≡◌, ◌⊎◌, inl, inr, ap, sym, ◌∙◌, subst, arith, Bool, not,
}
use native.Mathlib.Nat.{div-add-mod, mod-lt, mod-eq-sub-mod, mul-mod_right}
use native.Mathlib.Decide.{dec_le, dec_lt, ℕ_discrete}
use agenc_c.Str.Search.Suffix.{
  Before, before_asym, before_irrefl, before_flip, Loses, Maximal, periodic_mod, mod_behind,
}

-- A repetition of `r` bytes around the cut: bytes on its right are those `r` before them.
abbrev pub Repeats : (ℕ → ℕ) → ℕ → ℕ → ℕ → Type 0
Repeats x n l r = (j : ℕ) → j < r → l + j < n → r ≤ l + j → x (l + j) ≡ x (l + j - r)

-- `r` is a period.
abbrev pub HasPeriod : (ℕ → ℕ) → ℕ → ℕ → Type 0
HasPeriod x n r = (t : ℕ) → t + r < n → x (t + r) ≡ x t

whole_multiple : (p r : ℕ) → (r - r % p) % p ≡ 0
whole_multiple p r =
    ap (λ t. t % p) {x = r - r % p} {y = p * (r / p)} (omega (arith, div-add-mod r p))
    ∙ mul-mod_right p (r / p)

-- A suffix does not come before another and after it, nor before one whose prefix it is.
never_both :
    (o : Bool) (x : ℕ → ℕ) (s t d d' : ℕ)
    → ((f : ℕ) → f < d → x (s + f) ≡ x (t + f))
    → Before o (x (s + d)) (x (t + d))
    → ((f : ℕ) → f < d' → x (t + f) ≡ x (s + f))
    → Before o (x (t + d')) (x (s + d'))
    → ⊥
never_both o x s t d d' match w match' w' = elim (ℕ_discrete d d') [
  | yes e ↦
      before_asym o (x (s + d)) (x (t + d)) w
        (subst (λ f. Before o (x (t + f)) (x (s + f))) (sym e) w')
  | no ne ↦ elim (dec_lt d d') [
    | yes lt ↦ before_irrefl o _ _ (sym (match' d lt)) w
    | no ge ↦ before_irrefl o _ _ (sym (match d' (omega arith))) w'
  ]
]

module _ (o : Bool) (x : ℕ → ℕ) (n l p : ℕ) (v : Maximal o x n l p) where
  -- The left part does not end with the repeated bytes: the suffix there would lose to the maximal
  -- one behind it, and the maximal one to its own remainder.
  refuted :
      (r d : ℕ)
      → l + d < n
      → r ≤ d
      → r ≤ l
      → ((f : ℕ) → f < d → x (l - r + f) ≡ x (l + f))
      → Before o (x (l - r + d)) (x (l + d))
      → (Loses o x (l + r) l (l + (n - (l + r)))
          ⊎ ((f : ℕ) → f < n - (l + r) → x (l + r + f) ≡ x (l + f)))
      → ⊥
  refuted r d b le short match w other =
      let match_on : (f : ℕ) → f < d - r → x (l + f) ≡ x (l + r + f) = λ f q.
        ap x {x = l + f} {y = l - r + (r + f)} (omega arith)
        ∙ match (r + f) (omega arith)
        ∙ ap x {x = l + (r + f)} {y = l + r + f} (omega arith) in
      let w_on : Before o (x (l + (d - r))) (x (l + r + (d - r))) =
        subst (λ t. Before o (x (l + (d - r))) (x t)) {x = l + d} {y = l + r + (d - r)}
          (omega arith)
          (subst (λ t. Before o (x t) (x (l + d))) {x = l - r + d} {y = l + (d - r)} (omega arith)
            w) in
      elim other [
        | inl (d', b', match', w') ↦ never_both o x l (l + r) (d - r) d' match_on w_on match' w'
        | inr same ↦ before_irrefl o _ _ (sym (same (d - r) (omega arith))) w_on
      ]

  -- A repetition is longer than the left part.
  pub Repeats-long : (r : ℕ) → 0 < r → Repeats x n l r → l < r
  Repeats-long r pos rep = elim (dec_lt l r) [
    | yes long ↦ long
    | no short ↦
        let (d, b, match, w) = v.left (l - r) (omega arith) in
        absurd (elim (dec_lt d r) [
          | yes within ↦
              before_irrefl o (x (l - r + d)) (x (l + d))
                (ap x {x = l - r + d} {y = l + d - r} (omega arith)
                  ∙ sym (rep d within b (omega arith)))
                w
          | no past ↦
              refuted r d b (omega arith) (omega arith) match w
                (v.right (l + r) (omega arith) (omega arith))
        ])
  ]

  -- A rotation of the first period is smaller, so no shorter number is a period.
  pub HasPeriod-least : (r : ℕ) → 0 < r → r < p → HasPeriod x n r → ⊥
  HasPeriod-least r pos l_p period =
      let (d, b, match, w) = v.rotated r pos l_p in
      before_irrefl o (x (l + r + d)) (x (l + d))
        (ap x {x = l + r + d} {y = l + d + r} (omega arith)
          ∙ period (l + d) (omega (arith, v.fits)))
        w

  -- With the maximal suffix of the other order starting no later, a repetition is a period.
  module _ (l' p' : ℕ) (u : Maximal (not o) x n l' p') (le : l' ≤ l) where
    -- Up to the cut a period is what a repetition says.
    before_cut : (r t : ℕ) → Repeats x n l r → l < r → t < l → t + r < n → x (t + r) ≡ x t
    before_cut r t rep long a b =
        ap x {x = t + r} {y = l + (t + r - l)} (omega arith)
        ∙ rep (t + r - l) (omega arith) (omega arith) (omega arith)
        ∙ ap x {x = l + (t + r - l) - r} {y = t} (omega arith)

    -- The remainder behind the repetition is a prefix of the right part.
    after_cut :
        (r : ℕ)
        → Repeats x n l r
        → l < r
        → (Loses (not o) x (l' + r) l' (l' + (n - (l' + r)))
            ⊎ ((f : ℕ) → f < n - (l' + r) → x (l' + r + f) ≡ x (l' + f)))
        → (Loses o x (l + r) l (l + (n - (l + r)))
            ⊎ ((f : ℕ) → f < n - (l + r) → x (l + r + f) ≡ x (l + f)))
        → (t : ℕ) → l ≤ t
        → t + r < n
        → x (t + r) ≡ x t
    after_cut r rep long (inr same) other t a b =
        ap x {x = t + r} {y = l' + r + (t - l')} (omega arith)
        ∙ same (t - l') (omega arith)
        ∙ ap x {x = l' + (t - l')} {y = t} (omega arith)
    after_cut r rep long (inl lost) (inr same) t a b =
        ap x {x = t + r} {y = l + r + (t - l)} (omega arith)
        ∙ same (t - l) (omega arith)
        ∙ ap x {x = l + (t - l)} {y = t} (omega arith)
    after_cut r rep long (inl (d, b', match, w)) (inl (e, c', match', w')) t a b =
        absurd (elim (dec_lt d (l - l')) [
          | yes early ↦
              before_irrefl (not o) _ _
                (ap x {x = l' + r + d} {y = l' + d + r} (omega arith)
                  ∙ before_cut r (l' + d) rep long (omega arith) (omega arith))
                w
          | no late ↦
              never_both o x l (l + r) (d - (l - l')) e
                (λ f q.
                  ap x {x = l + f} {y = l' + (l - l' + f)} (omega arith)
                  ∙ sym (match (l - l' + f) (omega arith))
                  ∙ ap x {x = l' + r + (l - l' + f)} {y = l + r + f} (omega arith))
                (subst (λ s. Before o (x s) (x (l + r + (d - (l - l'))))) {x = l' + d}
                  {y = l + (d - (l - l'))} (omega arith)
                  (subst (λ s. Before o (x (l' + d)) (x s)) {x = l' + r + d}
                    {y = l + r + (d - (l - l'))} (omega arith) (before_flip o _ _ w)))
                match' w'
        ])

    pub Repeats-HasPeriod : (r : ℕ) → 0 < r → Repeats x n l r → HasPeriod x n r
    Repeats-HasPeriod r pos rep t b =
        let long = Repeats-long r pos rep in
        elim (dec_lt t l) [
          | yes early ↦ before_cut r t rep long early b
          | no late ↦
              after_cut r rep long (u.right (l' + r) (omega arith) (omega arith))
                (v.right (l + r) (omega arith) (omega arith)) t (omega arith) b
        ]

    -- No repetition is shorter than the period of the right part.
    pub Repeats-period : (r : ℕ) → 0 < r → Repeats x n l r → p ≤ r
    Repeats-period r pos rep = elim (dec_le p r) [
      | yes ok ↦ ok
      | no less ↦ absurd (HasPeriod-least r pos (omega arith) (Repeats-HasPeriod r pos rep))
    ]

    -- A repetition that fits in the right part makes a repetition of what is left behind whole periods.
    reduced :
        (r c : ℕ)
        → Repeats x n l r
        → c ≤ r
        → l + r ≤ n
        → ((j : ℕ) → l + c + j < n → x (l + c + j) ≡ x (l + j))
        → Repeats x n l (r - c)
    reduced r c rep le_c fits whole j a b long =
        sym (whole j (omega arith))
        ∙ ap x {x = l + c + j} {y = l + (c + j)} (omega arith)
        ∙ rep (c + j) (omega arith) (omega arith) (omega arith)
        ∙ ap x {x = l + (c + j) - r} {y = l + j - (r - c)} (omega arith)

    -- Places that are whole periods apart are alike.
    whole_periods : (c j : ℕ) → c % p ≡ 0 → l + c + j < n → x (l + c + j) ≡ x (l + j)
    whole_periods c j e b =
        ap x {x = l + c + j} {y = l + (c + j)} (omega arith)
        ∙ periodic_mod x l p n v.per v.period_pos (c + j) (c + j) (omega arith) (omega arith)
        ∙ ap (λ s. x (l + s)) (mod_behind p c j e)
        ∙ sym (periodic_mod x l p n v.per v.period_pos j j (omega arith) (omega arith))

    -- If a repetition fits in the right part, then the period of that part is one of the needle.
    pub Repeats-fits : (r : ℕ) → 0 < r → Repeats x n l r → l + r ≤ n → HasPeriod x n p
    Repeats-fits r pos rep fits = elim (dec_le (r % p) 0) [
      | no uneven ↦
          let c = r - r % p in
          let e : r - c ≡ r % p = omega (arith, div-add-mod r p) in
          let whole : c % p ≡ 0 = whole_multiple p r in
          absurd (
            omega (
              arith,
              mod-lt r v.period_pos,
              Repeats-period (r % p) (omega arith) (
                  subst (Repeats x n l) e
                    (reduced r c rep (omega arith) fits (λ j b. whole_periods c j whole b))),
            ))
      | yes even ↦
          let le = Repeats-period r pos rep in
          let whole : (r - p) % p ≡ 0 = sym (mod-eq-sub-mod le) ∙ omega arith in
          Repeats-HasPeriod p v.period_pos (
            subst (Repeats x n l) {x = r - (r - p)} {y = p} (omega (arith, le))
              (reduced r (r - p) rep (omega arith) fits (λ j b. whole_periods (r - p) j whole b)))
    ]
