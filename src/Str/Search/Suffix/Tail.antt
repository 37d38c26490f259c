-- ===== src/Str/Search/Suffix/Tail.antt =====
-- The suffixes behind the maximal one of what the walk of agenc-str/src/str.c has read.
use agenc_c.Base.{
  ℕ, ◌+◌, ◌-◌, ◌%◌, ◌≤◌, ◌<◌, ◌≡◌, ◌⊎◌, inl, inr, refl, ap, sym, ◌∙◌, subst, arith, Bool,
}
use native.Mathlib.Nat.{mod-eq_of_lt, mod-lt, mod-eq-sub-mod}
use native.Mathlib.Decide.{dec_le, dec_lt}
use agenc_c.Str.Search.Suffix.{
  Before, Loses, IsSuffix, mod_shift, mod_behind, periodic_mod, Maximal,
}

module _ (o : Bool) (x : ℕ → ℕ) (n i p j k : ℕ) (v : IsSuffix o x n i p j k) where
  pub p_pos : 0 < p
  p_pos = omega (arith, v.k_lt)

  pub read : (s : ℕ) → i + s < j + k → x (i + s) ≡ x (i + s % p)
  read s l = periodic_mod x i p (j + k) v.per p_pos s s (omega arith) l

  end_mod : (j - i + k) % p ≡ k
  end_mod = mod_behind p (j - i) k v.grid ∙ mod-eq_of_lt v.k_lt

  -- What a later suffix of the bytes read is to the maximal one: it comes before, or it is a
  -- prefix, and then the byte that the walk expects next is not after the prefix's next byte.
  abbrev pub Tail : ℕ → Type 0
  Tail t =
      Loses o x t i (i + (j + k - t))
      ⊎ (((f : ℕ) → f < j + k - t → x (t + f) ≡ x (i + f))
          × ((x (i + k) ≡ x (i + (j + k - t))) ⊎ Before o (x (i + k)) (x (i + (j + k - t)))))

  aligned : (t : ℕ) → i < t → t ≤ j + k → (t - i) % p ≡ 0 → Tail t
  aligned t a b e = inr (
    λ f l.
        ap x {x = t + f} {y = i + (t - i + f)} (omega arith)
        ∙ read (t - i + f) (omega arith)
        ∙ ap (λ s. x (i + s)) (mod_behind p (t - i) f e)
        ∙ sym (read f (omega arith)),
    inl (
        ap (λ s. x (i + s))
          (sym end_mod
            ∙ ap (λ s. s % p) {x = j - i + k} {y = t - i + (j + k - t)} (omega (arith, v.start))
            ∙ mod_behind p (t - i) (j + k - t) e)
        ∙ sym (read (j + k - t) (omega arith))),
  )

  rotated_tail :
      (t e : ℕ) → i < t → t ≤ j + k → (t - i) % p ≡ e → Loses o x (i + e) i (i + p - e) → Tail t
  rotated_tail t e a b h (d, l, match, less) =
      let place : (f : ℕ) → e + f < p → t + f < j + k → x (t + f) ≡ x (i + e + f) = λ f m q.
        ap x {x = t + f} {y = i + (t - i + f)} (omega arith)
        ∙ read (t - i + f) (omega arith)
        ∙ ap (λ s. x (i + s)) (mod_shift (t - i) p e f h m)
        ∙ ap x {x = i + (e + f)} {y = i + e + f} (omega arith) in
      elim (dec_lt d (j + k - t)) [
        | yes early ↦ inl (
          d,
          omega arith,
          λ f m. place f (omega (arith, l)) (omega arith) ∙ match f m,
          subst (λ c. Before o c (x (i + d))) (sym (place d (omega (arith, l)) (omega arith))) less,
        )
        | no late ↦
            let expected : x (i + k) ≡ x (i + e + (j + k - t)) =
              ap (λ s. x (i + s))
                (sym end_mod
                  ∙ ap (λ s. s % p) {x = j - i + k} {y = t - i + (j + k - t)}
                      (omega (arith, v.start))
                  ∙ mod_shift (t - i) p e (j + k - t) h (omega (arith, l)))
              ∙ ap x {x = i + (e + (j + k - t))} {y = i + e + (j + k - t)} (omega arith) in
            inr (
              λ f m. place f (omega (arith, l)) (omega arith) ∙ match f (omega arith),
              elim (dec_lt (j + k - t) d) [
                | yes within ↦ inl (expected ∙ match (j + k - t) within)
                | no at ↦
                    let q : d ≡ j + k - t = omega arith in
                    inr (
                      subst (λ c. Before o c (x (i + (j + k - t)))) (sym expected)
                        (subst (λ f. Before o (x (i + e + f)) (x (i + f))) q less))
              ],
            )
      ]

  pub tail : (t : ℕ) → i < t → t ≤ j + k → Tail t
  tail t a b = elim (dec_le ((t - i) % p) 0) [
    | yes z ↦ aligned t a b (omega arith)
    | no pos ↦
        rotated_tail t ((t - i) % p) a b refl
          (v.rotated ((t - i) % p) (omega arith) (mod-lt (t - i) p_pos))
  ]

  -- The byte read is the one that the period foretells.
  pub step_equal : x (j + k) ≡ x (i + k) → (t : ℕ) → i + p ≤ t → t < j + k + 1 → x t ≡ x (t - p)
  step_equal e t a b = elim (dec_lt t (j + k)) [
    | yes old ↦ v.per t a old
    | no new ↦
        ap x {x = t} {y = j + k} (omega arith)
        ∙ e
        ∙ ap (λ s. x (i + s)) (sym end_mod ∙ mod-eq-sub-mod (omega (arith, v.start)))
        ∙ sym (read (j - i + k - p) (omega (arith, v.start)))
        ∙ ap x {x = i + (j - i + k - p)} {y = t - p} (omega (arith, v.start))
  ]

pub IsSuffix-Maximal :
    (o : Bool) (x : ℕ → ℕ) (n i p j k : ℕ) → IsSuffix o x n i p j k → j + k ≡ n → Maximal o x n i p
IsSuffix-Maximal o x n i p j k v e = record {
  period_pos = omega (arith, v.k_lt);
  fits = omega (arith, v.start);
  per = λ t a b. v.per t a (omega arith);
  rotated = v.rotated;
  left = v.left;
  right = λ t a b. elim (tail o x n i p j k v t a (omega arith)) [
    | inl (d, q, match, w) ↦ inl (d, omega arith, match, w)
    | inr u ↦ inr (λ f q. u.0 f (omega arith))
  ];
}
