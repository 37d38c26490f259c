-- ===== src/Str/Search/Suffix.antt =====
-- The maximal suffix that the walk of agenc-str/src/str.c computes, in either byte order.
pub mod Tail
pub mod Step
use agenc_c.Base.{
  ℕ, zero, suc, ◌+◌, ◌-◌, ◌*◌, ◌/◌, ◌%◌, ◌≤◌, ◌<◌, ◌≡◌, ◌⊎◌, inl, inr, refl, ap, sym, ◌∙◌, subst,
  arith, Bool, true, false, not,
}
use native.Mathlib.Nat.{
  mod-eq_of_lt, mul-add-mod_self_left, div-add-mod, mod-lt, mod-eq-sub-mod, add-mod_right, mod_self,
}
use native.Mathlib.Decide.{dec_le, dec_lt, ℕ_discrete}

-- The order of bytes that a walk uses, or its reverse.
abbrev pub Before : Bool → ℕ → ℕ → Type 0
Before false a b = a < b
Before true a b = b < a

pub before_trans : (o : Bool) (a b c : ℕ) → Before o a b → Before o b c → Before o a c
before_trans false a b c p q = omega arith
before_trans true a b c p q = omega arith

pub before_asym : (o : Bool) (a b : ℕ) → Before o a b → Before o b a → ⊥
before_asym false a b p q = omega arith
before_asym true a b p q = omega arith

pub before_irrefl : (o : Bool) (a b : ℕ) → a ≡ b → Before o a b → ⊥
before_irrefl false a b p q = omega arith
before_irrefl true a b p q = omega arith

pub before_flip : (o : Bool) (a b : ℕ) → Before (not o) a b → Before o b a
before_flip false a b p = p
before_flip true a b p = p

-- The suffix at `t` comes before the suffix at `i`: they differ first at `d`, below the bound.
abbrev pub Loses : Bool → (ℕ → ℕ) → ℕ → ℕ → ℕ → Type 0
Loses o x t i bound =
    (d : ℕ) × (i + d < bound)
    × ((f : ℕ) → f < d → x (t + f) ≡ x (i + f))
    × Before o (x (t + d)) (x (i + d))

-- The walk has read x[0..j+k): x[i..] is the maximal suffix, it repeats x[i..i+p) up to j and then
-- k bytes of it, and no rotation of x[i..i+p) is as large.
pub record IsSuffix (o : Bool) (x : ℕ → ℕ) (n i p j k : ℕ) : Type 0 where
  pub k_lt : k < p
  pub start : i + p ≤ j
  pub grid : (j - i) % p ≡ 0
  pub per : (t : ℕ) → i + p ≤ t → t < j + k → x t ≡ x (t - p)
  pub rotated : (e : ℕ) → 0 < e → e < p → Loses o x (i + e) i (i + p - e)
  pub left : (t : ℕ) → t < i → Loses o x t i n

pub mod_shift : (a p e f : ℕ) → a % p ≡ e → e + f < p → (a + f) % p ≡ e + f
mod_shift a p e f h l =
    ap (λ t. t % p) {x = a + f} {y = p * (a / p) + (e + f)} (omega (arith, div-add-mod a p, h))
    ∙ mul-add-mod_self_left p (a / p) (e + f)
    ∙ mod-eq_of_lt l

-- The place in the period, behind a place of remainder 0.
pub mod_behind : (p a f : ℕ) → a % p ≡ 0 → (a + f) % p ≡ f % p
mod_behind p a f e =
    ap (λ t. t % p) {x = a + f} {y = p * (a / p) + f} (omega (arith, div-add-mod a p))
    ∙ mul-add-mod_self_left p (a / p) f

-- A periodic stretch is read off its first period.
pub periodic_mod :
    (x : ℕ → ℕ) (i p m : ℕ)
    → ((t : ℕ) → i + p ≤ t → t < m → x t ≡ x (t - p))
    → 0 < p
    → (fuel s : ℕ) → s ≤ fuel
    → i + s < m
    → x (i + s) ≡ x (i + s % p)
periodic_mod x i p m per pos zero s l b = elim (dec_lt s p) [
  | yes small ↦ ap (λ t. x (i + t)) (sym (mod-eq_of_lt small))
  | no big ↦ absurd (omega arith)
]
periodic_mod x i p m per pos (suc fuel) s l b = elim (dec_lt s p) [
  | yes small ↦ ap (λ t. x (i + t)) (sym (mod-eq_of_lt small))
  | no big ↦
      per (i + s) (omega arith) b
      ∙ ap x {x = i + s - p} {y = i + (s - p)} (omega arith)
      ∙ periodic_mod x i p m per pos fuel (s - p) (omega arith) (omega arith)
      ∙ ap (λ t. x (i + t)) (sym (mod-eq-sub-mod (omega arith)))
]

-- The suffix at l is maximal, it repeats its first p bytes, and no rotation of these is as large.
pub record Maximal (o : Bool) (x : ℕ → ℕ) (n l p : ℕ) : Type 0 where
  pub period_pos : 0 < p
  pub fits : l + p ≤ n
  pub per : (t : ℕ) → l + p ≤ t → t < n → x t ≡ x (t - p)
  pub rotated : (e : ℕ) → 0 < e → e < p → Loses o x (l + e) l (l + p - e)
  pub left : (t : ℕ) → t < l → Loses o x t l n
  pub right :
      (t : ℕ)
      → l < t
      → t ≤ n
      → Loses o x t l (l + (n - t)) ⊎ ((f : ℕ) → f < n - t → x (t + f) ≡ x (l + f))
