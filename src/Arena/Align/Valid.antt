-- ===== src/Arena/Align/Valid.antt =====
-- The fused mask of `arena_align_valid` in agenc-arena/src/arena.c accepts 0 and the powers of two
-- up to ARENA_MAX_ALIGN, and nothing else.
use agenc_c.Base.{
  ℕ, zero, suc, ◌+◌, ◌-◌, ◌*◌, ◌/◌, ◌%◌, ◌^◌, ◌≤◌, ◌<◌, ◌≡◌, ◌⊎◌, ◌↔◌, inl, inr, refl, ap, ap₂, ◌∙◌,
  arith, word, true, ◌==◌, ==_iff, ne→==, le→ltb, lt→ltb,
}
use Prim.Native.Nat.{bit_and, bit_or, bit_or-bitwise, digits, max}
use native.Mathlib.Nat.{pow-suc, pow-zero, mod-eq_of_lt, mod_self}
use native.Mathlib.Decide.{dec_le}
use agenc_c.Arena.Types.{Build, release, debug, sanitized}
use agenc_c.Arena.Align.{arena_align_valid, arena_align_effective, complement, minus_one}
use agenc_c.Arena.Align.Bits.{
  bit_and-halves, bit_and-zero_left, bit_and-mask, pow_pos, IsAlign, IsAlign-pos,
}

abbrev or_digits : ℕ → ℕ → ℕ → ℕ
or_digits n x y = digits (λ z. z) max n x y

or_digits_enough : (n k x y : ℕ) → x ≤ n → x ≤ k → or_digits n x y ≡ or_digits k x y
or_digits_enough zero zero x y p q = refl
or_digits_enough zero (suc k) zero y p q = refl
or_digits_enough zero (suc k) (suc x) y p q = absurd (omega arith)
or_digits_enough (suc n) zero zero y p q = refl
or_digits_enough (suc n) zero (suc x) y p q = absurd (omega arith)
or_digits_enough (suc n) (suc k) zero y p q = refl
or_digits_enough (suc n) (suc k) (suc x) y p q =
    omega (arith, or_digits_enough n k (suc x / 2) (y / 2) (omega arith) (omega arith))

bit_or-zero_left : (y : ℕ) → bit_or 0 y ≡ y
bit_or-zero_left y = bit_or-bitwise 0 y

bit_or-halves : (x y : ℕ) → bit_or x y ≡ bit_or (x / 2) (y / 2) * 2 + max (x % 2) (y % 2)
bit_or-halves zero y = omega (arith, bit_or-zero_left y, bit_or-zero_left (y / 2))
bit_or-halves (suc x) y = omega (
  arith,
  bit_or-bitwise (suc x) y,
  bit_or-bitwise (suc x / 2) (y / 2),
  or_digits_enough x (suc x / 2) (suc x / 2) (y / 2) (omega arith) (omega arith),
)

bit_or_le : (n x y : ℕ) → x ≤ n → (x ≤ bit_or x y) × (y ≤ bit_or x y)
bit_or_le n zero y l = (omega arith, omega (arith, bit_or-zero_left y))
bit_or_le zero (suc x) y l = absurd (omega arith)
bit_or_le (suc n) (suc x) y l =
    let (p, q) = bit_or_le n (suc x / 2) (y / 2) (omega arith) in
    (omega (arith, bit_or-halves (suc x) y), omega (arith, bit_or-halves (suc x) y))

-- Both operands of a disjunction are at most it.
pub le-bit_or : (x y : ℕ) → (x ≤ bit_or x y) × (y ≤ bit_or x y)
le-bit_or x y = bit_or_le x x y (omega arith)

bit_and_same : (n x : ℕ) → x ≤ n → bit_and x x ≡ x
bit_and_same zero x l =
    ap (λ k. bit_and k k) {x = x} {y = 0} (omega arith) ∙ bit_and-zero_left 0 ∙ omega arith
bit_and_same (suc n) x l = omega (arith, bit_and-halves x x, bit_and_same n (x / 2) (omega arith))

-- A number that has no bit in common with its predecessor is a power of two.
power_of_two : (n x : ℕ) → 0 < x → x ≤ n → bit_and x (x - 1) ≡ 0 → (k : ℕ) × (x ≡ 2 ^ k)
power_of_two zero x pos l e = absurd (omega arith)
power_of_two (suc n) x pos l e = elim (dec_le (x % 2) 0) [
  | no odd ↦ (
    0,
    omega (
      arith,
      pow-zero 2,
      bit_and-halves x (x - 1),
      bit_and_same (x / 2) (x / 2) (omega arith),
      ap (bit_and (x / 2)) {x = (x - 1) / 2} {y = x / 2} (omega arith),
    ),
  )
  | yes even ↦
      let (k, p) = power_of_two n (x / 2) (omega arith) (omega arith) (
        omega (
          arith,
          bit_and-halves x (x - 1),
          ap (bit_and (x / 2)) {x = (x - 1) / 2} {y = x / 2 - 1} (omega arith),
        )) in
      (suc k, omega (arith, pow-suc 2 k))
]

-- Halving and doubling `k` times.
abbrev halved : ℕ → ℕ → ℕ
halved zero x = x
halved (suc k) x = halved k (x / 2)

abbrev doubled : ℕ → ℕ → ℕ
doubled zero x = x
doubled (suc k) x = doubled k x * 2

halved-lt : (k x m : ℕ) → x < doubled k m → halved k x < m
halved-lt zero x m l = l
halved-lt (suc k) x m l = halved-lt k (x / 2) m (omega arith)

lt-doubled : (k x m : ℕ) → halved k x < m → x < doubled k m
lt-doubled zero x m l = l
lt-doubled (suc k) x m l = omega (arith, lt-doubled k (x / 2) m l)

-- A mask whose low `k` bits are clear sees only the number above them.
bit_and-doubled : (k x m : ℕ) → bit_and x (doubled k m) ≡ 0 → bit_and (halved k x) m ≡ 0
bit_and-doubled zero x m e = e
bit_and-doubled (suc k) x m e = bit_and-doubled k (x / 2) m (
    omega (
      arith,
      bit_and-halves x (doubled k m * 2),
      ap (bit_and (x / 2)) {x = doubled k m * 2 / 2} {y = doubled k m} (omega arith),
    ))

doubled-bit_and : (k x m : ℕ) → x < doubled k 1 → bit_and x (doubled k m) ≡ 0
doubled-bit_and zero x m l =
    ap (λ t. bit_and t m) {x = x} {y = 0} (omega arith) ∙ bit_and-zero_left m
doubled-bit_and (suc k) x m l = omega (
  arith,
  bit_and-halves x (doubled k m * 2),
  ap (bit_and (x / 2)) {x = doubled k m * 2 / 2} {y = doubled k m} (omega arith),
  doubled-bit_and k (x / 2) m (omega arith),
)

abbrev high_mask : ℕ
high_mask = 0x7fff_ffff_ffff

high_bits : (x : ℕ) → bit_and x (complement 0x1_ffff) ≡ 0 → x < word → x < 0x2_0000
high_bits x e l = lt-doubled 17 x 1 (
    omega (
      arith,
      bit_and-doubled 17 x high_mask e,
      bit_and-mask 47 (halved 17 x),
      mod-eq_of_lt (halved-lt 17 x (2 ^ 47) l),
    ))

pow_mono : (j k : ℕ) → j ≤ k → 2 ^ j ≤ 2 ^ k
pow_mono zero zero l = omega arith
pow_mono (suc j) zero l = absurd (omega arith)
pow_mono zero (suc k) l = omega (arith, pow_pos (suc k), pow-zero 2)
pow_mono (suc j) (suc k) l = omega (arith, pow-suc 2 j, pow-suc 2 k, pow_mono j k (omega arith))

accepts :
    (align : ℕ)
    → align < word
    → bit_and align (minus_one align) ≡ 0
    → bit_and align (complement 0x1_ffff) ≡ 0
    → (align ≡ 0) ⊎ IsAlign align
accepts align l p q = elim (dec_le align 0) [
  | yes z ↦ inl (omega arith)
  | no pos ↦
      let (k, e) =
        power_of_two align align (omega arith) (omega arith)
          (ap (bit_and align) {x = align - 1} {y = minus_one align} (omega arith) ∙ p) in
      elim (dec_le k 16) [
        | yes small ↦ inr (k, small, e)
        | no big ↦ absurd (omega (arith, high_bits align q l, pow_mono 17 k (omega arith)))
      ]
]

accepted : (align : ℕ) → (align ≡ 0) ⊎ IsAlign align → arena_align_valid align ≡ true
unfolding arena_align_valid
accepted align (inl e) = rw e refl
accepted align (inr (k, l, e)) =
    ap₂ (λ x y. bit_or x y == 0) {x = bit_and align (minus_one align)} {y = 0}
      (ap₂ bit_and {x = align} {y = 2 ^ k} e (omega (arith, pow_pos k, pow_mono k 16 l))
        ∙ bit_and-mask k (2 ^ k)
        ∙ mod_self (2 ^ k))
      (doubled-bit_and 17 align high_mask (omega (arith, pow_mono k 16 l)))

-- An alignment below 2 ^ 64 passes arena_align_valid exactly if it is 0 or a power of two that
-- is at most ARENA_MAX_ALIGN.
pub arena_align_valid_iff :
    (align : ℕ) → align < word → (arena_align_valid align ≡ true) ↔ ((align ≡ 0) ⊎ IsAlign align)
unfolding arena_align_valid
arena_align_valid_iff align l = (
  λ e.
      let both =
        (==_iff (bit_or (bit_and align (minus_one align)) (bit_and align (complement 0x1_ffff)))
            0).0
          e in
      let (x, y) =
        le-bit_or (bit_and align (minus_one align)) (bit_and align (complement 0x1_ffff)) in
      accepts align l (omega (arith, both, x)) (omega (arith, both, y)),
  accepted align,
)

-- The effective alignment is a power of two.
pub arena_align_effective-IsAlign :
    (b : Build) (align : ℕ) → (align ≡ 0) ⊎ IsAlign align → IsAlign (arena_align_effective b align)
unfolding arena_align_effective
arena_align_effective-IsAlign release align (inl e) = rw e (4, omega arith, refl)
arena_align_effective-IsAlign debug align (inl e) = rw e (4, omega arith, refl)
arena_align_effective-IsAlign sanitized align (inl e) = rw e (4, omega arith, refl)
arena_align_effective-IsAlign release align (inr i) =
    rw (ne→== align 0 (λ e. absurd (omega (arith, IsAlign-pos align i)))) i
arena_align_effective-IsAlign debug align (inr i) =
    rw (ne→== align 0 (λ e. absurd (omega (arith, IsAlign-pos align i)))) i
arena_align_effective-IsAlign sanitized align (inr i) =
    rw (ne→== align 0 (λ e. absurd (omega (arith, IsAlign-pos align i)))) (elim (dec_le 8 align) [
      | yes big ↦ rw (le→ltb align 8 big) i
      | no small ↦ rw (lt→ltb align 8 (omega arith)) (3, omega arith, refl)
    ])
