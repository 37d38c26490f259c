-- ===== src/Arena/Align/Bits.antt =====
-- Masks of ones, and the padding of agenc-arena/src/arena.c.
use agenc_c.Base.{
  ℕ, zero, suc, ◌+◌, ◌-◌, ◌*◌, ◌/◌, ◌%◌, ◌^◌, ◌≤◌, ◌<◌, ◌≡◌, refl, ap, ap₂, sym, ◌∙◌, min, arith,
  word,
}
use Prim.Native.Nat.{bit_and, bit_and-bitwise, digits}
use native.Mathlib.Nat.{
  pow-suc, pow-zero, mod-eq_of_lt, div-add-mod, mod-lt, mul-add-mod_self_left, mul-mod_right,
  mul-sub, zero-mod,
}
use agenc_c.Arena.Align.{padding}

-- `bit_and` by its lowest digit, from the definition that it stands for.
abbrev and_digits : ℕ → ℕ → ℕ → ℕ
and_digits n x y = digits (λ _. zero) min n x y

and_digits_enough : (n k x y : ℕ) → x ≤ n → x ≤ k → and_digits n x y ≡ and_digits k x y
and_digits_enough zero zero x y p q = refl
and_digits_enough zero (suc k) zero y p q = refl
and_digits_enough zero (suc k) (suc x) y p q = absurd (omega arith)
and_digits_enough (suc n) zero zero y p q = refl
and_digits_enough (suc n) zero (suc x) y p q = absurd (omega arith)
and_digits_enough (suc n) (suc k) zero y p q = refl
and_digits_enough (suc n) (suc k) (suc x) y p q =
    omega (arith, and_digits_enough n k (suc x / 2) (y / 2) (omega arith) (omega arith))

pub bit_and-zero_left : (y : ℕ) → bit_and 0 y ≡ 0
bit_and-zero_left y = bit_and-bitwise 0 y

pub bit_and-halves : (x y : ℕ) → bit_and x y ≡ bit_and (x / 2) (y / 2) * 2 + min (x % 2) (y % 2)
bit_and-halves zero y = omega (arith, bit_and-zero_left y, bit_and-zero_left (y / 2))
bit_and-halves (suc x) y = omega (
  arith,
  bit_and-bitwise (suc x) y,
  bit_and-bitwise (suc x / 2) (y / 2),
  and_digits_enough x (suc x / 2) (suc x / 2) (y / 2) (omega arith) (omega arith),
)

bit_and-zero_within : (n x : ℕ) → x ≤ n → bit_and x 0 ≡ 0
bit_and-zero_within zero x l =
    ap (λ k. bit_and k 0) {x = x} {y = 0} (omega arith) ∙ bit_and-zero_left 0
bit_and-zero_within (suc n) x l =
    omega (arith, bit_and-halves x 0, bit_and-zero_within n (x / 2) (omega arith))

pub pow_pos : (k : ℕ) → 0 < 2 ^ k
pow_pos zero = omega (arith, pow-zero 2)
pow_pos (suc k) = omega (arith, pow-suc 2 k, pow_pos k)

-- A remainder by `m` doubled, from the halves.
mod_double : (x m : ℕ) → 0 < m → x % (m * 2) ≡ (x / 2 % m) * 2 + x % 2
mod_double x m pos =
    ap (λ t. t % (m * 2)) {x = x} {y = m * 2 * (x / 2 / m) + ((x / 2 % m) * 2 + x % 2)}
      (grind (arith, div-add-mod (x / 2) m))
    ∙ mul-add-mod_self_left (m * 2) (x / 2 / m) ((x / 2 % m) * 2 + x % 2)
    ∙ mod-eq_of_lt (omega (arith, mod-lt (x / 2) pos))

-- A mask of `k` ones keeps the remainder by 2 ^ k.
pub bit_and-mask : (k x : ℕ) → bit_and x (2 ^ k - 1) ≡ x % 2 ^ k
bit_and-mask zero x = bit_and-zero_within x x (omega arith) ∙ omega arith
bit_and-mask (suc k) x = rw (pow-suc 2 k) (
    bit_and-halves x (2 ^ k * 2 - 1)
    ∙ ap₂ (λ y z. bit_and (x / 2) y * 2 + z) {x = (2 ^ k * 2 - 1) / 2} {y = 2 ^ k - 1}
        (omega (arith, pow_pos k)) (omega (arith, pow_pos k))
    ∙ ap (λ z. z * 2 + x % 2) (bit_and-mask k (x / 2))
    ∙ sym (mod_double x (2 ^ k) (pow_pos k)))

-- The powers of two that are valid alignments.
abbrev pub IsAlign : ℕ → Type 0
IsAlign align = (k : ℕ) × (k ≤ 16) × (align ≡ 2 ^ k)

pub IsAlign-pos : (align : ℕ) → IsAlign align → 0 < align
IsAlign-pos align (k, l, e) = omega (arith, pow_pos k)

pub padding-mod :
    (cursor align : ℕ) → IsAlign align → padding cursor align ≡ (word - cursor) % word % align
unfolding padding
padding-mod cursor align (k, l, e) =
    ap (λ t. bit_and ((word - cursor) % word) (t - 1)) e
    ∙ bit_and-mask k ((word - cursor) % word)
    ∙ ap (λ t. (word - cursor) % word % t) (sym e)

pub padding-lt : (cursor align : ℕ) → IsAlign align → padding cursor align < align
padding-lt cursor align i =
    omega (arith, padding-mod cursor align i, mod-lt ((word - cursor) % word) (IsAlign-pos align i))

pub pow_split : (i j : ℕ) → 2 ^ (i + j) ≡ 2 ^ i * 2 ^ j
pow_split i zero = grind (arith, pow-zero 2, ap (λ t. 2 ^ t) {x = i + 0} {y = i} (omega arith))
pow_split i (suc j) =
    ap (λ t. 2 ^ t) {x = i + suc j} {y = suc (i + j)} (omega arith)
    ∙ grind (arith, pow-suc 2 (i + j), pow-suc 2 j, pow_split i j)

word_factor : (k : ℕ) → k ≤ 16 → word ≡ 2 ^ k * 2 ^ (64 - k)
word_factor k l = ap (λ t. 2 ^ t) {x = 64} {y = k + (64 - k)} (omega arith) ∙ pow_split k (64 - k)

-- The padded cursor is a multiple of the alignment.
multiple :
    (cursor m v : ℕ)
    → word ≡ m * v
    → 0 < cursor
    → cursor < word
    → (cursor + (word - cursor) % word % m) % m ≡ 0
multiple cursor m v e pos l =
    ap (λ t. (cursor + t % m) % m) {x = (word - cursor) % word} {y = word - cursor} (omega arith)
    ∙ ap (λ t. t % m) {x = cursor + (word - cursor) % m} {y = m * (v - (word - cursor) / m)}
        (grind (arith, div-add-mod (word - cursor) m, mul-sub m v ((word - cursor) / m)))
    ∙ mul-mod_right m (v - (word - cursor) / m)

pub padding-aligns :
    (cursor align : ℕ) → IsAlign align → cursor < word → (cursor + padding cursor align) % align ≡ 0
padding-aligns zero align i l =
    ap (λ t. (0 + t) % align) (padding-mod 0 align i)
    ∙ ap (λ t. t % align) {x = 0 + 0 % align} {y = 0} (omega (arith, zero-mod align))
    ∙ zero-mod align
padding-aligns (suc c) align i l =
    ap (λ t. (suc c + t) % align) (padding-mod (suc c) align i)
    ∙ multiple (suc c) align (2 ^ (64 - i.0))
        (word_factor i.0 i.1 ∙ ap (λ t. t * 2 ^ (64 - i.0)) (sym i.2)) (omega arith) l
