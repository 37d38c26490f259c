-- ===== src/Str/Size/Bounds.antt =====
-- The bounds within which the checked sums of agenc-str/src/str.c are the true ones, and the
-- capacity that the growth policy finds.
use agenc_c.Base.{
  ℕ, zero, suc, ◌+◌, ◌*◌, ◌%◌, ◌^◌, ◌≤◌, ◌≡◌, ◌↔◌, arith, size_max, word, ltb, if◌then◌else◌, ap,
}
use native.Mathlib.Nat.{pow-suc, pow-zero}
use agenc_c.Str.Types.{Result, done, failed, err_overflow, ok}
use agenc_c.Str.Size.{
  add_size, calculate_capacity, grow_loop, grow_capacity, choose_capacity, validate_span,
}

pub add_size-eq :
    (a b : ℕ)
    → b ≤ size_max
    → add_size a b ≡ (if ltb size_max (a + b) then failed err_overflow else done (a + b))
unfolding add_size
add_size-eq a b h = ground arith

pub calculate_capacity-eq :
    (len n : ℕ)
    → n ≤ size_max
    → calculate_capacity len n
      ≡ (if ltb size_max (len + n + 1) then failed err_overflow else done (len + n + 1))
unfolding calculate_capacity
calculate_capacity-eq len n h = ground arith

pub validate_span-ok :
    (len idx span : ℕ) → (validate_span len idx span ≡ ok) ↔ ((idx ≤ len) × (idx + span ≤ len))
unfolding validate_span
validate_span-ok len idx span = (λ e. ground arith, λ e. ground arith)

-- A result that reaches `need`, is a machine word, and is no smaller than the old capacity.
abbrev pub Reaches : ℕ → ℕ → Result ℕ → Type 0
Reaches cap need (done c) = (need ≤ c) × (cap ≤ c) × (c ≤ size_max)
Reaches cap need (failed e) = ⊥

-- Doubling a nonzero capacity 64 times reaches every word, so the loop never runs out of rounds.
grow_loop-Reaches :
    (steps cap need : ℕ)
    → need ≤ size_max
    → cap ≤ size_max
    → need ≤ cap * 2 ^ steps
    → Reaches cap need (grow_loop steps cap need)
unfolding grow_loop
grow_loop-Reaches zero cap need hn hc h =
    let h' : need ≤ cap = grind (arith, pow-zero) in ground arith
grow_loop-Reaches (suc steps) cap need hn hc h =
    ground (arith, doubled, grow_loop-Reaches steps (cap * 2 % word) need)
  where
    doubled : cap ≤ 0x7fff_ffff_ffff_ffff → need ≤ (cap * 2 % word) * 2 ^ steps
    doubled c =
        let e : cap * 2 % word ≡ cap * 2 = omega arith in
        rw e (omega (arith, h, ap (λ t. cap * t) (pow-suc 2 steps)))

grow_capacity-Reaches :
    (c need : ℕ) → 16 ≤ c → need ≤ size_max → c ≤ size_max → Reaches c need (grow_capacity c need)
unfolding grow_capacity
grow_capacity-Reaches c need h hn hc = grow_loop-Reaches 64 c need hn hc (omega arith)

-- For a capacity and a need up to SIZE_MAX the growth policy finds a capacity, within its 64
-- doublings, that reaches the need, does not wrap and is at most SIZE_MAX.
pub choose_capacity-Reaches :
    (c need : ℕ) → need ≤ size_max → c ≤ size_max → Reaches c need (choose_capacity c need)
unfolding choose_capacity
choose_capacity-Reaches c need hn hc =
    ground (arith, grow_capacity-Reaches c need, grow_capacity-Reaches 16 need)
