-- ===== src/Str/Buffer/Budget.antt =====
-- The allocation failures that a STR_TEST build of agenc-str/src/str.c injects.
use agenc_c.Base.{
  ℕ, zero, suc, ◌-◌, ◌≡◌, refl, ap, arith, Bool, true, false, not, if◌then◌else◌, ◌==◌, List, [],
  ◌∷◌,
}
use agenc_c.Memory.{Heap}
use agenc_c.Str.Types.{Result, failed, err_alloc}
use agenc_c.Str.Buffer.{call_malloc, call_realloc}

-- The test-only globals.
pub record Budget : Type 0 where
  pub enabled : Bool
  pub left : ℕ

abbrev pub test_fail_alloc_after : ℕ → Budget
test_fail_alloc_after success_count = record { enabled = true; left = success_count }

abbrev pub test_reset_alloc_failures : Budget
test_reset_alloc_failures = record { enabled = false; left = 0 }

-- The result is `true` if this attempt fails.
unfoldable pub test_consume_allocation_budget : Budget → Budget × Bool
test_consume_allocation_budget budget =
    if not budget.enabled
    then (budget, false)
    else if budget.left == 0
    then (budget, true)
    else (record budget { left = budget.left - 1 }, false)

unfoldable pub claim_heap_attempt : Budget → Budget × Bool
claim_heap_attempt budget =
    let (budget', has_injected_failure) = test_consume_allocation_budget budget in
    (budget', not has_injected_failure)

-- `str_allocate_heap` and `str_resize_heap` in a STR_TEST build.
unfoldable pub allocate_heap_claimed : Budget → Heap → ℕ → Budget × Heap × Result ℕ
allocate_heap_claimed budget h n =
    let (budget', claimed) = claim_heap_attempt budget in
    let (h', r) = if claimed then call_malloc h n else (h, failed err_alloc) in (budget', h', r)

unfoldable pub resize_heap_claimed : Budget → Heap → ℕ → ℕ → Budget × Heap × Result ℕ
resize_heap_claimed budget h buf n =
    let (budget', claimed) = claim_heap_attempt budget in
    let (h', r) = if claimed then call_realloc h buf n else (h, failed err_alloc) in
    (budget', h', r)

-- A sequence of attempts, and which of them were let through.
claims : Budget → ℕ → List Bool
claims budget zero = []
claims budget (suc attempts) =
    let (budget', claimed) = claim_heap_attempt budget in claimed ∷ claims budget' attempts

-- The first `n` of a sequence are `true`, the others `false`.
first_true : ℕ → ℕ → List Bool
first_true n zero = []
first_true zero (suc attempts) = false ∷ first_true zero attempts
first_true (suc n) (suc attempts) = true ∷ first_true n attempts

claim_heap_attempt-zero :
    claim_heap_attempt (test_fail_alloc_after 0) ≡ (test_fail_alloc_after 0, false)
unfolding claim_heap_attempt test_consume_allocation_budget
claim_heap_attempt-zero = refl

claim_heap_attempt-suc :
    (n : ℕ) → claim_heap_attempt (test_fail_alloc_after (suc n)) ≡ (test_fail_alloc_after n, true)
unfolding claim_heap_attempt test_consume_allocation_budget
claim_heap_attempt-suc n = ground arith

-- After `str_test_fail_alloc_after(n)` exactly the first `n` attempts go to the allocator.
claims-after : (n attempts : ℕ) → claims (test_fail_alloc_after n) attempts ≡ first_true n attempts
unfolding claims first_true
claims-after zero zero = refl
claims-after (suc n) zero = refl
claims-after zero (suc attempts) =
    rw (claim_heap_attempt-zero) (ap (λ t. false ∷ t) (claims-after zero attempts))
claims-after (suc n) (suc attempts) =
    rw (claim_heap_attempt-suc n) (ap (λ t. true ∷ t) (claims-after n attempts))

-- Without an armed failure a test build allocates like any other.
allocate_heap_claimed-reset :
    (h : Heap) (n : ℕ)
    → allocate_heap_claimed test_reset_alloc_failures h n
      ≡ (test_reset_alloc_failures, (call_malloc h n).0, (call_malloc h n).1)
unfolding allocate_heap_claimed claim_heap_attempt test_consume_allocation_budget
allocate_heap_claimed-reset h n = refl
