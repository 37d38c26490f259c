-- ===== src/Str/Buffer/Granted.antt =====
-- When the environment grants a request, growth in agenc-str/src/str.c succeeds.
use agenc_c.Base.{
  ℕ, zero, suc, ◌+◌, ◌*◌, ◌%◌, ◌≤◌, ◌<◌, ◌≡◌, refl, arith, some, size_max, word, le→leb, lt→leb,
}
use native.Mathlib.Decide.{dec_le}
use agenc_c.Memory.{Heap, malloc, realloc}
use agenc_c.Str.Types.{Status, ok, Str, Result, done, failed, Run}
use agenc_c.Str.Size.{choose_capacity, grow_capacity, grow_loop}
use agenc_c.Str.Size.Bounds.{Reaches, choose_capacity-Reaches}
use agenc_c.Str.Buffer.{call_malloc, call_realloc, grow_heap, ensure_capacity}
use agenc_c.Str.Buffer.Grow.{cap_le}
use agenc_c.Str.Valid.{IsValid}

-- The environment grants the next request, `skip` bytes above `brk`, and the address space has
-- room there for every capacity that the growth policy may choose for `need`.
pub record IsGranted (h : Heap) (need : ℕ) : Type 0 where
  pub skip : ℕ
  pub planned : h.plan h.tries ≡ some skip
  pub room : h.brk + skip + (16 + 2 * need) ≤ size_max

pub IsGranted-le : (h : Heap) (need less : ℕ) → less ≤ need → IsGranted h need → IsGranted h less
IsGranted-le h need less l g = record {
  skip = g.skip;
  planned = g.planned;
  room = omega (arith, g.room);
}

-- A result that is a capacity of at most twice the need, or the smallest one.
abbrev Modest : ℕ → Result ℕ → Type 0
Modest need (done c) = c ≤ 16 + 2 * need
Modest need (failed e) = 0 ≤ need

grow_loop-Modest : (steps c need : ℕ) → c ≤ 16 + 2 * need → Modest need (grow_loop steps c need)
unfolding grow_loop
grow_loop-Modest zero c need l = ground arith
grow_loop-Modest (suc steps) c need l = ground (arith, grow_loop-Modest steps (c * 2 % word) need)

choose_capacity-Modest : (c need : ℕ) → c < need → Modest need (choose_capacity c need)
unfolding choose_capacity grow_capacity
choose_capacity-Modest c need l =
    ground (arith, grow_loop-Modest 64 c need, grow_loop-Modest 64 16 need)

grow_heap-ok :
    (h : Heap) (s : Str) (c need : ℕ)
    → IsGranted h need
    → c ≤ 16 + 2 * need
    → (grow_heap h s c).2 ≡ ok
unfolding grow_heap call_malloc call_realloc malloc realloc
grow_heap-ok h s c need g l = ground (arith, g.planned, g.room)

chosen-ok :
    (h : Heap) (s : Str) (need : ℕ)
    → IsGranted h need
    → (r : Result ℕ) → Reaches s.cap need r
    → Modest need r
    → (elim r as (λ _. Run Status) [ failed e ↦ (h, s, e) | done c ↦ grow_heap h s c ]).2 ≡ ok
chosen-ok h s need g (failed e) b m = absurd b
chosen-ok h s need g (done c) b m = grow_heap-ok h s c need g m

pub ensure_capacity-ok :
    (h : Heap) (s : Str) (need : ℕ)
    → IsValid h s
    → IsGranted h need
    → (ensure_capacity h s need).2 ≡ ok
unfolding ensure_capacity
ensure_capacity-ok h s need v g = elim (dec_le need s.cap) [
  | yes p ↦ rw (le→leb need s.cap p) refl
  | no p ↦ rw (lt→leb need s.cap (omega arith)) (
      chosen-ok h s need g (choose_capacity s.cap need)
        (choose_capacity-Reaches s.cap need (omega (arith, g.room)) (cap_le h s v))
        (choose_capacity-Modest s.cap need (omega arith)))
]
