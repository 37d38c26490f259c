-- ===== src/Memory.antt =====
-- What agenc-str/src/str.c and agenc-arena/src/arena.c use of the C library: malloc, realloc, free,
-- memmove (which also stands for memcpy of disjoint regions), memset, memcmp and strlen over one
-- flat address space of bytes.
--
-- A pointer is an address, and NULL is 0. `brk` lies above every byte ever handed out, so a new
-- block is disjoint from all older memory. The environment decides by `plan` whether the n-th
-- request is refused (`none`) and how far above `brk` a granted block lies. A released block is
-- filled with `scrap`, whatever the environment chooses, so a read through a stale pointer gives
-- no usable value; `realloc` always moves, which is the strictest reading of ISO C.
pub mod Bytes
use agenc_c.Base.{
  ℕ, zero, suc, ◌+◌, ◌-◌, ◌<◌, Bool, ◌&&◌, Option, none, some, ltb, leb, ◌==◌, if◌then◌else◌, min,
  size_max,
}

pub record Heap : Type 0 where
  pub byte : ℕ → ℕ
  -- bytes in the live block that starts at an address
  pub size : ℕ → ℕ
  pub brk : ℕ
  -- number of live blocks
  pub live : ℕ
  -- number of requests made
  pub tries : ℕ
  pub plan : ℕ → Option ℕ
  pub scrap : ℕ → ℕ

abbrev pub within : ℕ → ℕ → ℕ → Bool
within base n a = leb base a && ltb a (base + n)

-- memmove reads every source byte before it writes.
unfoldable pub memmove : Heap → ℕ → ℕ → ℕ → Heap
memmove h destination source len = record h {
  byte = λ a. if within destination len a then h.byte (source + (a - destination)) else h.byte a;
}

unfoldable pub memset : Heap → ℕ → ℕ → ℕ → Heap
memset h destination value len = record h {
  byte = λ a. if within destination len a then value else h.byte a;
}

-- `*p = value`
unfoldable pub poke : Heap → ℕ → ℕ → Heap
poke h p value = record h { byte = λ a. if a == p then value else h.byte a }

abbrev pub granted : Heap → ℕ → ℕ → Heap
granted h p n = record h {
  size = λ a. if a == p then n else h.size a;
  brk = p + n;
  live = h.live + 1;
  tries = h.tries + 1;
}

abbrev pub refused : Heap → Heap
refused h = record h { tries = h.tries + 1 }

-- The address of a new block of `n` bytes, if the environment grants one inside the address space.
abbrev pub place : Heap → ℕ → Option ℕ
place h n = elim (h.plan h.tries) [
  | none ↦ none
  | some skip ↦ if ltb size_max (h.brk + skip + n) then none else some (h.brk + skip)
]

unfoldable pub malloc : Heap → ℕ → Heap × Option ℕ
malloc h n = elim (place h n) [ none ↦ (refused h, none) | some p ↦ (granted h p n, some p) ]

unfoldable pub free : Heap → ℕ → Heap
free h p = if p == 0 then h else record h {
  byte = λ a. if within p (h.size p) a then h.scrap a else h.byte a;
  size = λ a. if a == p then 0 else h.size a;
  live = h.live - 1;
}

-- `p` is not NULL. A refusal leaves the old block as it was.
unfoldable pub realloc : Heap → ℕ → ℕ → Heap × Option ℕ
unfolding memmove free
realloc h p n = elim (place h n) [
  | none ↦ (refused h, none)
  | some q ↦ (free (memmove (granted h q n) q p (min (h.size p) n)) p, some q)
]

-- The sign of memcmp, on unsigned bytes.
pub data Sign : Type 0 where
  less equal greater : Sign

unfoldable pub memcmp : (ℕ → ℕ) → ℕ → ℕ → ℕ → Sign
memcmp m p q zero = equal
memcmp m p q (suc n) =
    let rest = memcmp m (p + 1) (q + 1) n in
    if ltb (m p) (m q) then less else if ltb (m q) (m p) then greater else rest

-- The distance to the first NUL among the `n` bytes at `p`, or `n`.
unfoldable pub scan_nul : (ℕ → ℕ) → ℕ → ℕ → ℕ
scan_nul m p zero = zero
scan_nul m p (suc n) = let rest = suc (scan_nul m (p + 1) n) in if m p == 0 then 0 else rest

-- strlen reads no byte at or above `brk`: a C string ends below it.
unfoldable pub strlen : Heap → ℕ → ℕ
unfolding scan_nul
strlen h p = scan_nul h.byte p (h.brk - p)
