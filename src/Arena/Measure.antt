-- ===== src/Arena/Measure.antt =====
-- Sums over the blocks and the allocations of an arena, and its invariant.
use agenc_c.Base.{
  ℕ, ◌+◌, ◌-◌, ◌≤◌, ◌<◌, ◌≡◌, ◌⊎◌, Bool, true, false, Option, none, some, List, [], ◌∷◌,
  if◌then◌else◌, size_max,
}
use agenc_c.Memory.{Heap, within}
use agenc_c.Alloc.{Alloc, ptrdiff_max}
use agenc_c.Str.Valid.{IsHeap}
use agenc_c.Arena.Types.{Block, Arena}
use agenc_c.Arena.Block.{arena_block_data, block_size}

-- A predicate of all elements.
abbrev pub All {ℓ κ} : {A : Type ℓ} → (A → Type κ) → List A → Type κ
All P [] = Unit
All P (x ∷ xs) = P x × All P xs

-- 1 if `x` lies in the `n` bytes at `p`, else 0.
abbrev pub spans : ℕ → ℕ → ℕ → ℕ
spans p n x = if within p n x then 1 else 0

-- How many blocks of a chain have the byte `x`, header included.
unfoldable pub covers : ℕ → List Block → ℕ
covers x [] = 0
covers x (block ∷ rest) = spans block.base (block_size block) x + covers x rest

-- How many blocks of a chain have handed out the byte `x`.
unfoldable pub serves : ℕ → List Block → ℕ
serves x [] = 0
serves x (block ∷ rest) = spans (arena_block_data block) block.used x + serves x rest

-- An allocation that its owner may use: an address and a size.
pub record Span : Type 0 where
  pub ptr : ℕ
  pub size : ℕ

-- How many of the allocations have the byte `x`, and their sizes together.
unfoldable pub hits : ℕ → List Span → ℕ
hits x [] = 0
hits x (span ∷ rest) = spans span.ptr span.size x + hits x rest

unfoldable pub handed_out : List Span → ℕ
handed_out [] = 0
handed_out (span ∷ rest) = span.size + handed_out rest

-- The bytes that a chain holds, and those that it has consumed.
unfoldable pub held : List Block → ℕ
held [] = 0
held (block ∷ rest) = block_size block + held rest

unfoldable pub consumed : List Block → ℕ
consumed [] = 0
consumed (block ∷ rest) = block.used + consumed rest

-- A block of `n` bytes was obtained, or the request was refused with no memory touched.
pub record Gained (h : Heap) (n : ℕ) (h' : Heap) (p : ℕ) : Type 0 where
  pub fresh : h.brk ≤ p
  pub fits : p + n ≤ h'.brk
  pub top : h'.brk ≤ size_max
  pub kept : (x : ℕ) → x < h.brk → h'.byte x ≡ h.byte x
  pub sizes : (x : ℕ) → x < h.brk → h'.size x ≡ h.size x
  pub size : h'.size p ≡ n
  pub live : h'.live ≡ h.live + 1

pub record Denied (h h' : Heap) : Type 0 where
  pub brk : h'.brk ≡ h.brk
  pub bytes : (x : ℕ) → h'.byte x ≡ h.byte x
  pub block_sizes : (x : ℕ) → h'.size x ≡ h.size x
  pub blocks : h'.live ≡ h.live

abbrev pub Allocates : Heap → ℕ → Heap × Option ℕ → Type 0
Allocates h n (h', some p) = Gained h n h' p
Allocates h n (h', none) = Denied h h'

-- The block of `n` bytes at `p` went back; other memory is as before.
pub record Returned (h : Heap) (p n : ℕ) (h' : Heap) : Type 0 where
  pub top : h'.brk ≡ h.brk
  pub kept : (x : ℕ) → (x < p) ⊎ (p + n ≤ x) → h'.byte x ≡ h.byte x
  pub sizes : (x : ℕ) → (x < p) ⊎ (p < x) → h'.size x ≡ h.size x
  pub gone : h'.size p ≡ 0
  pub live : h'.live ≡ h.live - 1

-- What the arena asks of its parent: a new block is fresh memory, and a release touches only the
-- block. This is what agenc-arena/include/alloc.h says of `xalloc` and `xfree`.
pub record IsParent (parent : Alloc Heap) : Type 0 where
  pub xalloc :
      (h : Heap) (n : ℕ) → IsHeap h → 0 < n → n ≤ ptrdiff_max → Allocates h n (parent.xalloc h n 0)
  pub xfree :
      (h : Heap) (p n : ℕ)
      → IsHeap h
      → 0 < p
      → 0 < n
      → h.size p ≡ n
      → Returned h p n (parent.xfree h p n 0)

-- A block of a chain; the parent knows its size, unless it is the block of a fixed arena.
pub record IsBlock (h : Heap) (fixed : Bool) (block : Block) : Type 0 where
  pub base_pos : 0 < block.base
  pub used_le : block.used ≤ block.cap
  pub cap_le : block.cap ≤ ptrdiff_max
  pub below : block.base + block_size block ≤ h.brk
  pub known :
      ((fixed ≡ true) × (block.oversize ≡ false))
      ⊎ ((fixed ≡ false) × (h.size block.base ≡ block_size block))

-- A retained block is empty.
abbrev pub IsFree : Heap → Bool → Block → Type 0
IsFree h fixed block = IsBlock h fixed block × (block.used ≡ 0)

-- The blocks of an arena with the chain `c`: they are disjoint, free ones are empty, and the counter
-- of committed bytes is their sum.
pub record IsPool (h : Heap) (a : Arena) (c : List Block) : Type 0 where
  pub heap : IsHeap h
  pub parent : (a.fixed ≡ true) ⊎ IsParent a.parent
  pub apart : (x : ℕ) → covers x c + covers x a.free_blocks ≤ 1
  pub chain : All (IsBlock h a.fixed) c
  pub free : All (IsFree h a.fixed) a.free_blocks
  pub total : held c + held a.free_blocks ≤ h.brk
  pub committed : (a.fixed ≡ true) ⊎ (a.committed ≡ held c + held a.free_blocks)
  pub policy : a.next_block ≤ a.max_block
  pub policy_le : a.max_block ≤ ptrdiff_max

-- The arena is well formed, and `live` are allocations that may still be used: every byte of an
-- allocation is a byte that a block of the chain has handed out, and no byte is in two.
pub record IsArena (h : Heap) (a : Arena) (live : List Span) : Type 0 where
  pub pool : IsPool h a a.current
  pub room : (x : ℕ) → hits x live ≤ serves x a.current
  pub used_ge : handed_out live ≤ a.used
  pub used_le : a.used ≤ consumed a.current
  pub high : a.used ≤ a.high_water
