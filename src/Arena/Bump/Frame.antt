-- ===== src/Arena/Bump/Frame.antt =====
-- What the sums over a chain say of one another, and what a debug fill keeps, in
-- agenc-arena/src/arena.c.
use agenc_c.Base.{ℕ, ◌+◌, ◌≤◌, ◌<◌, ◌≡◌, ◌⊎◌, refl, arith, Bool, List, [], ◌∷◌}
use agenc_c.Memory.{Heap, memset}
use agenc_c.Arena.Types.{Arena, Build, release, debug, sanitized, redzone, Block}
use agenc_c.Arena.Block.{block_size, fill}
use agenc_c.Arena.Measure.{IsPool, IsFree, All, spans, covers, serves, held, consumed, IsBlock}

pub redzone_le : (b : Build) → redzone b ≤ 16
unfolding redzone
redzone_le release = omega arith
redzone_le debug = omega arith
redzone_le sanitized = omega arith

pub consumed-le-held :
    (h : Heap) (fixed : Bool) (c : List Block) → All (IsBlock h fixed) c → consumed c ≤ held c
unfolding consumed held
consumed-le-held h fixed [] v = omega arith
consumed-le-held h fixed (block ∷ rest) v = omega (arith, v.0, consumed-le-held h fixed rest v.1)

-- What has been handed out lies in the blocks.
pub serves-le-covers :
    (h : Heap) (fixed : Bool) (x : ℕ) (c : List Block)
    → All (IsBlock h fixed) c
    → serves x c ≤ covers x c
unfolding serves covers
serves-le-covers h fixed x [] v = omega arith
serves-le-covers h fixed x (block ∷ rest) v =
    ground (arith, v.0, serves-le-covers h fixed x rest v.1)

-- A span behind `u` bytes at `d` and the bytes together lie in a longer span.
pub spans_behind :
    (d u pad size r x : ℕ)
    → spans (d + u + pad) size x + spans d u x ≤ spans d (u + (pad + (size + r))) x
spans_behind d u pad size r x = ground arith

pub held-cons :
    (block : Block) (rest : List Block) → held (block ∷ rest) ≡ block_size block + held rest
unfolding held
held-cons block rest = refl

pub consumed-cons :
    (block : Block) (rest : List Block) → consumed (block ∷ rest) ≡ block.used + consumed rest
unfolding consumed
consumed-cons block rest = refl

-- A debug fill writes the bytes of its span and nothing else.
pub record Filled (h : Heap) (p n : ℕ) (h' : Heap) : Type 0 where
  pub brk : h'.brk ≡ h.brk
  pub size : (x : ℕ) → h'.size x ≡ h.size x
  pub live : h'.live ≡ h.live
  pub kept : (x : ℕ) → (x < p) ⊎ (p + n ≤ x) → h'.byte x ≡ h.byte x

pub fill-Filled : (b : Build) (h : Heap) (p value n : ℕ) → Filled h p n (fill b h p value n)
unfolding fill memset
fill-Filled release h p value n = ground arith
fill-Filled debug h p value n = ground arith
fill-Filled sanitized h p value n = ground arith

pub All-map {ℓ κ κ'} :
    {A : Type ℓ} (P : A → Type κ) (Q : A → Type κ') (xs : List A)
    → ((x : A) → P x → Q x)
    → All P xs
    → All Q xs
All-map P Q [] f v = tt
All-map P Q (x ∷ xs) f v = (f x v.0, All-map P Q xs f v.1)

-- A block is a block in any memory with the same layout.
pub resting-IsBlock :
    (h h' : Heap) (fixed : Bool)
    → h'.brk ≡ h.brk
    → ((x : ℕ) → h'.size x ≡ h.size x)
    → (block : Block) → IsBlock h fixed block
    → IsBlock h' fixed block
resting-IsBlock h h' fixed top sizes block v = record {
  base_pos = v.base_pos;
  used_le = v.used_le;
  cap_le = v.cap_le;
  below = omega (arith, v.below, top);
  known = ground (arith, v.known, sizes block.base);
}

pub resting-IsPool :
    (h h' : Heap) (a : Arena) (c : List Block)
    → h'.brk ≡ h.brk
    → ((x : ℕ) → h'.size x ≡ h.size x)
    → IsPool h a c
    → IsPool h' a c
resting-IsPool h h' a c top sizes v = record {
  heap = omega (arith, v.heap, top);
  parent = v.parent;
  apart = v.apart;
  chain =
      All-map (IsBlock h a.fixed) (IsBlock h' a.fixed) c (resting-IsBlock h h' a.fixed top sizes)
        v.chain;
  free =
      All-map (IsFree h a.fixed) (IsFree h' a.fixed) a.free_blocks
        (λ block f. (resting-IsBlock h h' a.fixed top sizes block f.0, f.1)) v.free;
  total = omega (arith, v.total, top);
  committed = v.committed;
  policy = v.policy;
  policy_le = v.policy_le;
}

pub Filled-IsBlock :
    (h h' : Heap) (p n : ℕ) (fixed : Bool)
    → Filled h p n h'
    → (block : Block) → IsBlock h fixed block
    → IsBlock h' fixed block
Filled-IsBlock h h' p n fixed w = resting-IsBlock h h' fixed w.brk w.size
