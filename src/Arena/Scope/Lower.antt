-- ===== src/Arena/Scope/Lower.antt =====
-- The end of a temp scope of agenc-arena/src/arena.c: newer blocks leave, and the snapshot's newest
-- block falls back to its old fill.
use agenc_c.Base.{
  ℕ, ◌+◌, ◌≤◌, ◌<◌, ◌≡◌, ◌≢◌, ◌⊎◌, inl, inr, refl, ap, sym, ◌∙◌, subst, arith, Bool, List, [], ◌∷◌,
  ◌++◌, append-nil, le→ltb, lt→ltb,
}
use native.Mathlib.Decide.{dec_le}
use agenc_c.Memory.{Heap}
use agenc_c.Arena.Types.{Build, Block, Arena}
use agenc_c.Arena.Block.{pop_loop}
use agenc_c.Arena.Bump.Above.{Above}
use agenc_c.Arena.Bump.Frame.{Filled-IsBlock, All-map, serves-le-covers}
use agenc_c.Arena.Scope.{newest, lower_newest}
use agenc_c.Arena.Scope.Pop.{Stops, Popped, pop_loop-Popped}
use agenc_c.Arena.Scope.Drop.{mark_dead-Filled, lower-IsBlock}
use agenc_c.Arena.Measure.{All, covers, serves, held, IsBlock, IsFree, IsPool}

-- A chain whose newest block has the fill `level`.
abbrev pub raised : List Block → ℕ → List Block
raised [] level = []
raised (block ∷ rest) level = record block { used = level } ∷ rest

-- The chain of a snapshot is found again below the blocks that came later.
pub Above-split :
    (c now : List Block)
    → Above c now
    → (newer : List Block) × (level : ℕ) × (now ≡ newer ++ raised c level) × ((newest c).1 ≤ level)
Above-split [] now u = (now, 0, sym (append-nil now), omega arith)
Above-split (block ∷ rest) now u = u

raised-Stops : (c : List Block) (level : ℕ) → Stops (newest c).0 (raised c level)
raised-Stops [] level = tt
raised-Stops (block ∷ rest) level = refl

pub covers-append : (x : ℕ) (c d : List Block) → covers x (c ++ d) ≡ covers x c + covers x d
unfolding covers
covers-append x [] d = omega arith
covers-append x (block ∷ rest) d = omega (arith, covers-append x rest d)

pub covers-raised : (x : ℕ) (c : List Block) (level : ℕ) → covers x (raised c level) ≡ covers x c
unfolding covers
covers-raised x [] level = refl
covers-raised x (block ∷ rest) level = refl

-- NULL, or an address in a block of the chain.
abbrev In : ℕ → List Block → Type 0
In stop c = (stop ≡ 0) ⊎ (1 ≤ covers stop c)

raised-In : (c : List Block) (level : ℕ) → In (newest c).0 (raised c level)
unfolding covers
raised-In [] level = inl refl
raised-In (block ∷ rest) level = inr (ground arith)

-- No newer block has the address of the snapshot's newest block.
away :
    (h : Heap) (fixed : Bool) (stop : ℕ) (c newer : List Block)
    → In stop c
    → ((x : ℕ) → covers x (newer ++ c) ≤ 1)
    → All (IsBlock h fixed) (newer ++ c)
    → All (λ block. block.base ≢ stop) newer
unfolding covers
away h fixed stop c [] i u v = tt
away h fixed stop c (block ∷ newer) i u v = (
  λ e. absurd (ground (arith, i, u stop, v.0, covers-append stop newer c)),
  away h fixed stop c newer i (λ x. omega (arith, u x)) v.1,
)

pub Popped-back :
    (b : Build) (h : Heap) (a : Arena) (c now newer : List Block) (level : ℕ)
    → now ≡ newer ++ raised c level
    → IsPool h a now
    → Popped h a newer
        (raised c level)
        (pop_loop b h a (newest c).0 now).0
        (pop_loop b h a (newest c).0 now).1
Popped-back b h a c now newer level e v =
    let w = subst (IsPool h a) e v in
    rw e (
      pop_loop-Popped b (newest c).0 newer (raised c level) h a (raised-Stops c level) w (
        away h a.fixed (newest c).0 (raised c level) newer (raised-In c level)
          (λ x. omega (arith, w.apart x)) w.chain))

-- The snapshot's chain is back.
abbrev pub with_chain : Arena → List Block → Arena
with_chain a c = record a { current = c }

pub record Lowered (h : Heap) (a : Arena) (c : List Block) (h' : Heap) (a' : Arena) : Type 0 where
  pub pool : IsPool h' a' c
  pub arena : a' ≡ with_chain a c
  pub kept : (x : ℕ) → 0 < serves x c → h'.byte x ≡ h.byte x

module _ (b : Build) (h : Heap) (a : Arena) where
  lower_raised :
      (c : List Block) (level : ℕ)
      → (newest c).1 ≤ level
      → a.current ≡ raised c level
      → IsPool h a (raised c level)
      → Lowered h a c
          (lower_newest b h a (newest c).1 (raised c level)).0
          (lower_newest b h a (newest c).1 (raised c level)).1
  unfolding covers serves held
  lower_raised [] level l e v = record {
    pool = v;
    arena = ap (with_chain a) e;
    kept = λ x out. refl;
  }
  lower_raised (block ∷ rest) level l e v = elim (dec_le level block.used) [
    | yes same ↦
        let q : level ≡ block.used = omega (arith, l) in
        rw (le→ltb block.used level same) (record {
          pool = subst (λ k. IsPool h a (raised (block ∷ rest) k)) q v;
          arena = ap (with_chain a) (e ∙ ap (raised (block ∷ rest)) q);
          kept = λ x out. refl;
        })
    | no more ↦
        let w = mark_dead-Filled b h (record block { used = level }) block.used level in
        let now = Filled-IsBlock h _ _ _ a.fixed w in
        rw (lt→ltb block.used level (omega arith)) (record {
          pool = record {
            heap = omega (arith, v.heap, w.brk);
            parent = v.parent;
            apart = v.apart;
            chain = (
              lower-IsBlock _ a.fixed (record block { used = level }) block.used l
                  (now (record block { used = level }) v.chain.0),
              All-map (IsBlock h a.fixed) (IsBlock _ a.fixed) rest now v.chain.1,
            );
            free =
                All-map (IsFree h a.fixed) (IsFree _ a.fixed) a.free_blocks
                  (λ free f. (now free f.0, f.1)) v.free;
            total = omega (arith, v.total, w.brk);
            committed = v.committed;
            policy = v.policy;
            policy_le = v.policy_le;
          };
          arena = refl;
          kept = λ x out. w.kept x (
              ground
                (arith, v.chain.0, v.apart x, serves-le-covers h a.fixed x rest v.chain.1, out));
        })
  ]

  pub lower_newest-Lowered :
      (c cur : List Block) (level : ℕ)
      → (newest c).1 ≤ level
      → a.current ≡ cur
      → cur ≡ raised c level
      → IsPool h a (raised c level)
      → Lowered h a c
          (lower_newest b h a (newest c).1 cur).0
          (lower_newest b h a (newest c).1 cur).1
  lower_newest-Lowered c cur level l e f v = rw f (lower_raised c level l (e ∙ f) v)
