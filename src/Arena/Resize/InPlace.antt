-- ===== src/Arena/Resize/InPlace.antt =====
-- The newest allocation changes its size in place, in agenc-arena/src/arena.c.
use agenc_c.Base.{ℕ, ◌+◌, ◌-◌, ◌%◌, ◌≤◌, ◌<◌, ◌≡◌, ◌⊎◌, inl, refl, arith, List, ◌∷◌, min, word}
use agenc_c.Memory.{Heap}
use agenc_c.Arena.Types.{Build, redzone, Block, Arena, add_word, sub_word}
use agenc_c.Arena.Block.{arena_block_data, fill}
use agenc_c.Arena.Bump.{raise}
use agenc_c.Arena.Bump.Room.{unserved}
use agenc_c.Arena.Bump.Frame.{
  Filled, fill-Filled, Filled-IsBlock, All-map, consumed-le-held, serves-le-covers,
}
use agenc_c.Arena.Resize.{shrink_last}
use agenc_c.Arena.Scope.Drop.{mark_dead-Filled}
use agenc_c.Arena.Measure.{
  covers, serves, Span, hits, handed_out, held, consumed, IsBlock, IsFree, IsPool, IsArena,
}

-- The allocation at `ptr` has become one of `new_size` bytes at `p`, with the bytes it had.
pub record Resized (h : Heap) (ptr old_size new_size align : ℕ) (live : List Span) (h' : Heap)
    (a' : Arena) (p : ℕ) : Type 0 where
  pub arena : IsArena h' a' (record { ptr = p; size = new_size } ∷ live)
  pub not_null : 0 < p
  pub aligned : (p ≡ ptr) ⊎ (p % align ≡ 0)
  pub content : (i : ℕ) → i < min old_size new_size → h'.byte (p + i) ≡ h.byte (ptr + i)
  pub kept : (x : ℕ) → 0 < hits x live → h'.byte x ≡ h.byte x

-- No byte is in two live allocations.
pub hits_le :
    (h : Heap) (a : Arena) (live : List Span) → IsArena h a live → (x : ℕ) → hits x live ≤ 1
hits_le h a live v x =
    omega (arith, v.room x, v.pool.apart x, serves-le-covers h a.fixed x a.current v.pool.chain)

-- The counter of used bytes is a word.
pub used_lt : (h : Heap) (a : Arena) (live : List Span) → IsArena h a live → a.used < word
used_lt h a live v =
    omega (
      arith,
      v.used_le,
      consumed-le-held h a.fixed a.current v.pool.chain,
      v.pool.total,
      v.pool.heap,
    )

pub sub_word_lem : (x y : ℕ) → x < word → y ≤ x → sub_word x y ≡ x - y
sub_word_lem x y l m = omega arith

-- A pool stays well formed when its newest block changes its fill.
refilled-IsPool :
    (h : Heap) (a : Arena) (block : Block) (rest : List Block) (n used high p len : ℕ) (h' : Heap)
    → IsPool h a (block ∷ rest)
    → n ≤ block.cap
    → Filled h p len h'
    → IsPool h'
        (record a { current = record block { used = n } ∷ rest; used = used; high_water = high })
        (record block { used = n } ∷ rest)
unfolding covers held
refilled-IsPool h a block rest n used high p len h' v l w =
    let now = Filled-IsBlock h h' p len a.fixed w in
    record {
      heap = omega (arith, v.heap, w.brk);
      parent = v.parent;
      apart = v.apart;
      chain = (
        record {
          base_pos = v.chain.0.base_pos;
          used_le = l;
          cap_le = v.chain.0.cap_le;
          below = (now block v.chain.0).below;
          known = (now block v.chain.0).known;
        },
        All-map (IsBlock h a.fixed) (IsBlock h' a.fixed) rest now v.chain.1,
      );
      free =
          All-map (IsFree h a.fixed) (IsFree h' a.fixed) a.free_blocks
            (λ free f. (now free f.0, f.1)) v.free;
      total = omega (arith, v.total, w.brk);
      committed = v.committed;
      policy = v.policy;
      policy_le = v.policy_le;
    }

module _ (b : Build) (plain : redzone b ≡ 0) (h : Heap) (a : Arena) (block : Block)
    (rest : List Block) (live : List Span) (ptr old_size new_size align : ℕ)
    (v : IsArena h
      (record a { current = block ∷ rest })
      (record { ptr = ptr; size = old_size } ∷ live))
    (pos : 0 < ptr) (last : ptr + old_size ≡ arena_block_data block + block.used)
    (inside : arena_block_data block ≤ ptr) where
  -- Bytes of the old allocation are in no other.
  others : (x : ℕ) → ptr ≤ x → x < ptr + old_size → hits x live ≡ 0
  unfolding hits
  others x lo hi = ground (
    arith,
    hits_le h (record a { current = block ∷ rest }) (record { ptr = ptr; size = old_size } ∷ live) v
        x,
  )

  pub shrink_last-Resized :
      (offset : ℕ)
      → arena_block_data block + offset ≡ ptr
      → new_size ≤ old_size
      → let r =
          shrink_last b h
            (record a { current = block ∷ rest })
            ptr
            offset
            old_size
            new_size
            (block ∷ rest) in
        Resized h ptr old_size new_size align live r.0 r.1 ptr
  unfolding hits serves handed_out consumed
  shrink_last-Resized offset at l =
      let less =
        sub_word_lem a.used (old_size - new_size)
          (used_lt h (record a { current = block ∷ rest }) _ v) (omega (arith, v.used_ge)) in
      let w =
        mark_dead-Filled b h (record block { used = block.used - (old_size - new_size) })
          (offset + new_size) (offset + old_size) in
      record {
        arena = record {
          pool =
              refilled-IsPool h (record a { current = block ∷ rest }) block rest
                (block.used - (old_size - new_size)) (sub_word a.used (old_size - new_size))
                a.high_water _ _ _ v.pool (omega (arith, v.pool.chain.0)) w;
          room = λ x. ground (arith, v.room x, last, at, l, others x, inside);
          used_ge = omega (arith, v.used_ge, less, l);
          used_le = omega (arith, v.used_le, v.used_ge, less, l, last, at);
          high = omega (arith, v.high, less);
        };
        not_null = pos;
        aligned = inl refl;
        content = λ i k. w.kept (ptr + i) (inl (omega (arith, at)));
        kept = λ x k. w.kept x (ground (arith, others x, k, at));
      }

  -- Bytes behind the fill are in no live allocation.
  free_behind :
      (x : ℕ)
      → arena_block_data block + block.used ≤ x
      → x < arena_block_data block + block.cap
      → hits x live ≡ 0
  unfolding hits
  free_behind x lo hi = omega (
    arith,
    unserved b h a block rest (record { ptr = ptr; size = old_size } ∷ live) 0 0 0 v x lo hi,
  )

  pub extended :
      old_size < new_size
      → new_size - old_size ≤ block.cap - block.used
      → let growth = new_size - old_size in
        let used = add_word a.used growth in
        Resized h ptr old_size new_size align live
          (fill b h (ptr + old_size) 0xa5 growth)
          (record a {
            current = record block { used = block.used + growth } ∷ rest;
            used = used;
            high_water = raise a.high_water used;
          })
          ptr
  unfolding hits serves handed_out consumed held
  extended l room =
      let growth = new_size - old_size in
      let w = fill-Filled b h (ptr + old_size) 0xa5 growth in
      let more : add_word a.used growth ≡ a.used + growth = omega (
        arith,
        v.used_le,
        consumed-le-held h a.fixed rest v.pool.chain.1,
        v.pool.total,
        v.pool.heap,
        v.pool.chain.0,
        room,
      ) in
      record {
        arena = record {
          pool =
              refilled-IsPool h (record a { current = block ∷ rest }) block rest
                (block.used + growth) (add_word a.used growth)
                (raise a.high_water (add_word a.used growth)) _ _ _ v.pool
                (omega (arith, v.pool.chain.0)) w;
          room = λ x. ground (arith, v.room x, last, l, free_behind x, inside);
          used_ge = omega (arith, v.used_ge, more, l);
          used_le = omega (arith, v.used_le, more);
          high = ground arith;
        };
        not_null = pos;
        aligned = inl refl;
        content = λ i k. w.kept (ptr + i) (inl (omega arith));
        kept = λ x k. w.kept x (ground (arith, free_behind x, k, last));
      }
