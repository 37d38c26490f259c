-- ===== src/Arena/Resize/Last.antt =====
-- The attempt of agenc-arena/src/arena.c to resize the newest allocation in place.
use agenc_c.Arena.Resize.InPlace.{Resized, shrink_last-Resized, extended}
use agenc_c.Base.{
  ℕ, ◌+◌, ◌-◌, ◌≤◌, ◌<◌, ◌≡◌, inl, inr, refl, arith, Option, none, some, List, [], ◌∷◌, ltb, leb,
  ◌==◌, ◌||◌, if◌then◌else◌, le→ltb, lt→ltb, le→leb, lt→leb, Bool-cases,
}
use native.Mathlib.Decide.{dec_le}
use agenc_c.Memory.{Heap}
use agenc_c.Arena.Types.{Build, redzone, Block, Arena, Served}
use agenc_c.Arena.Block.{arena_block_data}
use agenc_c.Arena.Resize.{arena_is_last_alloc, arena_try_resize_last, shrink_last, extend_last}
use agenc_c.Arena.Measure.{Span, IsArena}

-- In place, or nothing has changed.
abbrev pub Tries : Heap → Arena → ℕ → ℕ → ℕ → ℕ → List Span → Served → Type 0
Tries h a ptr old_size new_size align live (h', a', some p) =
    Resized h ptr old_size new_size align live h' a' p
Tries h a ptr old_size new_size align live (h', a', none) = Unit

-- The answer of `arena_is_last_alloc` on the newest block.
abbrev IsLast : Block → ℕ → ℕ → Option ℕ → Type 0
IsLast block ptr size none = Unit
IsLast block ptr size (some offset) =
    (arena_block_data block ≤ ptr)
    × (offset ≡ ptr - arena_block_data block)
    × (ptr + size ≡ arena_block_data block + block.used)

arena_is_last_alloc-IsLast :
    (b : Build)
    → redzone b ≡ 0
    → (a : Arena) (block : Block) (rest : List Block) (ptr size : ℕ)
    → IsLast block ptr size (arena_is_last_alloc b (record a { current = block ∷ rest }) ptr size)
unfolding arena_is_last_alloc
arena_is_last_alloc-IsLast b plain a block rest ptr size = elim (Bool-cases (ltb block.used size)) [
  | inl e ↦ rw e tt
  | inr e ↦
      elim (Bool-cases
        (ltb ptr (arena_block_data block) || ltb block.cap (ptr - arena_block_data block))) [
          | inl f ↦ rw (e, f) tt
          | inr f ↦
              elim (Bool-cases (ptr - arena_block_data block + size + redzone b == block.used)) [
                | inr g ↦ rw (e, f, g) tt
                | inl g ↦ rw (e, f, g) (ground arith, refl, ground (arith, plain))
              ]
        ]
]

module _ (b : Build) (plain : redzone b ≡ 0) (h : Heap) (a : Arena) (live : List Span)
    (ptr old_size new_size align : ℕ) (pos : 0 < ptr) where
  -- The allocation ends where the block's fill does.
  in_newest :
      (block : Block) (rest : List Block)
      → IsArena h
          (record a { current = block ∷ rest })
          (record { ptr = ptr; size = old_size } ∷ live)
      → arena_block_data block ≤ ptr
      → ptr + old_size ≡ arena_block_data block + block.used
      → Tries h
          (record a { current = block ∷ rest })
          ptr
          old_size
          new_size
          align
          live
          (if leb new_size old_size
            then shrink_last b h
                (record a { current = block ∷ rest })
                ptr
                (ptr - arena_block_data block)
                old_size
                new_size
                (block ∷ rest)
            else extend_last b h
                (record a { current = block ∷ rest })
                ptr
                old_size
                (new_size - old_size)
                (block ∷ rest))
  in_newest block rest v inside last = elim (dec_le new_size old_size) [
    | yes less ↦ rw (le→leb new_size old_size less) (
        shrink_last-Resized b plain h a block rest live ptr old_size new_size align v pos last
          inside (ptr - arena_block_data block) (omega arith) less)
    | no more ↦
        rw (lt→leb new_size old_size (omega arith))
          (elim (dec_le (new_size - old_size) (block.cap - block.used)) [
            | yes room ↦ rw (le→ltb (block.cap - block.used) (new_size - old_size) room) (
                extended b plain h a block rest live ptr old_size new_size align v pos last inside
                  (omega arith) room)
            | no tight ↦ rw (lt→ltb (block.cap - block.used) (new_size - old_size) (omega arith)) tt
          ])
  ]

  tried :
      (block : Block) (rest : List Block) (r : Option ℕ)
      → IsArena h
          (record a { current = block ∷ rest })
          (record { ptr = ptr; size = old_size } ∷ live)
      → IsLast block ptr old_size r
      → Tries h
          (record a { current = block ∷ rest })
          ptr
          old_size
          new_size
          align
          live
          (elim r [
            | none ↦ (h, record a { current = block ∷ rest }, none)
            | some offset ↦
                if leb new_size old_size
                then shrink_last b h
                    (record a { current = block ∷ rest })
                    ptr
                    offset
                    old_size
                    new_size
                    (block ∷ rest)
                else extend_last b h
                    (record a { current = block ∷ rest })
                    ptr
                    old_size
                    (new_size - old_size)
                    (block ∷ rest)
          ])
  tried block rest none v u = tt
  tried block rest (some offset) v (inside, e, last) = rw e (in_newest block rest v inside last)

  pub arena_try_resize_last-Tries :
      (c : List Block)
      → IsArena h (record a { current = c }) (record { ptr = ptr; size = old_size } ∷ live)
      → Tries h
          (record a { current = c })
          ptr
          old_size
          new_size
          align
          live
          (arena_try_resize_last b h (record a { current = c }) ptr old_size new_size)
  unfolding arena_try_resize_last arena_is_last_alloc
  arena_try_resize_last-Tries [] v = tt
  arena_try_resize_last-Tries (block ∷ rest) v =
      tried block rest _ v (arena_is_last_alloc-IsLast b plain a block rest ptr old_size)
