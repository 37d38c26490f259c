-- ===== src/Arena/Align.antt =====
-- Alignments in agenc-arena/src/arena.c: which are valid, and the padding in front of a block.
pub mod Bits
pub mod Valid
use agenc_c.Base.{ℕ, ◌+◌, ◌-◌, ◌*◌, ◌%◌, Bool, ltb, ◌==◌, if◌then◌else◌, word}
use Prim.Native.Nat.{bit_and, bit_or}
use agenc_c.Arena.Types.{Build, release, debug, sanitized, default_align, arena_max_align}

-- `~x` on a word
abbrev pub complement : ℕ → ℕ
complement x = word - 1 - x

abbrev pub minus_one : ℕ → ℕ
minus_one x = (x + word - 1) % word

unfoldable pub arena_align_valid : ℕ → Bool
arena_align_valid align =
    bit_or (bit_and align (minus_one align)) (bit_and align (complement (2 * arena_max_align - 1)))
    == 0

unfoldable pub arena_align_effective : Build → ℕ → ℕ
arena_align_effective release align = if align == 0 then default_align else align
arena_align_effective debug align = if align == 0 then default_align else align
arena_align_effective sanitized align =
    let effective = if align == 0 then default_align else align in
    if ltb effective 8 then 8 else effective

-- `-(uintptr_t)cursor & (align - 1)`
unfoldable pub padding : ℕ → ℕ → ℕ
padding cursor align = bit_and ((word - cursor) % word) (align - 1)
