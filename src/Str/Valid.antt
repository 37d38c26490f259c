-- ===== src/Str/Valid.antt =====
-- The representation invariant of `str_t` (the comment over it in agenc-str/include/str.h), its
-- abstract value, and what a call may change.
use agenc_c.Base.{ℕ, ◌+◌, ◌≤◌, ◌<◌, ◌≡◌, ◌≢◌, ◌⊎◌, List, size_max, ◌==◌, if◌then◌else◌}
use agenc_c.Memory.{Heap}
use agenc_c.Memory.Bytes.{bytes}
use agenc_c.Str.Types.{Status, ok, err_arg, err_alloc, err_range, err_overflow, err_fmt, Str, Run}

-- `brk` is positive, so no block starts at NULL, and every block ends inside the address space.
pub record IsHeap (h : Heap) : Type 0 where
  pub brk_pos : 0 < h.brk
  pub brk_le : h.brk ≤ size_max

-- cap == 0 implies buf == NULL and len == 0.
pub record IsUnowned (s : Str) : Type 0 where
  pub no_buf : s.buf ≡ 0
  pub no_len : s.len ≡ 0
  pub no_cap : s.cap ≡ 0

-- cap > 0 implies buf != NULL, len < cap and buf[len] == '\0'; `buf` is a live block of `cap` bytes.
pub record IsOwner (h : Heap) (s : Str) : Type 0 where
  pub buf_pos : 0 < s.buf
  pub len_lt : s.len < s.cap
  pub fits : s.buf + s.cap ≤ h.brk
  pub block : h.size s.buf ≡ s.cap
  pub nul : h.byte (s.buf + s.len) ≡ 0

pub record IsValid (h : Heap) (s : Str) : Type 0 where
  pub heap : IsHeap h
  pub shape : IsUnowned s ⊎ IsOwner h s

-- The abstract value of a string: its bytes.
abbrev pub content : Heap → Str → List ℕ
content h s = bytes h.byte s.buf s.len

-- The number of blocks that a string owns.
abbrev pub blocks : Str → ℕ
blocks s = if s.cap == 0 then 0 else 1

-- An address outside the allocation of a string.
abbrev pub Apart : Str → ℕ → Type 0
Apart s a = (a < s.buf) ⊎ (s.buf + s.cap ≤ a)

-- Memory that the string does not own is as before, and no block but its own changes its size.
pub record Frame (h : Heap) (s : Str) (h' : Heap) : Type 0 where
  pub mono : h.brk ≤ h'.brk
  pub top : h'.brk ≤ size_max
  pub kept : (a : ℕ) → a < h.brk → Apart s a → h'.byte a ≡ h.byte a
  pub sizes : (p : ℕ) → p < h.brk → p ≢ s.buf → h'.size p ≡ h.size p

-- A refused request leaves the memory alone.
pub record Quiet (h h' : Heap) : Type 0 where
  pub byte : h'.byte ≡ h.byte
  pub size : h'.size ≡ h.size
  pub brk : h'.brk ≡ h.brk
  pub live : h'.live ≡ h.live

-- A readable nonempty source of `n` bytes: outside the allocation, or in the content through its
-- terminator.
pub record IsOutside (h : Heap) (s : Str) (p n : ℕ) : Type 0 where
  pub not_null : 0 < p
  pub readable : p + n ≤ h.brk
  pub apart : (p + n ≤ s.buf) ⊎ (s.buf + s.cap ≤ p)

pub record IsInside (s : Str) (p n : ℕ) : Type 0 where
  pub after : s.buf ≤ p
  pub before : p + n ≤ s.buf + s.len + 1
  pub owned : 0 < s.cap

abbrev pub IsSource : Heap → Str → ℕ → ℕ → Type 0
IsSource h s p n = IsOutside h s p n ⊎ IsInside s p n

-- The call succeeded and the string now holds `text`; its buffer is new, or the old one. Apart
-- from the string's own block as many blocks are live as before.
pub record Updated (h : Heap) (s : Str) (text : List ℕ) (h' : Heap) (s' : Str) : Type 0 where
  pub valid : IsValid h' s'
  pub holds : content h' s' ≡ text
  pub status : s'.status ≡ ok
  pub frame : Frame h s h'
  pub place : (h.brk ≤ s'.buf) ⊎ ((s'.buf ≡ s.buf) × (s'.cap ≡ s.cap))
  pub live : h'.live + blocks s ≡ h.live + blocks s'

-- The call failed: only the sticky status and the count of requests differ.
pub record Failed (h : Heap) (s : Str) (e : Status) (h' : Heap) (s' : Str) : Type 0 where
  pub quiet : Quiet h h'
  pub string : s' ≡ record s { status = e }

-- The two outcomes of a mutator whose arguments are good.
abbrev pub Mutates : Heap → Str → List ℕ → Run Status → Type 0
Mutates h s text (h', s', ok) = Updated h s text h' s'
Mutates h s text (h', s', err_alloc) = Failed h s err_alloc h' s'
Mutates h s text (h', s', err_overflow) = Failed h s err_overflow h' s'
Mutates h s text (h', s', err_arg) = ⊥
Mutates h s text (h', s', err_range) = ⊥
Mutates h s text (h', s', err_fmt) = ⊥
