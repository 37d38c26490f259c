-- ===== src/Str/Buffer/Grow.antt =====
-- Growth keeps the content: the specification of `ensure_capacity`.
use agenc_c.Base.{ℕ, ◌+◌, ◌≤◌, ◌<◌, ◌≡◌, ◌⊎◌, inl, inr, arith, size_max, le→leb, lt→leb}
use native.Mathlib.Decide.{dec_le}
use agenc_c.Memory.{Heap, malloc, realloc, poke}
use agenc_c.Str.Types.{
  Status, ok, err_alloc, err_arg, err_range, err_overflow, err_fmt, Str, Result, done, failed, Run,
}
use agenc_c.Str.Size.{choose_capacity}
use agenc_c.Str.Size.Bounds.{Reaches, choose_capacity-Reaches}
use agenc_c.Str.Buffer.{call_malloc, call_realloc, grow_heap, ensure_capacity}
use agenc_c.Str.Valid.{IsHeap, IsUnowned, IsOwner, IsValid, Frame, Quiet, blocks}

pub record Grown (h : Heap) (s : Str) (need : ℕ) (h' : Heap) (s' : Str) : Type 0 where
  pub frame : Frame h s h'
  pub buf_pos : 0 < s'.buf
  pub reaches : need ≤ s'.cap
  pub keeps : s.cap ≤ s'.cap
  pub fits : s'.buf + s'.cap ≤ h'.brk
  pub block : h'.size s'.buf ≡ s'.cap
  pub len : s'.len ≡ s.len
  pub status : s'.status ≡ s.status
  pub text : (i : ℕ) → i < s.cap → h'.byte (s'.buf + i) ≡ h.byte (s.buf + i)
  -- The buffer is new, or the old one as it was.
  pub place : (h.brk ≤ s'.buf) ⊎ ((s'.buf ≡ s.buf) × (s'.cap ≡ s.cap))
  pub start : s.cap ≡ 0 → h'.byte s'.buf ≡ 0
  pub live : h'.live + blocks s ≡ h.live + blocks s'

pub record Refused (h : Heap) (s : Str) (h' : Heap) (s' : Str) : Type 0 where
  pub quiet : Quiet h h'
  pub string : s' ≡ s

abbrev pub Grows : Heap → Str → ℕ → Run Status → Type 0
Grows h s need (h', s', ok) = Grown h s need h' s'
Grows h s need (h', s', err_alloc) = Refused h s h' s'
Grows h s need (h', s', err_arg) = ⊥
Grows h s need (h', s', err_range) = ⊥
Grows h s need (h', s', err_overflow) = ⊥
Grows h s need (h', s', err_fmt) = ⊥

grow_heap_unowned :
    (h : Heap) (s : Str) (c : ℕ) → IsHeap h → IsUnowned s → 0 < c → Grows h s c (grow_heap h s c)
unfolding grow_heap call_malloc malloc poke
grow_heap_unowned h s c hh u pos = ground arith

grow_heap_owner :
    (h : Heap) (s : Str) (c : ℕ)
    → IsHeap h
    → IsOwner h s
    → s.cap < c
    → Grows h s c (grow_heap h s c)
unfolding grow_heap call_realloc realloc
grow_heap_owner h s c hh u pos = ground arith

-- Enough room at once: nothing changes.
pub Grown-refl :
    (h : Heap) (s : Str) (need : ℕ) → IsHeap h → IsOwner h s → need ≤ s.cap → Grown h s need h s
Grown-refl h s need hh o l = ground arith

grow_heap-Grows :
    (h : Heap) (s : Str) (c : ℕ) → IsValid h s → s.cap < c → Grows h s c (grow_heap h s c)
grow_heap-Grows h s c v l = elim v.shape [
  | inl u ↦ grow_heap_unowned h s c v.heap u (omega arith)
  | inr o ↦ grow_heap_owner h s c v.heap o l
]

-- Room for a smaller need is room.
Grows-mono :
    (h : Heap) (s : Str) (c need : ℕ) (r : Run Status) → need ≤ c → Grows h s c r → Grows h s need r
Grows-mono h s c need (h', s', ok) l g = ground arith
Grows-mono h s c need (h', s', err_alloc) l g = g
Grows-mono h s c need (h', s', err_arg) l g = g
Grows-mono h s c need (h', s', err_range) l g = g
Grows-mono h s c need (h', s', err_overflow) l g = g
Grows-mono h s c need (h', s', err_fmt) l g = g

pub IsOwner-of_cap : (h : Heap) (s : Str) → IsValid h s → 0 < s.cap → IsOwner h s
IsOwner-of_cap h s v l = elim v.shape [ inl u ↦ absurd (omega (arith, u.no_cap)) | inr o ↦ o ]

pub cap_le : (h : Heap) (s : Str) → IsValid h s → s.cap ≤ size_max
cap_le h s v = ground (arith, v.heap, v.shape)

chosen-Grows :
    (h : Heap) (s : Str) (need : ℕ)
    → IsValid h s
    → s.cap < need
    → (r : Result ℕ) → Reaches s.cap need r
    → Grows h s need (elim r [ failed e ↦ (h, s, e) | done c ↦ grow_heap h s c ])
chosen-Grows h s need v l (failed e) b = absurd b
chosen-Grows h s need v l (done c) b =
    Grows-mono h s c need (grow_heap h s c) b.0 (grow_heap-Grows h s c v (omega (arith, b.0)))

-- On a valid string and for `0 < need <= SIZE_MAX`, `ensure_capacity` yields an owned buffer of
-- at least `need` bytes with the old bytes in front and all memory outside the string's
-- allocation unchanged, or it fails with STR_ERR_ALLOC and changes neither the string nor
-- memory.
pub ensure_capacity-Grows :
    (h : Heap) (s : Str) (need : ℕ)
    → IsValid h s
    → 0 < need
    → need ≤ size_max
    → Grows h s need (ensure_capacity h s need)
unfolding ensure_capacity
ensure_capacity-Grows h s need v pos l = elim (dec_le need s.cap) [
  | yes p ↦
      rw (le→leb need s.cap p) (Grown-refl h s need v.heap (IsOwner-of_cap h s v (omega arith)) p)
  | no p ↦ rw (lt→leb need s.cap (omega arith)) (
      chosen-Grows h s need v (omega arith) (choose_capacity s.cap need)
        (choose_capacity-Reaches s.cap need l (cap_le h s v)))
]
