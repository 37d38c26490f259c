-- ===== src/Str/Edit/Shrink.antt =====
-- str_shrink_to_fit of agenc-str/src/str.c keeps the content.
use agenc_c.Base.{ℕ, ◌+◌, ◌≤◌, ◌<◌, ◌≡◌, ◌⊎◌, inr, ap, ◌∙◌, arith, size_max, ne→==, le→ltb}
use agenc_c.Memory.{Heap, realloc}
use agenc_c.Memory.Bytes.{bytes, bytes_ext}
use agenc_c.Str.Types.{Status, ok, err_alloc, err_arg, err_range, err_overflow, err_fmt, Str, Run}
use agenc_c.Str.Size.Bounds.{add_size-eq}
use agenc_c.Str.Source.{set_failure}
use agenc_c.Str.Valid.{IsHeap, IsOwner, IsValid, Frame, Updated, Mutates, content, blocks}
use agenc_c.Str.Buffer.{call_realloc, shrink_heap}
use agenc_c.Str.Buffer.Grow.{Refused, cap_le, IsOwner-of_cap}
use agenc_c.Str.Write.{ensured}
use agenc_c.Str.Edit.{shrink_valid}

-- The buffer has exactly the room for the content and its terminator.
pub record Shrunk (h : Heap) (s : Str) (h' : Heap) (s' : Str) : Type 0 where
  pub frame : Frame h s h'
  pub buf_pos : 0 < s'.buf
  pub cap : s'.cap ≡ s.len + 1
  pub fits : s'.buf + s'.cap ≤ h'.brk
  pub block : h'.size s'.buf ≡ s'.cap
  pub len : s'.len ≡ s.len
  pub status : s'.status ≡ s.status
  pub text : (i : ℕ) → i < s.len + 1 → h'.byte (s'.buf + i) ≡ h.byte (s.buf + i)
  pub place : (h.brk ≤ s'.buf) ⊎ ((s'.buf ≡ s.buf) × (s'.cap ≡ s.cap))
  pub live : h'.live + blocks s ≡ h.live + blocks s'

abbrev Shrinks : Heap → Str → Run Status → Type 0
Shrinks h s (h', s', ok) = Shrunk h s h' s'
Shrinks h s (h', s', err_alloc) = Refused h s h' s'
Shrinks h s (h', s', _) = ⊥

shrink_heap-Shrinks :
    (h : Heap) (s : Str) → IsHeap h → IsOwner h s → Shrinks h s (shrink_heap h s (s.len + 1))
unfolding shrink_heap call_realloc realloc
shrink_heap-Shrinks h s v o = ground arith

Shrunk-Updated :
    (h : Heap) (s : Str) (h' : Heap) (s' : Str)
    → IsValid h s
    → s.status ≡ ok
    → IsOwner h s
    → Shrunk h s h' s'
    → Updated h s (content h s) h' s'
Shrunk-Updated h s h' s' v fine o g = record {
  valid = record { heap = omega (arith, g.frame, v.heap); shape = inr owner };
  holds =
      ap (bytes h'.byte s'.buf) g.len
      ∙ bytes_ext h'.byte h.byte s'.buf s.buf s.len (λ i l. g.text i (omega arith));
  status = g.status ∙ fine;
  frame = g.frame;
  place = g.place;
  live = g.live;
}
  where
    owner : IsOwner h' s'
    owner = ground (arith, o, g.fits, g.text s.len, g.cap, g.len, g.block)

Shrinks-Mutates :
    (h : Heap) (s : Str) (r : Run Status)
    → IsValid h s
    → s.status ≡ ok
    → IsOwner h s
    → Shrinks h s r
    → Mutates h s (content h s) (ensured r (λ h' s'. (h', s')))
Shrinks-Mutates h s (h', s', ok) v fine o g = Shrunk-Updated h s h' s' v fine o g
Shrinks-Mutates h s (h', s', err_alloc) v fine o g = record {
  quiet = g.quiet;
  string = ap (λ t. set_failure t err_alloc) g.string;
}
Shrinks-Mutates h s (h', s', err_arg) v fine o g = absurd g
Shrinks-Mutates h s (h', s', err_range) v fine o g = absurd g
Shrinks-Mutates h s (h', s', err_overflow) v fine o g = absurd g
Shrinks-Mutates h s (h', s', err_fmt) v fine o g = absurd g

-- On a valid string with content and without a sticky status the buffer shrinks to the content
-- and its terminator, or STR_ERR_ALLOC is recorded and nothing else changes.
pub shrink_valid-Mutates :
    (h : Heap) (s : Str)
    → IsValid h s
    → s.status ≡ ok
    → 0 < s.len
    → Mutates h s (content h s) (shrink_valid h s)
unfolding shrink_valid
shrink_valid-Mutates h s v fine pos =
    let o = IsOwner-of_cap h s v (ground (arith, v.shape)) in
    rw
      (
        shrink_valid,
        ne→== s.cap 0 (λ e. absurd (omega (arith, o.len_lt))),
        ne→== s.len 0 (λ e. absurd (omega arith)),
        add_size-eq s.len 1 (omega arith),
        le→ltb size_max (s.len + 1) (omega (arith, o.len_lt, cap_le h s v)),
      )
      (Shrinks-Mutates h s (shrink_heap h s (s.len + 1)) v fine o
        (shrink_heap-Shrinks h s v.heap o))
