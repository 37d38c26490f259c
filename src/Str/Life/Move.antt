-- ===== src/Str/Life/Move.antt =====
-- str_move and str_detach of agenc-str/src/str.c: an owned buffer changes hands.
use agenc_c.Base.{
  ℕ, zero, suc, ◌+◌, ◌-◌, ◌≤◌, ◌<◌, ◌≡◌, ◌⊎◌, refl, inl, inr, arith, Option, some, none,
}
use agenc_c.Memory.{Heap, malloc, poke, free}
use agenc_c.Memory.Bytes.{bytes}
use agenc_c.Str.Types.{err_alloc, Str, empty}
use agenc_c.Str.Buffer.{call_malloc, allocate_empty_buffer}
use agenc_c.Str.Valid.{IsValid, IsUnowned, IsOwner, IsHeap, Frame, Failed, content, blocks}
use agenc_c.Str.Separate.{Separate, Frame-Intact}
use agenc_c.Str.Life.{Operand, other, deinit_valid, move, detach}
use agenc_c.Str.Life.Copy.{deinit_valid-Frame, released_block, released_count}

-- The source's buffer is the destination's, the source is empty, and the destination's old block
-- is released. No memory outside that block is written.
pub record Moved (h : Heap) (d s : Str) (h' : Heap) (d' s' : Str) : Type 0 where
  pub valid : IsValid h' d'
  pub holds : content h' d' ≡ content h s
  pub buffer : (d'.buf ≡ s.buf) × (d'.cap ≡ s.cap)
  pub status : d'.status ≡ s.status
  pub emptied : s' ≡ empty
  pub frame : Frame h d h'
  pub tries : h'.tries ≡ h.tries
  pub released : (d.cap ≡ 0) ⊎ (h'.size d.buf ≡ 0)
  pub live : h'.live ≡ h.live - blocks d

abbrev pub Moves : Heap → Str → Str → Heap × Option Str × Operand → Type 0
Moves h d s (h', some d', other s') = Moved h d s h' d' s'
Moves h d s _ = ⊥

released_tries : (h : Heap) (d : Str) → (deinit_valid h d).0.tries ≡ h.tries
unfolding deinit_valid free
released_tries h d = ground arith

-- A move from another valid string, where neither string's block meets the other: the
-- destination is valid, with the source's bytes in the source's buffer and the source's status,
-- and the source is empty. The destination's old block, if it had one, is released and no longer
-- counted as live; nothing is requested, and memory outside that block is unchanged.
pub move-Moves :
    (h : Heap) (d s : Str)
    → IsValid h d
    → IsValid h s
    → Separate d s
    → Moves h d s (move h (some d) (other s))
unfolding move
move-Moves h d s vd vs sep =
    let f = deinit_valid-Frame h d vd in
    let k = Frame-Intact h d (deinit_valid h d).0 s vd f vs sep in
    record {
      valid = k.valid;
      holds = k.same;
      buffer = (refl, refl);
      status = refl;
      emptied = refl;
      frame = f;
      tries = released_tries h d;
      released = released_block h d vd;
      live = released_count h d vd;
    }

-- The caller owns a live block at `p` with the content and a terminator, and the string is empty.
-- The block is the string's own, or a new one if it had none.
pub record Detached (h : Heap) (s : Str) (h' : Heap) (s' : Str) (p : ℕ) : Type 0 where
  pub emptied : s' ≡ empty
  pub text : bytes h'.byte p s.len ≡ content h s
  pub nul : h'.byte (p + s.len) ≡ 0
  pub room : s.len < h'.size p
  pub frame : Frame h s h'
  pub place : ((s.cap ≡ 0) × (h.brk ≤ p)) ⊎ ((p ≡ s.buf) × (h' ≡ h))
  pub live : h'.live + blocks s ≡ h.live + 1

abbrev pub Detaches : Heap → Str → Heap × Option Str × ℕ → Type 0
Detaches h s (h', some s', suc p) = Detached h s h' s' (suc p)
Detaches h s (h', some s', zero) = Failed h s err_alloc h' s' × (s.cap ≡ 0)
Detaches h s (h', none, p) = ⊥

detach_unowned : (h : Heap) (s : Str) → IsHeap h → IsUnowned s → Detaches h s (detach h (some s))
unfolding detach allocate_empty_buffer call_malloc malloc poke
detach_unowned h s v u = ground arith

detach_owner : (h : Heap) (s : Str) → IsHeap h → IsOwner h s → Detaches h s (detach h (some s))
unfolding detach
detach_owner h s v o = ground arith

-- On a valid string: str_detach returns a live block with the content and a NUL behind it, and
-- the string is empty. The block is the string's own, with memory and the count of requests as
-- before, or, if the string owned none, a new one above all older memory, which is unchanged,
-- and one more block is live. Or it returns NULL, which happens only if the string owned no
-- buffer, with STR_ERR_ALLOC recorded on it and nothing else changed.
pub detach-Detaches : (h : Heap) (s : Str) → IsValid h s → Detaches h s (detach h (some s))
detach-Detaches h s v = elim v.shape [
  | inl u ↦ detach_unowned h s v.heap u
  | inr o ↦ detach_owner h s v.heap o
]
