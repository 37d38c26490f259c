-- ===== src/Str/Write/Written.antt =====
-- Writes inside the string's own buffer: what they keep of the invariant and of other memory.
use agenc_c.Base.{ℕ, ◌+◌, ◌<◌, ◌≡◌, inr, arith, List, ◌∙◌}
use agenc_c.Memory.{Heap}
use agenc_c.Str.Types.{ok, Str}
use agenc_c.Str.Buffer.Grow.{Grown}
use agenc_c.Str.Valid.{IsValid, IsOwner, Apart, Frame, Updated, content}

-- From (h, s) to (h', s') only bytes of the buffer changed, and the string ends in a NUL inside it.
pub record Written (h : Heap) (s : Str) (h' : Heap) (s' : Str) : Type 0 where
  pub brk : h'.brk ≡ h.brk
  pub live : h'.live ≡ h.live
  pub size : (p : ℕ) → h'.size p ≡ h.size p
  pub outside : (a : ℕ) → Apart s a → h'.byte a ≡ h.byte a
  pub buf : s'.buf ≡ s.buf
  pub cap : s'.cap ≡ s.cap
  pub len_lt : s'.len < s.cap
  pub nul : h'.byte (s.buf + s'.len) ≡ 0
  pub status : s'.status ≡ s.status

-- Growth, then writes inside the buffer: the call as a whole updated the string.
pub Written-Updated :
    (h : Heap) (s : Str) (need : ℕ) (h1 : Heap) (s1 : Str) (h2 : Heap) (s2 : Str) (text : List ℕ)
    → s.status ≡ ok
    → Grown h s need h1 s1
    → Written h1 s1 h2 s2
    → IsValid h s
    → content h2 s2 ≡ text
    → Updated h s text h2 s2
Written-Updated h s need h1 s1 h2 s2 text fine g w v e = record {
  valid = record { heap = omega (arith, w.brk, v.heap, g.frame); shape = inr owner };
  holds = e;
  status = w.status ∙ g.status ∙ fine;
  frame = frame;
  place = ground (arith, g.place, w.buf, w.cap);
  live = ground (arith, g.live, w.live, w.cap);
}
  where
    owner : IsOwner h2 s2
    owner = ground (arith, w.size s1.buf, w.nul, g.fits)

    frame : Frame h s h2
    frame = record {
      mono = omega (arith, g.frame.mono, w.brk);
      top = omega (arith, g.frame.top, w.brk);
      kept = λ a l ap. ground (arith, g.frame.kept a l ap, w.outside a, g.place);
      sizes = λ p l ne. w.size p ∙ g.frame.sizes p l ne;
    }
