-- ===== src/Str/Separate.antt =====
-- Independent strings: what an operation on one string leaves of every other.
use agenc_c.Base.{ℕ, ◌+◌, ◌≤◌, ◌<◌, ◌≡◌, ◌≢◌, ◌⊎◌, inl, inr, arith, List}
use agenc_c.Memory.{Heap}
use agenc_c.Memory.Bytes.{bytes_ext}
use agenc_c.Str.Types.{Str}
use agenc_c.Str.Valid.{IsValid, IsUnowned, IsOwner, Frame, Updated, Apart, content}

-- The allocations of two strings do not meet.
abbrev pub Separate : Str → Str → Type 0
Separate s t = (s.cap ≡ 0) ⊎ (t.cap ≡ 0) ⊎ (s.buf + s.cap ≤ t.buf) ⊎ (t.buf + t.cap ≤ s.buf)

-- A string that an operation on another left alone.
pub record Intact (h : Heap) (t : Str) (h' : Heap) : Type 0 where
  pub valid : IsValid h' t
  pub same : content h' t ≡ content h t

module _ (h : Heap) (s : Str) (h' : Heap) (t : Str) (vs : IsValid h s) (f : Frame h s h') where
  -- The bytes of an owner lie apart from a separate string, and start elsewhere.
  owner-Apart :
      IsOwner h t → Separate s t → (i : ℕ) → i < t.cap → Apart s (t.buf + i) × (t.buf ≢ s.buf)
  owner-Apart o sep i l = ground (arith, vs.shape)

  owner_Intact : IsOwner h t → Separate s t → Intact h t h'
  owner_Intact o sep = record {
    valid = record {
      heap = omega (arith, f, vs.heap);
      shape =
          inr (
            ground (arith, f.sizes t.buf, f.kept (t.buf + t.len), owner-Apart o sep t.len, f.mono));
    };
    same =
        bytes_ext h'.byte h.byte t.buf t.buf t.len
          (λ i l. f.kept (t.buf + i) (omega (arith, o)) (owner-Apart o sep i (omega (arith, o))).0);
  }

  unowned_Intact : IsUnowned t → Intact h t h'
  unowned_Intact u = record {
    valid = record { heap = omega (arith, f, vs.heap); shape = inl u };
    same = bytes_ext h'.byte h.byte t.buf t.buf t.len (λ i l. absurd (omega (arith, u)));
  }

  -- What an operation frames, it leaves of every separate valid string.
  pub Frame-Intact : IsValid h t → Separate s t → Intact h t h'
  Frame-Intact v sep = elim v.shape [ inl u ↦ unowned_Intact u | inr o ↦ owner_Intact o sep ]

-- An updated string stays separate from every string that it was separate from.
pub Updated-Separate :
    (h : Heap) (s : Str) (text : List ℕ) (h' : Heap) (s' t : Str)
    → Updated h s text h' s'
    → IsValid h t
    → Separate s t
    → Separate s' t
Updated-Separate h s text h' s' t u v sep = ground (arith, u.place, v.shape)
