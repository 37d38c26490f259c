-- ===== src/Str/Lend.antt =====
-- A block that a call of agenc-str/src/str.c allocates and releases again before it returns: the
-- staged copy of str_replace_view, and the rendered text of str_append_vfmt.
use agenc_c.Base.{
  ℕ, ◌+◌, ◌≤◌, ◌<◌, ◌≡◌, ◌≢◌, ◌⊎◌, inl, inr, refl, ap, ◌∙◌, arith, List, size_max, ne→==,
}
use agenc_c.Memory.{Heap, free}
use agenc_c.Memory.Bytes.{bytes_ext}
use agenc_c.Str.Types.{Str}
use agenc_c.Str.Valid.{IsValid, Quiet, Frame, Updated, content, blocks}
use agenc_c.Str.Buffer.{release_heap}

-- `owner` is a new block of `n` bytes above all memory of `h`, or 0 if there is none.
abbrev pub Holds : Heap → ℕ → Heap → ℕ → Type 0
Holds h n h1 owner =
    ((owner ≡ 0) × (h1.live ≡ h.live))
    ⊎ ((h.brk ≤ owner)
        × (owner + n ≤ h1.brk)
        × (h1.size owner ≡ n)
        × (0 < n)
        × (h1.live ≡ h.live + 1))

-- All memory below `brk` is as it was, and no block is left over.
pub record Spared (h h' : Heap) : Type 0 where
  pub mono : h.brk ≤ h'.brk
  pub top : h'.brk ≤ size_max
  pub kept : (a : ℕ) → a < h.brk → h'.byte a ≡ h.byte a
  pub sizes : (a : ℕ) → a < h.brk → h'.size a ≡ h.size a
  pub live : h'.live ≡ h.live

-- After the loan older memory is as before.
pub record IsLent (h : Heap) (n : ℕ) (h1 : Heap) (owner : ℕ) : Type 0 where
  pub mono : h.brk ≤ h1.brk
  pub top : h1.brk ≤ size_max
  pub kept : (a : ℕ) → a < h.brk → h1.byte a ≡ h.byte a
  pub sizes : (a : ℕ) → a < h.brk → h1.size a ≡ h.size a
  pub holds : Holds h n h1 owner

pub Quiet-Spared : (h h' : Heap) → h.brk ≤ size_max → Quiet h h' → Spared h h'
Quiet-Spared h h' l r = record {
  mono = omega (arith, r.brk);
  top = omega (arith, r.brk);
  kept = λ a b. rw r.byte refl;
  sizes = λ a b. rw r.size refl;
  live = r.live;
}

module _ (h : Heap) (s : Str) (n : ℕ) (v : IsValid h s) (h1 : Heap) (owner : ℕ)
    (st : IsLent h n h1 owner) where
  pub lent-IsValid : IsValid h1 s
  lent-IsValid = record {
    heap = omega (arith, st.mono, st.top, v.heap);
    shape = elim v.shape [
      | inl u ↦ inl u
      | inr o ↦ inr (ground (arith, o, st.sizes s.buf, st.kept (s.buf + s.len), st.mono))
    ];
  }

  pub lent-content : content h1 s ≡ content h s
  lent-content =
      bytes_ext h1.byte h.byte s.buf s.buf s.len
        (λ i l. st.kept (s.buf + i) (ground (arith, v.shape)))

  -- The lent block keeps its size and lies apart from the string's buffer.
  block_size :
      (text : List ℕ) (h3 : Heap) (s3 : Str)
      → Updated h1 s text h3 s3
      → owner ≢ 0
      → h3.size owner ≡ n
  block_size text h3 s3 u ne = ground (arith, st.holds, u.frame.sizes owner, v.shape, v.heap)

  block_apart :
      (text : List ℕ) (h3 : Heap) (s3 : Str)
      → Updated h1 s text h3 s3
      → owner ≢ 0
      → (owner + n ≤ s3.buf) ⊎ (s3.buf + s3.cap ≤ owner)
  block_apart text h3 s3 u ne = ground (arith, st.holds, u.place, v.shape, v.heap)

  -- A string that owned a block still owns one.
  blocks_le :
      (text : List ℕ) (h3 : Heap) (s3 : Str) → Updated h1 s text h3 s3 → blocks s ≤ blocks s3
  blocks_le text h3 s3 u = ground (arith, u.place, u.valid.shape, st.mono, v.heap)

  -- The frame and the place of the same update, counted from before the loan.
  unlent-Frame : (text : List ℕ) (h3 : Heap) (s3 : Str) → Updated h1 s text h3 s3 → Frame h s h3
  unlent-Frame text h3 s3 u = record {
    mono = omega (arith, st.mono, u.frame.mono);
    top = u.frame.top;
    kept = λ a l ap. u.frame.kept a (omega (arith, st.mono)) ap ∙ st.kept a l;
    sizes = λ a l ne. u.frame.sizes a (omega (arith, st.mono)) ne ∙ st.sizes a l;
  }

  unlent_place :
      (text : List ℕ) (h3 : Heap) (s3 : Str)
      → Updated h1 s text h3 s3
      → (h.brk ≤ s3.buf) ⊎ ((s3.buf ≡ s.buf) × (s3.cap ≡ s.cap))
  unlent_place text h3 s3 u = ground (arith, st.mono, u.place)

  -- Without a loan the update is the same.
  unlent-Updated :
      (text : List ℕ) (h3 : Heap) (s3 : Str)
      → Updated h1 s text h3 s3
      → owner ≡ 0
      → Updated h s text h3 s3
  unlent-Updated text h3 s3 u e = record {
    valid = u.valid;
    holds = u.holds;
    status = u.status;
    frame = unlent-Frame text h3 s3 u;
    place = unlent_place text h3 s3 u;
    live = u.live ∙ ap (λ k. k + blocks s3) (ground (arith, st.holds, v.heap));
  }

  -- The release takes the lent block off the live ones.
  released_live :
      (text : List ℕ) (h3 : Heap) (s3 : Str)
      → Updated h1 s text h3 s3
      → owner ≢ 0
      → (release_heap h3 owner).live + blocks s ≡ h.live + blocks s3
  unfolding free
  released_live text h3 s3 u ne =
      let lent : h1.live ≡ h.live + 1 = ground (arith, st.holds) in
      let kept : blocks s ≤ blocks s3 = blocks_le text h3 s3 u in
      rw (ne→== owner 0 ne) (omega (arith, u.live, lent, kept))

  pub release-Updated :
      (text : List ℕ) (h3 : Heap) (s3 : Str)
      → Updated h1 s text h3 s3
      → Dec (owner ≡ 0)
      → Updated h s text (release_heap h3 owner) s3
  unfolding free
  release-Updated text h3 s3 u (yes e) =
      rw (ap (λ o. release_heap h3 o) e) (unlent-Updated text h3 s3 u e)
  release-Updated text h3 s3 u (no ne) =
      let f = unlent-Frame text h3 s3 u in
      let size = block_size text h3 s3 u ne in
      let apart = block_apart text h3 s3 u ne in
      record {
        valid = record {
          heap = ground (arith, u.valid.heap);
          shape = ground (arith, u.valid.shape, size, apart, st.holds);
        };
        holds =
            bytes_ext _ h3.byte s3.buf s3.buf s3.len
              (λ i l. ground (arith, u.valid.shape, size, apart))
            ∙ u.holds;
        status = u.status;
        frame = record {
          mono = ground (arith, f.mono);
          top = ground (arith, f.top);
          kept = λ a l ap. ground (arith, f.kept a l ap, st.holds, size);
          sizes = λ a l k. ground (arith, f.sizes a l k, st.holds);
        };
        place = unlent_place text h3 s3 u;
        live = released_live text h3 s3 u ne;
      }

  pub release-Spared : (h2 : Heap) → Spared h1 h2 → Spared h (release_heap h2 owner)
  unfolding free
  release-Spared h2 r = ground (arith, st.holds, st.mono)
