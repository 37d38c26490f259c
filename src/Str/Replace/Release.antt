-- ===== src/Str/Replace/Release.antt =====
-- The end of str_replace_view in agenc-str/src/str.c: staged storage is released on both ways out.
use agenc_c.Base.{ℕ, ◌+◌, ◌-◌, ◌≤◌, ◌≡◌, ◌∙◌, arith, List, ◌++◌, take, drop}
use native.Mathlib.Decide.{ℕ_discrete}
use agenc_c.Memory.{Heap}
use agenc_c.Memory.Bytes.{bytes}
use agenc_c.Str.Types.{
  Status, ok, err_alloc, err_arg, err_range, err_overflow, err_fmt, Str, View, Run,
}
use agenc_c.Str.Valid.{IsValid, Updated, content}
use agenc_c.Str.Buffer.Grow.{Grown, Grows}
use agenc_c.Str.Write.Written.{Written-Updated}
use agenc_c.Str.Write.Prepare.{Reads}
use agenc_c.Str.Replace.{committed, commit_replacement}
use agenc_c.Str.Replace.Commit.{Clear, commit_replacement-Written, commit_replacement-content}
use agenc_c.Str.Replace.Stage.{IsStaged}
use agenc_c.Str.Lend.{
  IsLent, Spared, Quiet-Spared, lent-IsValid, lent-content, release-Updated, release-Spared,
}

-- The outcomes of a replacement before its status is recorded.
abbrev pub Applies : Heap → Str → List ℕ → Run Status → Type 0
Applies h s text (h', s', ok) = Updated h s text h' s'
Applies h s text (h', s', err_alloc) = Spared h h' × (s' ≡ s)
Applies h s text (h', s', err_overflow) = Spared h h' × (s' ≡ s)
Applies h s text (h', s', err_arg) = ⊥
Applies h s text (h', s', err_range) = ⊥
Applies h s text (h', s', err_fmt) = ⊥

module _ (h : Heap) (s : Str) (p n : ℕ) (v : IsValid h s) (h1 : Heap) (q owner : ℕ)
    (st : IsStaged h s p n h1 q owner) where
  staged-IsLent : IsLent h n h1 owner
  staged-IsLent = record {
    mono = st.mono;
    top = st.top;
    kept = st.kept;
    sizes = st.sizes;
    holds = st.holds;
  }

  pub staged-IsValid : IsValid h1 s
  staged-IsValid = lent-IsValid h s n v h1 owner staged-IsLent

  staged-content : content h1 s ≡ content h s
  staged-content = lent-content h s n v h1 owner staged-IsLent

  module _ (h2 : Heap) (s2 : Str) (need : ℕ) (g : Grown h1 s need h2 s2) where
    grown-Clear : Clear s2 q n
    grown-Clear = ground (arith, st.clear, st.below, g.place)

    grown-Reads : Reads h p n h2 q
    grown-Reads i l =
        g.frame.kept (q + i) (ground (arith, st.below)) (ground (arith, st.clear)) ∙ st.reads i l

  -- Growth and commit with the staged bytes, then the release.
  pub committed-Applies :
      (idx k : ℕ) (view : View)
      → view ≡ record { ptr = q; len = n }
      → idx + k ≤ s.len
      → s.status ≡ ok
      → (r : Run Status) → Grows h1 s (s.len - k + n + 1) r
      → Applies h s
          (take idx (content h s) ++ (bytes h.byte p n ++ drop (idx + k) (content h s)))
          (committed idx k (record { view = view; owned_buf = owner }) r)
  committed-Applies idx k view e inside fine (h2, s2, ok) g =
      rw (e, ← staged-content)
        (release-Updated h s n v h1 owner staged-IsLent _ _ _
          (Written-Updated h1 s (s.len - k + n + 1) h2 s2
            (commit_replacement h2 s2 idx k (record { ptr = q; len = n })).0
            (commit_replacement h2 s2 idx k (record { ptr = q; len = n })).1 _ fine g
            (commit_replacement-Written h s idx k p n inside h2 s2 q g.len g.reaches) staged-IsValid
            (commit_replacement-content h s idx k p n inside h1 h2 s2 q (s.len - k + n + 1)
              staged-IsValid g (omega arith) (grown-Clear h2 s2 _ g) (grown-Reads h2 s2 _ g)))
          (ℕ_discrete owner 0))
  committed-Applies idx k view e inside fine (h2, s2, err_alloc) g = (
    release-Spared h s n v h1 owner staged-IsLent h2
        (Quiet-Spared h1 h2 (omega (arith, st.top)) g.quiet),
    g.string,
  )
  committed-Applies idx k view e inside fine (h2, s2, err_arg) g = absurd g
  committed-Applies idx k view e inside fine (h2, s2, err_range) g = absurd g
  committed-Applies idx k view e inside fine (h2, s2, err_overflow) g = absurd g
  committed-Applies idx k view e inside fine (h2, s2, err_fmt) g = absurd g
