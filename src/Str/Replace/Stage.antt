-- ===== src/Str/Replace/Stage.antt =====
-- The staged storage of str_replace_view in agenc-str/src/str.c: what it holds, and its release.
use agenc_c.Base.{ℕ, ◌+◌, ◌≤◌, ◌<◌, ◌≡◌, ◌≢◌, ◌⊎◌, inl, inr, refl, ap, arith, size_max, ne→==, ◌==◌}
use native.Mathlib.Decide.{ℕ_discrete}
use agenc_c.Memory.{Heap, memmove, malloc}
use agenc_c.Str.Types.{
  ok, err_alloc, err_arg, err_range, err_overflow, err_fmt, Str, View, Result, done, failed,
}
use agenc_c.Str.Source.Overlaps.{detect_overlap-outside, detect_overlap-inside}
use agenc_c.Str.Valid.{IsValid, IsSource, IsOutside, Quiet}
use agenc_c.Str.Buffer.{call_malloc}
use agenc_c.Str.Write.Prepare.{Reads}
use agenc_c.Str.Replace.{Staged, stage_replacement}
use agenc_c.Str.Replace.Commit.{Clear}
use agenc_c.Str.Lend.{Holds}

-- After staging, the replacement stands at `q`, clear of the string, and older memory is as before.
pub record IsStaged (h : Heap) (s : Str) (p n : ℕ) (h1 : Heap) (q owner : ℕ) : Type 0 where
  pub mono : h.brk ≤ h1.brk
  pub top : h1.brk ≤ size_max
  pub kept : (a : ℕ) → a < h.brk → h1.byte a ≡ h.byte a
  pub sizes : (a : ℕ) → a < h.brk → h1.size a ≡ h.size a
  pub reads : Reads h p n h1 q
  pub clear : Clear s q n
  pub below : (n ≡ 0) ⊎ (q + n ≤ h1.brk)
  pub holds : Holds h n h1 owner

abbrev pub Stages : Heap → Str → View → Heap × Result Staged → Type 0
Stages h s v (h1, done staged) =
    (staged.view.len ≡ v.len) × IsStaged h s v.ptr v.len h1 staged.view.ptr staged.owned_buf
Stages h s v (h1, failed err_alloc) = Quiet h h1
Stages h s v (h1, failed ok) = ⊥
Stages h s v (h1, failed err_arg) = ⊥
Stages h s v (h1, failed err_range) = ⊥
Stages h s v (h1, failed err_overflow) = ⊥
Stages h s v (h1, failed err_fmt) = ⊥

module _ (h : Heap) (s : Str) (p n : ℕ) (v : IsValid h s) where
  stage_none : n ≡ 0 → IsStaged h s p n h p 0
  stage_none e = ground (arith, v.heap)

  stage_outside : IsOutside h s p n → IsStaged h s p n h p 0
  stage_outside out = ground (arith, v.heap, out.apart)

pub stage_replacement-Stages :
    (h : Heap) (s : Str) (p n : ℕ)
    → IsValid h s
    → (n ≢ 0 → IsSource h s p n)
    → Stages h s (record { ptr = p; len = n }) (stage_replacement h s (record { ptr = p; len = n }))
unfolding stage_replacement call_malloc malloc memmove
stage_replacement-Stages h s p n v source = elim (ℕ_discrete n 0) [
  | yes e ↦ rw (stage_replacement, ap (λ k. k == 0) e) (refl, stage_none h s p n v e)
  | no ne ↦ elim (source ne) [
    | inl out ↦
        rw (ne→== n 0 ne, stage_replacement, detect_overlap-outside h s p n v out (omega arith))
          (refl, stage_outside h s p n v out)
    | inr inn ↦
        rw (ne→== n 0 ne, stage_replacement, detect_overlap-inside h s p n v inn (omega arith))
          (ground (arith, inn, v.shape, v.heap))
  ]
]
