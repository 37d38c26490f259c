-- ===== src/Str/Replace/Commit.antt =====
-- The commit of str_replace_view in agenc-str/src/str.c against lists of bytes.
use agenc_c.Base.{
  ℕ, ◌+◌, ◌-◌, ◌≤◌, ◌<◌, ◌≡◌, ◌⊎◌, sym, ap, ap₂, ◌∙◌, arith, ◌++◌, take, drop, if◌then◌else◌,
}
use agenc_c.Memory.{Heap, poke, memmove, within}
use native.Mathlib.Decide.{ℕ_discrete}
use agenc_c.Str.Write.{move_bytes, write_terminator}
use agenc_c.Memory.Bytes.{bytes, bytes_ext, bytes-add_three, take-bytes, drop-bytes}
use agenc_c.Str.Types.{Str}
use agenc_c.Str.Valid.{IsValid, content}
use agenc_c.Str.Buffer.Grow.{Grown}
use agenc_c.Str.Write.Written.{Written}
use agenc_c.Str.Write.Prepare.{Reads}
use agenc_c.Str.Replace.{commit_replacement, write_content}

-- `n` bytes at `q` that do not meet the allocation of a string.
abbrev pub Clear : Str → ℕ → ℕ → Type 0
Clear s q n = (n ≡ 0) ⊎ (q + n ≤ s.buf) ⊎ (s.buf + s.cap ≤ q)

move_bytes-byte :
    (h : Heap) (d q n a : ℕ)
    → (move_bytes h d q n).byte a ≡ (if within d n a then h.byte (q + (a - d)) else h.byte a)
unfolding memmove
move_bytes-byte h d q n a = elim (ℕ_discrete n 0) [ yes e ↦ ground arith | no ne ↦ ground arith ]

module _ (h : Heap) (s : Str) (idx k p n : ℕ) (inside : idx + k ≤ s.len) where
  pub commit_replacement-Written :
      (h' : Heap) (s' : Str) (q : ℕ)
      → s'.len ≡ s.len
      → s.len - k + n + 1 ≤ s'.cap
      → Written h' s'
          (commit_replacement h' s' idx k (record { ptr = q; len = n })).0
          (commit_replacement h' s' idx k (record { ptr = q; len = n })).1
  unfolding commit_replacement poke memmove
  commit_replacement-Written h' s' q e l = ground arith

  commit_replacement-bytes :
      (h' : Heap) (s' : Str) (q : ℕ)
      → s'.len ≡ s.len
      → s.len - k + n + 1 ≤ s'.cap
      → Clear s' q n
      → Reads h p n h' q
      → content
          (commit_replacement h' s' idx k (record { ptr = q; len = n })).0
          (commit_replacement h' s' idx k (record { ptr = q; len = n })).1
        ≡ bytes h'.byte s'.buf idx
          ++ (bytes h.byte p n ++ bytes h'.byte (s'.buf + (idx + k)) (s.len - (idx + k)))
  unfolding commit_replacement poke memmove
  commit_replacement-bytes h' s' q e l clear reads =
      ap (bytes _ s'.buf) {y = idx + n + (s.len - (idx + k))} (omega arith)
      ∙ bytes-add_three _ s'.buf idx n (s.len - (idx + k))
      ∙ ap₂ ◌++◌ (bytes_ext _ h'.byte s'.buf s'.buf idx (λ i l. ground arith)) (
          ap₂ ◌++◌ (bytes_ext _ h.byte (s'.buf + idx) p n (λ i l. middle i l)) (
            bytes_ext _ h'.byte (s'.buf + idx + n) (s'.buf + (idx + k)) (s.len - (idx + k))
              (λ i l. ground arith)))
    where
      h1 : Heap
      h1 = move_bytes h' (s'.buf + idx + n) (s'.buf + (idx + k)) (s'.len - (idx + k) + 1)

      middle :
          (i : ℕ)
          → i < n
          → (commit_replacement h' s' idx k (record { ptr = q; len = n })).0.byte (s'.buf + idx + i)
            ≡ h.byte (p + i)
      middle i b =
          rw (commit_replacement, write_terminator, move_bytes-byte h1 (s'.buf + idx) q n)
            (ground (arith, reads i))

  pub commit_replacement-content :
      (h1 h' : Heap) (s' : Str) (q need : ℕ)
      → IsValid h1 s
      → Grown h1 s need h' s'
      → s.len - k + n + 1 ≤ need
      → Clear s' q n
      → Reads h p n h' q
      → content
          (commit_replacement h' s' idx k (record { ptr = q; len = n })).0
          (commit_replacement h' s' idx k (record { ptr = q; len = n })).1
        ≡ take idx (content h1 s) ++ (bytes h.byte p n ++ drop (idx + k) (content h1 s))
  commit_replacement-content h1 h' s' q need v g l clear reads =
      commit_replacement-bytes h' s' q g.len (omega (arith, g.reaches)) clear reads
      ∙ ap₂ (λ t d. t ++ (bytes h.byte p n ++ d))
          (bytes_ext h'.byte h1.byte s'.buf s.buf idx (λ i l. g.text i (ground (arith, v.shape)))
            ∙ sym (take-bytes h1.byte s.buf s.len idx (omega arith)))
          (bytes_ext h'.byte h1.byte (s'.buf + (idx + k)) (s.buf + (idx + k)) (s.len - (idx + k))
              (λ i l. ground (arith, g.text (idx + k + i), v.shape))
            ∙ sym (drop-bytes h1.byte s.buf s.len (idx + k) inside))

  -- The span has the length of the replacement: one move inside the content.
  module _ (same : k ≡ n) (v : IsValid h s) where
    pub write_content-content :
        content (write_content h s idx p n) s
        ≡ take idx (content h s) ++ (bytes h.byte p n ++ drop (idx + k) (content h s))
    unfolding write_content poke memmove
    write_content-content =
        ap (bytes _ s.buf) {y = idx + n + (s.len - (idx + k))} (omega arith)
        ∙ bytes-add_three _ s.buf idx n (s.len - (idx + k))
        ∙ ap₂ ◌++◌
            (bytes_ext _ h.byte s.buf s.buf idx (λ i l. ground arith)
              ∙ sym (take-bytes h.byte s.buf s.len idx (omega arith)))
            (ap₂ ◌++◌ (bytes_ext _ h.byte (s.buf + idx) p n (λ i l. ground arith)) (
              bytes_ext _ h.byte (s.buf + idx + n) (s.buf + (idx + k)) (s.len - (idx + k))
                (λ i l. ground arith)
              ∙ sym (drop-bytes h.byte s.buf s.len (idx + k) inside)))

    pub write_content-Written : 0 < n → Written h s (write_content h s idx p n) s
    unfolding write_content poke memmove
    write_content-Written pos = ground (arith, v.shape)
