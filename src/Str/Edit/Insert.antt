-- ===== src/Str/Edit/Insert.antt =====
-- str_insert_n of agenc-str/src/str.c against lists of bytes.
use agenc_c.Base.{
  ℕ, ◌+◌, ◌-◌, ◌≤◌, ◌<◌, ◌≡◌, refl, sym, ap, ap₂, ◌∙◌, inl, inr, arith, ◌++◌, size_max, ne→==, take,
  drop, true, false,
}
use native.Mathlib.Decide.{dec_le}
use agenc_c.Memory.{Heap, poke, memmove}
use agenc_c.Memory.Bytes.{bytes, bytes_ext, bytes-add_three, take-bytes, drop-bytes}
use agenc_c.Str.Types.{Status, ok, err_overflow, Str, Result, done, failed, Run, Overlap}
use agenc_c.Str.Size.{calculate_capacity}
use agenc_c.Str.Size.Bounds.{validate_span-ok}
use agenc_c.Str.Source.{detect_overlap}
use agenc_c.Str.Source.Overlaps.{detect_overlap-inside, detect_overlap-outside}
use agenc_c.Str.Buffer.{ensure_capacity}
use agenc_c.Str.Buffer.Grow.{Grown, IsOwner-of_cap, ensure_capacity-Grows}
use agenc_c.Str.Valid.{IsValid, IsSource, Mutates, content}
use agenc_c.Str.Write.{recorded, resolved, rebased}
use agenc_c.Str.Write.Prepare.{
  Prepares, Grown-Prepares, Quiet-refl, calculate_capacity-fits, calculate_capacity-big,
}
use agenc_c.Str.Write.Written.{Written, Written-Updated}
use agenc_c.Str.Write.Append.{Records-Mutates}
use agenc_c.Str.Edit.{adjusted, prepare_insert, commit_insert, inserted, insert_valid, open_gap}

module _ (h : Heap) (s : Str) (idx p n : ℕ) (pos : 0 < n) (v : IsValid h s)
    (at_idx : idx ≤ s.len) where
  -- Once the gap is open the source bytes stand at `ready`.
  abbrev Opens : Heap → Str → ℕ → Type 0
  Opens h' s' ready = (i : ℕ) → i < n → (open_gap h' s' idx n).byte (ready + i) ≡ h.byte (p + i)

  detect_overlap-Opens :
      IsSource h s p n
      → (o : Overlap) × (detect_overlap s p n ≡ done o)
        × ((h' : Heap) (s' : Str)
            → Grown h s (s.len + n + 1) h' s'
            → Opens h' s' (rebased s' (adjusted o idx n) p))
  unfolding memmove
  detect_overlap-Opens (inl out) = (
    record { is_inside = false; idx = 0 },
    detect_overlap-outside h s p n v out pos,
    λ h' s' g i l.
        ground (arith, g.frame.kept (p + i), out.apart, out.readable, g.place, g.reaches, g.len),
  )
  detect_overlap-Opens (inr inn) = (
    record { is_inside = true; idx = p - s.buf },
    detect_overlap-inside h s p n v inn pos,
    λ h' s' g i l. ground (arith, g.text (p - s.buf + i), g.len, IsOwner-of_cap h s v inn.owned),
  )

  commit_insert-Written :
      (h' : Heap) (s' : Str) (q : ℕ)
      → s'.len ≡ s.len
      → s.len + n + 1 ≤ s'.cap
      → Written h' s' (commit_insert h' s' idx q n).0 (commit_insert h' s' idx q n).1
  unfolding commit_insert poke memmove
  commit_insert-Written h' s' q e l = ground arith

  commit_insert-content :
      (h' : Heap) (s' : Str) (q : ℕ)
      → s'.len ≡ s.len
      → Opens h' s' q
      → content (commit_insert h' s' idx q n).0 (commit_insert h' s' idx q n).1
        ≡ bytes h'.byte s'.buf idx
          ++ (bytes h.byte p n ++ bytes h'.byte (s'.buf + idx) (s.len - idx))
  unfolding commit_insert poke memmove
  commit_insert-content h' s' q e opens =
      ap (bytes _ s'.buf) {y = idx + n + (s.len - idx)} (omega arith)
      ∙ bytes-add_three _ s'.buf idx n (s.len - idx)
      ∙ ap₂ ◌++◌ (bytes_ext _ h'.byte s'.buf s'.buf idx (λ i l. ground arith)) (
          ap₂ ◌++◌ (bytes_ext _ h.byte (s'.buf + idx) p n (λ i l. ground (arith, opens i))) (
            bytes_ext _ h'.byte (s'.buf + idx + n) (s'.buf + idx) (s.len - idx)
              (λ i l. ground arith)))

  Opens-content :
      (h' : Heap) (s' : Str) (q : ℕ)
      → Grown h s (s.len + n + 1) h' s'
      → Opens h' s' q
      → content (commit_insert h' s' idx q n).0 (commit_insert h' s' idx q n).1
        ≡ take idx (content h s) ++ (bytes h.byte p n ++ drop idx (content h s))
  Opens-content h' s' q g opens =
      commit_insert-content h' s' q g.len opens
      ∙ ap₂ (λ t d. t ++ (bytes h.byte p n ++ d))
          (bytes_ext h'.byte h.byte s'.buf s.buf idx (λ i l. g.text i (ground (arith, v.shape)))
            ∙ sym (take-bytes h.byte s.buf s.len idx at_idx))
          (bytes_ext h'.byte h.byte (s'.buf + idx) (s.buf + idx) (s.len - idx)
              (λ i l. ground (arith, g.text (idx + i), v.shape))
            ∙ sym (drop-bytes h.byte s.buf s.len idx at_idx))

  inserted-Mutates :
      s.status ≡ ok
      → (r : Run (Result ℕ)) → Prepares h s (s.len + n + 1) Opens r
      → Mutates h s
          (take idx (content h s) ++ (bytes h.byte p n ++ drop idx (content h s)))
          (inserted idx n r)
  inserted-Mutates fine (h', s', failed e) r = Records-Mutates h s _ e h' s' r
  inserted-Mutates fine (h', s', done q) (g, opens) =
      Written-Updated h s (s.len + n + 1) h' s' (commit_insert h' s' idx q n).0
        (commit_insert h' s' idx q n).1 _ fine g (commit_insert-Written h' s' q g.len g.reaches) v
        (Opens-content h' s' q g opens)

prepare_insert-overflow :
    (h : Heap) (s : Str) (idx p n : ℕ) (e : Status)
    → calculate_capacity s.len n ≡ failed e
    → prepare_insert h s idx p n ≡ (h, s, failed e)
unfolding prepare_insert
prepare_insert-overflow h s idx p n e c = rw (c, prepare_insert)

pub prepare_insert-room :
    (h : Heap) (s : Str) (idx p n need : ℕ) (o : Overlap)
    → calculate_capacity s.len n ≡ done need
    → detect_overlap s p n ≡ done o
    → prepare_insert h s idx p n ≡ resolved (adjusted o idx n) p (ensure_capacity h s need)
unfolding prepare_insert
prepare_insert-room h s idx p n need o c d = rw (c, prepare_insert, d)

prepare_insert-Prepares :
    (h : Heap) (s : Str) (idx p n : ℕ) (pos : 0 < n) (v : IsValid h s) (at_idx : idx ≤ s.len)
    → IsSource h s p n
    → n ≤ size_max
    → Prepares h s
        (s.len + n + 1)
        (Opens h s idx p n pos v at_idx)
        (recorded (prepare_insert h s idx p n))
prepare_insert-Prepares h s idx p n pos v at_idx source small =
    elim (dec_le (s.len + n + 1) size_max) [
      | no big ↦
          rw
            (prepare_insert-overflow h s idx p n err_overflow
              (calculate_capacity-big s.len n small (omega arith)))
            (record { quiet = Quiet-refl h; string = refl })
      | yes fits ↦
          (let (o, e, opens) = detect_overlap-Opens h s idx p n pos v at_idx source in
            rw
              (prepare_insert-room h s idx p n (s.len + n + 1) o
                (calculate_capacity-fits s.len n fits) e)
              (Grown-Prepares h s p (s.len + n + 1) (adjusted o idx n)
                (Opens h s idx p n pos v at_idx) opens (ensure_capacity h s (s.len + n + 1))
                (ensure_capacity-Grows h s (s.len + n + 1) v (omega arith) fits)))
    ]

insert_valid-range :
    (h : Heap) (s : Str) (idx p n : ℕ)
    → 0 < n
    → idx ≤ s.len
    → insert_valid h s idx p n ≡ inserted idx n (recorded (prepare_insert h s idx p n))
unfolding insert_valid
insert_valid-range h s idx p n pos l =
    rw (insert_valid, (validate_span-ok s.len idx 0).1 (omega arith), ne→== n 0 (omega arith))

-- Inserting `n` good source bytes at `idx`: they stand between the first `idx` bytes and the
-- rest, with the values that they had before the call, also where the source lies in the string
-- itself and the insertion point inside the source; or STR_ERR_ALLOC or STR_ERR_OVERFLOW is
-- recorded and nothing else changes.
pub insert_valid-Mutates :
    (h : Heap) (s : Str) (idx p n : ℕ)
    → IsValid h s
    → s.status ≡ ok
    → idx ≤ s.len
    → 0 < n
    → n ≤ size_max
    → IsSource h s p n
    → Mutates h s
        (take idx (content h s) ++ (bytes h.byte p n ++ drop idx (content h s)))
        (insert_valid h s idx p n)
insert_valid-Mutates h s idx p n v fine at_idx pos small source =
    rw (insert_valid-range h s idx p n pos at_idx) (
      inserted-Mutates h s idx p n pos v at_idx fine (recorded (prepare_insert h s idx p n))
        (prepare_insert-Prepares h s idx p n pos v at_idx source small))
