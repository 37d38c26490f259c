-- ===== src/Str/Edit/Gap.antt =====
-- str_remove of agenc-str/src/str.c against lists of bytes.
use agenc_c.Base.{
  ℕ, zero, suc, ◌+◌, ◌-◌, ◌≤◌, ◌<◌, ◌≡◌, refl, sym, ap, ap₂, ◌∙◌, inl, inr, arith, List, ◌++◌,
  ne→==, take, drop, take-append-drop,
}
use native.Mathlib.Nat.{add-zero}
use agenc_c.Memory.{Heap, poke, memmove}
use agenc_c.Memory.Bytes.{bytes, bytes_ext, bytes-add, take-bytes, drop-bytes}
use agenc_c.Str.Types.{Status, ok, err_range, Str, Run}
use agenc_c.Str.Size.{validate_span}
use agenc_c.Str.Size.Bounds.{validate_span-ok}
use agenc_c.Str.Source.{set_failure}
use agenc_c.Str.Buffer.Grow.{Grown-refl}
use agenc_c.Str.Valid.{IsValid, IsOwner, Updated, content}
use agenc_c.Str.Write.{updated}
use agenc_c.Str.Write.Written.{Written, Written-Updated}
use agenc_c.Str.Write.Append.{Updated-refl}
use agenc_c.Str.Edit.{close_gap, remove_valid}

module _ (h : Heap) (s : Str) (idx n : ℕ) (v : IsOwner h s) (inside : idx + n ≤ s.len) where
  close_gap-Written : Written h s (close_gap h s idx n).0 (close_gap h s idx n).1
  unfolding close_gap poke memmove
  close_gap-Written = ground arith

  close_gap-content :
      content (close_gap h s idx n).0 (close_gap h s idx n).1
      ≡ take idx (content h s) ++ drop (idx + n) (content h s)
  unfolding close_gap poke memmove
  close_gap-content =
      ap (bytes _ s.buf) {y = idx + (s.len - (idx + n))} (omega arith)
      ∙ bytes-add _ s.buf idx (s.len - (idx + n))
      ∙ ap₂ ◌++◌
          (bytes_ext _ h.byte s.buf s.buf idx (λ i l. ground arith)
            ∙ sym (take-bytes h.byte s.buf s.len idx (omega arith)))
          (bytes_ext _ h.byte (s.buf + idx) (s.buf + (idx + n)) (s.len - (idx + n))
              (λ i l. ground arith)
            ∙ sym (drop-bytes h.byte s.buf s.len (idx + n) inside))

-- An update in the string's own buffer: it cannot fail and makes no request.
abbrev pub Sets : Heap → Str → List ℕ → Run Status → Type 0
Sets h s text (h', s', status) =
    (status ≡ ok)
    × Updated h s text h' s'
    × (h'.tries ≡ h.tries)
    × (h'.brk ≡ h.brk)
    × (h'.live ≡ h.live)
    × (s'.buf ≡ s.buf)
    × (s'.cap ≡ s.cap)

pub close_gap-Updated :
    (h : Heap) (s : Str) (idx n : ℕ)
    → IsValid h s
    → s.status ≡ ok
    → 0 < n
    → idx + n ≤ s.len
    → Updated h s
        (take idx (content h s) ++ drop (idx + n) (content h s))
        (close_gap h s idx n).0
        (close_gap h s idx n).1
close_gap-Updated h s idx n v fine pos l = elim v.shape [
  | inl u ↦ absurd (omega (arith, u.no_len))
  | inr o ↦
      Written-Updated h s 0 h s (close_gap h s idx n).0 (close_gap h s idx n).1 _ fine
        (Grown-refl h s 0 v.heap o (omega arith)) (close_gap-Written h s idx n o l) v
        (close_gap-content h s idx n o l)
]

-- The shift of the tail leaves all but the bytes and the length alone.
close_gap_kept :
    (h : Heap) (s : Str) (idx n : ℕ)
    → let r = close_gap h s idx n in
      (r.0.tries ≡ h.tries)
      × (r.0.brk ≡ h.brk)
      × (r.0.live ≡ h.live)
      × (r.1.buf ≡ s.buf)
      × (r.1.cap ≡ s.cap)
unfolding close_gap poke memmove
close_gap_kept h s idx n = ground arith

close_gap-Sets :
    (h : Heap) (s : Str) (idx n : ℕ)
    → IsValid h s
    → s.status ≡ ok
    → 0 < n
    → idx + n ≤ s.len
    → Sets h s
        (take idx (content h s) ++ drop (idx + n) (content h s))
        (updated (close_gap h s idx n))
close_gap-Sets h s idx n v fine pos l =
    let k = close_gap_kept h s idx n in
    (refl, close_gap-Updated h s idx n v fine pos l, k.0, k.1, k.2, k.3, k.4)

remove_valid-pos :
    (h : Heap) (s : Str) (idx n : ℕ)
    → idx + suc n ≤ s.len
    → remove_valid h s idx (suc n) ≡ updated (close_gap h s idx (suc n))
unfolding remove_valid
remove_valid-pos h s idx n l = rw (
  remove_valid,
  (validate_span-ok s.len idx (suc n)).1 (omega arith),
  ne→== (suc n) 0 (omega arith),
)

remove_valid-zero :
    (h : Heap) (s : Str) (idx : ℕ) → idx ≤ s.len → remove_valid h s idx 0 ≡ (h, s, ok)
unfolding remove_valid
remove_valid-zero h s idx l = rw (remove_valid, (validate_span-ok s.len idx 0).1 (omega arith))

-- On a valid string without a sticky status, with `idx + n <= len`, the removal succeeds and
-- cuts the bytes from `idx` to `idx + n` out of the content; it makes no request, the string
-- keeps its buffer and capacity, and as many blocks are live as before.
pub remove_valid-Sets :
    (h : Heap) (s : Str) (idx n : ℕ)
    → IsValid h s
    → s.status ≡ ok
    → idx + n ≤ s.len
    → Sets h s (take idx (content h s) ++ drop (idx + n) (content h s)) (remove_valid h s idx n)
remove_valid-Sets h s idx zero v fine l =
    rw (remove_valid-zero h s idx (omega arith), add-zero, take-append-drop)
      (refl, Updated-refl h s v fine, refl, refl, refl, refl, refl)
remove_valid-Sets h s idx (suc n) v fine l =
    rw (remove_valid-pos h s idx n l) (close_gap-Sets h s idx (suc n) v fine (omega arith) l)

-- A span that leaves the content is refused with STR_ERR_RANGE, recorded on the string.
pub remove_valid-range :
    (h : Heap) (s : Str) (idx n : ℕ)
    → s.len < idx + n
    → remove_valid h s idx n ≡ (h, set_failure s err_range, err_range)
unfolding remove_valid validate_span
remove_valid-range h s idx n l = ground arith
