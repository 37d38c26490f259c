-- ===== src/Str/Write/Append.antt =====
-- str_append, str_append_n and str_set, str_set_n of agenc-str/src/str.c against lists of bytes.
use agenc_c.Base.{
  ℕ, zero, suc, ◌+◌, ◌≤◌, ◌<◌, ◌≡◌, ◌≢◌, refl, ap, ap₂, ◌∙◌, inl, inr, arith, List, [], ◌++◌,
  append-nil, size_max, ne→==, le→leb,
}
use agenc_c.Memory.{Heap, poke, memmove}
use agenc_c.Memory.Bytes.{bytes, bytes_ext, bytes-add}
use agenc_c.Str.Types.{
  Status, ok, err_alloc, err_arg, err_range, err_overflow, err_fmt, Str, Result, done, failed, Run,
}
use agenc_c.Str.Buffer.{clear_content}
use agenc_c.Str.Buffer.Grow.{Grown, cap_le}
use agenc_c.Str.Valid.{IsHeap, IsValid, IsSource, Frame, Updated, Mutates, content}
use agenc_c.Str.Buffer.{ensure_capacity}
use agenc_c.Str.Write.{
  prepare_write, append_content, replace_content, prepare_valid_span, append_valid_span,
  set_valid_span, appended, replaced,
}
use agenc_c.Str.Write.Prepare.{
  Reads, Prepares, Records, prepare_valid_span-Prepares, detect_overlap-Reads,
  calculate_capacity-fits,
}
use agenc_c.Str.Write.Written.{Written, Written-Updated}

-- A growth keeps the content, and a good source its bytes.
pub Grown-content :
    (h : Heap) (s : Str) (need : ℕ) (h' : Heap) (s' : Str)
    → IsValid h s
    → Grown h s need h' s'
    → content h' s' ≡ content h s
Grown-content h s need h' s' v g =
    ap (bytes h'.byte s'.buf) g.len
    ∙ bytes_ext h'.byte h.byte s'.buf s.buf s.len (λ i l. g.text i (ground (arith, v.shape)))

pub Reads-bytes :
    (h : Heap) (p n : ℕ) (h' : Heap) (q : ℕ)
    → Reads h p n h' q
    → bytes h'.byte q n ≡ bytes h.byte p n
Reads-bytes h p n h' q r = bytes_ext h'.byte h.byte q p n r

module _ (h : Heap) (s : Str) (p n : ℕ) (pos : 0 < n) where
  append_content-Written :
      s.len + n < s.cap → Written h s (append_content h s p n).0 (append_content h s p n).1
  unfolding append_content poke memmove
  append_content-Written l = ground arith

  append_content-content :
      content (append_content h s p n).0 (append_content h s p n).1
      ≡ content h s ++ bytes h.byte p n
  unfolding append_content poke memmove
  append_content-content =
      bytes-add _ s.buf s.len n
      ∙ ap₂ ◌++◌ (bytes_ext _ h.byte s.buf s.buf s.len (λ i l. ground arith))
          (bytes_ext _ h.byte (s.buf + s.len) p n (λ i l. ground arith))

  replace_content-Written :
      n < s.cap → Written h s (replace_content h s p n).0 (replace_content h s p n).1
  unfolding replace_content poke memmove
  replace_content-Written l = ground arith

  replace_content-content :
      content (replace_content h s p n).0 (replace_content h s p n).1 ≡ bytes h.byte p n
  unfolding replace_content poke memmove
  replace_content-content = bytes_ext _ h.byte s.buf p n (λ i l. ground arith)

-- `str_clear_content` on a valid string: it stays valid and is empty.
pub clear_content-Updated :
    (h : Heap) (s : Str)
    → IsValid h s
    → s.status ≡ ok
    → Updated h s [] (clear_content h s).0 (clear_content h s).1
unfolding clear_content poke
clear_content-Updated h s v fine = elim v.shape [
  | inl u ↦ ground (arith, v.heap)
  | inr o ↦ ground (arith, v.heap)
]

Frame-refl : (h : Heap) (s : Str) → IsHeap h → Frame h s h
Frame-refl h s v = ground (arith, v)

pub Updated-refl :
    (h : Heap) (s : Str) → IsValid h s → s.status ≡ ok → Updated h s (content h s) h s
Updated-refl h s v fine = record {
  valid = v;
  holds = refl;
  status = fine;
  frame = Frame-refl h s v.heap;
  place = inr (refl, refl);
  live = refl;
}

-- A recorded refusal is an outcome of every mutator.
pub Records-Mutates :
    (h : Heap) (s : Str) (text : List ℕ) (e : Status) (h' : Heap) (s' : Str)
    → Records h s e h' s'
    → Mutates h s text (h', s', e)
Records-Mutates h s text ok h' s' r = absurd r
Records-Mutates h s text err_arg h' s' r = absurd r
Records-Mutates h s text err_alloc h' s' r = r
Records-Mutates h s text err_range h' s' r = absurd r
Records-Mutates h s text err_overflow h' s' r = r
Records-Mutates h s text err_fmt h' s' r = absurd r

module _ (h : Heap) (s : Str) (p n : ℕ) (pos : 0 < n) (v : IsValid h s) (fine : s.status ≡ ok) where
  appended-Mutates :
      (r : Run (Result ℕ))
      → Prepares h s (s.len + n + 1) (λ h' s' q. Reads h p n h' q) r
      → Mutates h s (content h s ++ bytes h.byte p n) (appended n r)
  appended-Mutates (h', s', failed e) r = Records-Mutates h s _ e h' s' r
  appended-Mutates (h', s', done q) (g, reads) =
      Written-Updated h s (s.len + n + 1) h' s' (append_content h' s' q n).0
        (append_content h' s' q n).1 _ fine g
        (append_content-Written h' s' q n pos (omega (arith, g.reaches, g.len))) v
        (append_content-content h' s' q n pos
          ∙ ap₂ ◌++◌ (Grown-content h s _ h' s' v g) (Reads-bytes h p n h' q reads))

  replaced-Mutates :
      (r : Run (Result ℕ))
      → Prepares h s (0 + n + 1) (λ h' s' q. Reads h p n h' q) r
      → Mutates h s (bytes h.byte p n) (replaced n r)
  replaced-Mutates (h', s', failed e) r = Records-Mutates h s _ e h' s' r
  replaced-Mutates (h', s', done q) (g, reads) =
      Written-Updated h s (0 + n + 1) h' s' (replace_content h' s' q n).0
        (replace_content h' s' q n).1 _ fine g
        (replace_content-Written h' s' q n pos (omega (arith, g.reaches))) v
        (replace_content-content h' s' q n pos ∙ Reads-bytes h p n h' q reads)

-- Appending `n` source bytes: the content grows by exactly the bytes that the source held before
-- the call, also where the source lies in the string itself; or STR_ERR_ALLOC or
-- STR_ERR_OVERFLOW is recorded and nothing else changes.
pub append_valid_span-Mutates :
    (h : Heap) (s : Str) (p n : ℕ)
    → IsValid h s
    → s.status ≡ ok
    → (n ≢ 0 → IsSource h s p n)
    → n ≤ size_max
    → Mutates h s (content h s ++ bytes h.byte p n) (append_valid_span h s p n)
unfolding append_valid_span
append_valid_span-Mutates h s p zero v fine source small = rw append-nil (Updated-refl h s v fine)
append_valid_span-Mutates h s p (suc n) v fine source small = rw (ne→== (suc n) 0 (omega arith)) (
    appended-Mutates h s p (suc n) (omega arith) v fine _ (
      prepare_valid_span-Prepares h s p (suc n) s.len v (source (omega arith)) (omega arith) small))

pub set_valid_span-Mutates :
    (h : Heap) (s : Str) (p n : ℕ)
    → IsValid h s
    → s.status ≡ ok
    → (n ≢ 0 → IsSource h s p n)
    → n ≤ size_max
    → Mutates h s (bytes h.byte p n) (set_valid_span h s p n)
unfolding set_valid_span
set_valid_span-Mutates h s p zero v fine source small = clear_content-Updated h s v fine
set_valid_span-Mutates h s p (suc n) v fine source small = rw (ne→== (suc n) 0 (omega arith)) (
    replaced-Mutates h s p (suc n) (omega arith) v fine _
      (prepare_valid_span-Prepares h s p (suc n) 0 v (source (omega arith)) (omega arith) small))

-- On a valid string without a sticky status, with a readable source and room for the bytes and
-- the terminator, an append of at least one byte succeeds.
pub append_valid_span-fits :
    (h : Heap) (s : Str) (p n : ℕ)
    → IsValid h s
    → s.status ≡ ok
    → IsSource h s p (suc n)
    → s.len + suc n < s.cap
    → (append_valid_span h s p (suc n)).2 ≡ ok
unfolding append_valid_span prepare_valid_span prepare_write ensure_capacity
append_valid_span-fits h s p n v fine source room =
    let (o, e, reads) =
      detect_overlap-Reads h s p (suc n) (s.len + suc n + 1) v source (omega arith) in
    rw (
      append_valid_span,
      ne→== (suc n) 0 (omega arith),
      prepare_valid_span,
      prepare_write,
      calculate_capacity-fits s.len (suc n) (omega (arith, cap_le h s v)),
      e,
      ensure_capacity,
      le→leb (s.len + suc n + 1) s.cap (omega arith),
    )
