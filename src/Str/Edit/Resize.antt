-- ===== src/Str/Edit/Resize.antt =====
-- str_resize of agenc-str/src/str.c against lists of bytes.
use agenc_c.Base.{
  ℕ, ◌+◌, ◌-◌, ◌≤◌, ◌<◌, ◌≡◌, refl, ap, ap₂, ◌∙◌, arith, List, ◌++◌, size_max, ne→==, lt→ltb,
  le→ltb, take, replicate, take_all, drop_all, append-nil, length,
}
use native.Mathlib.Decide.{dec_le, dec_lt}
use agenc_c.Memory.{Heap, poke, memset}
use agenc_c.Memory.Bytes.{bytes, bytes_ext, bytes-add, bytes-replicate, length-bytes}
use agenc_c.Str.Types.{
  Status, ok, err_alloc, err_arg, err_range, err_overflow, err_fmt, Str, done, failed, Run,
}
use agenc_c.Str.Size.{calculate_capacity}
use agenc_c.Str.Source.{set_failure}
use agenc_c.Str.Buffer.{ensure_capacity}
use agenc_c.Str.Buffer.Grow.{Grown, Grows, ensure_capacity-Grows}
use agenc_c.Str.Valid.{IsValid, Updated, Mutates, content}
use agenc_c.Str.Write.{ensured, updated}
use agenc_c.Str.Write.Prepare.{Quiet-refl, calculate_capacity-fits, calculate_capacity-big}
use agenc_c.Str.Write.Written.{Written, Written-Updated}
use agenc_c.Str.Write.Append.{Grown-content, Updated-refl}
use agenc_c.Str.Edit.Gap.{close_gap-Updated}
use agenc_c.Str.Edit.{close_gap, extend_content, grow_content, resize_valid}

module _ (h : Heap) (s : Str) (n fill : ℕ) (more : s.len < n) where
  extend_content-Written :
      n < s.cap → Written h s (extend_content h s n fill).0 (extend_content h s n fill).1
  unfolding extend_content poke memset
  extend_content-Written l = ground arith

  extend_content-content :
      content (extend_content h s n fill).0 (extend_content h s n fill).1
      ≡ content h s ++ replicate (n - s.len) fill
  unfolding extend_content poke memset
  extend_content-content =
      ap (bytes _ s.buf) {y = s.len + (n - s.len)} (omega arith)
      ∙ bytes-add _ s.buf s.len (n - s.len)
      ∙ ap₂ ◌++◌ (bytes_ext _ h.byte s.buf s.buf s.len (λ i l. ground arith))
          (bytes-replicate _ (s.buf + s.len) (n - s.len) fill (λ i l. ground arith))

-- What follows a growth, with its failure recorded.
pub ensured-Mutates :
    (h : Heap) (s : Str) (need : ℕ) (text : List ℕ) (write : Heap → Str → Heap × Str)
    → ((h' : Heap) (s' : Str)
        → Grown h s need h' s'
        → Updated h s text (write h' s').0 (write h' s').1)
    → (r : Run Status) → Grows h s need r
    → Mutates h s text (ensured r write)
ensured-Mutates h s need text write f (h', s', ok) g = f h' s' g
ensured-Mutates h s need text write f (h', s', err_alloc) g = record {
  quiet = g.quiet;
  string = ap (λ t. set_failure t err_alloc) g.string;
}
ensured-Mutates h s need text write f (h', s', err_arg) g = absurd g
ensured-Mutates h s need text write f (h', s', err_range) g = absurd g
ensured-Mutates h s need text write f (h', s', err_overflow) g = absurd g
ensured-Mutates h s need text write f (h', s', err_fmt) g = absurd g

extended-Updated :
    (h : Heap) (s : Str) (n fill : ℕ)
    → s.len < n
    → IsValid h s
    → s.status ≡ ok
    → (h' : Heap) (s' : Str) → Grown h s (0 + n + 1) h' s'
    → Updated h s
        (content h s ++ replicate (n - s.len) fill)
        (extend_content h' s' n fill).0
        (extend_content h' s' n fill).1
extended-Updated h s n fill more v fine h' s' g =
    Written-Updated h s (0 + n + 1) h' s' (extend_content h' s' n fill).0
      (extend_content h' s' n fill).1 _ fine g
      (extend_content-Written h' s' n fill (omega (arith, g.len)) (omega (arith, g.reaches))) v
      (extend_content-content h' s' n fill (omega (arith, g.len))
        ∙ ap₂ ◌++◌ (Grown-content h s _ h' s' v g) (ap (λ k. replicate (n - k) fill) g.len))

grow_content-overflow :
    (h : Heap) (s : Str) (n fill : ℕ) (e : Status)
    → calculate_capacity 0 n ≡ failed e
    → grow_content h s n fill ≡ (h, set_failure s e, e)
unfolding grow_content
grow_content-overflow h s n fill e c = rw (grow_content, c)

pub grow_content-room :
    (h : Heap) (s : Str) (n fill need : ℕ)
    → calculate_capacity 0 n ≡ done need
    → grow_content h s n fill
      ≡ ensured (ensure_capacity h s need) (λ h' s'. extend_content h' s' n fill)
unfolding grow_content
grow_content-room h s n fill need c = rw (grow_content, c)

grow_content-Mutates :
    (h : Heap) (s : Str) (n fill : ℕ)
    → s.len < n
    → n ≤ size_max
    → IsValid h s
    → s.status ≡ ok
    → Mutates h s (content h s ++ replicate (n - s.len) fill) (grow_content h s n fill)
grow_content-Mutates h s n fill more small v fine = elim (dec_le (0 + n + 1) size_max) [
  | no big ↦
      rw
        (grow_content-overflow h s n fill err_overflow
          (calculate_capacity-big 0 n small (omega arith)))
        (record { quiet = Quiet-refl h; string = refl })
  | yes fits ↦ rw (grow_content-room h s n fill (0 + n + 1) (calculate_capacity-fits 0 n fits)) (
      ensured-Mutates h s (0 + n + 1) _ (λ h' s'. extend_content h' s' n fill)
        (extended-Updated h s n fill more v fine) (ensure_capacity h s (0 + n + 1))
        (ensure_capacity-Grows h s (0 + n + 1) v (omega arith) fits))
]

Sets-Mutates :
    (h : Heap) (s : Str) (text : List ℕ) (r : Heap × Str)
    → Updated h s text r.0 r.1
    → Mutates h s text (updated r)
Sets-Mutates h s text r u = u

-- The three ways through `str_resize`.
resize_valid-same : (h : Heap) (s : Str) (fill : ℕ) → resize_valid h s s.len fill ≡ (h, s, ok)
unfolding resize_valid
resize_valid-same h s fill = ground arith

resize_valid-less :
    (h : Heap) (s : Str) (n fill : ℕ)
    → n < s.len
    → resize_valid h s n fill ≡ updated (close_gap h s n (s.len - n))
unfolding resize_valid
resize_valid-less h s n fill l = rw (ne→== n s.len (omega arith), lt→ltb n s.len l)

pub resize_valid-more :
    (h : Heap) (s : Str) (n fill : ℕ)
    → s.len < n
    → resize_valid h s n fill ≡ grow_content h s n fill
unfolding resize_valid
resize_valid-more h s n fill l = rw (ne→== n s.len (omega arith), le→ltb n s.len (omega arith))

length-content : (h : Heap) (s : Str) → length (content h s) ≡ s.len
length-content h s = length-bytes h.byte s.buf s.len

cut-Updated :
    (h : Heap) (s : Str) (n : ℕ)
    → IsValid h s
    → s.status ≡ ok
    → n < s.len
    → Updated h s
        (take n (content h s))
        (close_gap h s n (s.len - n)).0
        (close_gap h s n (s.len - n)).1
cut-Updated h s n v fine l =
    rw
      (
        ← append-nil (take n (content h s)),
        ← drop_all (content h s) (n + (s.len - n)) (omega (arith, length-content h s)),
      )
      (close_gap-Updated h s n (s.len - n) v fine (omega arith) (omega arith))

resize_down :
    (h : Heap) (s : Str) (n fill : ℕ)
    → IsValid h s
    → s.status ≡ ok
    → n ≤ s.len
    → Dec (n < s.len)
    → Mutates h s (take n (content h s)) (resize_valid h s n fill)
resize_down h s n fill v fine le (yes l) =
    rw (resize_valid-less h s n fill l) (cut-Updated h s n v fine l)
resize_down h s n fill v fine le (no ge) =
    let e : n ≡ s.len = omega arith in
    rw
      (
        ap (λ k. resize_valid h s k fill) e,
        resize_valid-same h s fill,
        take_all (content h s) n (omega (arith, length-content h s)),
      )
      (Updated-refl h s v fine)

-- On a valid string without a sticky status, with `n <= SIZE_MAX`: after a resize to `n` the
-- string is valid and holds its first `n` bytes and then copies of `fill` up to length `n`; or
-- STR_ERR_ALLOC or STR_ERR_OVERFLOW is recorded and nothing else changes.
pub resize_valid-Mutates :
    (h : Heap) (s : Str) (n fill : ℕ)
    → IsValid h s
    → s.status ≡ ok
    → n ≤ size_max
    → Mutates h s (take n (content h s) ++ replicate (n - s.len) fill) (resize_valid h s n fill)
resize_valid-Mutates h s n fill v fine small = elim (dec_le n s.len) [
  | no big ↦
      rw
        (
          resize_valid-more h s n fill (omega arith),
          take_all (content h s) n (omega (arith, length-content h s)),
        )
        (grow_content-Mutates h s n fill (omega arith) small v fine)
  | yes le ↦
      rw (ap (λ k. replicate k fill) {x = n - s.len} {y = 0} (omega arith), append-nil)
        (resize_down h s n fill v fine le (dec_lt n s.len))
]
