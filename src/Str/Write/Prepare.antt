-- ===== src/Str/Write/Prepare.antt =====
-- What `prepare_write` and `prepare_valid_span` guarantee: room, and a source that still reads
-- the bytes it read before the growth.
use agenc_c.Base.{
  ℕ, ◌+◌, ◌-◌, ◌≤◌, ◌<◌, ◌≡◌, refl, ap, inl, inr, arith, size_max, true, false, lt→ltb, le→ltb,
}
use native.Mathlib.Decide.{dec_le}
use agenc_c.Memory.{Heap}
use agenc_c.Str.Types.{
  Status, ok, err_alloc, err_arg, err_range, err_overflow, err_fmt, Str, Result, done, failed, Run,
  Overlap,
}
use agenc_c.Str.Size.{calculate_capacity}
use agenc_c.Str.Size.Bounds.{calculate_capacity-eq}
use agenc_c.Str.Source.{detect_overlap, set_failure}
use agenc_c.Str.Source.Overlaps.{detect_overlap-inside, detect_overlap-outside}
use agenc_c.Str.Buffer.{ensure_capacity}
use agenc_c.Str.Buffer.Grow.{Grown, Grows, IsOwner-of_cap, ensure_capacity-Grows}
use agenc_c.Str.Valid.{IsValid, IsSource, Quiet, Failed}
use agenc_c.Str.Write.{prepare_write, prepare_valid_span, resolved, recorded, rebased}

-- The `n` bytes at `ready` after the call are those at `p` before it.
abbrev pub Reads : Heap → ℕ → ℕ → Heap → ℕ → Type 0
Reads h p n h' ready = (i : ℕ) → i < n → h'.byte (ready + i) ≡ h.byte (p + i)

-- The classification of a good source says where its bytes are after a growth.
pub detect_overlap-Reads :
    (h : Heap) (s : Str) (p n need : ℕ)
    → IsValid h s
    → IsSource h s p n
    → 0 < n
    → (o : Overlap) × (detect_overlap s p n ≡ done o)
      × ((h' : Heap) (s' : Str) → Grown h s need h' s' → Reads h p n h' (rebased s' o p))
detect_overlap-Reads h s p n need v (inl out) pos = (
  record { is_inside = false; idx = 0 },
  detect_overlap-outside h s p n v out pos,
  λ h' s' g i l. g.frame.kept (p + i) (omega (arith, out.readable)) (ground (arith, out.apart)),
)
detect_overlap-Reads h s p n need v (inr inn) pos = (
  record { is_inside = true; idx = p - s.buf },
  detect_overlap-inside h s p n v inn pos,
  λ h' s' g i l. ground (arith, g.text (p - s.buf + i), IsOwner-of_cap h s v inn.owned),
)

-- A refusal, recorded on the string.
abbrev pub Records : Heap → Str → Status → Heap → Str → Type 0
Records h s err_alloc h' s' = Failed h s err_alloc h' s'
Records h s err_overflow h' s' = Failed h s err_overflow h' s'
Records h s ok h' s' = ⊥
Records h s err_arg h' s' = ⊥
Records h s err_range h' s' = ⊥
Records h s err_fmt h' s' = ⊥

-- A preparation leaves room for `need` bytes and an address of which `Q` holds, or is refused.
abbrev pub Prepares : Heap → Str → ℕ → (Heap → Str → ℕ → Type 0) → Run (Result ℕ) → Type 0
Prepares h s need Q (h', s', done ready) = Grown h s need h' s' × Q h' s' ready
Prepares h s need Q (h', s', failed e) = Records h s e h' s'

pub Quiet-refl : (h : Heap) → Quiet h h
Quiet-refl h = record { byte = refl; size = refl; brk = refl; live = refl }

-- The tail of a preparation after the overlap is known.
pub Grown-Prepares :
    (h : Heap) (s : Str) (p need : ℕ) (o : Overlap) (Q : Heap → Str → ℕ → Type 0)
    → ((h' : Heap) (s' : Str) → Grown h s need h' s' → Q h' s' (rebased s' o p))
    → (r : Run Status) → Grows h s need r
    → Prepares h s need Q (recorded (resolved o p r))
Grown-Prepares h s p need o Q reads (h', s', ok) g = (g, reads h' s' g)
Grown-Prepares h s p need o Q reads (h', s', err_alloc) g = record {
  quiet = g.quiet;
  string = ap (λ t. set_failure t err_alloc) g.string;
}
Grown-Prepares h s p need o Q reads (h', s', err_arg) g = absurd g
Grown-Prepares h s p need o Q reads (h', s', err_range) g = absurd g
Grown-Prepares h s p need o Q reads (h', s', err_overflow) g = absurd g
Grown-Prepares h s p need o Q reads (h', s', err_fmt) g = absurd g

-- The two ways through `prepare_valid_span`.
pub prepare_valid_span-overflow :
    (h : Heap) (s : Str) (p n base : ℕ) (e : Status)
    → calculate_capacity base n ≡ failed e
    → prepare_valid_span h s p n base ≡ (h, set_failure s e, failed e)
unfolding prepare_valid_span prepare_write
prepare_valid_span-overflow h s p n base e c = rw (c, prepare_write)

pub prepare_valid_span-room :
    (h : Heap) (s : Str) (p n base need : ℕ) (o : Overlap)
    → calculate_capacity base n ≡ done need
    → detect_overlap s p n ≡ done o
    → prepare_valid_span h s p n base ≡ recorded (resolved o p (ensure_capacity h s need))
unfolding prepare_valid_span prepare_write
prepare_valid_span-room h s p n base need o c d = rw (c, prepare_write, d)

pub calculate_capacity-fits :
    (len n : ℕ) → len + n + 1 ≤ size_max → calculate_capacity len n ≡ done (len + n + 1)
calculate_capacity-fits len n l =
    rw (calculate_capacity-eq len n (omega arith), le→ltb size_max (len + n + 1) l)

pub calculate_capacity-big :
    (len n : ℕ)
    → n ≤ size_max
    → size_max < len + n + 1
    → calculate_capacity len n ≡ failed err_overflow
calculate_capacity-big len n small l =
    rw (calculate_capacity-eq len n small, lt→ltb size_max (len + n + 1) l)

-- A good source of `n` bytes after `base` bytes: room for base + n + 1 bytes and the same source
-- bytes, or STR_ERR_ALLOC or STR_ERR_OVERFLOW with nothing else changed.
pub prepare_valid_span-Prepares :
    (h : Heap) (s : Str) (p n base : ℕ)
    → IsValid h s
    → IsSource h s p n
    → 0 < n
    → n ≤ size_max
    → Prepares h s (base + n + 1) (λ h' s' q. Reads h p n h' q) (prepare_valid_span h s p n base)
prepare_valid_span-Prepares h s p n base v source pos small =
    elim (dec_le (base + n + 1) size_max) [
      | no big ↦
          rw
            (prepare_valid_span-overflow h s p n base err_overflow
              (calculate_capacity-big base n small (omega arith)))
            (record { quiet = Quiet-refl h; string = refl })
      | yes fits ↦
          (let (o, e, reads) = detect_overlap-Reads h s p n (base + n + 1) v source pos in
            rw
              (prepare_valid_span-room h s p n base (base + n + 1) o
                (calculate_capacity-fits base n fits) e)
              (Grown-Prepares h s p (base + n + 1) o (λ h' s' q. Reads h p n h' q) reads
                (ensure_capacity h s (base + n + 1))
                (ensure_capacity-Grows h s (base + n + 1) v (omega arith) fits)))
    ]
