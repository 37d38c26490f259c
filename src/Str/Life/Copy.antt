-- ===== src/Str/Life/Copy.antt =====
-- Release and copy: what they leave of the strings they touch and of all others.
use agenc_c.Base.{
  ◌⊎◌, if◌then◌else◌, ◌==◌, ℕ, ◌+◌, ◌-◌, ◌≤◌, ◌≡◌, ◌≢◌, refl, sym, ap, ◌∙◌, inl, inr, arith, some,
}
use agenc_c.Memory.{Heap, free}
use agenc_c.Memory.Bytes.{bytes}
use agenc_c.Str.Types.{
  Status, ok, err_alloc, err_arg, err_range, err_overflow, err_fmt, Str, empty, Run, Call,
}
use agenc_c.Str.Source.{set_failure}
use agenc_c.Str.Buffer.Grow.{cap_le}
use agenc_c.Str.Valid.{IsValid, IsSource, Frame, Updated, Failed, Mutates, content, blocks}
use agenc_c.Str.Separate.{Separate, Intact, Frame-Intact}
use agenc_c.Str.Observe.{cstr, len}
use agenc_c.Str.Write.{set_valid_span}
use agenc_c.Str.Write.Append.{set_valid_span-Mutates}
use agenc_c.Str.Life.{deinit_valid, adopted, copied, copy, Operand, other}

-- A release touches nothing but the string's own block.
pub deinit_valid-Frame : (h : Heap) (d : Str) → IsValid h d → Frame h d (deinit_valid h d).0
unfolding deinit_valid free
deinit_valid-Frame h d v = ground (arith, v.shape, v.heap)

-- Releasing a valid string empties it, leaves every valid string in a separate block valid with
-- its content, and, if it owned a buffer, takes one block off the live ones.
pub deinit_valid-Intact :
    (h : Heap) (d t : Str)
    → IsValid h d
    → IsValid h t
    → Separate d t
    → ((deinit_valid h d).1 ≡ empty)
      × Intact h t (deinit_valid h d).0
      × ((deinit_valid h d).0.live ≡ (if d.cap == 0 then h.live else h.live - 1))
unfolding deinit_valid free
deinit_valid-Intact h d t v vt sep =
    (refl, Frame-Intact h d _ t v (deinit_valid-Frame h d v) vt sep, ground (arith, v.shape))

pub released_block :
    (h : Heap) (d : Str) → IsValid h d → (d.cap ≡ 0) ⊎ ((deinit_valid h d).0.size d.buf ≡ 0)
unfolding deinit_valid free
released_block h d v = ground (arith, v.shape)

pub released_count :
    (h : Heap) (d : Str) → IsValid h d → (deinit_valid h d).0.live ≡ h.live - blocks d
unfolding deinit_valid free
released_count h d v = ground (arith, v.shape)

-- The empty string owned no block.
added : {m n : ℕ} → m + blocks empty ≡ n → m ≡ n
added e = omega (arith, e)

pub len_le : (h : Heap) (s : Str) → IsValid h s → s.len ≤ s.cap
len_le h s v = ground (arith, v.shape)

-- After a copy: the destination holds the bytes of the source, and the source is as before; or
-- the failure is recorded on the destination and nothing else changed.
pub record Copied (h : Heap) (d s : Str) (h' : Heap) (d' : Str) : Type 0 where
  pub valid : IsValid h' d'
  pub holds : content h' d' ≡ content h s
  pub status : d'.status ≡ ok
  pub source : Intact h s h'
  pub own : Separate d' s
  pub released : (d.cap ≡ 0) ⊎ (h'.size d.buf ≡ 0)
  pub live : h'.live ≡ h.live + blocks d' - blocks d

abbrev pub Copies : Heap → Str → Str → Call → Type 0
Copies h d s (h', some d', ok) = Copied h d s h' d'
Copies h d s (h', some d', err_alloc) = Failed h d err_alloc h' d'
Copies h d s (h', some d', err_overflow) = Failed h d err_overflow h' d'
Copies h d s _ = ⊥

module _ (h : Heap) (d s : Str) (vd : IsValid h d) (vs : IsValid h s) (sep : Separate d s) where
  empty-IsValid : IsValid h empty
  empty-IsValid = record {
    heap = vd.heap;
    shape = inl (record { no_buf = refl; no_len = refl; no_cap = refl });
  }

  -- The block of the destination may go once the copy stands in a block of its own.
  adopted-Copied :
      (h1 : Heap) (scratch : Str)
      → Updated h empty (content h s) h1 scratch
      → Copied h d s (deinit_valid h1 d).0 scratch
  adopted-Copied h1 scratch u =
      let d1 = Frame-Intact h empty h1 d empty-IsValid u.frame vd (inl refl) in
      let s1 = Frame-Intact h empty h1 s empty-IsValid u.frame vs (inl refl) in
      let f = deinit_valid-Frame h1 d d1.valid in
      let apart : Separate d scratch = ground (arith, u.place, vd.shape, u.valid.shape) in
      let c2 = Frame-Intact h1 d (deinit_valid h1 d).0 scratch d1.valid f u.valid apart in
      let s2 = Frame-Intact h1 d (deinit_valid h1 d).0 s d1.valid f s1.valid sep in
      record {
        valid = c2.valid;
        holds = c2.same ∙ u.holds;
        status = u.status;
        source = record { valid = s2.valid; same = s2.same ∙ s1.same };
        own = ground (arith, u.place, vs.shape, u.valid.shape);
        released = released_block h1 d d1.valid;
        live = released_count h1 d d1.valid ∙ ap (λ k. k - blocks d) (added u.live);
      }

  -- A failed copy releases nothing, since the scratch string owns nothing.
  Failed-Failed :
      (h1 : Heap) (scratch : Str) (e : Status)
      → Failed h empty e h1 scratch
      → Failed h d e (deinit_valid h1 scratch).0 (set_failure d e)
  unfolding deinit_valid
  Failed-Failed h1 scratch e f = rw f.string (record { quiet = f.quiet; string = refl })

  adopted-Copies : (r : Run Status) → Mutates h empty (content h s) r → Copies h d s (adopted d r)
  adopted-Copies (h1, scratch, ok) u = adopted-Copied h1 scratch u
  adopted-Copies (h1, scratch, err_alloc) f = Failed-Failed h1 scratch err_alloc f
  adopted-Copies (h1, scratch, err_overflow) f = Failed-Failed h1 scratch err_overflow f
  adopted-Copies (h1, scratch, err_arg) f = absurd f
  adopted-Copies (h1, scratch, err_range) f = absurd f
  adopted-Copies (h1, scratch, err_fmt) f = absurd f

  cstr-IsSource : (empty_buf : ℕ) → s.len ≢ 0 → IsSource h empty (cstr empty_buf (some s)) s.len
  unfolding cstr
  cstr-IsSource empty_buf ne = ground (arith, vs.shape)

  cstr-content : (empty_buf : ℕ) → bytes h.byte (cstr empty_buf (some s)) s.len ≡ content h s
  unfolding cstr
  cstr-content empty_buf = elim vs.shape [
    | inl u ↦
        ap (bytes h.byte (cstr empty_buf (some s))) u.no_len
        ∙ sym (ap (bytes h.byte s.buf) u.no_len)
    | inr o ↦
        ap (λ p. bytes h.byte p s.len) {x = cstr empty_buf (some s)} {y = s.buf} (ground arith)
  ]

  copied-Copies : (empty_buf : ℕ) → Copies h d s (copied empty_buf h d (other s))
  unfolding len
  copied-Copies empty_buf =
      adopted-Copies (set_valid_span h empty (cstr empty_buf (some s)) s.len) (
        rw (cstr-content empty_buf) at (
          set_valid_span-Mutates h empty (cstr empty_buf (some s)) s.len empty-IsValid refl
            (cstr-IsSource empty_buf) (omega (arith, cap_le h s vs, len_le h s vs))))

copy_fine :
    (empty_buf : ℕ) (h : Heap) (d : Str) (source : Operand)
    → d.status ≡ ok
    → copy empty_buf h (some d) source ≡ copied empty_buf h d source
unfolding copy
copy_fine empty_buf h d source fine = ground arith

-- A copy from another valid string, where neither string's block meets the other and the
-- destination has no sticky status: the destination then holds the bytes of the source, in a
-- block of its own, its old block is released and no longer counted as live, and the source is
-- valid with its content; or STR_ERR_ALLOC or STR_ERR_OVERFLOW is recorded on the destination
-- and nothing else changes.
pub copy-Copies :
    (empty_buf : ℕ) (h : Heap) (d s : Str)
    → IsValid h d
    → IsValid h s
    → Separate d s
    → d.status ≡ ok
    → Copies h d s (copy empty_buf h (some d) (other s))
copy-Copies empty_buf h d s vd vs sep fine =
    rw (copy_fine empty_buf h d (other s) fine) (copied-Copies h d s vd vs sep empty_buf)
