-- ===== src/Str/Edit/Reserve.antt =====
-- str_reserve of agenc-str/src/str.c.
use agenc_c.Base.{
  ℕ, zero, suc, ◌+◌, ◌≤◌, ◌<◌, ◌≡◌, ◌≢◌, refl, ap, sym, ◌∙◌, arith, ◌++◌, length, subst, size_max,
  ne→==, inr,
}
use native.Mathlib.Decide.{dec_le}
use agenc_c.Memory.{Heap}
use agenc_c.Memory.Bytes.{bytes, length-bytes}
use agenc_c.Str.Types.{
  Status, ok, err_alloc, err_arg, err_range, err_overflow, err_fmt, Str, Run, done, failed,
}
use agenc_c.Str.Size.{calculate_capacity}
use agenc_c.Str.Source.{set_failure}
use agenc_c.Str.Valid.{IsOwner, IsValid, IsSource, Updated, Failed, Mutates, content}
use agenc_c.Str.Buffer.{ensure_capacity}
use agenc_c.Str.Buffer.Grow.{Grown, Grows, ensure_capacity-Grows}
use agenc_c.Str.Write.{ensured, append_valid_span}
use agenc_c.Str.Write.Prepare.{Quiet-refl, calculate_capacity-fits, calculate_capacity-big}
use agenc_c.Str.Write.Append.{
  Grown-content, Updated-refl, append_valid_span-fits, append_valid_span-Mutates,
}
use agenc_c.Str.Edit.{reserve_valid}

reserve_valid-overflow :
    (h : Heap) (s : Str) (n : ℕ) (e : Status)
    → n ≢ 0
    → calculate_capacity 0 n ≡ failed e
    → reserve_valid h s n ≡ (h, set_failure s e, e)
unfolding reserve_valid
reserve_valid-overflow h s n e ne c = rw (reserve_valid, ne→== n 0 ne, c)

reserve_valid-room :
    (h : Heap) (s : Str) (n need : ℕ)
    → n ≢ 0
    → calculate_capacity 0 n ≡ done need
    → reserve_valid h s n ≡ ensured (ensure_capacity h s need) (λ h' s'. (h', s'))
unfolding reserve_valid
reserve_valid-room h s n need ne c = rw (reserve_valid, ne→== n 0 ne, c)

-- The content is as before and, unless `n` is 0, `n` bytes and a terminator fit.
pub record Reserved (h : Heap) (s : Str) (n : ℕ) (h' : Heap) (s' : Str) : Type 0 where
  pub update : Updated h s (content h s) h' s'
  pub room : n ≢ 0 → n < s'.cap

abbrev pub Reserves : Heap → Str → ℕ → Run Status → Type 0
Reserves h s n (h', s', ok) = Reserved h s n h' s'
Reserves h s n (h', s', err_alloc) = Failed h s err_alloc h' s'
Reserves h s n (h', s', err_overflow) = Failed h s err_overflow h' s' × (size_max ≤ n)
Reserves h s n (h', s', err_arg) = ⊥
Reserves h s n (h', s', err_range) = ⊥
Reserves h s n (h', s', err_fmt) = ⊥

Grown-Updated :
    (h : Heap) (s : Str) (need : ℕ) (h' : Heap) (s' : Str)
    → IsValid h s
    → s.status ≡ ok
    → 0 < need
    → Grown h s need h' s'
    → Updated h s (content h s) h' s'
Grown-Updated h s need h' s' v fine pos g = record {
  valid = record { heap = omega (arith, g.frame, v.heap); shape = inr owner };
  holds = Grown-content h s need h' s' v g;
  status = g.status ∙ fine;
  frame = g.frame;
  place = g.place;
  live = g.live;
}
  where
    owner : IsOwner h' s'
    owner = ground (arith, v.shape, g.fits, g.text s.len, g.start, g.reaches, pos)

reserved-Reserves :
    (h : Heap) (s : Str) (n : ℕ)
    → IsValid h s
    → s.status ≡ ok
    → (r : Run Status) → Grows h s (0 + n + 1) r
    → Reserves h s n (ensured r (λ h' s'. (h', s')))
reserved-Reserves h s n v fine (h', s', ok) g = record {
  update = Grown-Updated h s (0 + n + 1) h' s' v fine (omega arith) g;
  room = λ _. omega (arith, g.reaches);
}
reserved-Reserves h s n v fine (h', s', err_alloc) g = record {
  quiet = g.quiet;
  string = ap (λ t. set_failure t err_alloc) g.string;
}
reserved-Reserves h s n v fine (h', s', err_arg) g = absurd g
reserved-Reserves h s n v fine (h', s', err_range) g = absurd g
reserved-Reserves h s n v fine (h', s', err_overflow) g = absurd g
reserved-Reserves h s n v fine (h', s', err_fmt) g = absurd g

reserve_valid_zero : (h : Heap) (s : Str) → reserve_valid h s 0 ≡ (h, s, ok)
unfolding reserve_valid
reserve_valid_zero h s = refl

-- On a valid string without a sticky status, with `n <= SIZE_MAX`: a reservation of `n` bytes
-- succeeds, and the string is valid with the content it had and, unless `n` is 0, a capacity
-- above `n`; or STR_ERR_ALLOC is recorded and nothing else changes; or STR_ERR_OVERFLOW is
-- recorded and nothing else changes, and then `n` is SIZE_MAX.
pub reserve_valid-Reserves :
    (h : Heap) (s : Str) (n : ℕ)
    → IsValid h s
    → s.status ≡ ok
    → n ≤ size_max
    → Reserves h s n (reserve_valid h s n)
reserve_valid-Reserves h s zero v fine small =
    rw (reserve_valid_zero h s)
      (record { update = Updated-refl h s v fine; room = λ ne. absurd (ne refl) })
reserve_valid-Reserves h s (suc k) v fine small = elim (dec_le (0 + suc k + 1) size_max) [
  | no big ↦
      rw
        (reserve_valid-overflow h s (suc k) err_overflow (omega arith)
          (calculate_capacity-big 0 (suc k) small (omega arith)))
        (record { quiet = Quiet-refl h; string = refl }, omega arith)
  | yes fits ↦
      rw
        (reserve_valid-room h s (suc k) (0 + suc k + 1) (omega arith)
          (calculate_capacity-fits 0 (suc k) fits))
        (reserved-Reserves h s (suc k) v fine (ensure_capacity h s (0 + suc k + 1))
          (ensure_capacity-Grows h s (0 + suc k + 1) v (omega arith) fits))
]

-- After a successful reservation of `n <= SIZE_MAX` bytes on a valid string without a sticky
-- status, an append of at least one byte from a readable source, with `len` and its bytes
-- together at most `n`, returns STR_OK and holds the old content and then the source's bytes.
pub reserve_valid_then_append :
    (h : Heap) (s : Str) (n p m : ℕ) (h' : Heap) (s' : Str)
    → IsValid h s
    → s.status ≡ ok
    → n ≤ size_max
    → reserve_valid h s n ≡ (h', s', ok)
    → s.len + suc m ≤ n
    → IsSource h' s' p (suc m)
    → ((append_valid_span h' s' p (suc m)).2 ≡ ok)
      × Mutates h' s' (content h s ++ bytes h'.byte p (suc m)) (append_valid_span h' s' p (suc m))
reserve_valid_then_append h s n p m h' s' v fine small e room source =
    let r : Reserved h s n h' s' =
      subst (Reserves h s n) e (reserve_valid-Reserves h s n v fine small) in
    let u = r.update in
    let k : s'.len ≡ s.len =
      sym (length-bytes h'.byte s'.buf s'.len)
      ∙ ap length u.holds
      ∙ length-bytes h.byte s.buf s.len in
    (
      append_valid_span-fits h' s' p m u.valid u.status source
          (omega (arith, k, r.room (omega arith))),
      subst (λ t. Mutates h' s' (t ++ bytes h'.byte p (suc m)) (append_valid_span h' s' p (suc m)))
          u.holds
          (append_valid_span-Mutates h' s' p (suc m) u.valid u.status (λ _. source)
            (omega (arith, room, small))),
    )
