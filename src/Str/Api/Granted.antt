-- ===== src/Str/Api/Granted.antt =====
-- Writes of agenc-str/src/str.c in an environment that grants the request: they succeed.
use agenc_c.Base.{
  ℕ, ◌+◌, ◌≤◌, ◌<◌, ◌≡◌, refl, arith, List, ◌++◌, size_max, none, some, take, drop, ne→==, le→ltb,
  ◌-◌,
}
use agenc_c.Memory.{Heap}
use agenc_c.Memory.Bytes.{bytes}
use agenc_c.Str.Types.{
  Status, ok, err_arg, err_alloc, err_range, err_overflow, err_fmt, Str, Run, Call, Overlap,
}
use agenc_c.Str.Size.{validate_span}
use agenc_c.Str.Valid.{IsValid, IsSource, Updated, content}
use agenc_c.Str.Buffer.{ensure_capacity}
use agenc_c.Str.Buffer.Granted.{IsGranted, IsGranted-le, ensure_capacity-ok}
use agenc_c.Str.Write.{
  append_n, append_valid_span, set_n, set_valid_span, appended, replaced, resolved, recorded,
  proceed,
}
use agenc_c.Str.Write.Prepare.{
  prepare_valid_span-room, calculate_capacity-fits, detect_overlap-Reads,
}
use agenc_c.Str.Edit.{insert_n, insert_valid, inserted, adjusted}
use agenc_c.Str.Edit.Insert.{prepare_insert-room}
use agenc_c.Str.Api.{Answers, begin_mutation-ok, append_n-Answers, set_n-Answers, insert_n-Answers}

-- The call returns STR_OK, and the string is valid and holds `text`.
abbrev pub Succeeds : Heap → Str → List ℕ → Call → Type 0
Succeeds h s text (h', some s', status) = (status ≡ ok) × Updated h s text h' s'
Succeeds h s text (h', none, status) = ⊥

Answers-Succeeds :
    (h : Heap) (s : Str) (text : List ℕ) (c : Call)
    → Answers h s text c
    → c.2 ≡ ok
    → Succeeds h s text c
Answers-Succeeds h s text (h', none, e) a fine = a
Answers-Succeeds h s text (h', some s', ok) a fine = (refl, a)
Answers-Succeeds h s text (h', some s', err_arg) a fine = absurd a
Answers-Succeeds h s text (h', some s', err_alloc) a fine = absurd (ground arith)
Answers-Succeeds h s text (h', some s', err_range) a fine = absurd a
Answers-Succeeds h s text (h', some s', err_overflow) a fine = absurd (ground arith)
Answers-Succeeds h s text (h', some s', err_fmt) a fine = absurd a

-- What follows the growth keeps its status.
appended-status :
    (n p : ℕ) (o : Overlap) (r : Run Status) → (appended n (recorded (resolved o p r))).2 ≡ r.2
appended-status n p o (h, s, ok) = refl
appended-status n p o (h, s, err_arg) = refl
appended-status n p o (h, s, err_alloc) = refl
appended-status n p o (h, s, err_range) = refl
appended-status n p o (h, s, err_overflow) = refl
appended-status n p o (h, s, err_fmt) = refl

replaced-status :
    (n p : ℕ) (o : Overlap) (r : Run Status) → (replaced n (recorded (resolved o p r))).2 ≡ r.2
replaced-status n p o (h, s, ok) = refl
replaced-status n p o (h, s, err_arg) = refl
replaced-status n p o (h, s, err_alloc) = refl
replaced-status n p o (h, s, err_range) = refl
replaced-status n p o (h, s, err_overflow) = refl
replaced-status n p o (h, s, err_fmt) = refl

inserted-status :
    (idx n p : ℕ) (o : Overlap) (r : Run Status)
    → (inserted idx n (recorded (resolved o p r))).2 ≡ r.2
inserted-status idx n p o (h, s, ok) = refl
inserted-status idx n p o (h, s, err_arg) = refl
inserted-status idx n p o (h, s, err_alloc) = refl
inserted-status idx n p o (h, s, err_range) = refl
inserted-status idx n p o (h, s, err_overflow) = refl
inserted-status idx n p o (h, s, err_fmt) = refl

module _ (h : Heap) (s : Str) (p n : ℕ) (v : IsValid h s) (pos : 0 < n)
    (source : IsSource h s p n) where
  append_valid_span-ok : IsGranted h (s.len + n + 1) → (append_valid_span h s p n).2 ≡ ok
  unfolding append_valid_span
  append_valid_span-ok g =
      let (o, e, reads) = detect_overlap-Reads h s p n (s.len + n + 1) v source pos in
      rw
        (
          ne→== n 0 (omega arith),
          prepare_valid_span-room h s p n s.len (s.len + n + 1) o
              (calculate_capacity-fits s.len n (omega (arith, g.room))) e,
          appended-status n p o (ensure_capacity h s (s.len + n + 1)),
        )
        (ensure_capacity-ok h s (s.len + n + 1) v g)

  set_valid_span-ok : IsGranted h (0 + n + 1) → (set_valid_span h s p n).2 ≡ ok
  unfolding set_valid_span
  set_valid_span-ok g =
      let (o, e, reads) = detect_overlap-Reads h s p n (0 + n + 1) v source pos in
      rw
        (
          ne→== n 0 (omega arith),
          prepare_valid_span-room h s p n 0 (0 + n + 1) o
              (calculate_capacity-fits 0 n (omega (arith, g.room))) e,
          replaced-status n p o (ensure_capacity h s (0 + n + 1)),
        )
        (ensure_capacity-ok h s (0 + n + 1) v g)

  insert_valid-ok :
      (idx : ℕ) → idx ≤ s.len → IsGranted h (s.len + n + 1) → (insert_valid h s idx p n).2 ≡ ok
  unfolding insert_valid validate_span
  insert_valid-ok idx l g =
      let (o, e, reads) = detect_overlap-Reads h s p n (s.len + n + 1) v source pos in
      rw
        (
          le→ltb s.len idx l,
          insert_valid,
          le→ltb (s.len - idx) 0 (omega arith),
          ne→== n 0 (omega arith),
          prepare_insert-room h s idx p n (s.len + n + 1) o
              (calculate_capacity-fits s.len n (omega (arith, g.room))) e,
          inserted-status idx n p (adjusted o idx n) (ensure_capacity h s (s.len + n + 1)),
        )
        (ensure_capacity-ok h s (s.len + n + 1) v g)

-- On a valid string without a sticky status, with a readable source of `0 < n` bytes and `idx <=
-- len`, in an environment that grants the next request and has address space for twice `len + n
-- + 1` bytes and 16 more: setting, appending and inserting all return STR_OK, and the string is
-- valid and holds the bytes that the operation promises.
pub writes_succeed :
    (h : Heap) (s : Str) (idx p n : ℕ)
    → IsValid h s
    → s.status ≡ ok
    → idx ≤ s.len
    → 0 < n
    → IsSource h s p n
    → IsGranted h (s.len + n + 1)
    → Succeeds h s (bytes h.byte p n) (set_n h (some s) p n)
      × Succeeds h s (content h s ++ bytes h.byte p n) (append_n h (some s) p n)
      × Succeeds h s
          (take idx (content h s) ++ (bytes h.byte p n ++ drop idx (content h s)))
          (insert_n h (some s) idx p n)
unfolding set_n append_n insert_n
writes_succeed h s idx p n v fine at_idx pos source g =
    let b = begin_mutation-ok h s p n v fine (λ _. source) in
    let small : n ≤ size_max = omega (arith, g.room) in
    (
      Answers-Succeeds h s _ _ (set_n-Answers h s p n v fine (λ _. source) small) (
          rw (b, set_n, proceed)
            (set_valid_span-ok h s p n v pos source
              (IsGranted-le h (s.len + n + 1) (0 + n + 1) (omega arith) g))),
      Answers-Succeeds h s _ _ (append_n-Answers h s p n v fine (λ _. source) small)
          (rw (b, append_n, proceed) (append_valid_span-ok h s p n v pos source g)),
      Answers-Succeeds h s _ _ (insert_n-Answers h s idx p n v fine at_idx pos small source)
          (rw (b, insert_n, proceed) (insert_valid-ok h s p n v pos source idx at_idx g)),
    )
