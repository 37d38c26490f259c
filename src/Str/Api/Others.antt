-- ===== src/Str/Api/Others.antt =====
-- A write to one string of agenc-str/src/str.c leaves every string in a separate block alone.
use agenc_c.Base.{ℕ, ◌≤◌, ◌<◌, ◌≡◌, arith, List, size_max, some, none, refl}
use agenc_c.Memory.{Heap}
use agenc_c.Str.Types.{ok, err_arg, err_alloc, err_range, err_overflow, err_fmt, Str, Call}
use agenc_c.Str.Valid.{IsValid, IsSource, Frame, Quiet}
use agenc_c.Str.Separate.{Separate, Intact, Frame-Intact}
use agenc_c.Str.Write.{append_n, set_n}
use agenc_c.Str.Edit.{insert_n}
use agenc_c.Str.Api.{Answers, append_n-Answers, set_n-Answers, insert_n-Answers}

-- After the call the string `t` is valid and has the content that it had before.
abbrev pub Leaves : Heap → Str → Call → Type 0
Leaves h t (h', string, status) = Intact h t h'

Quiet-Frame : (h : Heap) (s : Str) (h' : Heap) → IsValid h s → Quiet h h' → Frame h s h'
Quiet-Frame h s h' v q = record {
  mono = omega (arith, q.brk);
  top = omega (arith, q.brk, v.heap);
  kept = λ a l ap. rw q.byte refl;
  sizes = λ p l ne. rw q.size refl;
}

Answers-Leaves :
    (h : Heap) (s t : Str) (text : List ℕ) (c : Call)
    → IsValid h s
    → IsValid h t
    → Separate s t
    → Answers h s text c
    → Leaves h t c
Answers-Leaves h s t text (h', none, e) vs vt sep a = absurd a
Answers-Leaves h s t text (h', some s', ok) vs vt sep a = Frame-Intact h s h' t vs a.frame vt sep
Answers-Leaves h s t text (h', some s', err_alloc) vs vt sep a =
    Frame-Intact h s h' t vs (Quiet-Frame h s h' vs a.quiet) vt sep
Answers-Leaves h s t text (h', some s', err_overflow) vs vt sep a =
    Frame-Intact h s h' t vs (Quiet-Frame h s h' vs a.quiet) vt sep
Answers-Leaves h s t text (h', some s', err_arg) vs vt sep a = absurd a
Answers-Leaves h s t text (h', some s', err_range) vs vt sep a = absurd a
Answers-Leaves h s t text (h', some s', err_fmt) vs vt sep a = absurd a

-- Setting, appending to or inserting into one valid string without a sticky status, with a
-- readable source of `0 < n <= SIZE_MAX` bytes and, for the insertion, `idx <= len`, leaves
-- every valid string in a separate block valid and with the same bytes, whether the write
-- succeeds or fails.
pub writes_leave_others :
    (h : Heap) (s t : Str) (idx p n : ℕ)
    → IsValid h s
    → IsValid h t
    → Separate s t
    → s.status ≡ ok
    → idx ≤ s.len
    → 0 < n
    → n ≤ size_max
    → IsSource h s p n
    → Leaves h t (set_n h (some s) p n)
      × Leaves h t (append_n h (some s) p n)
      × Leaves h t (insert_n h (some s) idx p n)
writes_leave_others h s t idx p n vs vt sep fine at_idx pos small source = (
  Answers-Leaves h s t _ _ vs vt sep (set_n-Answers h s p n vs fine (λ _. source) small),
  Answers-Leaves h s t _ _ vs vt sep (append_n-Answers h s p n vs fine (λ _. source) small),
  Answers-Leaves h s t _ _ vs vt sep (insert_n-Answers h s idx p n vs fine at_idx pos small source),
)
