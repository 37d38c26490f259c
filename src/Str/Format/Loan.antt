-- ===== src/Str/Format/Loan.antt =====
-- A new block of str_append_vfmt in agenc-str/src/str.c: what it is given, and its return.
use agenc_c.Base.{ℕ, ◌+◌, ◌≤◌, ◌<◌, ◌≡◌, arith, List, size_max}
use native.Mathlib.Decide.{ℕ_discrete}
use agenc_c.Memory.{Heap, malloc}
use agenc_c.Str.Types.{
  Status, ok, err_alloc, err_arg, err_range, err_overflow, err_fmt, Str, Run, Result, done, failed,
}
use agenc_c.Str.Valid.{IsValid, Mutates, Quiet}
use agenc_c.Str.Buffer.{call_malloc, release_heap}
use agenc_c.Str.Write.{returned}
use agenc_c.Str.Lend.{IsLent, Quiet-Spared, release-Updated, release-Spared}
use agenc_c.Str.Replace.Splice.{Replaces}

pub Mutates-Replaces :
    (h : Heap) (s : Str) (text : List ℕ) (r : Run Status)
    → h.brk ≤ size_max
    → Mutates h s text r
    → Replaces h s text (returned r)
Mutates-Replaces h s text (h', s', ok) l m = m
Mutates-Replaces h s text (h', s', err_alloc) l m = (Quiet-Spared h h' l m.quiet, m.string)
Mutates-Replaces h s text (h', s', err_overflow) l m = (Quiet-Spared h h' l m.quiet, m.string)
Mutates-Replaces h s text (h', s', err_arg) l m = absurd m
Mutates-Replaces h s text (h', s', err_range) l m = absurd m
Mutates-Replaces h s text (h', s', err_fmt) l m = absurd m

-- An update over a loan, which is then given back.
pub lent-Replaces :
    (h : Heap) (s : Str) (n : ℕ) (h1 : Heap) (owner : ℕ) (text : List ℕ) (r : Run Status)
    → IsValid h s
    → IsLent h n h1 owner
    → Mutates h1 s text r
    → Replaces h s text (returned (release_heap r.0 owner, r.1, r.2))
lent-Replaces h s n h1 owner text (h', s', ok) v st m =
    release-Updated h s n v h1 owner st text h' s' m (ℕ_discrete owner 0)
lent-Replaces h s n h1 owner text (h', s', err_alloc) v st m =
    (release-Spared h s n v h1 owner st h' (Quiet-Spared h1 h' st.top m.quiet), m.string)
lent-Replaces h s n h1 owner text (h', s', err_overflow) v st m =
    (release-Spared h s n v h1 owner st h' (Quiet-Spared h1 h' st.top m.quiet), m.string)
lent-Replaces h s n h1 owner text (h', s', err_arg) v st m = absurd m
lent-Replaces h s n h1 owner text (h', s', err_range) v st m = absurd m
lent-Replaces h s n h1 owner text (h', s', err_fmt) v st m = absurd m

-- A new block of `n` bytes, or a refusal that leaves memory alone.
abbrev pub Obtains : Heap → ℕ → Heap × Result ℕ → Type 0
Obtains h n (h', done q) =
    (h.brk ≤ q)
    × (q + n ≤ size_max)
    × (h'.brk ≡ q + n)
    × (h'.size q ≡ n)
    × ((a : ℕ) → a < q → h'.size a ≡ h.size a)
    × (h'.byte ≡ h.byte)
    × (h'.live ≡ h.live + 1)
Obtains h n (h', failed err_alloc) = Quiet h h'
Obtains h n (h', failed e) = ⊥

pub call_malloc-Obtains : (h : Heap) (n : ℕ) → 0 < n → Obtains h n (call_malloc h n)
unfolding call_malloc malloc
call_malloc-Obtains h n pos = ground arith
