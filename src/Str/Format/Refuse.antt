-- ===== src/Str/Format/Refuse.antt =====
-- str_append_vfmt of agenc-str/src/str.c where vsnprintf fails, or renders another length the second
-- time.
use agenc_c.Base.{ℕ, ◌+◌, ◌^◌, ◌≤◌, ◌<◌, ◌≡◌, ◌≢◌, ◌⊎◌, Option, none, some}
use agenc_c.Memory.{Heap}
use agenc_c.Str.Types.{ok, err_alloc, err_fmt, Str, Call, Result}
use agenc_c.Str.Source.{set_failure}
use agenc_c.Str.Valid.{IsValid}
use agenc_c.Str.Write.{returned}
use agenc_c.Str.Lend.{Spared}
use agenc_c.Str.Format.{Vsnprintf, Destination, format_stack_bytes, rendered}

-- A call of vsnprintf that writes in its destination only, and returns an `int`.
pub record Writes (h : Heap) (buf cap : ℕ) (h' : Heap) (printed : Option ℕ) : Type 0 where
  pub int : (n : ℕ) → printed ≡ some n → n < 2 ^ 31
  pub other : (a : ℕ) → (a < buf) ⊎ (buf + cap ≤ a) → h'.byte a ≡ h.byte a
  pub size : h'.size ≡ h.size
  pub brk : h'.brk ≡ h.brk
  pub live : h'.live ≡ h.live

-- The first rendering fails, or it is too long for the array on the stack and none in a block above
-- has its length.
pub record Wavers {Args : Type 0} (vsnprintf : Vsnprintf Args) (h : Heap) (local format : ℕ)
    (arguments : Args) (n : ℕ) : Type 0 where
  pub first :
      let printed = (vsnprintf h local format_stack_bytes format arguments).1 in
      (printed ≡ none) ⊎ ((printed ≡ some n) × (format_stack_bytes ≤ n))
  pub on_stack :
      let (h', printed) = vsnprintf h local format_stack_bytes format arguments in
      Writes h local format_stack_bytes h' printed
  pub in_block :
      (h1 : Heap) (buf cap : ℕ)
      → 0 < cap
      → h.brk ≤ buf
      → buf + cap ≤ h1.brk
      → let (h', printed) = vsnprintf h1 buf cap format arguments in
        Writes h1 buf cap h' printed × (printed ≢ some n)

-- The call fails with STR_ERR_FMT, or with STR_ERR_ALLOC if the block was refused, and records it.
abbrev pub Refuses : Heap → Str → Call → Type 0
Refuses h s (h', some s', err_fmt) = Spared h h' × (s' ≡ set_failure s err_fmt)
Refuses h s (h', some s', err_alloc) = Spared h h' × (s' ≡ set_failure s err_alloc)
Refuses h s _ = ⊥

module _ {Args : Type 0} (vsnprintf : Vsnprintf Args) (format : ℕ) (arguments : Args) where
  module _ (h : Heap) (s : Str) (local n : ℕ) (v : IsValid h s) (fine : s.status ≡ ok)
      (w : Wavers vsnprintf h local format arguments n) where
    abbrev on_stack : Heap
    on_stack = (vsnprintf h local format_stack_bytes format arguments).0

    abbrev destination : Destination
    destination = record { buf = local; capacity = format_stack_bytes }

    abbrev rest : Heap × Result ℕ → Call
    rest r = returned (rendered vsnprintf s destination format arguments r)
