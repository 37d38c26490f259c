-- ===== src/Str/Life.antt =====
-- The lifecycle of agenc-str/src/str.c: init, deinit, clear, move, copy and detach.
pub mod Copy
pub mod Move
use agenc_c.Base.{ℕ, Option, none, some, if◌then◌else◌}
use agenc_c.Memory.{Heap}
use agenc_c.Str.Types.{Status, ok, err_arg, Str, empty, done, failed, Run, Call}
use agenc_c.Str.Source.{set_failure}
use agenc_c.Str.Buffer.{
  is_owned, reset_state, clear_failure, clear_content, release_heap, take_owned_buffer,
  allocate_empty_buffer,
}
use agenc_c.Str.Write.{set_valid_span, proceed}
use agenc_c.Str.Observe.{cstr, len}

-- The storage is uninitialised, so what it holds is not read.
unfoldable pub init : Option Str → Option Str
init none = none
init (some string) = some (reset_state string)

unfoldable pub deinit_valid : Heap → Str → Heap × Str
deinit_valid h string =
    (if is_owned string then release_heap h string.buf else h, reset_state string)

unfoldable pub deinit : Heap → Option Str → Heap × Option Str
deinit h none = (h, none)
deinit h (some string) = let (h', s) = deinit_valid h string in (h', some s)

unfoldable pub clear : Heap → Option Str → Heap × Option Str
clear h none = (h, none)
clear h (some string) = let (h', s) = clear_content h (clear_failure string) in (h', some s)

unfoldable pub clear_error : Option Str → Option Str
clear_error none = none
clear_error (some string) = some (clear_failure string)

-- The second pointer of a call on two strings, against the first.
pub data Operand : Type 0 where
  null : Operand
  same : Operand
  other : Str → Operand

-- `*destination = *source`, and the source is reset: (destination, source).
abbrev pub transfer_state : Str → Str → Str × Str
transfer_state destination source = (source, reset_state source)

unfoldable pub move : Heap → Option Str → Operand → Heap × Option Str × Operand
move h none source = (h, none, source)
move h (some destination) null = (h, some destination, null)
move h (some destination) same = (h, some destination, same)
move h (some destination) (other source) =
    let (h', d) = deinit_valid h destination in
    let (d', s') = transfer_state d source in (h', some d', other s')

-- What follows the copy into `scratch`: its move into the destination, or its release and the
-- recorded failure.
abbrev pub adopted : Str → Run Status → Call
adopted destination (h, scratch, ok) =
    let (h', d) = deinit_valid h destination in (h', some (transfer_state d scratch).0, ok)
adopted destination (h, scratch, e) =
    let (h', s) = deinit_valid h scratch in (h', some (set_failure destination e), e)

-- `str_copy` past the test of the destination.
abbrev pub copied : ℕ → Heap → Str → Operand → Call
copied empty_buf h destination null = (h, some (set_failure destination err_arg), err_arg)
copied empty_buf h destination same = (h, some destination, ok)
copied empty_buf h destination (other source) =
    adopted destination (set_valid_span h empty (cstr empty_buf (some source)) (len (some source)))

-- `str_copy` reads its source and leaves it as it was.
unfoldable pub copy : ℕ → Heap → Option Str → Operand → Call
copy empty_buf h none source = (h, none, err_arg)
copy empty_buf h (some destination) source =
    proceed h (some destination, destination.status) (λ d. copied empty_buf h d source)

-- The result is the buffer that now belongs to the caller, or 0.
unfoldable pub detach : Heap → Option Str → Heap × Option Str × ℕ
detach h none = (h, none, 0)
detach h (some string) =
    if is_owned string
    then (let (s, p) = take_owned_buffer string in (h, some s, p))
    else (let (h', r) = allocate_empty_buffer h in
        elim r [
          | failed e ↦ (h', some (set_failure string e), 0)
          | done p ↦ (h', some (reset_state string), p)
        ])
