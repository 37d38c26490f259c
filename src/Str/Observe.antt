-- ===== src/Str/Observe.antt =====
-- The observers of agenc-str/src/str.c. `empty_buf` is the address of the static one-byte string.
use agenc_c.Base.{ℕ, ◌+◌, ◌-◌, Bool, true, false, not, Option, none, some, ◌==◌, if◌then◌else◌}
use agenc_c.Str.Types.{Status, ok, err_arg, Str, View, Result, done, failed}
use agenc_c.Str.Size.{validate_span}

unfoldable pub cstr : ℕ → Option Str → ℕ
cstr empty_buf none = empty_buf
cstr empty_buf (some string) = if string.buf == 0 then empty_buf else string.buf

unfoldable pub len : Option Str → ℕ
len none = 0
len (some string) = string.len

unfoldable pub capacity : Option Str → ℕ
capacity none = 0
capacity (some string) = if string.cap == 0 then 0 else string.cap - 1

unfoldable pub is_empty : Option Str → Bool
is_empty string = len string == 0

unfoldable pub status : Option Str → Status
status none = err_arg
status (some string) = string.status

abbrev is_ok : Status → Bool
is_ok ok = true
is_ok _ = false

unfoldable pub str_ok : Option Str → Bool
str_ok none = false
str_ok (some string) = is_ok string.status

unfoldable pub str_failed : Option Str → Bool
unfolding str_ok
str_failed string = not (str_ok string)

abbrev pub make_view : ℕ → Str → View
make_view empty_buf string = record { ptr = cstr empty_buf (some string); len = string.len }

abbrev pub make_empty_view : ℕ → View
make_empty_view empty_buf = record { ptr = empty_buf; len = 0 }

unfoldable pub view : ℕ → Option Str → View
view empty_buf none = make_empty_view empty_buf
view empty_buf (some string) = make_view empty_buf string

-- `has_out` says that `out_view` is not NULL.
unfoldable pub slice : ℕ → Option Str → Bool → ℕ → ℕ → Result View
slice empty_buf none has_out offset n = failed err_arg
slice empty_buf (some string) false offset n = failed err_arg
slice empty_buf (some string) true offset n = elim (validate_span string.len offset n) [
  | ok ↦ done (record { ptr = cstr empty_buf (some string) + offset; len = n })
  | e ↦ failed e
]
