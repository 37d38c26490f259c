-- ===== src/Str/Names.antt =====
-- str_status_name of agenc-str/src/str.c.
use Prim.Native.String.{String}
use text.Mathlib.Text.{◌==◌ as str_eq}
use agenc_c.Base.{ℕ, ◌≡◌, ◌≢◌, refl, arith, List, [], ◌∷◌, Option, none, some, if◌then◌else◌, ◌==◌}
use agenc_c.Str.Types.{Status, ok, err_arg, err_alloc, err_range, err_overflow, err_fmt}

-- The values of `str_status_t` in agenc-str/include/str.h without their minus sign.
abbrev pub enum_value : Status → ℕ
enum_value ok = 0
enum_value err_arg = 1
enum_value err_alloc = 2
enum_value err_range = 3
enum_value err_overflow = 4
enum_value err_fmt = 5

-- `str_status_name_t`
pub record StatusName : Type 0 where
  pub status : Status
  pub name : String

abbrev pub status_names : List StatusName
status_names =
    record { status = ok; name = "STR_OK" }
    ∷ record { status = err_arg; name = "STR_ERR_ARG" }
    ∷ record { status = err_alloc; name = "STR_ERR_ALLOC" }
    ∷ record { status = err_range; name = "STR_ERR_RANGE" }
    ∷ record { status = err_overflow; name = "STR_ERR_OVERFLOW" }
    ∷ record { status = err_fmt; name = "STR_ERR_FMT" }
    ∷ []

-- The loop over the rest of the table. The argument is an `int`, which need not be a status.
unfoldable pub name_loop : List StatusName → ℕ → String
name_loop [] value = "STR_ERR_UNKNOWN"
name_loop (entry ∷ entries) value =
    let rest = name_loop entries value in
    if enum_value entry.status == value then entry.name else rest

unfoldable pub status_name : ℕ → String
status_name value = name_loop status_names value

-- The status that a table has under a name.
named : List StatusName → String → Option Status
named [] name = none
named (entry ∷ entries) name =
    let rest = named entries name in if str_eq entry.name name then some entry.status else rest

-- The name of a status tells the status.
status_name_round_trip : (e : Status) → named status_names (status_name (enum_value e)) ≡ some e
unfolding status_name name_loop named
status_name_round_trip ok = refl
status_name_round_trip err_arg = refl
status_name_round_trip err_alloc = refl
status_name_round_trip err_range = refl
status_name_round_trip err_overflow = refl
status_name_round_trip err_fmt = refl

-- A value that is no status is unknown.
status_name_unknown :
    (number : ℕ) → ((e : Status) → enum_value e ≢ number) → status_name number ≡ "STR_ERR_UNKNOWN"
unfolding status_name name_loop
status_name_unknown number other = ground (
  arith,
  other ok,
  other err_arg,
  other err_alloc,
  other err_range,
  other err_overflow,
  other err_fmt,
)
