-- ===== src/Arena/Names.antt =====
-- arena_status_name of agenc-arena/src/arena.c.
use Prim.Native.String.{String}
use text.Mathlib.Text.{◌==◌ as str_eq}
use agenc_c.Base.{◌≡◌, refl, Option, none, some, if◌then◌else◌}
use agenc_c.Arena.Types.{ArenaStatus, ok, err_arg, err_alloc, err_overflow}

-- The argument is an `int`; `none` is a value that is no status.
unfoldable pub arena_status_name : Option ArenaStatus → String
arena_status_name (some ok) = "ARENA_OK"
arena_status_name (some err_arg) = "ARENA_ERR_ARG"
arena_status_name (some err_alloc) = "ARENA_ERR_ALLOC"
arena_status_name (some err_overflow) = "ARENA_ERR_OVERFLOW"
arena_status_name none = "ARENA_ERR_UNKNOWN"

named : String → Option ArenaStatus
named name =
    if str_eq name "ARENA_OK"
    then some ok
    else if str_eq name "ARENA_ERR_ARG"
    then some err_arg
    else if str_eq name "ARENA_ERR_ALLOC"
    then some err_alloc
    else if str_eq name "ARENA_ERR_OVERFLOW"
    then some err_overflow
    else none

-- The name of a status tells the status, and no status has the name of an unknown value.
arena_status_name_round_trip :
    (status : Option ArenaStatus) → named (arena_status_name status) ≡ status
unfolding arena_status_name named
arena_status_name_round_trip (some ok) = refl
arena_status_name_round_trip (some err_arg) = refl
arena_status_name_round_trip (some err_alloc) = refl
arena_status_name_round_trip (some err_overflow) = refl
arena_status_name_round_trip none = refl
