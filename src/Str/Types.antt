-- ===== src/Str/Types.antt =====
-- The types of agenc-str/include/str.h and of the head of agenc-str/src/str.c.
use agenc_c.Base.{ℕ, Bool, Option}
use agenc_c.Memory.{Heap}

-- `str_status_t`
pub data Status : Type 0 where
  ok err_arg err_alloc err_range err_overflow err_fmt : Status

-- `str_t`. Pointers are addresses, and 0 is NULL.
pub record Str : Type 0 where
  pub buf : ℕ
  pub len : ℕ
  pub cap : ℕ
  pub status : Status

-- STR_EMPTY
abbrev pub empty : Str
empty = record { buf = 0; len = 0; cap = 0; status = ok }

-- `str_view_t`
pub record View : Type 0 where
  pub ptr : ℕ
  pub len : ℕ

-- A status with an out parameter that is written exactly on success: `failed` holds the status
-- of a refusal, which is never `ok`.
pub data Result {ℓ} (A : Type ℓ) : Type ℓ where
  done : A → Result A
  failed : Status → Result A

-- What a call on a non-NULL string leaves behind, with its result.
abbrev pub Run {ℓ} : Type ℓ → Type ℓ
Run A = Heap × Str × A

-- A call on a pointer that may be NULL (`none`).
abbrev pub Call : Type 0
Call = Heap × Option Str × Status

-- STR_MIN_CAPACITY_BYTES, STR_MAX_CAPACITY_GROWTH_STEPS, STR_FORMAT_STACK_BYTES and STR_NPOS
abbrev pub min_capacity_bytes : ℕ
min_capacity_bytes = 16

abbrev pub max_capacity_growth_steps : ℕ
max_capacity_growth_steps = 64

abbrev pub npos : ℕ
npos = 0xffff_ffff_ffff_ffff

-- `str_overlap_t`
pub record Overlap : Type 0 where
  pub is_inside : Bool
  pub idx : ℕ
