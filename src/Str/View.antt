-- ===== src/Str/View.antt =====
-- Views of agenc-str/src/str.c: validity, byte equality, order, prefix and suffix. `m` is the
-- memory that the borrowed bytes are read from; `has_out` says that an out pointer is not NULL.
pub mod Order
use agenc_c.Base.{
  ℕ, zero, suc, ◌+◌, ◌-◌, Bool, true, false, ◌&&◌, ◌||◌, not, Option, none, some, ltb, ◌==◌,
  if◌then◌else◌,
}
use agenc_c.Memory.{Heap, memcmp, Sign, less, equal, greater, strlen}
use agenc_c.Str.Types.{Status, ok, err_arg, Str, View, Result, done, failed}
use agenc_c.Str.Observe.{make_view, make_empty_view}

unfoldable pub view_is_valid : View → Bool
view_is_valid view = not (view.ptr == 0) || (view.len == 0)

unfoldable pub validate_view : View → Status
validate_view view = if not (view_is_valid view) then err_arg else ok

unfoldable pub has_valid_views : View → View → Bool
has_valid_views left right = view_is_valid left && view_is_valid right

-- `str_view_from_n`
unfoldable pub view_from_n : ℕ → ℕ → ℕ → View
view_from_n empty_buf source len =
    if (source == 0) && (len == 0)
    then make_empty_view empty_buf
    else record { ptr = source; len = len }

-- `str_view_from_cstr`
unfoldable pub view_from_cstr : ℕ → Heap → ℕ → View
view_from_cstr empty_buf h source =
    if source == 0
    then make_empty_view empty_buf
    else view_from_n empty_buf source (strlen h source)

-- `memcmp(…) == 0`
abbrev pub is_zero : Sign → Bool
is_zero equal = true
is_zero _ = false

unfoldable pub is_byte_span_equal : (ℕ → ℕ) → ℕ → ℕ → ℕ → Bool
is_byte_span_equal m left right len = if len == 0 then true else is_zero (memcmp m left right len)

-- `str_compare_order_t` is the sign of the order: STR_COMPARE_LESS, EQUAL and GREATER.
unfoldable pub compare_bytes : (ℕ → ℕ) → ℕ → ℕ → ℕ → Sign
compare_bytes m left right len = if len == 0 then equal else memcmp m left right len

unfoldable pub compare_lengths : ℕ → ℕ → Sign
compare_lengths left_len right_len =
    if ltb left_len right_len then less else if ltb right_len left_len then greater else equal

unfoldable pub compare_valid_views : (ℕ → ℕ) → View → View → Sign
compare_valid_views m left right =
    elim (compare_bytes m left.ptr right.ptr
      (if ltb left.len right.len then left.len else right.len)) [
        | equal ↦ compare_lengths left.len right.len
        | less ↦ less
        | greater ↦ greater
      ]

unfoldable pub is_view_content_equal : (ℕ → ℕ) → View → View → Bool
is_view_content_equal m left right =
    if not (left.len == right.len) then false else is_byte_span_equal m left.ptr right.ptr left.len

unfoldable pub has_view_prefix : (ℕ → ℕ) → View → View → Bool
has_view_prefix m value prefix =
    if ltb value.len prefix.len then false else is_byte_span_equal m value.ptr prefix.ptr prefix.len

unfoldable pub has_view_suffix : (ℕ → ℕ) → View → View → Bool
has_view_suffix m value suffix =
    if ltb value.len suffix.len
    then false
    else if suffix.len == 0
    then true
    else is_byte_span_equal m (value.ptr + (value.len - suffix.len)) suffix.ptr suffix.len

unfoldable pub view_equals : (ℕ → ℕ) → View → View → Bool
view_equals m left right =
    if not (has_valid_views left right) then false else is_view_content_equal m left right

unfoldable pub view_compare : (ℕ → ℕ) → Bool → View → View → Result Sign
view_compare m false left right = failed err_arg
view_compare m true left right = elim (validate_view left) [
  | ok ↦ elim (validate_view right) [ ok ↦ done (compare_valid_views m left right) | e ↦ failed e ]
  | e ↦ failed e
]

unfoldable pub view_starts_with : (ℕ → ℕ) → View → View → Bool
view_starts_with m value prefix =
    if not (has_valid_views value prefix) then false else has_view_prefix m value prefix

unfoldable pub view_ends_with : (ℕ → ℕ) → View → View → Bool
view_ends_with m value suffix =
    if not (has_valid_views value suffix) then false else has_view_suffix m value suffix

-- The tests on whole strings; `other`, `prefix` and `suffix` are C strings.
unfoldable pub equals : ℕ → (ℕ → ℕ) → Option Str → Option Str → Bool
equals empty_buf m none other = false
equals empty_buf m (some string) none = false
equals empty_buf m (some string) (some other) =
    is_view_content_equal m (make_view empty_buf string) (make_view empty_buf other)

unfoldable pub equals_cstr : ℕ → Heap → Option Str → ℕ → Bool
equals_cstr empty_buf h none other = false
equals_cstr empty_buf h (some string) other =
    if other == 0
    then false
    else is_view_content_equal h.byte (make_view empty_buf string)
        (view_from_cstr empty_buf h other)

unfoldable pub starts_with : ℕ → Heap → Option Str → ℕ → Bool
starts_with empty_buf h none prefix = false
starts_with empty_buf h (some string) prefix =
    if prefix == 0
    then false
    else has_view_prefix h.byte (make_view empty_buf string) (view_from_cstr empty_buf h prefix)

unfoldable pub ends_with : ℕ → Heap → Option Str → ℕ → Bool
ends_with empty_buf h none suffix = false
ends_with empty_buf h (some string) suffix =
    if suffix == 0
    then false
    else has_view_suffix h.byte (make_view empty_buf string) (view_from_cstr empty_buf h suffix)
