-- ===== src/Str/Split.antt =====
-- str_split_view of agenc-str/src/str.c.
pub mod Pieces
pub mod Loop
use agenc_c.Base.{
  ℕ, zero, suc, ◌+◌, ◌-◌, Bool, true, false, ◌&&◌, ◌||◌, not, ltb, leb, ◌==◌, if◌then◌else◌,
  size_max,
}
use agenc_c.Str.Types.{Status, ok, err_arg, err_overflow, View, Result, done, failed, npos}
use agenc_c.Str.View.{validate_view}

-- `str_split_out_t`; `parts` is NULL (0) or the array whose elements `part` gives. From index
-- `cap` on, `part` is what lies behind the array.
pub record SplitOut : Type 0 where
  pub parts : ℕ
  pub cap : ℕ
  pub count : ℕ
  pub part : ℕ → View

-- `has_out` says that `split_output` is not NULL.
unfoldable pub validate_split_arguments : View → Bool → SplitOut → Status
validate_split_arguments source has_out split_output =
    if not has_out
    then err_arg
    else if ltb 0 split_output.cap && (split_output.parts == 0)
    then err_arg
    else validate_view source

unfoldable pub store_split_part : SplitOut → ℕ → ℕ → ℕ → SplitOut
store_split_part split_output count source len =
    if leb split_output.cap count then split_output else record split_output {
      part = λ k. if k == count then record { ptr = source; len = len } else split_output.part k;
    }

-- The loop of `str_find_separator` at `idx` with `rounds` bytes left.
unfoldable pub separator_loop : (ℕ → ℕ) → ℕ → ℕ → ℕ → ℕ → ℕ
separator_loop m buffer separator idx zero = npos
separator_loop m buffer separator idx (suc rounds) =
    let rest = separator_loop m buffer separator (idx + 1) rounds in
    if m (buffer + idx) == separator then idx else rest

unfoldable pub find_separator : (ℕ → ℕ) → View → ℕ → ℕ → ℕ
find_separator m source idx separator = separator_loop m source.ptr separator idx (source.len - idx)

-- The last part, and the count.
abbrev pub finish_split : SplitOut → View → ℕ → ℕ → SplitOut
finish_split split_output source start count =
    let stored = store_split_part split_output count (source.ptr + start) (source.len - start) in
    record stored { count = count + 1 }

-- The `while` over the cursor, which is equal to `start` throughout, with `rounds` rounds left.
unfoldable pub split_loop : (ℕ → ℕ) → SplitOut → View → ℕ → ℕ → ℕ → ℕ → SplitOut
split_loop m split_output source separator start count zero =
    finish_split split_output source start count
split_loop m split_output source separator start count (suc rounds) =
    let separator_idx = find_separator m source start separator in
    let rest =
      split_loop m
        (store_split_part split_output count (source.ptr + start) (separator_idx - start)) source
        separator (separator_idx + 1) (count + 1) rounds in
    if leb source.len start || (separator_idx == npos)
    then finish_split split_output source start count
    else rest

-- Whether all bytes are separators, from `idx` on with `rounds` bytes left.
unfoldable pub all_separators : (ℕ → ℕ) → ℕ → ℕ → ℕ → ℕ → Bool
all_separators m buffer separator idx zero = true
all_separators m buffer separator idx (suc rounds) =
    let rest = all_separators m buffer separator (idx + 1) rounds in
    if m (buffer + idx) == separator then rest else false

-- `str_get_view_buffer`
abbrev pub get_view_buffer : ℕ → View → ℕ
get_view_buffer empty_buf view = if view.ptr == 0 then empty_buf else view.ptr

-- Each round but the last passes a separator, so `len` rounds are enough.
unfoldable pub write_split_parts : ℕ → (ℕ → ℕ) → SplitOut → View → ℕ → Result SplitOut
write_split_parts empty_buf m split_output source separator =
    let buffer = get_view_buffer empty_buf source in
    let all = all_separators m buffer separator 0 source.len in
    let out = split_loop m split_output (record source { ptr = buffer }) separator 0 0 source.len in
    if source.len == size_max then if all then failed err_overflow else done out else done out

unfoldable pub split_view : ℕ → (ℕ → ℕ) → View → Bool → SplitOut → ℕ → Result SplitOut
split_view empty_buf m source has_out split_output separator =
    elim (validate_split_arguments source has_out split_output) [
      | ok ↦ write_split_parts empty_buf m split_output source separator
      | e ↦ failed e
    ]
