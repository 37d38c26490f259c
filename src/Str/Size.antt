-- ===== src/Str/Size.antt =====
-- The size arithmetic of agenc-str/src/str.c: checked sums and the geometric growth policy.
pub mod Bounds
use agenc_c.Base.{
  ℕ, zero, suc, ◌+◌, ◌-◌, ◌*◌, ◌/◌, ◌%◌, Bool, ltb, leb, if◌then◌else◌, size_max, word,
}
use agenc_c.Str.Types.{
  Status, err_overflow, err_range, Result, done, failed, ok, min_capacity_bytes,
  max_capacity_growth_steps,
}

unfoldable pub add_size : ℕ → ℕ → Result ℕ
add_size base increment =
    if ltb (size_max - increment) base
    then failed err_overflow
    else done ((base + increment) % word)

unfoldable pub calculate_capacity : ℕ → ℕ → Result ℕ
unfolding add_size
calculate_capacity len additional_len = elim (add_size len additional_len) [
  | failed e ↦ failed e
  | done n ↦ add_size n 1
]

unfoldable pub calculate_replacement_length : ℕ → ℕ → ℕ → Result ℕ
unfolding add_size
calculate_replacement_length old_len remove_len added_len =
    add_size (old_len - remove_len) added_len

unfoldable pub has_capacity_doubling_overflow : ℕ → Bool
has_capacity_doubling_overflow cap = ltb (size_max / 2) cap

-- The loop of `str_grow_capacity` with `steps` rounds left; with none left it tests once more.
unfoldable pub grow_loop : ℕ → ℕ → ℕ → Result ℕ
unfolding has_capacity_doubling_overflow
grow_loop zero cap need = if leb need cap then done cap else failed err_overflow
grow_loop (suc steps) cap need =
    let next = grow_loop steps (cap * 2 % word) need in
    if leb need cap
    then done cap
    else if has_capacity_doubling_overflow cap
    then done need
    else next

unfoldable pub grow_capacity : ℕ → ℕ → Result ℕ
grow_capacity cap need = grow_loop max_capacity_growth_steps cap need

unfoldable pub choose_capacity : ℕ → ℕ → Result ℕ
choose_capacity current_cap need =
    if leb need current_cap
    then done current_cap
    else grow_capacity
        (if ltb current_cap min_capacity_bytes then min_capacity_bytes else current_cap) need

-- `str_validate_span`: `ok` exactly if [idx, idx + span) lies in [0, len].
unfoldable pub validate_span : ℕ → ℕ → ℕ → Status
validate_span len idx span =
    if ltb len idx then err_range else if ltb (len - idx) span then err_range else ok
