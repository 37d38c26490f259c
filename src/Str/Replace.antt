-- ===== src/Str/Replace.antt =====
-- str_replace_view of agenc-str/src/str.c: an equal span in place, or a staged copy of an
-- internal replacement, growth, and the move of the suffix.
pub mod Commit
pub mod Stage
pub mod Release
pub mod Splice
use agenc_c.Base.{ℕ, ◌+◌, ◌-◌, ◌&&◌, Option, ◌==◌, if◌then◌else◌}
use agenc_c.Memory.{Heap}
use agenc_c.Str.Types.{Status, ok, Str, View, Result, done, failed, Run, Call}
use agenc_c.Str.Size.{calculate_capacity, calculate_replacement_length, validate_span}
use agenc_c.Str.Source.{set_failure, begin_mutation, detect_overlap}
use agenc_c.Str.Buffer.{ensure_capacity, allocate_heap, release_heap}
use agenc_c.Str.Write.{write_terminator, move_bytes, returned, proceed, rebased}

unfoldable pub write_content : Heap → Str → ℕ → ℕ → ℕ → Heap
write_content h string idx source len = move_bytes h (string.buf + idx) source len

-- `str_staged_view_t`; `owned_buf` is 0 unless the view points to staged storage.
pub record Staged : Type 0 where
  pub view : View
  pub owned_buf : ℕ

unfoldable pub stage_replacement : Heap → Str → View → Heap × Result Staged
stage_replacement h string source =
    if source.len == 0
    then (h, done (record { view = source; owned_buf = 0 }))
    else elim (detect_overlap string source.ptr source.len) [
      | failed e ↦ (h, failed e)
      | done overlap ↦
          if overlap.is_inside
          then (let (h', r) = allocate_heap h source.len in
              elim r [
                | failed e ↦ (h', failed e)
                | done p ↦ (
                  move_bytes h' p source.ptr source.len,
                  done (record { view = record source { ptr = p }; owned_buf = p }),
                )
              ])
          else (h, done (record { view = source; owned_buf = 0 }))
    ]

unfoldable pub commit_replacement : Heap → Str → ℕ → ℕ → View → Heap × Str
commit_replacement h string idx remove_len replacement =
    let suffix_idx = idx + remove_len in
    let suffix_len = string.len - suffix_idx + 1 in
    let new_len = string.len - remove_len + replacement.len in
    let h1 =
      move_bytes h (string.buf + idx + replacement.len) (string.buf + suffix_idx) suffix_len in
    let h2 = move_bytes h1 (string.buf + idx) replacement.ptr replacement.len in
    let s = record string { len = new_len } in (write_terminator h2 s, s)

unfoldable pub replace_equal_span : Heap → Str → ℕ → View → Run Status
replace_equal_span h string idx replacement =
    elim (detect_overlap string replacement.ptr replacement.len) [
      | failed e ↦ (h, string, e)
      | done overlap ↦ (
        write_content h string idx (rebased string overlap replacement.ptr) replacement.len,
        string,
        ok,
      )
    ]

-- Growth and commit with the staged view, whose storage is released on both ways out.
abbrev pub committed : ℕ → ℕ → Staged → Run Status → Run Status
committed idx remove_len staged (h, string, ok) =
    let (h', s) = commit_replacement h string idx remove_len staged.view in
    (release_heap h' staged.owned_buf, s, ok)
committed idx remove_len staged (h, string, e) = (release_heap h staged.owned_buf, string, e)

abbrev pub staged_replacement : ℕ → ℕ → ℕ → Str → Heap × Result Staged → Run Status
staged_replacement need idx remove_len string (h, failed e) = (h, string, e)
staged_replacement need idx remove_len string (h, done staged) =
    committed idx remove_len staged (ensure_capacity h string need)

unfoldable pub replace_resized_span : Heap → Str → ℕ → ℕ → ℕ → View → Run Status
replace_resized_span h string idx remove_len new_len replacement =
    elim (calculate_capacity 0 new_len) [
      | failed e ↦ (h, string, e)
      | done need ↦
          staged_replacement need idx remove_len string (stage_replacement h string replacement)
    ]

unfoldable pub apply_replacement : Heap → Str → ℕ → ℕ → View → Run Status
apply_replacement h string idx remove_len replacement =
    if remove_len == replacement.len
    then replace_equal_span h string idx replacement
    else elim (calculate_replacement_length string.len remove_len replacement.len) [
      | failed e ↦ (h, string, e)
      | done new_len ↦ replace_resized_span h string idx remove_len new_len replacement
    ]

-- A failure of the replacement is recorded.
abbrev pub settled : Run Status → Run Status
settled (h, string, ok) = (h, string, ok)
settled (h, string, e) = (h, set_failure string e, e)

unfoldable pub replace_valid : Heap → Str → ℕ → ℕ → View → Run Status
replace_valid h string idx remove_len replacement = elim (validate_span string.len idx remove_len) [
  | ok ↦
      if (remove_len == 0) && (replacement.len == 0)
      then (h, string, ok)
      else settled (apply_replacement h string idx remove_len replacement)
  | e ↦ (h, set_failure string e, e)
]

unfoldable pub replace_view : Heap → Option Str → ℕ → ℕ → View → Call
replace_view h string idx remove_len replacement =
    proceed h (begin_mutation string replacement.ptr replacement.len)
      (λ s. returned (replace_valid h s idx remove_len replacement))
