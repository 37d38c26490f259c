-- ===== src/Str/Search.antt =====
-- Substring search of agenc-str/src/str.c: the byte scans and the Two-Way search.
pub mod Scan
pub mod Walk
pub mod Loop
pub mod Suffix
pub mod Critical
pub mod Maximal
pub mod Plan
pub mod Align
pub mod Complete
pub mod Find
pub mod Char
use agenc_c.Base.{
  ℕ, zero, suc, ◌+◌, ◌-◌, Bool, true, false, ◌&&◌, ◌||◌, not, Option, none, some, ltb, leb, ◌==◌,
  if◌then◌else◌,
}
use agenc_c.Memory.{Heap}
use agenc_c.Str.Types.{Status, ok, err_arg, err_overflow, Str, View, Result, done, failed, npos}
use agenc_c.Str.Observe.{make_view}
use agenc_c.Str.View.{validate_view, view_from_cstr, view_from_n, is_byte_span_equal}

-- `str_search_mode_t`
pub data SearchMode : Type 0 where
  first last : SearchMode

-- `str_factor_t`
pub record Factor : Type 0 where
  pub cut : ℕ
  pub period : ℕ

-- `str_search_state_t`
pub record SearchState : Type 0 where
  pub idx : ℕ
  pub memory : ℕ

-- `str_suffix_walk_t`
pub record SuffixWalk : Type 0 where
  pub factor : Factor
  pub candidate : ℕ
  pub offset : ℕ

-- `str_search_context_t`
pub record SearchContext : Type 0 where
  pub haystack : View
  pub needle : View
  pub factor : Factor
  pub full_shift : ℕ
  pub saved_memory : ℕ
  pub last_idx : ℕ
  pub mode : SearchMode

abbrev pub read_view_byte : (ℕ → ℕ) → View → ℕ → ℕ
read_view_byte m view idx = m (view.ptr + idx)

-- The loop of `str_view_find_byte` at `idx` with `rounds` bytes left.
unfoldable pub find_byte_loop : (ℕ → ℕ) → ℕ → ℕ → ℕ → ℕ → ℕ
find_byte_loop m ptr byte idx zero = npos
find_byte_loop m ptr byte idx (suc rounds) =
    let rest = find_byte_loop m ptr byte (idx + 1) rounds in
    if m (ptr + idx) == byte then idx else rest

unfoldable pub view_find_byte : (ℕ → ℕ) → View → ℕ → ℕ
view_find_byte m haystack byte = find_byte_loop m haystack.ptr byte 0 haystack.len

-- The loop of `str_view_rfind_byte` with `idx` bytes left in front.
unfoldable pub rfind_byte_loop : (ℕ → ℕ) → ℕ → ℕ → ℕ → ℕ
rfind_byte_loop m ptr byte zero = npos
rfind_byte_loop m ptr byte (suc idx) =
    let rest = rfind_byte_loop m ptr byte idx in if m (ptr + idx) == byte then idx else rest

unfoldable pub view_rfind_byte : (ℕ → ℕ) → View → ℕ → ℕ
view_rfind_byte m haystack byte = rfind_byte_loop m haystack.ptr byte haystack.len

unfoldable pub search_view_byte : (ℕ → ℕ) → View → ℕ → SearchMode → ℕ
search_view_byte m haystack byte first = view_find_byte m haystack byte
search_view_byte m haystack byte last = view_rfind_byte m haystack byte

abbrev pub is_byte_before : ℕ → ℕ → Bool → Bool
is_byte_before left right is_reverse_order =
    if is_reverse_order then ltb right left else ltb left right

unfoldable pub suffix_walk_step : SuffixWalk → ℕ → ℕ → Bool → SuffixWalk
suffix_walk_step walk candidate_byte suffix_byte is_reverse_order =
    let factor = walk.factor in
    if candidate_byte == suffix_byte
    then if walk.offset == factor.period
      then record walk { candidate = walk.candidate + factor.period; offset = 1 }
      else record walk { offset = walk.offset + 1 }
    else if is_byte_before candidate_byte suffix_byte is_reverse_order
    then record {
      factor = record factor { period = walk.candidate + walk.offset - factor.cut + 1 };
      candidate = walk.candidate + walk.offset;
      offset = 1;
    }
    else record {
      factor = record { cut = walk.candidate + 1; period = 1 };
      candidate = walk.candidate + 1;
      offset = 1;
    }

abbrev pub walk_is_complete : SuffixWalk → View → Bool
walk_is_complete walk needle = leb (needle.len - walk.candidate) walk.offset

-- `str_run_suffix_walk_pass` with `steps` rounds left: the walk, and whether it is complete.
unfoldable pub suffix_walk_loop : (ℕ → ℕ) → SuffixWalk → View → Bool → ℕ → SuffixWalk × Bool
suffix_walk_loop m walk needle is_reverse_order zero = (walk, walk_is_complete walk needle)
suffix_walk_loop m walk needle is_reverse_order (suc steps) =
    let suffix_byte = read_view_byte m needle (walk.factor.cut + walk.offset - 1) in
    let candidate_byte = read_view_byte m needle (walk.candidate + walk.offset) in
    let rest =
      suffix_walk_loop m (suffix_walk_step walk candidate_byte suffix_byte is_reverse_order) needle
        is_reverse_order steps in
    if walk_is_complete walk needle then (walk, true) else rest

unfoldable pub run_suffix_walk_pass : (ℕ → ℕ) → SuffixWalk → View → Bool → SuffixWalk × Bool
run_suffix_walk_pass m walk needle is_reverse_order =
    suffix_walk_loop m walk needle is_reverse_order needle.len

abbrev pub first_walk : SuffixWalk
first_walk = record { factor = record { cut = 0; period = 1 }; candidate = 0; offset = 1 }

-- STR_SUFFIX_WALK_PASSES is 2: a second pass runs if the first is not complete.
unfoldable pub find_maximal_suffix_walk : (ℕ → ℕ) → View → Bool → SuffixWalk × Bool
find_maximal_suffix_walk m needle is_reverse_order =
    let (walk, is_complete) = run_suffix_walk_pass m first_walk needle is_reverse_order in
    if is_complete then (walk, true) else run_suffix_walk_pass m walk needle is_reverse_order

unfoldable pub find_maximal_suffix : (ℕ → ℕ) → View → Bool → Factor
find_maximal_suffix m needle is_reverse_order =
    (find_maximal_suffix_walk m needle is_reverse_order).0.factor

unfoldable pub find_critical_factor : (ℕ → ℕ) → View → Factor
find_critical_factor m needle =
    let forward = find_maximal_suffix m needle false in
    let reverse = find_maximal_suffix m needle true in
    if ltb forward.cut reverse.cut then reverse else forward

unfoldable pub is_factor_periodic : (ℕ → ℕ) → View → Factor → Bool
is_factor_periodic m needle factor =
    if ltb (needle.len - factor.cut) factor.period
    then false
    else is_byte_span_equal m needle.ptr (needle.ptr + factor.period) factor.cut

unfoldable pub calculate_nonperiodic_shift : View → Factor → ℕ
calculate_nonperiodic_shift needle factor =
    let left_shift = factor.cut in
    let right_shift = needle.len - factor.cut + 1 in
    if ltb right_shift left_shift then left_shift else right_shift

-- The `while` of `str_scan_right` with `rounds` bytes of the needle left from `scan` on.
unfoldable pub scan_right_loop : (ℕ → ℕ) → ℕ → ℕ → ℕ → ℕ → ℕ
scan_right_loop m needle candidate scan zero = scan
scan_right_loop m needle candidate scan (suc rounds) =
    let rest = scan_right_loop m needle candidate (scan + 1) rounds in
    if m (needle + scan) == m (candidate + scan) then rest else scan

unfoldable pub scan_right : (ℕ → ℕ) → View → View → Factor → SearchState → ℕ
scan_right m haystack needle factor state =
    let scan = if ltb factor.cut state.memory then state.memory else factor.cut in
    scan_right_loop m needle.ptr (haystack.ptr + state.idx) scan (needle.len - scan)

-- The `while` of `str_has_candidate_left_match` from `scan` down to `memory`.
unfoldable pub left_match_loop : (ℕ → ℕ) → ℕ → ℕ → ℕ → ℕ → Bool
left_match_loop m needle candidate memory zero = true
left_match_loop m needle candidate memory (suc idx) =
    let rest = left_match_loop m needle candidate memory idx in
    if ltb memory (suc idx)
    then if m (needle + idx) == m (candidate + idx) then rest else false
    else true

unfoldable pub has_candidate_left_match : (ℕ → ℕ) → View → View → Factor → SearchState → Bool
has_candidate_left_match m haystack needle factor state =
    left_match_loop m needle.ptr (haystack.ptr + state.idx) state.memory factor.cut

unfoldable pub search_advance : SearchState → ℕ → ℕ → SearchState × Bool
search_advance state last_idx shift =
    if ltb (last_idx - state.idx) shift
    then (state, false)
    else (record state { idx = state.idx + shift }, true)

unfoldable pub build_search_context : (ℕ → ℕ) → View → View → SearchMode → SearchContext
build_search_context m haystack needle mode =
    let factor = find_critical_factor m needle in
    let is_periodic = is_factor_periodic m needle factor in
    record {
      haystack = haystack;
      needle = needle;
      factor = factor;
      full_shift = if is_periodic then factor.period else calculate_nonperiodic_shift needle factor;
      saved_memory = if is_periodic then needle.len - factor.period else 0;
      last_idx = haystack.len - needle.len;
      mode = mode;
    }

unfoldable pub search_on_mismatch : SearchContext → SearchState → ℕ → SearchState × Bool
search_on_mismatch context state mismatch =
    let (state', has_next) =
      search_advance state context.last_idx (mismatch - context.factor.cut + 1) in
    (record state' { memory = 0 }, has_next)

-- The state, whether the search goes on, and `*found`.
abbrev pub Step : Type 0
Step = SearchState × Bool × ℕ

abbrev pub is_first : SearchMode → Bool
is_first first = true
is_first last = false

abbrev pub advance_full : SearchContext → SearchState → ℕ → Step
advance_full context state found =
    let (state', has_next) = search_advance state context.last_idx context.full_shift in
    (record state' { memory = context.saved_memory }, has_next, found)

unfoldable pub search_after_right_match : (ℕ → ℕ) → SearchContext → SearchState → ℕ → Step
search_after_right_match m context state found =
    if has_candidate_left_match m context.haystack context.needle context.factor state
    then if is_first context.mode
      then (state, false, state.idx)
      else advance_full context state state.idx
    else advance_full context state found

unfoldable pub search_step : (ℕ → ℕ) → SearchContext → SearchState → ℕ → Step
search_step m context state found =
    let mismatch = scan_right m context.haystack context.needle context.factor state in
    if ltb mismatch context.needle.len
    then (let (state', has_next) = search_on_mismatch context state mismatch in
        (state', has_next, found))
    else search_after_right_match m context state found

-- The loop of `str_search_two_way` with `rounds` rounds left.
unfoldable pub search_loop : (ℕ → ℕ) → SearchContext → SearchState → ℕ → ℕ → ℕ
search_loop m context state found zero = found
search_loop m context state found (suc rounds) =
    let (state', has_next, found') = search_step m context state found in
    elim has_next [ true ↦ search_loop m context state' found' rounds | false ↦ found' ]

unfoldable pub search_two_way : (ℕ → ℕ) → View → View → SearchMode → ℕ
search_two_way m haystack needle mode =
    let context = build_search_context m haystack needle mode in
    search_loop m context (record { idx = 0; memory = 0 }) npos (context.last_idx + 1)

unfoldable pub search_view : (ℕ → ℕ) → View → View → SearchMode → ℕ
search_view m haystack needle mode =
    if (haystack.ptr == 0) || ltb haystack.len needle.len
    then npos
    else if needle.len == 1
    then search_view_byte m haystack (m needle.ptr) mode
    else search_two_way m haystack needle mode

unfoldable pub locate_view_match : (ℕ → ℕ) → View → View → SearchMode → ℕ
locate_view_match m haystack needle mode =
    if ltb 0 needle.len
    then search_view m haystack needle mode
    else if is_first mode
    then 0
    else haystack.len

unfoldable pub find_view_match : (ℕ → ℕ) → Bool → View → View → SearchMode → Result ℕ
find_view_match m false haystack needle mode = failed err_arg
find_view_match m true haystack needle mode = elim (validate_view haystack) [
  | ok ↦ elim (validate_view needle) [
    | ok ↦
        if not (is_first mode) && ((needle.len == 0) && (haystack.len == npos))
        then failed err_overflow
        else done (locate_view_match m haystack needle mode)
    | e ↦ failed e
  ]
  | e ↦ failed e
]

unfoldable pub view_find : (ℕ → ℕ) → Bool → View → View → Result ℕ
view_find m has_out haystack needle = find_view_match m has_out haystack needle first

unfoldable pub view_rfind : (ℕ → ℕ) → Bool → View → View → Result ℕ
view_rfind m has_out haystack needle = find_view_match m has_out haystack needle last

-- `str_find`; a NULL needle is 0.
unfoldable pub find : ℕ → Heap → Bool → Option Str → ℕ → Result ℕ
find empty_buf h has_out none needle = failed err_arg
find empty_buf h has_out (some string) needle =
    if not has_out || (needle == 0)
    then failed err_arg
    else done (
        locate_view_match h.byte (make_view empty_buf string) (view_from_cstr empty_buf h needle)
          first)

-- `str_find_char`; `local` is the address of the one-byte needle on the stack, which holds `byte`.
unfoldable pub find_char : ℕ → (ℕ → ℕ) → Bool → Option Str → ℕ → Result ℕ
find_char empty_buf m has_out none local = failed err_arg
find_char empty_buf m has_out (some string) local =
    if not has_out
    then failed err_arg
    else done
        (locate_view_match m (make_view empty_buf string) (view_from_n empty_buf local 1) first)
