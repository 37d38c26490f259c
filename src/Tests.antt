-- ===== src/Tests.antt =====
-- Runs of the model on small inputs, and each theorem that has hypotheses at an input that meets
-- them.
use agenc_c.Base.{
  ℕ, zero, suc, ◌+◌, ◌-◌, ◌≤◌, ◌<◌, ◌≡◌, ◌≢◌, ◌↔◌, refl, inl, inr, arith, List, [], ◌∷◌, ◌++◌, some,
  none, take, drop, replicate, true, get_or, ltb, if◌then◌else◌, ◌==◌,
}
use agenc_c.Memory.{Heap, memcmp, memmove, memset, poke, free, malloc, realloc}
use agenc_c.Memory.Bytes.{bytes, IsCString}
use agenc_c.Str.Types.{Status, ok, err_arg, err_alloc, err_range, Str, View, Call, empty}
use agenc_c.Str.Size.{
  add_size, calculate_capacity, choose_capacity, grow_capacity, grow_loop,
  has_capacity_doubling_overflow, validate_span,
}
use agenc_c.Str.Size.Bounds.{Reaches, choose_capacity-Reaches}
use agenc_c.Str.Source.{
  find_allocation_offset, find_allocation_offset_iso, validate_mutation,
  validate_internal_source_span, detect_overlap, begin_mutation, validate_source,
}
use agenc_c.Str.Source.Overlaps.{find_allocation_offset-iso}
use agenc_c.Str.Valid.{IsHeap, IsValid, IsSource, Mutates, content}
use agenc_c.Str.Separate.{Intact}
use agenc_c.Str.Buffer.{ensure_capacity, call_malloc, call_realloc, grow_heap}
use agenc_c.Str.Buffer.Grow.{Grows, ensure_capacity-Grows}
use agenc_c.Str.Write.{
  prepare_write, prepare_valid_span, append_content, append_n, append_view, append_cstr,
  append_char, append_valid_span, set_n, set_view, set_cstr,
}
use agenc_c.Str.Edit.{
  prepare_insert, commit_insert, insert_valid, close_gap, insert_n, insert_view, remove,
  remove_valid, resize_valid, resize, reserve, reserve_valid, shrink_to_fit,
}
use agenc_c.Str.Edit.Gap.{Sets, remove_valid-Sets}
use agenc_c.Str.Edit.Reserve.{Reserves, reserve_valid-Reserves, reserve_valid_then_append}
use agenc_c.Str.Buffer.Granted.{IsGranted}
use agenc_c.Str.Api.Granted.{Succeeds, writes_succeed}
use agenc_c.Str.Replace.Splice.{Replaces, replace_view-Replaces}
use agenc_c.Str.Api.Arguments.{Refuses, range_refused, spare_refused}
use agenc_c.Str.Api.CString.{IsTerminated, set_cstr-Answers, append_cstr-Answers}
use agenc_c.Str.Split.{SplitOut, split_view}
use agenc_c.Str.Split.Pieces.{pieces}
use agenc_c.Str.Split.Loop.{SplitsInto, split_view-SplitsInto}
use agenc_c.Str.Edit.Resize.{resize_valid-Mutates}
use agenc_c.Str.Replace.{replace_view}
use agenc_c.Str.Api.{Answers, append_n-Answers, set_n-Answers, insert_n-Answers}
use agenc_c.Str.Api.Others.{Leaves, writes_leave_others}
use agenc_c.Str.Api.Refusals.{Stays, sticky}
use agenc_c.Str.Format.{Vsnprintf, append_vfmt, append_fmt}
use agenc_c.Str.Life.{copy, move, detach, other, null, deinit_valid}
use agenc_c.Str.Life.Move.{Moves, Detaches, move-Moves, detach-Detaches}
use agenc_c.Str.Life.Copy.{Copies, copy-Copies, deinit_valid-Intact}
use agenc_c.Str.View.{is_byte_span_equal, compare_valid_views, has_view_suffix}
use agenc_c.Str.View.Order.{shown, lex, compare_valid_views-lex, has_view_suffix_iff}
use agenc_c.Str.Trim.{view_trim, Trims, view_trim-Trims}
use agenc_c.Str.Search.{
  search_two_way, find_critical_factor, find_maximal_suffix_walk, is_factor_periodic, last,
  search_loop, build_search_context, search_step, search_on_mismatch, search_after_right_match,
  search_advance, scan_right, scan_right_loop, has_candidate_left_match, left_match_loop,
  calculate_nonperiodic_shift, find_maximal_suffix, run_suffix_walk_pass, suffix_walk_loop,
  suffix_walk_step,
}
use agenc_c.Str.Search.Walk.{InNeedle, find_maximal_suffix_walk_complete}
use agenc_c.Str.Search.Plan.{IsCritical, find_critical_factor-IsCritical}
use agenc_c.Str.Search.Find.{FindsView, find_view_match-FindsView, FindsCString, find-FindsCString}
use agenc_c.Str.Search.{find_view_match, find}

-- Bytes 16 to 23 are the block of a string "hi", bytes 32 to 39 that of a string "xyz", and
-- "hello, say hello" stands at 64.
abbrev cells : List ℕ
cells =
    b'h' ∷ b'i' ∷ 0 ∷ 7 ∷ 7 ∷ 7 ∷ 7 ∷ 7 ∷ 7 ∷ 7 ∷ 7 ∷ 7 ∷ 7 ∷ 7 ∷ 7 ∷ 7 ∷ b'x' ∷ b'y' ∷ b'z' ∷ 0 ∷ 7
    ∷ 7 ∷ 7 ∷ 7 ∷ []

abbrev saying : List ℕ
saying =
    b'h' ∷ b'e' ∷ b'l' ∷ b'l' ∷ b'o' ∷ b',' ∷ 0x20 ∷ b's' ∷ b'a' ∷ b'y' ∷ 0x20 ∷ b'h' ∷ b'e' ∷ b'l'
    ∷ b'l' ∷ b'o' ∷ []

abbrev memory : ℕ → ℕ
memory a = if ltb a 64 then get_or cells (a - 16) 0 else get_or saying (a - 64) 0

-- Every request is granted, three bytes above `brk`.
abbrev heap : Heap
heap = record {
  byte = memory;
  size = λ a. if a == 16 then 8 else if a == 32 then 8 else 0;
  brk = 96;
  live = 2;
  tries = 0;
  plan = λ _. some 3;
  scrap = λ _. 99;
}

abbrev hi : Str
hi = record { buf = 16; len = 2; cap = 8; status = ok }

abbrev xyz : Str
xyz = record { buf = 32; len = 3; cap = 8; status = ok }

abbrev broken : Str
broken = record hi { status = err_alloc }

abbrev said : View
said = record { ptr = 64; len = 16 }

abbrev word_view : View
word_view = record { ptr = 64; len = 5 }

heap_IsHeap : IsHeap heap
heap_IsHeap = omega arith

hi-IsValid : IsValid heap hi
hi-IsValid = record {
  heap = heap_IsHeap;
  shape = inr (record {
    buf_pos = omega arith;
    len_lt = omega arith;
    fits = omega arith;
    block = refl;
    nul = refl;
  });
}

xyz-IsValid : IsValid heap xyz
xyz-IsValid = record {
  heap = heap_IsHeap;
  shape = inr (record {
    buf_pos = omega arith;
    len_lt = omega arith;
    fits = omega arith;
    block = refl;
    nul = refl;
  });
}

-- "ello" from outside, and the whole content with its terminator from inside.
outside : IsSource heap hi 65 4
outside = inl (omega arith)

inside : IsSource heap hi 16 3
inside = inr (omega arith)

append_n-Answers_example :
    Answers heap hi (content heap hi ++ bytes memory 16 3) (append_n heap (some hi) 16 3)
append_n-Answers_example = append_n-Answers heap hi 16 3 hi-IsValid refl (λ _. inside) (omega arith)

set_n-Answers_example : Answers heap hi (bytes memory 65 4) (set_n heap (some hi) 65 4)
set_n-Answers_example = set_n-Answers heap hi 65 4 hi-IsValid refl (λ _. outside) (omega arith)

insert_n-Answers_example :
    Answers heap hi
      (take 1 (content heap hi) ++ (bytes memory 16 3 ++ drop 1 (content heap hi)))
      (insert_n heap (some hi) 1 16 3)
insert_n-Answers_example =
    insert_n-Answers heap hi 1 16 3 hi-IsValid refl (omega arith) (omega arith) (omega arith) inside

writes_leave_others_example :
    Leaves heap xyz (set_n heap (some hi) 65 4)
    × Leaves heap xyz (append_n heap (some hi) 65 4)
    × Leaves heap xyz (insert_n heap (some hi) 1 65 4)
writes_leave_others_example =
    writes_leave_others heap hi xyz 1 65 4 hi-IsValid xyz-IsValid (inr (inr (inl (omega arith))))
      refl (omega arith) (omega arith) (omega arith) outside

-- The first byte of "hi" becomes "hi" and its terminator, from the string itself.
replace_view-Replaces_example :
    Replaces heap hi
      (take 0 (content heap hi) ++ (bytes memory 16 3 ++ drop (0 + 1) (content heap hi)))
      (replace_view heap (some hi) 0 1 (record { ptr = 16; len = 3 }))
replace_view-Replaces_example =
    replace_view-Replaces heap hi 0 1 16 3 hi-IsValid refl (omega arith) (λ _. inside) (omega arith)

range_refused_example :
    Refuses heap hi err_range (insert_n heap (some hi) 3 65 4)
    × Refuses heap hi err_range (remove heap (some hi) 1 2)
    × Refuses heap hi err_range (replace_view heap (some hi) 1 2 (record { ptr = 65; len = 4 }))
range_refused_example =
    range_refused heap hi 3 1 2 65 4 refl (omega arith) (omega arith) (omega arith)

-- Two bytes from the terminator on reach the spare capacity.
spare_refused_example :
    Refuses heap hi err_arg (set_n heap (some hi) 18 2)
    × Refuses heap hi err_arg (append_n heap (some hi) 18 2)
    × Refuses heap hi err_arg (insert_n heap (some hi) 1 18 2)
spare_refused_example =
    spare_refused heap hi 1 18 2 hi-IsValid refl (omega arith) (omega arith) (omega arith)
      (omega arith) (omega arith) (omega arith)

-- "i" and its terminator, at the end of the string itself, and "xyz" outside.
tail_IsTerminated : IsTerminated memory 17 1
tail_IsTerminated = record { text = one; nul = refl }
  where
    one : (i : ℕ) → i < 1 → memory (17 + i) ≢ 0
    one zero l = omega arith
    one (suc i) l = absurd (omega arith)

xyz_IsTerminated : IsTerminated memory 32 3
xyz_IsTerminated = record { text = three; nul = refl }
  where
    three : (i : ℕ) → i < 3 → memory (32 + i) ≢ 0
    three zero l = omega arith
    three (suc zero) l = omega arith
    three (suc (suc zero)) l = omega arith
    three (suc (suc (suc i))) l = absurd (omega arith)

set_cstr-Answers_example : Answers heap hi (bytes memory 32 3) (set_cstr heap (some hi) 32)
set_cstr-Answers_example =
    set_cstr-Answers heap hi 32 3 hi-IsValid refl (inl (omega arith)) xyz_IsTerminated

append_cstr-Answers_example :
    Answers heap hi (content heap hi ++ bytes memory 17 1) (append_cstr heap (some hi) 17)
append_cstr-Answers_example =
    append_cstr-Answers heap hi 17 1 hi-IsValid refl (inr (omega arith)) tail_IsTerminated

-- "hello" at its two "l" has three parts, of which the array takes two.
abbrev two_parts : SplitOut
two_parts = record { parts = 8; cap = 2; count = 0; part = λ k. word_view }

split_view-SplitsInto_example :
    SplitsInto memory
      (pieces b'l' (bytes memory 64 5))
      two_parts
      (split_view 1 memory word_view true two_parts b'l')
split_view-SplitsInto_example =
    split_view-SplitsInto 1 memory word_view two_parts b'l' (omega arith) (inl (omega arith))
      (inr (omega arith))

hello_pieces : pieces b'l' (bytes memory 64 5) ≡ (b'h' ∷ b'e' ∷ []) ∷ [] ∷ (b'o' ∷ []) ∷ []
unfolding pieces
hello_pieces = refl

heap_IsGranted : IsGranted heap 7
heap_IsGranted = record { skip = 3; planned = refl; room = omega arith }

writes_succeed_example :
    Succeeds heap hi (bytes memory 65 4) (set_n heap (some hi) 65 4)
    × Succeeds heap hi (content heap hi ++ bytes memory 65 4) (append_n heap (some hi) 65 4)
    × Succeeds heap hi
        (take 1 (content heap hi) ++ (bytes memory 65 4 ++ drop 1 (content heap hi)))
        (insert_n heap (some hi) 1 65 4)
writes_succeed_example =
    writes_succeed heap hi 1 65 4 hi-IsValid refl (omega arith) (omega arith) outside heap_IsGranted

reserved : reserve_valid heap hi 4 ≡ (heap, hi, ok)
unfolding reserve_valid ensure_capacity calculate_capacity add_size
reserved = refl

reserve_valid-Reserves_example : Reserves heap hi 20 (reserve_valid heap hi 20)
reserve_valid-Reserves_example = reserve_valid-Reserves heap hi 20 hi-IsValid refl (omega arith)

-- With 4 bytes reserved, which the buffer has, the string stays where it is.
reserve_valid_then_append_example :
    ((append_valid_span heap hi 65 (suc 1)).2 ≡ ok)
    × Mutates heap hi
        (content heap hi ++ bytes memory 65 (suc 1))
        (append_valid_span heap hi 65 (suc 1))
reserve_valid_then_append_example =
    reserve_valid_then_append heap hi 4 65 1 heap hi hi-IsValid refl (omega arith) reserved
      (omega arith) (inl (omega arith))

remove_valid-Sets_example :
    Sets heap hi
      (take 0 (content heap hi) ++ drop (0 + 1) (content heap hi))
      (remove_valid heap hi 0 1)
remove_valid-Sets_example = remove_valid-Sets heap hi 0 1 hi-IsValid refl (omega arith)

resize_valid-Mutates_example :
    Mutates heap hi
      (take 9 (content heap hi) ++ replicate (9 - 2) b'.')
      (resize_valid heap hi 9 b'.')
resize_valid-Mutates_example = resize_valid-Mutates heap hi 9 b'.' hi-IsValid refl (omega arith)

ensure_capacity-Grows_example : Grows heap hi 20 (ensure_capacity heap hi 20)
ensure_capacity-Grows_example =
    ensure_capacity-Grows heap hi 20 hi-IsValid (omega arith) (omega arith)

choose_capacity-Reaches_example : Reaches 8 100 (choose_capacity 8 100)
choose_capacity-Reaches_example = choose_capacity-Reaches 8 100 (omega arith) (omega arith)

find_allocation_offset-iso_example : find_allocation_offset hi 17 ≡ find_allocation_offset_iso hi 17
find_allocation_offset-iso_example = find_allocation_offset-iso hi 17 (omega arith) (omega arith)

move-Moves_example : Moves heap hi xyz (move heap (some hi) (other xyz))
move-Moves_example = move-Moves heap hi xyz hi-IsValid xyz-IsValid (inr (inr (inl (omega arith))))

detach-Detaches_example : Detaches heap hi (detach heap (some hi))
detach-Detaches_example = detach-Detaches heap hi hi-IsValid

copy-Copies_example : Copies heap hi xyz (copy 1 heap (some hi) (other xyz))
copy-Copies_example =
    copy-Copies 1 heap hi xyz hi-IsValid xyz-IsValid (inr (inr (inl (omega arith)))) refl

deinit_valid-Intact_example :
    ((deinit_valid heap hi).1 ≡ empty)
    × Intact heap xyz (deinit_valid heap hi).0
    × ((deinit_valid heap hi).0.live ≡ (if hi.cap == 0 then 2 else 2 - 1))
deinit_valid-Intact_example =
    deinit_valid-Intact heap hi xyz hi-IsValid xyz-IsValid (inr (inr (inl (omega arith))))

broken_sticks : validate_mutation (some broken) ≢ ok
unfolding validate_mutation
broken_sticks = λ e. cc

-- A vsnprintf that renders one byte.
abbrev one_byte : Vsnprintf ℕ
one_byte h buf capacity format arguments = (poke h buf b'v', some 1)

sticky_example :
    let e = validate_mutation (some broken) in
    Stays heap (some broken) e (set_n heap (some broken) 65 4)
    × Stays heap (some broken) e (set_cstr heap (some broken) 65)
    × Stays heap (some broken) e (append_n heap (some broken) 65 4)
    × Stays heap (some broken) e (append_cstr heap (some broken) 65)
    × Stays heap (some broken) e (append_char heap (some broken) b'!' 90)
    × Stays heap (some broken) e (insert_n heap (some broken) 1 65 4)
    × Stays heap (some broken) e (remove heap (some broken) 1 4)
    × Stays heap (some broken) e (replace_view heap (some broken) 1 1 said)
    × Stays heap (some broken) e (resize heap (some broken) 4 b'.')
    × Stays heap (some broken) e (reserve heap (some broken) 4)
    × Stays heap (some broken) e (shrink_to_fit heap (some broken))
    × Stays heap (some broken) e (copy 65 heap (some broken) null)
    × Stays heap (some broken) e (set_view heap (some broken) said)
    × Stays heap (some broken) e (append_view heap (some broken) said)
    × Stays heap (some broken) e (insert_view heap (some broken) 1 said)
    × Stays heap (some broken) e (append_vfmt one_byte heap (some broken) 65 0 90)
    × Stays heap (some broken) e (append_fmt one_byte heap (some broken) 65 0 90)
sticky_example = sticky heap (some broken) 1 65 4 1 b'.' b'!' 90 said null one_byte 0 broken_sticks

compare_valid_views-lex_example :
    compare_valid_views memory said word_view ≡ lex (shown memory said) (shown memory word_view)
compare_valid_views-lex_example = compare_valid_views-lex memory said word_view

has_view_suffix_iff_example :
    (has_view_suffix memory said word_view ≡ true)
    ↔ ((5 ≤ 16) × (drop (16 - 5) (shown memory said) ≡ shown memory word_view))
has_view_suffix_iff_example = has_view_suffix_iff memory said word_view

-- " say "
abbrev padded : View
padded = record { ptr = 70; len = 5 }

view_trim-Trims_example : Trims memory padded (view_trim 1 memory padded)
view_trim-Trims_example = view_trim-Trims 1 memory padded (omega arith) (omega arith)

find_maximal_suffix_walk_complete_example :
    let (w, complete) = find_maximal_suffix_walk memory word_view true in
    (complete ≡ true) × (5 ≤ w.candidate + w.offset) × InNeedle 5 w
find_maximal_suffix_walk_complete_example =
    find_maximal_suffix_walk_complete memory word_view true (omega arith)

find_critical_factor-IsCritical_example :
    let f = find_critical_factor memory word_view in
    IsCritical (λ i. memory (64 + i)) 5 f.cut f.period
find_critical_factor-IsCritical_example =
    find_critical_factor-IsCritical memory word_view (omega arith)

find_view_match-FindsView_example :
    FindsView memory true said word_view last (find_view_match memory true said word_view last)
find_view_match-FindsView_example = find_view_match-FindsView memory said word_view last true

xyz_IsCString : IsCString heap 32 3
xyz_IsCString = record { inside = omega arith; nul = refl; no_nul = xyz_IsTerminated.text }

find-FindsCString_example : FindsCString 1 heap true hi 32 3 (find 1 heap true (some hi) 32)
find-FindsCString_example =
    find-FindsCString 1 heap true hi 32 3 hi-IsValid (omega arith) xyz_IsCString

-- The functions that a run computes with.
program : Unit {0}
unfolding memmove poke memset malloc realloc free add_size calculate_capacity choose_capacity
    grow_capacity grow_loop has_capacity_doubling_overflow validate_span find_allocation_offset
    validate_internal_source_span detect_overlap begin_mutation validate_mutation validate_source
    call_malloc call_realloc grow_heap ensure_capacity prepare_write prepare_valid_span
    append_content append_valid_span append_n prepare_insert commit_insert insert_valid insert_n
    close_gap remove_valid remove
program = tt

-- The outcome of a call as a status and the bytes of the string.
abbrev outcome : Call → Status × List ℕ
outcome (h, none, e) = (e, [])
outcome (h, some s, e) = (e, bytes h.byte s.buf s.len)

append_self_run : outcome (append_n heap (some hi) 16 3) ≡ (ok, b'h' ∷ b'i' ∷ b'h' ∷ b'i' ∷ 0 ∷ [])
unfolding program
append_self_run = refl

-- The insertion point lies inside the source, and the string has to grow.
insert_self_run :
    outcome (
      insert_n
        (record heap { size = λ a. if a == 16 then 4 else 0 })
        (some (record hi { cap = 4 }))
        1
        16
        2)
    ≡ (ok, b'h' ∷ b'h' ∷ b'i' ∷ b'i' ∷ [])
unfolding program
insert_self_run = refl

append_refused_run :
    outcome (append_n (record heap { plan = λ _. none }) (some hi) 64 10)
    ≡ (err_alloc, b'h' ∷ b'i' ∷ [])
unfolding program
append_refused_run = refl

remove_range_run : outcome (remove heap (some hi) 1 2) ≡ (err_range, b'h' ∷ b'i' ∷ [])
unfolding program
remove_range_run = refl

rfind_run : search_two_way memory said word_view last ≡ 11
unfolding search_two_way search_loop search_step search_on_mismatch search_after_right_match
    search_advance scan_right scan_right_loop has_candidate_left_match left_match_loop
    build_search_context calculate_nonperiodic_shift is_factor_periodic find_critical_factor
    find_maximal_suffix find_maximal_suffix_walk run_suffix_walk_pass suffix_walk_loop
    suffix_walk_step is_byte_span_equal memcmp
rfind_run = refl
