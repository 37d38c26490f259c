-- ===== src/Lib.antt =====
-- Two libraries of agenc-c: the strings of agenc-str/src/str.c and agenc-str/include/str.h, and the
-- arenas of agenc-arena/src/arena.c, agenc-arena/include/arena.h and agenc-arena/include/alloc.h.
-- They do not call each other; both stand on the C library.
--
-- agenc-str is a growable byte string with a sticky error status. A `str_t` is a buffer, a length,
-- a capacity and a status; every mutator first reads the status and does nothing once an error is
-- recorded, and a source pointer may point into the string that the call changes. Borrowed
-- `str_view_t` values are compared, ordered, trimmed, searched (a byte scan, or the Two-Way search)
-- and split. The parts of str.c, from the bottom up, and the files that model them:
--
--   Memory: the C library below str.c, over one flat address space. A pointer is an address, NULL is
--   0, a block is a base and a size. Requests are granted or refused by a plan of the environment,
--   which is a field of the state that no definition inspects otherwise. Memory.Bytes reads spans.
--   Str.Types: str_status_t, str_t, str_view_t and the small private records.
--   Str.Size: str_add_size, str_calculate_capacity, str_calculate_replacement_length,
--   str_grow_capacity, str_choose_capacity, str_validate_span. Sums are taken modulo 2 ^ 64 where
--   the source takes them. Str.Size.Bounds has their bounds.
--   Str.Source: the checks of arguments, and str_detect_overlap in both builds (the default one and
--   STR_STRICT_ISO_OVERLAP). Str.Source.Overlaps relates the two.
--   Str.Valid: the representation invariant of str_t, the content as a list of bytes, and the
--   outcomes of a mutator. Str.Separate: strings in separate blocks.
--   Str.Buffer: str_ensure_capacity, str_grow_heap, str_shrink_heap and the calls of the allocator.
--   Str.Buffer.Grow has the growth, Str.Buffer.Granted its success when the request is granted,
--   Str.Buffer.Budget the failures that a STR_TEST build injects. Str.Names: str_status_name.
--   Str.Write: str_set*, str_append*, with str_prepare_write. Str.Write.Prepare, Written, Append
--   and Unaliased have the lemmas.
--   Str.Edit: str_insert_n, str_insert_view, str_remove, str_resize, str_reserve,
--   str_shrink_to_fit. Its children Insert, Gap, Resize, Reserve and Shrink have the lemmas.
--   Str.Replace: str_replace_view with its staged copy; Commit, Stage, Release and Splice have the
--   lemmas.
--   Str.Format: str_append_vfmt and str_append_fmt; Loan, Render and Refuse have the theorems, Tests
--   runs a concrete vsnprintf. Str.Lend: blocks that a call allocates and gives back.
--   Str.Life: str_init, str_deinit, str_clear, str_move, str_copy, str_detach; its
--   children Copy and Move have the lemmas. Str.Observe: the observers and borrowed views.
--   Str.View: validity, equality, order, prefix and suffix; Str.View.Order has the lemmas.
--   Str.Trim: str_view_trim.
--   Str.Search: str_view_find and its kin. Walk has the bounds of the walk for the maximal suffix,
--   Suffix and Maximal what it computes, Critical the critical factorization, Plan the shifts, Align
--   what a candidate tells of later ones, Loop and Complete the search, Scan the byte scans, and
--   Find and Char the public functions.
--   Str.Split: str_split_view; Pieces and Loop have the lemmas.
--   Str.Api: the public mutators on a pointer that may be NULL: their outcomes, their refusals and
--   what they leave of other strings.
--   Str.Session: the contract of a string as an abstract machine on lists of bytes with a sticky
--   status, and sessions of calls with other code between them. Outcome, Simulate, Shrink and Byte have
--   the single calls, Trace the sessions, Tests a concrete one.
--
-- agenc-arena is a region allocator over a parent `alloc_t`. An `arena_t` has a chain of blocks, of
-- which the newest serves allocations by raising its fill, a list of retained blocks, counters, and
-- a sticky status. The files:
--
--   Alloc: alloc_t as a record of three functions on any state, its call helpers, and the backends
--   alloc_libc and alloc_null. Alloc.Libc has the libc backend as a parent.
--   Arena.Types: arena_t, struct arena_block, arena_temp_t, arena_status_t, and the builds: release,
--   debug (fills of 0xA5 and 0x5A), and AddressSanitizer (redzones).
--   Arena.Align: arena_align_valid, arena_align_effective, and the padding. Align.Bits and
--   Align.Valid have the laws of masks.
--   Arena.Block: marking, rewinding, retiring and releasing blocks, arena_pop_to_block.
--   Arena.Bump: arena_try_bump, arena_grow_and_bump and the allocation entry points. Room, Grow and
--   Serve have the lemmas on the three of them, Frame, Above and Take what they share.
--   Arena.Resize: arena_realloc, and the arena as an alloc_t. InPlace, Last and Move have the lemmas.
--   Arena.Scope: arena_temp_begin and arena_temp_end. Drop, Pop and Lower follow the end of a scope,
--   Run and Steps what happens inside, Trip both.
--   Arena.Life: init, deinit, reset, trim and the observers; its children have the lemmas.
--   Arena.Measure: how many blocks cover, and how many allocations have, an address; the invariant
--   of an arena with its live allocations; and what an arena asks of its parent, IsParent.
--   Arena.Names: arena_status_name. Arena.Tests: runs on small inputs.
--
-- A chain of blocks is a list, newest first, so a block is found by its address and the bytes of
-- block headers are not modelled. The counters are words that wrap, and the scope depth and the
-- generation wrap at 2 ^ 32. alignof(max_align_t) is 16 and a header takes 32 bytes, as on the
-- 64-bit targets. The address of a parent's block need not be aligned: the padding is computed from
-- the address, as in the source. A caller's violations of the contract, such as a stale temp, are
-- not checked by release builds and have no theorem here.
--
-- A call of a mutator takes the memory and the string and returns both with the status; a `str_t *`
-- that may be NULL is an option. Names are those of the source without the prefix `str_`; a
-- function whose body continues after its guards has the continuation as a definition of its own
-- (`insert_valid` for the part of str_insert_n after `str_begin_mutation`), and a request that the
-- source passes as a struct is a list of arguments.
--
-- Memory is read and written at addresses, so aliasing is visible: an operation that moves the tail
-- before it reads an internal source is modelled in that order. realloc always moves and a freed
-- block is filled with bytes that the environment chooses, so a stale pointer reads no good value.
--
-- Loops: the capacity doubles at most 64 times, as STR_MAX_CAPACITY_GROWTH_STEPS says, and a word
-- cannot double more often; the maximal-suffix walk takes two passes of as many rounds as the
-- needle has bytes; the search takes one round for each candidate, and the split one for each byte,
-- with one more round for the end. The scans are bounded by the lengths of their views.
--
-- Not modelled: vsnprintf, a parameter of the formatted appends, as are the arguments that a va_list
-- holds (%n, which writes in them, is not allowed by the theorems); the poisoning and the
-- annotations for AddressSanitizer, MemorySanitizer and Valgrind, which are calls of those tools;
-- both command lines, and the test harness of agenc-test. `_Static_assert`s and `assert`s are not
-- part of the model; a theorem says so where it shows that an assertion cannot fail. The injected
-- failures of STR_TEST builds stand beside the model (Str.Buffer.Budget): in all other parts the
-- plan of the environment refuses requests.
pub mod Alloc
pub mod Arena
pub mod Base
pub mod Memory
pub mod Str
pub mod Tests
