-- ===== src/Str/Session/Tests.antt =====
-- A session with a `str_t` of agenc-str: "hi" and "xyz", other code, and the removal of two bytes.
use agenc_c.Base.{◌-◌, ◌≡◌, refl, inl, inr, arith, [], ◌∷◌, some, get_or, ltb, if◌then◌else◌, ◌==◌}
use agenc_c.Memory.{Heap, memmove, poke}
use agenc_c.Str.Types.{Str, ok}
use agenc_c.Str.Size.{add_size, calculate_capacity, validate_span}
use agenc_c.Str.Source.{
  find_allocation_offset, validate_internal_source_span, detect_overlap, begin_mutation,
  validate_mutation, validate_source,
}
use agenc_c.Str.Buffer.{ensure_capacity}
use agenc_c.Str.Valid.{IsValid, content}
use agenc_c.Str.Write.{
  append_n, append_valid_span, append_content, prepare_write, prepare_valid_span,
}
use agenc_c.Str.Edit.{close_gap, remove_valid, remove}
use agenc_c.Str.Session.{
  add, splice, value, Session, start, call, between, Aside, perform, append_bytes, remove_span,
  Readable,
}
use agenc_c.Str.Session.Trace.{Trace, Session-Trace, effects, Session-effects}

abbrev heap : Heap
heap = record {
  byte = λ a.
      if ltb a 32
      then get_or (b'h' ∷ b'i' ∷ []) (a - 16) 0
      else get_or (b'x' ∷ b'y' ∷ b'z' ∷ []) (a - 32) 0;
  size = λ a. if a == 16 then 8 else 0;
  brk = 96;
  live = 1;
  tries = 0;
  plan = λ _. some 3;
  scrap = λ _. 99;
}

abbrev hi : Str
hi = record { buf = 16; len = 2; cap = 8; status = ok }

hi-IsValid : IsValid heap hi
hi-IsValid = record {
  heap = omega arith;
  shape = inr (record {
    buf_pos = omega arith;
    len_lt = omega arith;
    fits = omega arith;
    block = refl;
    nul = refl;
  });
}

-- The functions that the session computes with.
program : Unit {0}
unfolding memmove poke add_size calculate_capacity validate_span find_allocation_offset
    validate_internal_source_span detect_overlap begin_mutation validate_mutation validate_source
    ensure_capacity prepare_write prepare_valid_span append_content append_valid_span append_n
    close_gap remove_valid remove
program = tt

abbrev longer : Heap
longer = (perform (append_bytes 32 3) heap hi).0

abbrev five : Str
five = record hi { len = 5 }

longer_run : perform (append_bytes 32 3) heap hi ≡ (longer, some five, ok)
unfolding program
longer_run = refl

xyz_Readable : Readable heap hi 32 3
xyz_Readable = (
  omega arith,
  omega arith,
  λ ne. inl (record { not_null = omega arith; readable = omega arith; apart = inr (omega arith) }),
)

-- The caller writes at 90.
abbrev noted : Heap
noted = record longer { byte = λ a. if a == 90 then 1 else longer.byte a }

longer_brk : longer.brk ≡ 96
unfolding program
longer_brk = refl

noted-Aside : Aside longer five noted
noted-Aside = record {
  mono = omega arith;
  top = omega (arith, longer_brk);
  kept = λ a l u. ground arith;
  block = refl;
}

abbrev removed : Heap
removed = (perform (remove_span 1 2) noted five).0

abbrev three : Str
three = record hi { len = 3 }

removed_run : perform (remove_span 1 2) noted five ≡ (removed, some three, ok)
unfolding program
removed_run = refl

visit : Session (splice 1 2 [] ∷ add (b'x' ∷ b'y' ∷ b'z' ∷ []) ∷ []) heap hi removed three
visit =
    call (between (call start (append_bytes 32 3) ok xyz_Readable longer_run) noted-Aside)
      (remove_span 1 2) ok tt removed_run

Session-Trace_example :
    IsValid removed three
    × Trace
        (splice 1 2 [] ∷ add (b'x' ∷ b'y' ∷ b'z' ∷ []) ∷ [])
        (value heap hi)
        (value removed three)
Session-Trace_example = Session-Trace visit hi-IsValid

Session-effects_example :
    (hi.status ≡ ok)
    × (effects (splice 1 2 [] ∷ add (b'x' ∷ b'y' ∷ b'z' ∷ []) ∷ []) (content heap hi)
        ≡ some (content removed three))
Session-effects_example = Session-effects visit hi-IsValid refl refl
