-- ===== src/Str/Format/Tests.antt =====
-- The theorems on formatted appends at a concrete vsnprintf, which prints the list of bytes that it
-- takes as its arguments.
use agenc_c.Base.{
  ℕ, zero, suc, ◌+◌, ◌-◌, ◌<◌, ◌≡◌, ◌≢◌, inl, inr, refl, ap, ap₂, arith, List, [], ◌∷◌, ◌++◌, ◌∙◌,
  length, some, replicate, get_or, if◌then◌else◌, ltb, ◌==◌, min,
}
use agenc_c.Memory.{Heap, within}
use agenc_c.Memory.Bytes.{bytes}
use agenc_c.Str.Types.{Str, ok}
use agenc_c.Str.Valid.{IsValid, IsOutside, content}
use agenc_c.Str.Api.CString.{IsTerminated}
use agenc_c.Str.Replace.Splice.{Replaces}
use agenc_c.Str.Format.{Vsnprintf, append_vfmt, format_stack_bytes}
use agenc_c.Str.Format.Render.{Prints, Renders, append_vfmt-Replaces}

abbrev echo : Vsnprintf (List ℕ)
echo h buf cap format text =
    let n = min (length text) (cap - 1) in
    (
      record h {
        byte = λ a.
            if within buf n a
            then get_or text (a - buf) 0
            else if a == buf + n
            then 0
            else h.byte a;
      },
      some (length text),
    )

bytes-get_or :
    (m : ℕ → ℕ) (p : ℕ) (text : List ℕ)
    → ((i : ℕ) → i < length text → m (p + i) ≡ get_or text i 0)
    → bytes m p (length text) ≡ text
bytes-get_or m p [] h = refl
bytes-get_or m p (x ∷ text) h =
    ap₂ ◌∷◌ (ap m {x = p} {y = p + 0} (omega arith) ∙ h 0 (omega arith)) (
      bytes-get_or m (p + 1) text
        (λ i l. ap m {x = p + 1 + i} {y = p + suc i} (omega arith) ∙ h (suc i) (omega arith)))

echo-Prints :
    (h : Heap) (buf cap format : ℕ) (text : List ℕ)
    → 0 < cap
    → let (h', printed) = echo h buf cap format text in Prints h buf cap text h' printed
echo-Prints h buf cap format text pos = record {
  printed_all = refl;
  wrote = λ l.
      bytes-get_or _ buf text (λ i b.
        ground (arith, ap (λ j. get_or text j 0) {x = buf + i - buf} {y = i} (omega arith)));
  other = λ a out. ground arith;
  size = refl;
  brk = refl;
  live = refl;
}

-- "hi" in a block of 8 bytes at 16, and "%s" at 32.
abbrev heap : Heap
heap = record {
  byte = λ a.
      if ltb a 32
      then get_or (b'h' ∷ b'i' ∷ []) (a - 16) 0
      else get_or (b'%' ∷ b's' ∷ []) (a - 32) 0;
  size = λ a. if a == 16 then 8 else 0;
  brk = 1000;
  live = 1;
  tries = 0;
  plan = λ _. some 3;
  scrap = λ _. 99;
}

abbrev hi : Str
hi = record { buf = 16; len = 2; cap = 8; status = ok }

hi-IsValid : IsValid heap hi
hi-IsValid = record {
  heap = omega arith;
  shape = inr (record {
    buf_pos = omega arith;
    len_lt = omega arith;
    fits = omega arith;
    block = refl;
    nul = refl;
  });
}

array_IsOutside : IsOutside heap hi 400 format_stack_bytes
array_IsOutside = record {
  not_null = omega arith;
  readable = omega arith;
  apart = inr (omega arith);
}

format_IsOutside : IsOutside heap hi 32 3
format_IsOutside = record {
  not_null = omega arith;
  readable = omega arith;
  apart = inr (omega arith);
}

format_IsTerminated : IsTerminated heap.byte 32 2
format_IsTerminated = record { text = two; nul = refl }
  where
    two : (i : ℕ) → i < 2 → heap.byte (32 + i) ≢ 0
    two zero l = omega arith
    two (suc zero) l = omega arith
    two (suc (suc i)) l = absurd (omega arith)

-- More bytes than the array on the stack takes.
abbrev dashes : List ℕ
dashes = replicate 300 b'-'

dashes-Renders : Renders echo heap 400 32 dashes dashes
dashes-Renders = record {
  on_stack = echo-Prints heap 400 format_stack_bytes 32 dashes (omega arith);
  in_block = λ h1 buf cap pos l m same. echo-Prints h1 buf cap 32 dashes pos;
}

append_vfmt-Replaces_example :
    Replaces
      (echo heap 400 256 32 dashes).0
      hi
      (content heap hi ++ dashes)
      (append_vfmt echo heap (some hi) 32 dashes 400)
append_vfmt-Replaces_example =
    append_vfmt-Replaces echo heap hi 400 32 dashes dashes hi-IsValid refl array_IsOutside
      dashes-Renders 2 (inl format_IsOutside) format_IsTerminated

-- It prints one byte, and says that it printed 300 in the array and 301 elsewhere.
abbrev fickle : Vsnprintf (List ℕ)
fickle h buf cap format text = (
  record h { byte = λ a. if a == buf then b'?' else h.byte a },
  some (if buf == 400 then 300 else 301),
)
