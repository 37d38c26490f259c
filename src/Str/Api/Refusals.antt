-- ===== src/Str/Api/Refusals.antt =====
-- The error paths that all mutators of agenc-str/src/str.c share.
use agenc_c.Base.{ℕ, ◌≡◌, ◌≢◌, refl, arith, none, some, Option}
use agenc_c.Memory.{Heap}
use agenc_c.Str.Types.{Status, ok, Str, Call, View}
use agenc_c.Str.Source.{begin_mutation, validate_mutation, measure_c_string_input}
use agenc_c.Str.Write.{append_n, append_view, append_char, append_cstr, set_n, set_view, set_cstr}
use agenc_c.Str.Edit.{insert_n, insert_view, remove, resize, reserve, shrink_to_fit}
use agenc_c.Str.Replace.{replace_view}
use agenc_c.Str.Life.{Operand, copy}
use agenc_c.Str.Format.{Vsnprintf, append_vfmt, append_fmt}

-- The call returned `status` and touched neither the memory nor the string.
abbrev pub Stays : Heap → Option Str → Status → Call → Type 0
Stays h string status call = call ≡ (h, string, status)

-- Every mutator that returns a status (setting, appending and inserting bytes, C strings, views,
-- one byte and formatted text, whatever vsnprintf does, and removal, replacement, resize,
-- reserve, shrink and copy), on a string with a sticky status, returns that status and leaves
-- memory and the string as they are; on a NULL string it returns STR_ERR_ARG and leaves memory
-- as it is.
pub sticky :
    (h : Heap) (string : Option Str) (idx p n k fill byte local : ℕ) (view : View)
    (source : Operand) {Args : Type 0} (vsnprintf : Vsnprintf Args) (arguments : Args)
    → validate_mutation string ≢ ok
    → Stays h string (validate_mutation string) (set_n h string p n)
      × Stays h string (validate_mutation string) (set_cstr h string p)
      × Stays h string (validate_mutation string) (append_n h string p n)
      × Stays h string (validate_mutation string) (append_cstr h string p)
      × Stays h string (validate_mutation string) (append_char h string byte local)
      × Stays h string (validate_mutation string) (insert_n h string idx p n)
      × Stays h string (validate_mutation string) (remove h string idx n)
      × Stays h string (validate_mutation string) (replace_view h string idx k view)
      × Stays h string (validate_mutation string) (resize h string n fill)
      × Stays h string (validate_mutation string) (reserve h string n)
      × Stays h string (validate_mutation string) (shrink_to_fit h string)
      × Stays h string (validate_mutation string) (copy p h string source)
      × Stays h string (validate_mutation string) (set_view h string view)
      × Stays h string (validate_mutation string) (append_view h string view)
      × Stays h string (validate_mutation string) (insert_view h string idx view)
      × Stays h string (validate_mutation string) (append_vfmt vsnprintf h string p arguments local)
      × Stays h string (validate_mutation string) (append_fmt vsnprintf h string p arguments local)
unfolding validate_mutation set_n set_cstr append_n append_cstr append_char insert_n remove
    replace_view resize reserve shrink_to_fit begin_mutation measure_c_string_input copy set_view
    append_view insert_view append_vfmt append_fmt
sticky h none idx p n k fill byte local view source vsnprintf arguments ne = (
  refl, refl, refl, refl, refl, refl, refl, refl, refl, refl, refl, refl, refl, refl, refl, refl,
  refl,
)
sticky h (some s) idx p n k fill byte local view source vsnprintf arguments ne = ground arith
