-- ===== src/Str/Session.antt =====
-- The contract of a `str_t` of agenc-str as an abstract machine: its value is a list of bytes and the
-- sticky status, and each of the calls that a session may make is one edit of that value.
pub mod Outcome
pub mod Simulate
pub mod Shrink
pub mod Byte
pub mod Trace
mod Tests
use agenc_c.Base.{
  ℕ, ◌+◌, ◌-◌, ◌≤◌, ◌<◌, ◌≡◌, ◌≢◌, ◌⊎◌, Bool, true, false, Option, none, some, List, [], ◌∷◌, ◌++◌,
  take, drop, replicate, length, leb, if◌then◌else◌, size_max,
}
use agenc_c.Memory.{Heap}
use agenc_c.Memory.Bytes.{bytes}
use agenc_c.Str.Types.{Status, ok, err_alloc, err_range, err_overflow, Str, View, Call}
use agenc_c.Str.Valid.{IsSource, IsOutside, content}
use agenc_c.Str.Write.{set_n, append_n, set_cstr, append_cstr, append_char}
use agenc_c.Str.Api.CString.{IsTerminated}
use agenc_c.Str.Edit.{insert_n, remove, resize, reserve, shrink_to_fit}
use agenc_c.Str.Replace.{replace_view}
use agenc_c.Str.Life.{clear, clear_error}

pub record Value : Type 0 where
  pub text : List ℕ
  pub status : Status

abbrev pub value : Heap → Str → Value
value h s = record { text = content h s; status = s.status }

-- What a call asks for, with the source's bytes in place of its address.
pub data Edit : Type 0 where
  put : List ℕ → Edit
  add : List ℕ → Edit
  splice : ℕ → ℕ → List ℕ → Edit
  fit : ℕ → ℕ → Edit
  keep : Edit
  wipe : Edit
  forgive : Edit

-- The edited bytes, or `none` where the edit reaches past the end.
abbrev pub effect : Edit → List ℕ → Option (List ℕ)
effect (put xs) text = some xs
effect (add xs) text = some (text ++ xs)
effect (splice idx k xs) text =
    if leb (idx + k) (length text)
    then some (take idx text ++ (xs ++ drop (idx + k) text))
    else none
effect (fit n fill) text = some (take n text ++ replicate (n - length text) fill)
effect keep text = some text
effect wipe text = some []
effect forgive text = some text

-- `str_clear` and `str_clear_error` reset the sticky status.
abbrev pub resets : Edit → Bool
resets wipe = true
resets forgive = true
resets _ = false

-- An edit takes effect, or it is refused and recorded, or a sticky status stops it.
pub data Step (e : Edit) (v v' : Value) : Type 0 where
  took :
      (v.status ≡ ok) ⊎ (resets e ≡ true)
      → effect e v.text ≡ some v'.text
      → v'.status ≡ ok
      → Step e v v'
  refused :
      v.status ≡ ok
      → v'.text ≡ v.text
      → (v'.status ≡ err_alloc) ⊎ (v'.status ≡ err_overflow)
      → Step e v v'
  past_end :
      v.status ≡ ok
      → effect e v.text ≡ none
      → v'.text ≡ v.text
      → v'.status ≡ err_range
      → Step e v v'
  stuck : v.status ≢ ok → resets e ≡ false → v' ≡ v → Step e v v'

-- The calls, with the address and the length of a source, which is a C string for `set_text` and
-- `append_text`, and for `append_byte` the byte and the address of the array on the stack.
pub data Command : Type 0 where
  set_bytes : ℕ → ℕ → Command
  append_bytes : ℕ → ℕ → Command
  insert_bytes : ℕ → ℕ → ℕ → Command
  remove_span : ℕ → ℕ → Command
  replace_span : ℕ → ℕ → View → Command
  resize_to : ℕ → ℕ → Command
  reserve_for : ℕ → Command
  shrink : Command
  set_text : ℕ → ℕ → Command
  append_text : ℕ → ℕ → Command
  append_byte : ℕ → ℕ → Command
  clear_all : Command
  clear_status : Command

abbrev pub perform : Command → Heap → Str → Call
perform (set_bytes p n) h s = set_n h (some s) p n
perform (append_bytes p n) h s = append_n h (some s) p n
perform (insert_bytes idx p n) h s = insert_n h (some s) idx p n
perform (remove_span idx n) h s = remove h (some s) idx n
perform (replace_span idx k view) h s = replace_view h (some s) idx k view
perform (resize_to n fill) h s = resize h (some s) n fill
perform (reserve_for n) h s = reserve h (some s) n
perform shrink h s = shrink_to_fit h (some s)
perform (set_text p n) h s = set_cstr h (some s) p
perform (append_text p n) h s = append_cstr h (some s) p
perform (append_byte byte local) h s = append_char h (some s) byte local
perform clear_all h s = let (h', s') = clear h (some s) in (h', s', ok)
perform clear_status h s = (h, clear_error (some s), ok)

abbrev pub meaning : Command → Heap → Edit
meaning (set_bytes p n) h = put (bytes h.byte p n)
meaning (append_bytes p n) h = add (bytes h.byte p n)
meaning (insert_bytes idx p n) h = splice idx 0 (bytes h.byte p n)
meaning (remove_span idx n) h = splice idx n []
meaning (replace_span idx k view) h = splice idx k (bytes h.byte view.ptr view.len)
meaning (resize_to n fill) h = fit n fill
meaning (reserve_for n) h = keep
meaning shrink h = keep
meaning (set_text p n) h = put (bytes h.byte p n)
meaning (append_text p n) h = add (bytes h.byte p n)
meaning (append_byte byte local) h = add (byte ∷ [])
meaning clear_all h = wipe
meaning clear_status h = forgive

-- A readable source, and lengths that fit in a word. An index may be anything.
abbrev pub Readable : Heap → Str → ℕ → ℕ → Type 0
Readable h s p n = (0 < p) × (n ≤ size_max) × (n ≢ 0 → IsSource h s p n)

abbrev pub Permits : Heap → Str → Command → Type 0
Permits h s (set_bytes p n) = Readable h s p n
Permits h s (append_bytes p n) = Readable h s p n
Permits h s (insert_bytes idx p n) = Readable h s p n
Permits h s (remove_span idx n) = Unit
Permits h s (replace_span idx k view) = Readable h s view.ptr view.len
Permits h s (resize_to n fill) = n ≤ size_max
Permits h s (reserve_for n) = n ≤ size_max
Permits h s shrink = Unit
Permits h s (set_text p n) = IsSource h s p (n + 1) × IsTerminated h.byte p n
Permits h s (append_text p n) = IsSource h s p (n + 1) × IsTerminated h.byte p n
Permits h s (append_byte byte local) = IsOutside h s local 1
Permits h s clear_all = Unit
Permits h s clear_status = Unit

-- What other code may do between two calls: anything outside the string's own block.
pub record Aside (h : Heap) (s : Str) (h' : Heap) : Type 0 where
  pub mono : h.brk ≤ h'.brk
  pub top : h'.brk ≤ size_max
  pub kept : (a : ℕ) → s.buf ≤ a → a < s.buf + s.cap → h'.byte a ≡ h.byte a
  pub block : h'.size s.buf ≡ h.size s.buf

-- The calls on one string and what happens between them; the edits, the newest first.
pub data Session : List Edit → Heap → Str → Heap → Str → Type 0 where
  start : {h : Heap} {s : Str} → Session [] h s h s
  call :
      {es : List Edit} {h h1 h2 : Heap} {s s1 s2 : Str}
      → Session es h s h1 s1
      → (c : Command) (e : Status) → Permits h1 s1 c
      → perform c h1 s1 ≡ (h2, some s2, e)
      → Session (meaning c h1 ∷ es) h s h2 s2
  between :
      {es : List Edit} {h h1 h2 : Heap} {s s1 : Str}
      → Session es h s h1 s1
      → Aside h1 s1 h2
      → Session es h s h2 s1
