-- ===== src/Str/Session/Trace.antt =====
-- Sessions with a `str_t` of agenc-str are runs of the abstract machine.
use agenc_c.Base.{
  ℕ, ◌+◌, ◌≡◌, ◌≢◌, ◌⊎◌, inl, inr, refl, ap, sym, subst, ◌∙◌, arith, Bool, true, false, ◌||◌,
  Option, none, some, List, [], ◌∷◌, ◌++◌,
}
use agenc_c.Memory.{Heap}
use agenc_c.Memory.Bytes.{bytes, bytes_ext}
use agenc_c.Str.Types.{Status, ok, err_alloc, err_arg, err_range, err_overflow, err_fmt, Str, View}
use agenc_c.Str.Source.{validate_mutation}
use agenc_c.Str.Valid.{IsValid, content}
use agenc_c.Str.Write.{set_n, append_n, set_cstr, append_cstr}
use agenc_c.Str.Api.{set_n-Answers, append_n-Answers}
use agenc_c.Str.Api.Refusals.{sticky}
use agenc_c.Str.Life.{null}
use agenc_c.Str.Format.{Vsnprintf}
use agenc_c.Str.Session.{
  Value, value, Edit, put, add, effect, resets, Step, took, refused, past_end, stuck, Command,
  set_bytes, shrink, set_text, append_text, append_byte, append_bytes, insert_bytes, remove_span,
  replace_span, resize_to, reserve_for, clear_all, clear_status, perform, meaning, Permits, Aside,
  Session, start, call, between,
}
use agenc_c.Str.Session.Outcome.{Simulates, stuck-Simulates, Answers-Simulates}
use agenc_c.Str.Session.Shrink.{shrink-Simulates}
use agenc_c.Str.Session.Byte.{byte-Simulates}
use agenc_c.Str.Api.CString.{set_cstr-Answers, append_cstr-Answers}
use agenc_c.Str.Session.Simulate.{
  insert-Simulates, remove-Simulates, replace-Simulates, resize-Simulates, reserve-Simulates,
  clear-Simulates, clear_error-Simulates,
}

status_cases : (e : Status) → (e ≡ ok) ⊎ (e ≢ ok)
status_cases ok = inl refl
status_cases err_arg = inr (λ q. cc)
status_cases err_alloc = inr (λ q. cc)
status_cases err_range = inr (λ q. cc)
status_cases err_overflow = inr (λ q. cc)
status_cases err_fmt = inr (λ q. cc)

abbrev no_view : View
no_view = record { ptr = 0; len = 0 }

abbrev no_render : Vsnprintf ℕ
no_render h destination capacity format arguments = (h, none)

module _ (h : Heap) (s : Str) (v : IsValid h s) where
  -- A sticky status stops every call that does not reset it.
  stuck_perform :
      (c : Command)
      → resets (meaning c h) ≡ false
      → s.status ≢ ok
      → perform c h s ≡ (h, some s, s.status)
  unfolding validate_mutation
  stuck_perform (set_bytes p n) keeps ne =
      (sticky h (some s) 0 p n 0 0 0 0 no_view null no_render 0 ne).0
  stuck_perform (append_bytes p n) keeps ne =
      (sticky h (some s) 0 p n 0 0 0 0 no_view null no_render 0 ne).2
  stuck_perform (insert_bytes idx p n) keeps ne =
      (sticky h (some s) idx p n 0 0 0 0 no_view null no_render 0 ne).5
  stuck_perform (remove_span idx n) keeps ne =
      (sticky h (some s) idx 0 n 0 0 0 0 no_view null no_render 0 ne).6
  stuck_perform (replace_span idx k view) keeps ne =
      (sticky h (some s) idx 0 0 k 0 0 0 view null no_render 0 ne).7
  stuck_perform (resize_to n fill) keeps ne =
      (sticky h (some s) 0 0 n 0 fill 0 0 no_view null no_render 0 ne).8
  stuck_perform (reserve_for n) keeps ne =
      (sticky h (some s) 0 0 n 0 0 0 0 no_view null no_render 0 ne).9
  stuck_perform shrink keeps ne = (sticky h (some s) 0 0 0 0 0 0 0 no_view null no_render 0 ne).10
  stuck_perform (set_text p n) keeps ne =
      (sticky h (some s) 0 p 0 0 0 0 0 no_view null no_render 0 ne).1
  stuck_perform (append_text p n) keeps ne =
      (sticky h (some s) 0 p 0 0 0 0 0 no_view null no_render 0 ne).3
  stuck_perform (append_byte byte local) keeps ne =
      (sticky h (some s) 0 0 0 0 0 byte local no_view null no_render 0 ne).4
  stuck_perform clear_all keeps ne = absurd cc
  stuck_perform clear_status keeps ne = absurd cc

  fine-Simulates :
      (c : Command) → Permits h s c → s.status ≡ ok → Simulates (meaning c h) h s (perform c h s)
  fine-Simulates (set_bytes p n) (pos, small, source) fine =
      Answers-Simulates h s v (put (bytes h.byte p n)) (bytes h.byte p n) (set_n h (some s) p n)
        fine refl (set_n-Answers h s p n v fine source small)
  fine-Simulates (append_bytes p n) (pos, small, source) fine =
      Answers-Simulates h s v (add (bytes h.byte p n)) (content h s ++ bytes h.byte p n)
        (append_n h (some s) p n) fine refl (append_n-Answers h s p n v fine source small)
  fine-Simulates (insert_bytes idx p n) permit fine = insert-Simulates h s v idx p n fine permit
  fine-Simulates (remove_span idx n) permit fine = remove-Simulates h s v idx n fine
  fine-Simulates (replace_span idx k view) permit fine =
      replace-Simulates h s v idx k view fine permit
  fine-Simulates (resize_to n fill) permit fine = resize-Simulates h s v n fill fine permit
  fine-Simulates (reserve_for n) permit fine = reserve-Simulates h s v n fine permit
  fine-Simulates shrink permit fine = shrink-Simulates h s v fine
  fine-Simulates (set_text p n) (source, text) fine =
      Answers-Simulates h s v (put (bytes h.byte p n)) (bytes h.byte p n) (set_cstr h (some s) p)
        fine refl (set_cstr-Answers h s p n v fine source text)
  fine-Simulates (append_text p n) (source, text) fine =
      Answers-Simulates h s v (add (bytes h.byte p n)) (content h s ++ bytes h.byte p n)
        (append_cstr h (some s) p) fine refl (append_cstr-Answers h s p n v fine source text)
  fine-Simulates (append_byte byte local) permit fine = byte-Simulates h s v byte local fine permit
  fine-Simulates clear_all permit fine = clear-Simulates h s v
  fine-Simulates clear_status permit fine = clear_error-Simulates h s v

  held-Simulates :
      (c : Command)
      → (r : Bool) → resets (meaning c h) ≡ r
      → s.status ≢ ok
      → Simulates (meaning c h) h s (perform c h s)
  held-Simulates c false keeps ne =
      stuck-Simulates h s v (meaning c h) (perform c h s) ne keeps (stuck_perform c keeps ne)
  held-Simulates clear_all true keeps ne = clear-Simulates h s v
  held-Simulates clear_status true keeps ne = clear_error-Simulates h s v
  held-Simulates (set_bytes p n) true keeps ne = absurd cc
  held-Simulates (append_bytes p n) true keeps ne = absurd cc
  held-Simulates (insert_bytes idx p n) true keeps ne = absurd cc
  held-Simulates (remove_span idx n) true keeps ne = absurd cc
  held-Simulates (replace_span idx k view) true keeps ne = absurd cc
  held-Simulates (resize_to n fill) true keeps ne = absurd cc
  held-Simulates (reserve_for n) true keeps ne = absurd cc
  held-Simulates shrink true keeps ne = absurd cc
  held-Simulates (set_text p n) true keeps ne = absurd cc
  held-Simulates (append_text p n) true keeps ne = absurd cc
  held-Simulates (append_byte byte local) true keeps ne = absurd cc

  -- Every permitted call on a valid string is a step of the machine.
  pub perform-Simulates :
      (c : Command) → Permits h s c → Simulates (meaning c h) h s (perform c h s)
  perform-Simulates c permit = elim (status_cases s.status) [
    | inl fine ↦ fine-Simulates c permit fine
    | inr ne ↦ held-Simulates c (resets (meaning c h)) refl ne
  ]

  Aside-IsValid : (h' : Heap) → Aside h s h' → IsValid h' s
  Aside-IsValid h' a = record {
    heap = omega (arith, a.mono, a.top, v.heap);
    shape = elim v.shape [
      | inl u ↦ inl u
      | inr o ↦ inr (ground (arith, o, a.block, a.mono, a.kept (s.buf + s.len)))
    ];
  }

  Aside-value : (h' : Heap) → Aside h s h' → value h' s ≡ value h s
  Aside-value h' a =
      ap (λ t. record { text = t; status = s.status })
        (bytes_ext h'.byte h.byte s.buf s.buf s.len
          (λ i l. a.kept (s.buf + i) (omega arith) (ground (arith, v.shape))))

-- Runs of the machine; the edits, the newest first.
pub data Trace : List Edit → Value → Value → Type 0 where
  idle : {v : Value} → Trace [] v v
  more :
      {es : List Edit} {v u w : Value} → Trace es v u → (e : Edit) → Step e u w → Trace (e ∷ es) v w

Simulates-more :
    (es : List Edit) (v : Value) (e : Edit) (h : Heap) (s : Str) (h' : Heap) (s' : Str) (x : Status)
    → Trace es v (value h s)
    → Simulates e h s (h', some s', x)
    → IsValid h' s' × Trace (e ∷ es) v (value h' s')
Simulates-more es v e h s h' s' x t m = (m.0, more t e m.1)

-- A session on a valid string (calls of str_set_n, str_set, str_append_n, str_append,
-- str_append_char, str_insert_n, str_remove, str_replace_view, str_resize, str_reserve,
-- str_shrink_to_fit, str_clear and str_clear_error with sources that are readable and not NULL,
-- C strings with their NUL, lengths up to SIZE_MAX and any indices, and between them any code
-- that leaves the string's own block alone) ends with a valid string, and content and status
-- make a run of the abstract machine: an edit takes effect, or it is refused with STR_ERR_ALLOC
-- or STR_ERR_OVERFLOW, or with STR_ERR_RANGE where it reaches past the end, or a sticky status
-- stops it.
pub Session-Trace :
    {es : List Edit} {h h' : Heap} {s s' : Str}
    → Session es h s h' s'
    → IsValid h s
    → IsValid h' s' × Trace es (value h s) (value h' s')
Session-Trace start v = (v, idle)
Session-Trace
      (call {es = es} {h = h} {h1 = h1} {h2 = h2} {s = s} {s1 = s1} {s2 = s2} r c x permit e) v =
    let (v1, t) = Session-Trace r v in
    Simulates-more es (value h s) (meaning c h1) h1 s1 h2 s2 x t
      (subst (Simulates (meaning c h1) h1 s1) e (perform-Simulates h1 s1 v1 c permit))
Session-Trace (between {es = es} {h = h} {h1 = h1} {h2 = h2} {s = s} {s1 = s1} r a) v =
    let (v1, t) = Session-Trace r v in
    (Aside-IsValid h1 s1 v1 h2 a, subst (Trace es (value h s)) (sym (Aside-value h1 s1 v1 h2 a)) t)

-- All edits together, and whether one of them resets the status.
abbrev pub effects : List Edit → List ℕ → Option (List ℕ)
effects [] text = some text
effects (e ∷ es) text = elim (effects es text) [ none ↦ none | some t ↦ effect e t ]

abbrev pub any_resets : List Edit → Bool
any_resets [] = false
any_resets (e ∷ es) = resets e || any_resets es

step_took :
    (e : Edit) (v v' : Value)
    → Step e v v'
    → resets e ≡ false
    → v'.status ≡ ok
    → (v.status ≡ ok) × (effect e v.text ≡ some v'.text)
step_took e v v' (took (inl fine) eff after) keeps end = (fine, eff)
step_took e v v' (took (inr r) eff after) keeps end = absurd cc
step_took e v v' (refused fine same (inl x)) keeps end = absurd cc
step_took e v v' (refused fine same (inr x)) keeps end = absurd cc
step_took e v v' (past_end fine eff same x) keeps end = absurd cc
step_took e v v' (stuck ne r same) keeps end = absurd (ne (ap (λ u. u.status) (sym same) ∙ end))

Trace-effects :
    (es : List Edit) {v v' : Value}
    → Trace es v v'
    → any_resets es ≡ false
    → v'.status ≡ ok
    → (v.status ≡ ok) × (effects es v.text ≡ some v'.text)
Trace-effects es idle keeps end = (end, refl)
Trace-effects es (more {es = es'} {v = v} {u = u} {w = w} t e st) keeps end =
    let (fine, eff) = step_took e u w st (ground arith) end in
    let (first, ih) = Trace-effects es' t (ground arith) fine in
    (first, ap (λ o. elim o [ none ↦ none | some x ↦ effect e x ]) ih ∙ eff)

-- In a session on a valid string (calls of str_set_n, str_set, str_append_n, str_append,
-- str_append_char, str_insert_n, str_remove, str_replace_view, str_resize, str_reserve,
-- str_shrink_to_fit, str_clear and str_clear_error with sources that are readable and not NULL,
-- C strings with their NUL, lengths up to SIZE_MAX and any indices, and between them any code
-- that leaves the string's own block alone) without str_clear and str_clear_error: if the status
-- is STR_OK at the end, it was at the start, and the content is what all edits together make of
-- the old content.
pub Session-effects :
    {es : List Edit} {h h' : Heap} {s s' : Str}
    → Session es h s h' s'
    → IsValid h s
    → any_resets es ≡ false
    → s'.status ≡ ok
    → (s.status ≡ ok) × (effects es (content h s) ≡ some (content h' s'))
Session-effects {es = es} r v keeps end = Trace-effects es (Session-Trace r v).1 keeps end
