-- ===== src/Str/Session/Outcome.antt =====
-- The outcomes of the mutators of agenc-str as steps of the abstract machine.
use agenc_c.Base.{
  ℕ, ◌+◌, ◌≡◌, ◌≢◌, ◌⊎◌, inl, inr, refl, ap, sym, subst, ◌∙◌, arith, false, none, some, List,
}
use agenc_c.Memory.{Heap}
use agenc_c.Memory.Bytes.{bytes_ext}
use agenc_c.Str.Types.{
  Status, ok, err_alloc, err_arg, err_range, err_overflow, err_fmt, Str, Run, Call,
}
use agenc_c.Str.Source.{set_failure}
use agenc_c.Str.Valid.{IsValid, Updated, Mutates, content}
use agenc_c.Str.Lend.{Spared, Quiet-Spared}
use agenc_c.Str.Write.{returned}
use agenc_c.Str.Replace.Splice.{Replaces}
use agenc_c.Str.Api.{Answers, Answers-returned}
use agenc_c.Str.Session.{value, Edit, effect, resets, Step, took, refused, past_end, stuck}

-- A call leaves a valid string, its value made a step, and it returns the recorded status.
abbrev pub Simulates : Edit → Heap → Str → Call → Type 0
Simulates e h s (h', none, x) = ⊥
Simulates e h s (h', some s', x) =
    IsValid h' s' × Step e (value h s) (value h' s') × (x ≡ s'.status)

module _ (h : Heap) (s : Str) (v : IsValid h s) where
  Spared-IsValid : (h' : Heap) (e : Status) → Spared h h' → IsValid h' (set_failure s e)
  Spared-IsValid h' e r = record {
    heap = omega (arith, r.mono, r.top, v.heap);
    shape = elim v.shape [
      | inl u ↦ inl (ground (arith, u))
      | inr o ↦ inr (ground (arith, o, r.sizes s.buf, r.kept (s.buf + s.len), r.mono))
    ];
  }

  Spared-content : (h' : Heap) → Spared h h' → content h' s ≡ content h s
  Spared-content h' r =
      bytes_ext h'.byte h.byte s.buf s.buf s.len
        (λ i l. r.kept (s.buf + i) (ground (arith, v.shape)))

  pub refused-Simulates :
      (e : Edit) (h' : Heap) (s' : Str) (x : Status)
      → s.status ≡ ok
      → (x ≡ err_alloc) ⊎ (x ≡ err_overflow)
      → Spared h h'
      → s' ≡ set_failure s x
      → Simulates e h s (h', some s', x)
  refused-Simulates e h' s' x fine kind r same =
      subst (λ t. Simulates e h s (h', some t, x)) (sym same)
        (Spared-IsValid h' x r, refused fine (Spared-content h' r) kind, refl)

  pub Updated-Simulates :
      (e : Edit) (text : List ℕ) (h' : Heap) (s' : Str)
      → s.status ≡ ok
      → effect e (content h s) ≡ some text
      → Updated h s text h' s'
      → Simulates e h s (h', some s', ok)
  Updated-Simulates e text h' s' fine eff u =
      (u.valid, took (inl fine) (eff ∙ ap some (sym u.holds)) u.status, sym u.status)

  pub Replaces-Simulates :
      (e : Edit) (text : List ℕ) (r : Call)
      → s.status ≡ ok
      → effect e (content h s) ≡ some text
      → Replaces h s text r
      → Simulates e h s r
  Replaces-Simulates e text (h', none, x) fine eff m = absurd m
  Replaces-Simulates e text (h', some s', ok) fine eff m = Updated-Simulates e text h' s' fine eff m
  Replaces-Simulates e text (h', some s', err_alloc) fine eff m =
      refused-Simulates e h' s' err_alloc fine (inl refl) m.0 m.1
  Replaces-Simulates e text (h', some s', err_overflow) fine eff m =
      refused-Simulates e h' s' err_overflow fine (inr refl) m.0 m.1
  Replaces-Simulates e text (h', some s', err_arg) fine eff m = absurd m
  Replaces-Simulates e text (h', some s', err_range) fine eff m = absurd m
  Replaces-Simulates e text (h', some s', err_fmt) fine eff m = absurd m

  Answers-Replaces : (text : List ℕ) (r : Call) → Answers h s text r → Replaces h s text r
  Answers-Replaces text (h', none, x) m = absurd m
  Answers-Replaces text (h', some s', ok) m = m
  Answers-Replaces text (h', some s', err_alloc) m =
      (Quiet-Spared h h' (omega (arith, v.heap)) m.quiet, m.string)
  Answers-Replaces text (h', some s', err_overflow) m =
      (Quiet-Spared h h' (omega (arith, v.heap)) m.quiet, m.string)
  Answers-Replaces text (h', some s', err_arg) m = absurd m
  Answers-Replaces text (h', some s', err_range) m = absurd m
  Answers-Replaces text (h', some s', err_fmt) m = absurd m

  pub Answers-Simulates :
      (e : Edit) (text : List ℕ) (r : Call)
      → s.status ≡ ok
      → effect e (content h s) ≡ some text
      → Answers h s text r
      → Simulates e h s r
  Answers-Simulates e text r fine eff m =
      Replaces-Simulates e text r fine eff (Answers-Replaces text r m)

  pub Mutates-Simulates :
      (e : Edit) (text : List ℕ) (r : Run Status)
      → s.status ≡ ok
      → effect e (content h s) ≡ some text
      → Mutates h s text r
      → Simulates e h s (returned r)
  Mutates-Simulates e text r fine eff m =
      Answers-Simulates e text (returned r) fine eff (Answers-returned h s text r m)

  -- A call that a sticky status stops.
  pub stuck-Simulates :
      (e : Edit) (r : Call)
      → s.status ≢ ok
      → resets e ≡ false
      → r ≡ (h, some s, s.status)
      → Simulates e h s r
  stuck-Simulates e r ne keeps same =
      subst (Simulates e h s) (sym same) (v, stuck ne keeps refl, refl)

  pub range-Simulates :
      (e : Edit) (r : Call)
      → s.status ≡ ok
      → effect e (content h s) ≡ none
      → r ≡ (h, some (set_failure s err_range), err_range)
      → Simulates e h s r
  range-Simulates e r fine eff same =
      subst (Simulates e h s) (sym same) (
        record { heap = v.heap; shape = ground (arith, v.shape) },
        past_end fine eff refl refl,
        refl,
      )
