-- ===== src/Str/Session/Byte.antt =====
-- str_append_char of agenc-str as a step of the abstract machine.
use agenc_c.Base.{ℕ, ◌≡◌, inl, inr, ap, sym, subst, arith, none, some, [], ◌∷◌, ◌++◌}
use agenc_c.Memory.{Heap, poke}
use agenc_c.Memory.Bytes.{bytes, bytes_ext}
use agenc_c.Str.Types.{ok, Str, Call}
use agenc_c.Str.Source.{validate_mutation}
use agenc_c.Str.Valid.{IsValid, IsOutside, content}
use agenc_c.Str.Write.{returned, append_char, append_unaliased_span}
use agenc_c.Str.Write.Unaliased.{append_unaliased_span-Mutates}
use agenc_c.Str.Session.Outcome.{Simulates, Mutates-Simulates}
use agenc_c.Str.Session.{Edit, Step, value, add}

rebased-Simulates :
    (e : Edit) (h h1 : Heap) (s : Str) (r : Call)
    → value h1 s ≡ value h s
    → Simulates e h1 s r
    → Simulates e h s r
rebased-Simulates e h h1 s (h', none, x) same m = m
rebased-Simulates e h h1 s (h', some s', x) same m =
    (m.0, subst (λ u. Step e u (value h' s')) same (m.1), m.2)

module _ (h : Heap) (s : Str) (v : IsValid h s) where
  -- The array on the stack does not touch the string.
  poked-IsValid : (byte local : ℕ) → IsOutside h s local 1 → IsValid (poke h local byte) s
  unfolding poke
  poked-IsValid byte local out = record {
    heap = ground (arith, v.heap);
    shape = elim v.shape [ inl u ↦ inl u | inr o ↦ inr (ground (arith, o, out.apart)) ];
  }

  poked-content :
      (byte local : ℕ) → IsOutside h s local 1 → content (poke h local byte) s ≡ content h s
  unfolding poke
  poked-content byte local out =
      bytes_ext _ h.byte s.buf s.buf s.len (λ i l. ground (arith, out.apart, v.shape))

  poked-byte : (byte local : ℕ) → bytes (poke h local byte).byte local 1 ≡ byte ∷ []
  unfolding poke
  poked-byte byte local = ground arith

  append_char_lem :
      (byte local : ℕ)
      → s.status ≡ ok
      → append_char h (some s) byte local
        ≡ returned (append_unaliased_span (poke h local byte) s local 1)
  unfolding append_char validate_mutation
  append_char_lem byte local fine = ground arith

  poked-IsOutside :
      (byte local : ℕ) → IsOutside h s local 1 → IsOutside (poke h local byte) s local 1
  unfolding poke
  poked-IsOutside byte local out = record {
    not_null = out.not_null;
    readable = out.readable;
    apart = out.apart;
  }

  pub byte-Simulates :
      (byte local : ℕ)
      → s.status ≡ ok
      → IsOutside h s local 1
      → Simulates (add (byte ∷ [])) h s (append_char h (some s) byte local)
  byte-Simulates byte local fine out =
      let h1 : Heap = poke h local byte in
      let v1 = poked-IsValid byte local out in
      let m =
        append_unaliased_span-Mutates h1 s local 1 v1 fine (λ ne. poked-IsOutside byte local out)
          (omega arith) in
      rw (append_char_lem byte local fine) (
        rebased-Simulates (add (byte ∷ [])) h h1 s (returned (append_unaliased_span h1 s local 1))
          (ap (λ t. record { text = t; status = s.status }) (poked-content byte local out))
          (Mutates-Simulates h1 s v1 (add (byte ∷ [])) (content h1 s ++ bytes h1.byte local 1)
            (append_unaliased_span h1 s local 1) fine
            (ap (λ t. some (content h1 s ++ t)) (sym (poked-byte byte local))) m))
