-- ===== src/Str/View/Order.antt =====
-- The tests on views decide relations of byte lists, and the order of views is lexicographic.
use agenc_c.Base.{
  ℕ, zero, suc, ◌+◌, ◌-◌, ◌≤◌, ◌≡◌, ◌↔◌, refl, sym, ap, ◌∙◌, arith, List, [], ◌∷◌, take, drop,
  length, true, ltb, if◌then◌else◌, ne→==, ◌==◌, le→ltb,
}
use native.Mathlib.Decide.{ℕ_discrete, dec_le}
use agenc_c.Memory.{memcmp, Sign, less, equal, greater}
use agenc_c.Memory.Bytes.{bytes, memcmp-equal, length-bytes, take-bytes, drop-bytes}
use agenc_c.Str.Types.{View}
use agenc_c.Str.View.{
  is_byte_span_equal, is_view_content_equal, has_view_prefix, has_view_suffix, compare_bytes,
  compare_lengths, compare_valid_views, is_zero,
}

-- The bytes that a view shows.
abbrev pub shown : (ℕ → ℕ) → View → List ℕ
shown m view = bytes m view.ptr view.len

is_zero_iff : (c : Sign) → (is_zero c ≡ true) ↔ (c ≡ equal)
is_zero_iff less = (λ e. cc, λ e. cc)
is_zero_iff equal = (λ _. refl, λ _. refl)
is_zero_iff greater = (λ e. cc, λ e. cc)

pub is_byte_span_equal_iff :
    (m : ℕ → ℕ) (p q n : ℕ) → (is_byte_span_equal m p q n ≡ true) ↔ (bytes m p n ≡ bytes m q n)
unfolding is_byte_span_equal
is_byte_span_equal_iff m p q zero = (λ _. refl, λ _. refl)
is_byte_span_equal_iff m p q (suc n) = (
  λ e. (memcmp-equal m p q (suc n)).0 ((is_zero_iff _).0 (ground arith)),
  λ e. let c = (memcmp-equal m p q (suc n)).1 e in ground arith,
)

-- The byte comparison of two views succeeds exactly if they show the same list of bytes.
pub is_view_content_equal_iff :
    (m : ℕ → ℕ) (l r : View) → (is_view_content_equal m l r ≡ true) ↔ (shown m l ≡ shown m r)
unfolding is_view_content_equal
is_view_content_equal_iff m l r = elim (ℕ_discrete l.len r.len) [
  | yes e ↦ (
    λ q. (is_byte_span_equal_iff m l.ptr r.ptr l.len).0 (ground arith) ∙ ap (bytes m r.ptr) e,
    λ q.
        let b = (is_byte_span_equal_iff m l.ptr r.ptr l.len).1 (q ∙ ap (bytes m r.ptr) (sym e)) in
        ground arith,
  )
  | no ne ↦ (
    λ e. absurd (ground arith),
    λ e. absurd (ne (sym (length-bytes m l.ptr l.len) ∙ ap length e ∙ length-bytes m r.ptr r.len)),
  )
]

-- The test for a prefix succeeds exactly if the prefix is not longer than the value and the
-- first bytes of the value are the prefix.
pub has_view_prefix_iff :
    (m : ℕ → ℕ) (v p : View)
    → (has_view_prefix m v p ≡ true) ↔ ((p.len ≤ v.len) × (take p.len (shown m v) ≡ shown m p))
unfolding has_view_prefix
has_view_prefix_iff m v p = elim (dec_le p.len v.len) [
  | yes l ↦
      rw (le→ltb v.len p.len l, take-bytes m v.ptr v.len p.len l)
        (
          λ e. (l, (is_byte_span_equal_iff m v.ptr p.ptr p.len).0 e),
          λ e. (is_byte_span_equal_iff m v.ptr p.ptr p.len).1 e.1,
        )
  | no g ↦ (λ e. absurd (ground arith), λ e. absurd (g e.0))
]

-- The lexicographic order of byte lists.
pub lex : List ℕ → List ℕ → Sign
lex [] [] = equal
lex [] (y ∷ ys) = less
lex (x ∷ xs) [] = greater
lex (x ∷ xs) (y ∷ ys) =
    let rest = lex xs ys in if ltb x y then less else if ltb y x then greater else rest

-- The test for a suffix succeeds exactly if the suffix is not longer than the value and the last
-- bytes of the value are the suffix.
pub has_view_suffix_iff :
    (m : ℕ → ℕ) (v p : View)
    → (has_view_suffix m v p ≡ true)
      ↔ ((p.len ≤ v.len) × (drop (v.len - p.len) (shown m v) ≡ shown m p))
unfolding has_view_suffix
has_view_suffix_iff m v p = elim (dec_le p.len v.len) [
  | yes l ↦
      rw (le→ltb v.len p.len l, drop-bytes m v.ptr v.len (v.len - p.len) (omega arith), rest l)
        (suffix_iff l)
  | no g ↦ (λ e. absurd (ground arith), λ e. absurd (g e.0))
]
  where
    rest : p.len ≤ v.len → v.len - (v.len - p.len) ≡ p.len
    rest l = omega arith

    suffix_iff :
        (l : p.len ≤ v.len)
        → ((if p.len == 0 then true else is_byte_span_equal m (v.ptr + (v.len - p.len)) p.ptr p.len)
            ≡ true)
          ↔ ((p.len ≤ v.len) × (bytes m (v.ptr + (v.len - p.len)) p.len ≡ bytes m p.ptr p.len))
    suffix_iff l = elim (ℕ_discrete p.len 0) [
      | yes e ↦ (
        λ _. (l, ap (bytes m (v.ptr + (v.len - p.len))) e ∙ ap (bytes m p.ptr) (sym e)),
        λ _. ground arith,
      )
      | no ne ↦ rw (ne→== p.len 0 ne) (
        λ e. (l, (is_byte_span_equal_iff m (v.ptr + (v.len - p.len)) p.ptr p.len).0 e),
        λ e. (is_byte_span_equal_iff m (v.ptr + (v.len - p.len)) p.ptr p.len).1 e.1,
      )
    ]

-- The order of the common part, or that of the lengths.
abbrev judged : Sign → ℕ → ℕ → Sign
judged equal n k = compare_lengths n k
judged less n k = less
judged greater n k = greater

lesser-suc :
    (n k : ℕ) → (if ltb (suc n) (suc k) then suc n else suc k) ≡ suc (if ltb n k then n else k)
lesser-suc n k = ground arith

lex-bytes :
    (m : ℕ → ℕ) (p q n k : ℕ)
    → lex (bytes m p n) (bytes m q k) ≡ judged (memcmp m p q (if ltb n k then n else k)) n k
unfolding lex memcmp compare_lengths
lex-bytes m p q zero zero = refl
lex-bytes m p q zero (suc k) = ground arith
lex-bytes m p q (suc n) zero = ground arith
lex-bytes m p q (suc n) (suc k) =
    rw (lesser-suc n k) (ground (arith, lex-bytes m (p + 1) (q + 1) n k))

compare_bytes-eq : (m : ℕ → ℕ) (p q n : ℕ) → compare_bytes m p q n ≡ memcmp m p q n
unfolding compare_bytes memcmp
compare_bytes-eq m p q zero = refl
compare_bytes-eq m p q (suc n) = ground arith

-- The order of two views is the lexicographic order of the bytes that they show.
pub compare_valid_views-lex :
    (m : ℕ → ℕ) (l r : View) → compare_valid_views m l r ≡ lex (shown m l) (shown m r)
unfolding compare_valid_views
compare_valid_views-lex m l r =
    rw (compare_bytes-eq, compare_valid_views)
      (rw (lex-bytes m l.ptr r.ptr l.len r.len) (ground arith))
