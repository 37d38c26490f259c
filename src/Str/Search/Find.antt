-- ===== src/Str/Search/Find.antt =====
-- str_view_find, str_view_rfind and str_find of agenc-str/src/str.c find the first or the last
-- occurrence.
use agenc_c.Base.{
  ℕ, ◌+◌, ◌-◌, ◌≤◌, ◌<◌, ◌≡◌, refl, ◌⊎◌, inl, inr, arith, Bool, true, false, ltb, if◌then◌else◌,
  lt→ltb, le→ltb, Bool-cases, subst, ap, ◌∙◌, ==_iff, ne→==, ◌==◌, ◌||◌, not, ◌&&◌, some,
}
use native.Mathlib.Decide.{dec_lt, ℕ_discrete}
use agenc_c.Memory.{Heap}
use agenc_c.Memory.Bytes.{IsCString, strlen-eq}
use agenc_c.Str.Observe.{make_view, cstr}
use agenc_c.Str.Valid.{IsValid}
use agenc_c.Str.Types.{Str, View, npos, Result, done, failed, err_arg, err_overflow}
use agenc_c.Str.View.{view_is_valid, validate_view, view_from_cstr, view_from_n}
use agenc_c.Str.Search.{
  SearchMode, first, last, search_two_way, search_view, locate_view_match, find_view_match,
  is_first, find,
}
use agenc_c.Str.Search.Loop.{Occurs}
use agenc_c.Str.Search.Scan.{FindsByte, search_view_byte-FindsByte}
use agenc_c.Str.Search.Complete.{Locates, search_two_way-Locates}

-- The indices at which the needle fits in the haystack lie below `haystack.len + 1 - needle.len`.
abbrev pub LocatesIn : (ℕ → ℕ) → View → View → SearchMode → ℕ → Type 0
LocatesIn m haystack needle mode r =
    Locates m haystack needle mode (haystack.len + 1 - needle.len) r

pub Occurs-of_byte :
    (m : ℕ → ℕ) (haystack needle : View) (r : ℕ)
    → needle.len ≡ 1
    → m (haystack.ptr + r) ≡ m needle.ptr
    → Occurs m haystack needle r
Occurs-of_byte m haystack needle r one e i l =
    ap m {x = haystack.ptr + r + i} {y = haystack.ptr + r} (omega arith)
    ∙ e
    ∙ ap m {x = needle.ptr} {y = needle.ptr + i} (omega arith)

pub Occurs-byte :
    (m : ℕ → ℕ) (haystack needle : View) (r : ℕ)
    → needle.len ≡ 1
    → Occurs m haystack needle r
    → m (haystack.ptr + r) ≡ m needle.ptr
Occurs-byte m haystack needle r one occ =
    ap m {x = haystack.ptr + r} {y = haystack.ptr + r + 0} (omega arith)
    ∙ occ 0 (omega arith)
    ∙ ap m {x = needle.ptr + 0} {y = needle.ptr} (omega arith)

-- The byte scans in the terms of the general search.
FindsByte-LocatesIn :
    (m : ℕ → ℕ) (haystack needle : View) (mode : SearchMode) (r : ℕ)
    → needle.len ≡ 1
    → FindsByte m haystack (m needle.ptr) mode r
    → LocatesIn m haystack needle mode r
FindsByte-LocatesIn m haystack needle first r one (inl (l, hit, none)) = inr (
  omega arith,
  Occurs-of_byte m haystack needle r one hit,
  λ i a b occ. none i b (Occurs-byte m haystack needle i one occ),
)
FindsByte-LocatesIn m haystack needle first r one (inr (e, none)) =
    inl (e, λ i a b occ. none i (omega arith) (Occurs-byte m haystack needle i one occ))
FindsByte-LocatesIn m haystack needle last r one (inl (l, hit, none)) = inr (
  omega arith,
  Occurs-of_byte m haystack needle r one hit,
  λ i a b occ. none i (omega arith) (omega arith) (Occurs-byte m haystack needle i one occ),
)
FindsByte-LocatesIn m haystack needle last r one (inr (e, none)) =
    inl (e, λ i a b occ. none i (omega arith) (Occurs-byte m haystack needle i one occ))

search_view-LocatesIn :
    (m : ℕ → ℕ) (haystack needle : View) (mode : SearchMode)
    → view_is_valid haystack ≡ true
    → 0 < needle.len
    → LocatesIn m haystack needle mode (search_view m haystack needle mode)
unfolding search_view view_is_valid
search_view-LocatesIn m haystack needle mode v pos =
    elim (Bool-cases ((haystack.ptr == 0) || ltb haystack.len needle.len)) [
      | inl e ↦ rw e (
          let short : haystack.len < needle.len = ground arith in
          inl (refl, λ r a b occ. absurd (omega arith)))
      | inr e ↦ rw e (
          let fits : needle.len ≤ haystack.len = ground arith in
          elim (ℕ_discrete needle.len 1) [
            | yes one ↦ rw ((==_iff needle.len 1).1 one) (
                FindsByte-LocatesIn m haystack needle mode _ one
                  (search_view_byte-FindsByte m haystack (m needle.ptr) mode))
            | no more ↦ rw (ne→== needle.len 1 more) (
                subst
                  (λ b. Locates m haystack needle mode b (search_two_way m haystack needle mode))
                  {x = haystack.len - needle.len + 1} {y = haystack.len + 1 - needle.len}
                  (omega arith) (search_two_way-Locates m haystack needle mode pos))
          ])
    ]

empty_LocatesIn :
    (m : ℕ → ℕ) (haystack needle : View) (mode : SearchMode)
    → needle.len ≡ 0
    → LocatesIn m haystack needle mode (if is_first mode then 0 else haystack.len)
empty_LocatesIn m haystack needle first e =
    inr (omega arith, λ i l. absurd (omega arith), λ r a b. absurd (omega arith))
empty_LocatesIn m haystack needle last e =
    inr (omega arith, λ i l. absurd (omega arith), λ r a b. absurd (omega arith))

pub locate_view_match-LocatesIn :
    (m : ℕ → ℕ) (haystack needle : View) (mode : SearchMode)
    → view_is_valid haystack ≡ true
    → LocatesIn m haystack needle mode (locate_view_match m haystack needle mode)
unfolding locate_view_match
locate_view_match-LocatesIn m haystack needle mode v = elim (dec_lt 0 needle.len) [
  | yes pos ↦ rw (lt→ltb 0 needle.len pos) (search_view-LocatesIn m haystack needle mode v pos)
  | no empty ↦
      rw (le→ltb 0 needle.len (omega arith)) (empty_LocatesIn m haystack needle mode (omega arith))
]

is_first_iff : (mode : SearchMode) → is_first mode ≡ false → mode ≡ last
is_first_iff first e = absurd cc
is_first_iff last e = refl

-- What a search of views answers.
abbrev pub FindsView : (ℕ → ℕ) → Bool → View → View → SearchMode → Result ℕ → Type 0
FindsView m has_out haystack needle mode (done r) =
    (has_out ≡ true)
    × (view_is_valid haystack ≡ true)
    × (view_is_valid needle ≡ true)
    × LocatesIn m haystack needle mode r
FindsView m has_out haystack needle mode (failed e) =
    ((e ≡ err_arg)
      × ((has_out ≡ false) ⊎ (view_is_valid haystack ≡ false) ⊎ (view_is_valid needle ≡ false)))
    ⊎ ((e ≡ err_overflow) × (mode ≡ last) × (needle.len ≡ 0) × (haystack.len ≡ npos))

module _ (m : ℕ → ℕ) (haystack needle : View) (mode : SearchMode) where
  abbrev too_long : Bool
  too_long = not (is_first mode) && ((needle.len == 0) && (haystack.len == npos))

  bad_haystack :
      view_is_valid haystack ≡ false → find_view_match m true haystack needle mode ≡ failed err_arg
  unfolding find_view_match validate_view
  bad_haystack e = ground arith

  bad_needle :
      view_is_valid haystack ≡ true
      → view_is_valid needle ≡ false
      → find_view_match m true haystack needle mode ≡ failed err_arg
  unfolding find_view_match validate_view
  bad_needle v e = ground arith

  good_views :
      view_is_valid haystack ≡ true
      → view_is_valid needle ≡ true
      → find_view_match m true haystack needle mode ≡ (
          if too_long then failed err_overflow else done (locate_view_match m haystack needle mode))
  unfolding find_view_match validate_view
  good_views v w = ground arith

  -- The search of views, in either mode, with or without an out pointer, on any two views. A
  -- success means that the out pointer is there and both views are valid; the index is the first
  -- or the last occurrence of the needle in the haystack, by the mode, or npos if the needle
  -- does not occur. STR_ERR_ARG means a NULL out pointer or an invalid view, and
  -- STR_ERR_OVERFLOW a search for the last empty needle in a haystack of STR_NPOS bytes; there
  -- is no other failure.
  pub find_view_match-FindsView :
      (has_out : Bool)
      → FindsView m has_out haystack needle mode (find_view_match m has_out haystack needle mode)
  unfolding find_view_match
  find_view_match-FindsView false = inl (refl, inl refl)
  find_view_match-FindsView true = elim (Bool-cases (view_is_valid haystack)) [
    | inr e ↦ rw (bad_haystack e) (inl (refl, inr (inl e)))
    | inl v ↦ elim (Bool-cases (view_is_valid needle)) [
      | inr e ↦ rw (bad_needle v e) (inl (refl, inr (inr e)))
      | inl w ↦ rw (good_views v w) (elim (Bool-cases too_long) [
        | inl e ↦ rw e (inr (refl, is_first_iff mode (ground arith), ground arith, ground arith))
        | inr e ↦ rw e (refl, v, w, locate_view_match-LocatesIn m haystack needle mode v)
      ])
    ]
  ]

pub make_view-IsValid :
    (empty_buf : ℕ) (h : Heap) (s : Str)
    → IsValid h s
    → view_is_valid (make_view empty_buf s) ≡ true
unfolding view_is_valid cstr
make_view-IsValid empty_buf h s v = elim v.shape [
  | inl u ↦ ground (arith, u.no_len)
  | inr o ↦ ground (arith, o.buf_pos)
]

view_from_cstr-eq :
    (empty_buf : ℕ) (h : Heap) (p n : ℕ)
    → 0 < p
    → IsCString h p n
    → view_from_cstr empty_buf h p ≡ record { ptr = p; len = n }
unfolding view_from_cstr view_from_n
view_from_cstr-eq empty_buf h p n pos c = rw (strlen-eq h p n c) (ground arith)

-- What `str_find` answers for a string and a C string of length `n`.
abbrev pub FindsCString : ℕ → Heap → Bool → Str → ℕ → ℕ → Result ℕ → Type 0
FindsCString empty_buf h has_out s needle n (done r) =
    (has_out ≡ true)
    × LocatesIn h.byte (make_view empty_buf s) (record { ptr = needle; len = n }) first r
FindsCString empty_buf h has_out s needle n (failed e) = (e ≡ err_arg) × (has_out ≡ false)

-- On a valid string and a C string of length `n` that is not NULL, str_find fails only on a NULL
-- out pointer, with STR_ERR_ARG; otherwise its result is the first occurrence of the `n` bytes
-- in the content, or npos if there is none.
pub find-FindsCString :
    (empty_buf : ℕ) (h : Heap) (has_out : Bool) (s : Str) (needle n : ℕ)
    → IsValid h s
    → 0 < needle
    → IsCString h needle n
    → FindsCString empty_buf h has_out s needle n (find empty_buf h has_out (some s) needle)
unfolding find
find-FindsCString empty_buf h false s needle n v pos c = (refl, refl)
find-FindsCString empty_buf h true s needle n v pos c =
    rw (ne→== needle 0 (λ e. absurd (omega arith)), view_from_cstr-eq empty_buf h needle n pos c)
      (
        refl,
        locate_view_match-LocatesIn h.byte (make_view empty_buf s)
            (record { ptr = needle; len = n }) first (make_view-IsValid empty_buf h s v),
      )
