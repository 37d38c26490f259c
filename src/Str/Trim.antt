-- ===== src/Str/Trim.antt =====
-- str_view_trim of agenc-str/src/str.c.
use native.Mathlib.Decide.{ℕ_discrete}
use agenc_c.Base.{
  ap, ◌∙◌, inl, inr, Bool-cases, ◌≢◌, ne→==, ℕ, zero, suc, ◌+◌, ◌-◌, ◌≤◌, ◌<◌, ◌≡◌, Bool, true,
  false, ◌||◌, not, ◌==◌, if◌then◌else◌, arith, List, [], ◌∷◌,
}
use agenc_c.Str.Types.{View}
use agenc_c.Str.Observe.{make_empty_view}
use agenc_c.Str.View.{view_is_valid}

-- The table and its scan: space, tab, LF, CR, FF, VT.
abbrev pub ascii_whitespace_bytes : List ℕ
ascii_whitespace_bytes = 0x20 ∷ 0x09 ∷ 0x0a ∷ 0x0d ∷ 0x0c ∷ 0x0b ∷ []

abbrev pub occurs : ℕ → List ℕ → Bool
occurs byte [] = false
occurs byte (b ∷ rest) = (byte == b) || occurs byte rest

unfoldable pub is_ascii_whitespace : ℕ → Bool
is_ascii_whitespace byte = occurs byte ascii_whitespace_bytes

-- The loop of `str_trim_view_left` on the address and the length.
unfoldable pub trim_left : (ℕ → ℕ) → ℕ → ℕ → View
trim_left m ptr zero = record { ptr = ptr; len = zero }
trim_left m ptr (suc len) =
    let rest = trim_left m (ptr + 1) len in
    if is_ascii_whitespace (m ptr) then rest else record { ptr = ptr; len = suc len }

unfoldable pub trim_view_left : (ℕ → ℕ) → View → View
trim_view_left m view = trim_left m view.ptr view.len

-- The length that `str_trim_view_right` leaves.
unfoldable pub trim_right : (ℕ → ℕ) → ℕ → ℕ → ℕ
trim_right m ptr zero = zero
trim_right m ptr (suc len) =
    let rest = trim_right m ptr len in if is_ascii_whitespace (m (ptr + len)) then rest else suc len

unfoldable pub trim_view_right : (ℕ → ℕ) → View → View
trim_view_right m view = record view { len = trim_right m view.ptr view.len }

unfoldable pub view_trim : ℕ → (ℕ → ℕ) → View → View
view_trim empty_buf m view =
    if not (view_is_valid view) || (view.len == 0)
    then make_empty_view empty_buf
    else trim_view_right m (trim_view_left m view)

-- `t` is `v` without its whitespace at both ends.
pub record Trims (m : ℕ → ℕ) (v t : View) : Type 0 where
  pub from : v.ptr ≤ t.ptr
  pub to : t.ptr + t.len ≤ v.ptr + v.len
  pub left : (a : ℕ) → v.ptr ≤ a → a < t.ptr → is_ascii_whitespace (m a) ≡ true
  pub right : (a : ℕ) → t.ptr + t.len ≤ a → a < v.ptr + v.len → is_ascii_whitespace (m a) ≡ true
  pub first : 0 < t.len → is_ascii_whitespace (m t.ptr) ≡ false
  pub last : 0 < t.len → is_ascii_whitespace (m (t.ptr + (t.len - 1))) ≡ false

trim_left-eq :
    (m : ℕ → ℕ) (p n : ℕ)
    → let t = trim_left m p n in
      (p ≤ t.ptr)
      × (t.ptr + t.len ≡ p + n)
      × ((a : ℕ) → p ≤ a → a < t.ptr → is_ascii_whitespace (m a) ≡ true)
      × (0 < t.len → is_ascii_whitespace (m t.ptr) ≡ false)
unfolding trim_left
trim_left-eq m p zero = ground arith
trim_left-eq m p (suc n) = elim (Bool-cases (is_ascii_whitespace (m p))) [
  | inl w ↦ rw w (
    omega (arith, (trim_left-eq m (p + 1) n).0),
    omega (arith, (trim_left-eq m (p + 1) n).1),
    λ a lo hi. elim (ℕ_discrete a p) [
      | yes e ↦ ap (λ b. is_ascii_whitespace (m b)) e ∙ w
      | no ne ↦ (trim_left-eq m (p + 1) n).2 a (omega arith) hi
    ],
    (trim_left-eq m (p + 1) n).3,
  )
  | inr w ↦ rw w (omega arith, omega arith, λ a lo hi. absurd (omega arith), λ _. w)
]

trim_right-eq :
    (m : ℕ → ℕ) (p n : ℕ)
    → let k = trim_right m p n in
      (k ≤ n)
      × ((a : ℕ) → p + k ≤ a → a < p + n → is_ascii_whitespace (m a) ≡ true)
      × (0 < k → is_ascii_whitespace (m (p + (k - 1))) ≡ false)
unfolding trim_right
trim_right-eq m p zero = ground arith
trim_right-eq m p (suc n) = elim (Bool-cases (is_ascii_whitespace (m (p + n)))) [
  | inl w ↦ rw w (
    omega (arith, (trim_right-eq m p n).0),
    λ a lo hi. elim (ℕ_discrete a (p + n)) [
      | yes e ↦ ap (λ b. is_ascii_whitespace (m b)) e ∙ w
      | no ne ↦ (trim_right-eq m p n).1 a lo (omega arith)
    ],
    (trim_right-eq m p n).2,
  )
  | inr w ↦ rw w (
    omega arith,
    λ a lo hi. absurd (omega arith),
    λ _. ap (λ k. is_ascii_whitespace (m (p + k))) {x = suc n - 1} {y = n} (omega arith) ∙ w,
  )
]

-- On a nonempty view that is not NULL, the result of the trim lies inside the view, the bytes
-- dropped at both ends are whitespace, and the result neither begins nor ends with whitespace.
pub view_trim-Trims :
    (empty_buf : ℕ) (m : ℕ → ℕ) (v : View)
    → v.ptr ≢ 0
    → 0 < v.len
    → Trims m v (view_trim empty_buf m v)
unfolding view_trim trim_view_left trim_view_right view_is_valid
view_trim-Trims empty_buf m v nn pos =
    let l = trim_left-eq m v.ptr v.len in
    let r = trim_right-eq m (trim_left m v.ptr v.len).ptr (trim_left m v.ptr v.len).len in
    rw (ne→== v.ptr 0 nn, ne→== v.len 0 (omega arith))
      (record {
        from = l.0;
        to = omega (arith, l.1, r.0);
        left = l.2;
        right = λ a lo hi. r.1 a lo (omega (arith, l.1));
        first = λ k. l.3 (omega (arith, r.0));
        last = r.2;
      })
