-- ===== src/Str/Split/Pieces.antt =====
-- The pieces of a list of bytes between separators, for str_split_view of agenc-str/src/str.c.
use agenc_c.Base.{
  ℕ, zero, suc, ◌+◌, ◌≤◌, ◌<◌, ◌≡◌, ◌≢◌, ◌⊎◌, inl, inr, refl, ap, ◌∙◌, arith, List, [], ◌∷◌, ◌==◌,
  if◌then◌else◌, eq→==, ne→==,
}
use native.Mathlib.Decide.{ℕ_discrete}
use agenc_c.Memory.Bytes.{bytes}
use agenc_c.Str.Types.{npos}
use agenc_c.Str.Split.{separator_loop}

abbrev prepend : ℕ → List (List ℕ) → List (List ℕ)
prepend b [] = (b ∷ []) ∷ []
prepend b (piece ∷ rest) = (b ∷ piece) ∷ rest

-- The pieces of a list between separators; there is always at least one.
unfoldable pub pieces : ℕ → List ℕ → List (List ℕ)
pieces separator [] = [] ∷ []
pieces separator (b ∷ rest) =
    let others = pieces separator rest in if b == separator then [] ∷ others else prepend b others

module _ (m : ℕ → ℕ) (separator : ℕ) where
  pub pieces-none :
      (q n : ℕ)
      → ((i : ℕ) → i < n → m (q + i) ≢ separator)
      → pieces separator (bytes m q n) ≡ bytes m q n ∷ []
  unfolding pieces
  pieces-none q zero f = refl
  pieces-none q (suc n) f =
      rw
        (
          pieces,
          ne→== (m q) separator (λ e. f 0 (omega arith) (ap m (omega arith) ∙ e)),
          pieces-none (q + 1) n (λ i l e. f (suc i) (omega arith) (ap m (omega arith) ∙ e)),
        )
        refl

  pub pieces-first :
      (q j n : ℕ)
      → ((i : ℕ) → i < j → m (q + i) ≢ separator)
      → m (q + j) ≡ separator
      → pieces separator (bytes m q (j + suc n))
        ≡ bytes m q j ∷ pieces separator (bytes m (q + j + 1) n)
  unfolding pieces
  pieces-first q zero n f e =
      ap (λ k. pieces separator (bytes m q k)) {x = 0 + suc n} {y = suc n} (omega arith)
      ∙ rw (pieces, eq→== (m q) separator (ap m (omega arith) ∙ e))
          (ap (λ t. [] ∷ pieces separator (bytes m t n)) {x = q + 1} {y = q + 0 + 1} (omega arith))
  pieces-first q (suc j) n f e =
      ap (λ k. pieces separator (bytes m q k)) {x = suc j + suc n} {y = suc (j + suc n)}
        (omega arith)
      ∙ rw
          (
            pieces,
            ne→== (m q) separator (λ u. f 0 (omega arith) (ap m (omega arith) ∙ u)),
            pieces-first (q + 1) j n (λ i l u. f (suc i) (omega arith) (ap m (omega arith) ∙ u))
                (ap m (omega arith) ∙ e),
          )
          (ap (λ t. (m q ∷ bytes m (q + 1) j) ∷ pieces separator (bytes m t n)) {x = q + 1 + j + 1}
            {y = q + suc j + 1} (omega arith))

  -- `r` is the index of the first separator from `start` on, before `len`, or npos.
  abbrev pub FirstSeparator : ℕ → ℕ → ℕ → ℕ → Type 0
  FirstSeparator buffer start len r =
      ((r ≡ npos) × ((i : ℕ) → start ≤ i → i < len → m (buffer + i) ≢ separator))
      ⊎ ((start ≤ r)
          × (r < len)
          × (m (buffer + r) ≡ separator)
          × ((i : ℕ) → start ≤ i → i < r → m (buffer + i) ≢ separator))

  pub separator_loop-first :
      (buffer start idx n : ℕ)
      → start ≤ idx
      → ((i : ℕ) → start ≤ i → i < idx → m (buffer + i) ≢ separator)
      → FirstSeparator buffer start (idx + n) (separator_loop m buffer separator idx n)
  unfolding separator_loop
  separator_loop-first buffer start idx zero l none = inl (refl, λ i lo hi. none i lo (omega arith))
  separator_loop-first buffer start idx (suc n) l none =
      elim (ℕ_discrete (m (buffer + idx)) separator) [
        | yes e ↦ rw (eq→== (m (buffer + idx)) separator e) (inr (l, omega arith, e, none))
        | no ne ↦
            rw
              (
                ne→== (m (buffer + idx)) separator ne,
                ap
                    (λ k.
                      FirstSeparator buffer start k (separator_loop m buffer separator (idx + 1) n))
                    {x = idx + suc n} {y = idx + 1 + n} (omega arith),
              )
              (separator_loop-first buffer start (idx + 1) n (omega arith) (λ i lo hi.
                elim (ℕ_discrete i idx) [
                  | yes same ↦
                      (λ u. ne (ap (λ k. m (buffer + k)) {x = idx} {y = i} (omega arith) ∙ u))
                  | no other ↦ none i lo (omega arith)
                ]))
      ]
