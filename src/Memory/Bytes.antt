-- ===== src/Memory/Bytes.antt =====
-- Spans of memory as lists of bytes.
use agenc_c.Base.{
  ℕ, zero, suc, ◌+◌, ◌-◌, ◌≤◌, ◌<◌, ◌≡◌, refl, ap, ap₂, ◌∙◌, List, [], ◌∷◌, ◌++◌, arith, length,
  take, drop, replicate, ◌≢◌, ◌↔◌, append_assoc,
}
use agenc_c.Memory.{Heap, memcmp, scan_nul, strlen, equal}

-- The `n` bytes at `p`.
abbrev pub bytes : (ℕ → ℕ) → ℕ → ℕ → List ℕ
bytes m p zero = []
bytes m p (suc n) = m p ∷ bytes m (p + 1) n

pub length-bytes : (m : ℕ → ℕ) (p n : ℕ) → length (bytes m p n) ≡ n
length-bytes m p zero = refl
length-bytes m p (suc n) = ap suc (length-bytes m (p + 1) n)

-- Two spans with the same bytes are the same list.
pub bytes_ext :
    (m m' : ℕ → ℕ) (p q n : ℕ)
    → ((i : ℕ) → i < n → m (p + i) ≡ m' (q + i))
    → bytes m p n ≡ bytes m' q n
bytes_ext m m' p q zero h = refl
bytes_ext m m' p q (suc n) h =
    ap₂ ◌∷◌ (ground (arith, h 0 (omega arith)))
      (bytes_ext m m' (p + 1) (q + 1) n (λ i l. ground (arith, h (i + 1) (omega arith))))

-- Equal lists come from spans with the same bytes.
pub bytes_get :
    (m : ℕ → ℕ) (p q n i : ℕ) → bytes m p n ≡ bytes m q n → i < n → m (p + i) ≡ m (q + i)
bytes_get m p q zero i e l = absurd (omega arith)
bytes_get m p q (suc n) zero e l = ground (arith)
bytes_get m p q (suc n) (suc i) e l =
    ap m {x = p + suc i} {y = p + 1 + i} (omega arith)
    ∙ bytes_get m (p + 1) (q + 1) n i (ground arith) (omega arith)
    ∙ ap m {x = q + 1 + i} {y = q + suc i} (omega arith)

pub bytes-add : (m : ℕ → ℕ) (p n k : ℕ) → bytes m p (n + k) ≡ bytes m p n ++ bytes m (p + n) k
bytes-add m p zero k = ap₂ (bytes m) (omega arith) (omega arith)
bytes-add m p (suc n) k =
    ap (bytes m p) {x = suc n + k} {y = suc (n + k)} (omega arith)
    ∙ ap (λ t. m p ∷ t)
        (bytes-add m (p + 1) n k
          ∙ ap (λ q. bytes m (p + 1) n ++ bytes m q k) {x = p + 1 + n} {y = p + suc n}
              (omega arith))

-- A span of three parts.
pub bytes-add_three :
    (m : ℕ → ℕ) (p i j k : ℕ)
    → bytes m p (i + j + k) ≡ bytes m p i ++ (bytes m (p + i) j ++ bytes m (p + i + j) k)
bytes-add_three m p i j k =
    rw (bytes-add, bytes-add, append_assoc)
      (ap (λ q. bytes m p i ++ (bytes m (p + i) j ++ bytes m q k)) (omega arith))

pub take-bytes : (m : ℕ → ℕ) (p n k : ℕ) → k ≤ n → take k (bytes m p n) ≡ bytes m p k
take-bytes m p n zero h = refl
take-bytes m p zero (suc k) h = absurd (omega arith)
take-bytes m p (suc n) (suc k) h = ap (λ t. m p ∷ t) (take-bytes m (p + 1) n k (omega arith))

pub drop-bytes : (m : ℕ → ℕ) (p n k : ℕ) → k ≤ n → drop k (bytes m p n) ≡ bytes m (p + k) (n - k)
drop-bytes m p n zero h = ap₂ (bytes m) {x = p} {y = p + 0} (omega arith) (omega arith)
drop-bytes m p zero (suc k) h = absurd (omega arith)
drop-bytes m p (suc n) (suc k) h =
    drop-bytes m (p + 1) n k (omega arith) ∙ ap₂ (bytes m) (omega arith) (omega arith)

-- A span of one byte value.
pub bytes-replicate :
    (m : ℕ → ℕ) (p n v : ℕ) → ((i : ℕ) → i < n → m (p + i) ≡ v) → bytes m p n ≡ replicate n v
bytes-replicate m p zero v h = refl
bytes-replicate m p (suc n) v h =
    ap₂ ◌∷◌ (ground (arith, h 0 (omega arith)))
      (bytes-replicate m (p + 1) n v (λ i l. ground (arith, h (i + 1) (omega arith))))

-- `memcmp` is `equal` exactly on equal spans.
pub memcmp-equal : (m : ℕ → ℕ) (p q n : ℕ) → (memcmp m p q n ≡ equal) ↔ (bytes m p n ≡ bytes m q n)
unfolding memcmp
memcmp-equal m p q zero = (λ _. refl, λ _. refl)
memcmp-equal m p q (suc n) = (
  λ e. ground (arith, (memcmp-equal m (p + 1) (q + 1) n).0),
  λ e. ground (arith, (memcmp-equal m (p + 1) (q + 1) n).1),
)

-- A NUL-terminated string of length `n` at `p`, below the end of memory.
pub record IsCString (h : Heap) (p n : ℕ) : Type 0 where
  pub inside : p + n < h.brk
  pub nul : h.byte (p + n) ≡ 0
  pub no_nul : (i : ℕ) → i < n → h.byte (p + i) ≢ 0

scan_nul-eq :
    (m : ℕ → ℕ) (p n f : ℕ)
    → n < f
    → m (p + n) ≡ 0
    → ((i : ℕ) → i < n → m (p + i) ≢ 0)
    → scan_nul m p f ≡ n
unfolding scan_nul
scan_nul-eq m p n zero h e ne = absurd (omega arith)
scan_nul-eq m p zero (suc f) h e ne =
    let e' : m p ≡ 0 = rw (← e) (ap m (omega arith)) in ground arith
scan_nul-eq m p (suc n) (suc f) h e ne =
    let first : m p ≢ 0 = λ z. ne 0 (omega arith) (ap m {x = p + 0} {y = p} (omega arith) ∙ z) in
    let last : m (p + 1 + n) ≡ 0 = ap m {x = p + 1 + n} {y = p + suc n} (omega arith) ∙ e in
    let ih : scan_nul m (p + 1) f ≡ n = scan_nul-eq m (p + 1) n f (omega arith) last (λ i l z.
      ne (suc i) (omega arith) (ap m {x = p + suc i} {y = p + 1 + i} (omega arith) ∙ z)) in
    ground arith

pub strlen-eq : (h : Heap) (p n : ℕ) → IsCString h p n → strlen h p ≡ n
unfolding strlen
strlen-eq h p n c = scan_nul-eq h.byte p n (h.brk - p) (omega (arith, c.inside)) c.nul c.no_nul
