-- ===== src/Str/Split/Loop.antt =====
-- The loop of str_split_view in agenc-str/src/str.c against the pieces of its bytes.
use agenc_c.Base.{
  ℕ, zero, suc, ◌+◌, ◌-◌, ◌≤◌, ◌<◌, ◌≡◌, ◌≢◌, ◌⊎◌, inl, inr, refl, ap, ◌∙◌, arith, List, [], ◌∷◌,
  length, get_or, size_max, eq→==, ne→==, true, subst, le→leb, lt→leb,
}
use native.Mathlib.Decide.{dec_le}
use agenc_c.Memory.Bytes.{bytes}
use agenc_c.Str.Types.{View, npos, Result, done, failed}
use agenc_c.Str.View.Order.{shown}
use agenc_c.Str.Split.{
  SplitOut, store_split_part, separator_loop, find_separator, finish_split, split_loop, split_view,
  validate_split_arguments, write_split_parts, get_view_buffer,
}
use agenc_c.Str.View.{validate_view, view_is_valid}
use agenc_c.Str.Split.Pieces.{
  pieces, pieces-none, pieces-first, FirstSeparator, separator_loop-first,
}

module _ (m : ℕ → ℕ) (separator : ℕ) where
  -- What the loop adds to the parts for the bytes from `start` on.
  record Splits (out : SplitOut) (source : View) (start count : ℕ) (r : SplitOut) : Type 0 where
    kept : (k : ℕ) → k < count → r.part k ≡ out.part k
    past : (k : ℕ) → out.cap ≤ k → r.part k ≡ out.part k
    cap : r.cap ≡ out.cap
    parts : r.parts ≡ out.parts
    total :
        r.count
        ≡ count + length (pieces separator (bytes m (source.ptr + start) (source.len - start)))
    stored :
        (k : ℕ)
        → k < length (pieces separator (bytes m (source.ptr + start) (source.len - start)))
        → count + k < out.cap
        → shown m (r.part (count + k))
          ≡ get_or (pieces separator (bytes m (source.ptr + start) (source.len - start))) k []

  store_split_part-same :
      (out : SplitOut) (count q n k : ℕ)
      → k ≡ count
      → count < out.cap
      → (store_split_part out count q n).part k ≡ record { ptr = q; len = n }
  unfolding store_split_part
  store_split_part-same out count q n k e l = ground arith

  store_split_part-less :
      (out : SplitOut) (count q n k : ℕ)
      → k < count
      → (store_split_part out count q n).part k ≡ out.part k
  unfolding store_split_part
  store_split_part-less out count q n k l = ground arith

  store_split_part-cap :
      (out : SplitOut) (count q n : ℕ) → (store_split_part out count q n).cap ≡ out.cap
  unfolding store_split_part
  store_split_part-cap out count q n = ground arith

  store_split_part-parts :
      (out : SplitOut) (count q n : ℕ) → (store_split_part out count q n).parts ≡ out.parts
  unfolding store_split_part
  store_split_part-parts out count q n = ground arith

  -- No element at or past the capacity is written.
  store_split_part-past :
      (out : SplitOut) (count q n k : ℕ)
      → out.cap ≤ k
      → (store_split_part out count q n).part k ≡ out.part k
  unfolding store_split_part
  store_split_part-past out count q n k l = ground arith

  last_stored :
      (out : SplitOut) (source : View) (start count k : ℕ)
      → k < 1
      → count + k < out.cap
      → shown m
          ((store_split_part out count (source.ptr + start) (source.len - start)).part (count + k))
        ≡ get_or (bytes m (source.ptr + start) (source.len - start) ∷ []) k []
  last_stored out source start count zero l room = ap (shown m) (
      store_split_part-same out count (source.ptr + start) (source.len - start) (count + 0)
        (omega arith) (omega arith))
  last_stored out source start count (suc k) l room = absurd (omega arith)

  finish_split-Splits :
      (out : SplitOut) (source : View) (start count : ℕ)
      → ((i : ℕ) → start ≤ i → i < source.len → m (source.ptr + i) ≢ separator)
      → Splits out source start count (finish_split out source start count)
  unfolding store_split_part
  finish_split-Splits out source start count none =
      let e =
        pieces-none m separator (source.ptr + start) (source.len - start)
          (λ i l u. none (start + i) (omega arith) (omega arith) (ap m (omega arith) ∙ u)) in
      record {
        kept = λ k l. store_split_part-less out count (source.ptr + start) (source.len - start) k l;
        past = λ k l. store_split_part-past out count (source.ptr + start) (source.len - start) k l;
        cap = store_split_part-cap out count (source.ptr + start) (source.len - start);
        parts = store_split_part-parts out count (source.ptr + start) (source.len - start);
        total = rw e (omega arith);
        stored = rw e (λ k l room. last_stored out source start count k l room);
      }

  -- A part up to the separator at `r`, and the parts behind it.
  module _ (out : SplitOut) (source : View) (start count r : ℕ) (lo : start ≤ r)
      (hi : r < source.len) (at : m (source.ptr + r) ≡ separator)
      (before : (i : ℕ) → start ≤ i → i < r → m (source.ptr + i) ≢ separator) where
    pieces_here :
        pieces separator (bytes m (source.ptr + start) (source.len - start))
        ≡ bytes m (source.ptr + start) (r - start)
          ∷ pieces separator (bytes m (source.ptr + (r + 1)) (source.len - (r + 1)))
    pieces_here =
        ap (λ k. pieces separator (bytes m (source.ptr + start) k)) {x = source.len - start}
          {y = r - start + suc (source.len - (r + 1))} (omega arith)
        ∙ pieces-first m separator (source.ptr + start) (r - start) (source.len - (r + 1))
            (λ i l u. before (start + i) (omega arith) (omega arith) (ap m (omega arith) ∙ u))
            (ap m (omega arith) ∙ at)
        ∙ ap
            (λ q.
              bytes m (source.ptr + start) (r - start)
              ∷ pieces separator (bytes m q (source.len - (r + 1))))
            (omega arith)

    further_stored :
        (all : SplitOut)
        → Splits
            (store_split_part out count (source.ptr + start) (r - start))
            source
            (r + 1)
            (count + 1)
            all
        → (k : ℕ)
        → k
          < suc (length (pieces separator (bytes m (source.ptr + (r + 1)) (source.len - (r + 1)))))
        → count + k < out.cap
        → shown m (all.part (count + k))
          ≡ get_or
              (bytes m (source.ptr + start) (r - start)
                ∷ pieces separator (bytes m (source.ptr + (r + 1)) (source.len - (r + 1))))
              k
              []
    further_stored all s zero l room = ap (shown m) (
        s.kept (count + 0) (omega arith)
        ∙ store_split_part-same out count (source.ptr + start) (r - start) (count + 0) (omega arith)
            (omega arith))
    further_stored all s (suc k) l room =
        ap (λ j. shown m (all.part j)) {x = count + suc k} {y = count + 1 + k} (omega arith)
        ∙ s.stored k (omega arith)
            (omega (arith, store_split_part-cap out count (source.ptr + start) (r - start)))

    further-Splits :
        (all : SplitOut)
        → Splits
            (store_split_part out count (source.ptr + start) (r - start))
            source
            (r + 1)
            (count + 1)
            all
        → Splits out source start count all
    further-Splits all s = record {
      kept = λ k l.
          s.kept k (omega arith)
          ∙ store_split_part-less out count (source.ptr + start) (r - start) k l;
      past = λ k l.
          s.past k (omega (arith, store_split_part-cap out count (source.ptr + start) (r - start)))
          ∙ store_split_part-past out count (source.ptr + start) (r - start) k l;
      cap = s.cap ∙ store_split_part-cap out count (source.ptr + start) (r - start);
      parts = s.parts ∙ store_split_part-parts out count (source.ptr + start) (r - start);
      total = rw pieces_here (omega (arith, s.total));
      stored = rw pieces_here (further_stored all s);
    }

  find_separator-first :
      (source : View) (start : ℕ)
      → start ≤ source.len
      → FirstSeparator m separator source.ptr start source.len
          (find_separator m source start separator)
  unfolding find_separator
  find_separator-first source start l =
      subst
        (λ k.
          FirstSeparator m separator source.ptr start k
            (separator_loop m source.ptr separator start (source.len - start)))
        {x = start + (source.len - start)} {y = source.len} (omega arith)
        (separator_loop-first m separator source.ptr start start (source.len - start) (omega arith)
          (λ i lo hi. absurd (omega arith)))

  split_loop-Splits :
      (out : SplitOut) (source : View) (start count rounds : ℕ)
      → source.len ≤ size_max
      → start ≤ source.len
      → source.len ≤ start + rounds
      → Splits out source start count (split_loop m out source separator start count rounds)
  unfolding split_loop
  split_loop-Splits out source start count zero small l enough =
      finish_split-Splits out source start count (λ i lo hi. absurd (omega arith))
  split_loop-Splits out source start count (suc rounds) small l enough =
      elim (dec_le source.len start) [
        | yes Ended-from_steps ↦
            rw (le→leb source.len start Ended-from_steps)
              (finish_split-Splits out source start count (λ i lo hi. absurd (omega arith)))
        | no more ↦
            rw (lt→leb source.len start (omega arith)) (elim (find_separator-first source start l) [
              | inl g ↦
                  rw (eq→== (find_separator m source start separator) npos g.0)
                    (finish_split-Splits out source start count g.1)
              | inr g ↦
                  rw
                    (ne→== (find_separator m source start separator) npos
                      (omega (arith, g.1, small)))
                    (further-Splits out source start count (find_separator m source start separator)
                      g.0 g.1 g.2 g.3 _
                      (split_loop-Splits
                        (store_split_part out count (source.ptr + start)
                          (find_separator m source start separator - start))
                        source (find_separator m source start separator + 1) (count + 1) rounds
                        small (omega (arith, g.1)) (omega (arith, g.0, g.1))))
            ])
      ]

-- The count of all parts, and the bytes of each part that the array of `out` has room for. The
-- array is the same, and no element at or past its capacity is written.
abbrev pub SplitsInto : (ℕ → ℕ) → List (List ℕ) → SplitOut → Result SplitOut → Type 0
SplitsInto m parts out (done r) =
    (r.count ≡ length parts)
    × ((k : ℕ) → k < length parts → k < out.cap → shown m (r.part k) ≡ get_or parts k [])
    × ((k : ℕ) → out.cap ≤ k → r.part k ≡ out.part k)
    × (r.cap ≡ out.cap)
    × (r.parts ≡ out.parts)
SplitsInto m parts out (failed e) = ⊥

Splits-SplitsInto :
    (m : ℕ → ℕ) (separator : ℕ) (out : SplitOut) (source : View) (r : SplitOut)
    → Splits m separator out source 0 0 r
    → SplitsInto m (pieces separator (shown m source)) out (done r)
Splits-SplitsInto m separator out source r s =
    let e : bytes m (source.ptr + 0) (source.len - 0) ≡ shown m source =
      ap (λ p. bytes m p (source.len - 0)) {x = source.ptr + 0} {y = source.ptr} (omega arith)
      ∙ ap (bytes m source.ptr) {x = source.len - 0} {y = source.len} (omega arith) in
    rw (← e) (
      omega (arith, s.total),
      λ k l room.
          ap (λ j. shown m (r.part j)) {x = k} {y = 0 + k} (omega arith)
          ∙ s.stored k l (omega arith),
      s.past,
      s.cap,
      s.parts,
    )

shown_buffer :
    (empty_buf : ℕ) (m : ℕ → ℕ) (source : View)
    → (0 < source.ptr) ⊎ (source.len ≡ 0)
    → shown m (record source { ptr = get_view_buffer empty_buf source }) ≡ shown m source
shown_buffer empty_buf m source (inl pos) =
    ap (λ p. bytes m p source.len) {x = get_view_buffer empty_buf source} {y = source.ptr}
      (ground arith)
shown_buffer empty_buf m source (inr e) =
    rw (ap (bytes m (get_view_buffer empty_buf source)) e, ap (bytes m source.ptr) e) refl

split_view_lem :
    (empty_buf : ℕ) (m : ℕ → ℕ) (source : View) (out : SplitOut) (separator : ℕ)
    → source.len < size_max
    → (0 < source.ptr) ⊎ (source.len ≡ 0)
    → (out.cap ≡ 0) ⊎ (0 < out.parts)
    → split_view empty_buf m source true out separator
      ≡ done (
          split_loop m out
            (record source { ptr = get_view_buffer empty_buf source })
            separator
            0
            0
            source.len)
unfolding split_view validate_split_arguments validate_view view_is_valid write_split_parts
split_view_lem empty_buf m source out separator small valid room = ground arith

-- On a valid view (not NULL, or empty) shorter than SIZE_MAX and an output that is not NULL,
-- whose array is not NULL unless its capacity is 0, str_split_view succeeds: the count is the
-- number of pieces of the view's bytes between separators, and each stored part, one for each
-- index below both the count and the capacity, shows the bytes of the piece at its index; the
-- array and its capacity are the same, and no element at or past the capacity is written.
pub split_view-SplitsInto :
    (empty_buf : ℕ) (m : ℕ → ℕ) (source : View) (out : SplitOut) (separator : ℕ)
    → source.len < size_max
    → (0 < source.ptr) ⊎ (source.len ≡ 0)
    → (out.cap ≡ 0) ⊎ (0 < out.parts)
    → SplitsInto m
        (pieces separator (shown m source))
        out
        (split_view empty_buf m source true out separator)
split_view-SplitsInto empty_buf m source out separator small valid room =
    rw
      (
        split_view_lem empty_buf m source out separator small valid room,
        ← shown_buffer empty_buf m source valid,
      )
      (Splits-SplitsInto m separator out _ _ (
        split_loop-Splits m separator out (record source { ptr = get_view_buffer empty_buf source })
          0 0 source.len (omega arith) (omega arith) (omega arith)))
