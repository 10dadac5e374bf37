-- ===== src/Pruner/Recover/Restore.antt =====
-- How the blocks of a pruned text are read back by the numbers of their annotations.
use native.Mathlib.Nat.{sub-zero}
use kimi_proxy.Base.{
  ℕ, zero, suc, ◌+◌, ◌-◌, ◌≤◌, ◌<◌, min, String, ◌≡◌, refl, sym, ap, ◌∙◌, false, none, some, List,
  [], ◌∷◌, ◌++◌, length, get_elem?, take, drop, arith, ltb, All, Bool-cases, inl, inr,
}
use kimi_proxy.Base.Sorting.{IsAscending}
use kimi_proxy.Pruner.Rebuild.{Options, annotation, reconstruct_lines}
use kimi_proxy.Pruner.Rebuild.Layout
use kimi_proxy.Pruner.Rebuild.Layout.{
  Piece, kept, block, layout, indices, lines_of, all_lines, text_of_pieces, notes_of_pieces,
}
use kimi_proxy.Pruner.Recover
use kimi_proxy.Pruner.Recover.{range_chunk, recover_ranges}
use kimi_proxy.Json.{Value, obj, int, field, end, cons, nil, get}
use kimi_proxy.Base.{pos}

-- the lines with the given indices
lines_at : List String → List ℕ → List String
lines_at lines [] = []
lines_at lines (i ∷ is) = elim (get_elem? lines i) [
  | none ↦ lines_at lines is
  | some l ↦ l ∷ lines_at lines is
]

lines_at-append :
    (lines : List String) (is js : List ℕ)
    → lines_at lines (is ++ js) ≡ lines_at lines is ++ lines_at lines js
unfolding lines_at
lines_at-append lines [] js = refl
lines_at-append lines (i ∷ is) js = ground (arith, lines_at-append lines is js)

lines_at-shift :
    (x : String) (xs : List String) (i n : ℕ)
    → lines_at (x ∷ xs) (indices (suc i) n) ≡ lines_at xs (indices i n)
unfolding lines_at indices
lines_at-shift x xs i zero = refl
lines_at-shift x xs i (suc n) = ground (arith, lines_at-shift x xs (suc i) n)

lines_at-nil : (i n : ℕ) → lines_at [] (indices i n) ≡ []
unfolding lines_at indices
lines_at-nil i zero = refl
lines_at-nil i (suc n) = lines_at-nil (suc i) n

take-nil : (n : ℕ) → ◌≡◌ {A = List String} (take n []) []
take-nil zero = refl
take-nil (suc n) = refl

-- consecutive indices are a slice
lines_at-indices :
    (lines : List String) (i n : ℕ) → lines_at lines (indices i n) ≡ take n (drop i lines)
unfolding lines_at indices
lines_at-indices [] zero n = lines_at-nil 0 n ∙ sym (take-nil n)
lines_at-indices [] (suc i) n = lines_at-nil (suc i) n ∙ sym (take-nil n)
lines_at-indices (x ∷ xs) zero zero = refl
lines_at-indices (x ∷ xs) zero (suc n) =
    ap (◌∷◌ x) (lines_at-shift x xs 0 n ∙ lines_at-indices xs 0 n)
lines_at-indices (x ∷ xs) (suc i) n = lines_at-shift x xs i n ∙ lines_at-indices xs i n

take-length : (lines : List String) → take (length lines) lines ≡ lines
take-length [] = refl
take-length (x ∷ xs) = ap (◌∷◌ x) (take-length xs)

number_lines-false : (idx : ℕ) (ls : List String) → Recover.number_lines false idx ls ≡ ls
unfolding Recover.number_lines
number_lines-false idx [] = refl
number_lines-false idx (l ∷ ls) = ap (◌∷◌ l) (number_lines-false (suc idx) ls)

-- every block of the pieces has a line, and ends within the text
IsInside : ℕ → List Piece → Type 0
IsInside n [] = Unit
IsInside n (kept k ∷ ps) = IsInside n ps
IsInside n (block start stop ∷ ps) = (start < stop) × (stop ≤ n) × IsInside n ps

block_before-IsInside :
    (n next k : ℕ) (ps : List Piece)
    → k ≤ n
    → IsInside n ps
    → IsInside n (Layout.block_before next k ps)
unfolding IsInside Layout.block_before
block_before-IsInside n next k ps h p = elim (Bool-cases (ltb next k)) [
  | inl q ↦ rw q (ground arith, h, p)
  | inr q ↦ rw q p
]

layout-IsInside : (n next : ℕ) (ks : List ℕ) → All (λ k. k < n) ks → IsInside n (layout n next ks)
unfolding layout IsInside
layout-IsInside n next [] h = block_before-IsInside n next n [] (omega arith) tt
layout-IsInside n next (k ∷ ks) h =
    block_before-IsInside n next k (kept k ∷ layout n (suc k) ks) (omega arith)
      (layout-IsInside n (suc k) ks h.1)

-- the lines that the loop of `recover_text` collects for one range, none where it fails
abbrev pub collected : Recover.Step → List String
collected (Recover.fail e) = []
collected (Recover.chunks out) = out

abbrev pub range_of : ℕ → ℕ → Value
range_of first last =
    obj (field "start_line" (int (pos first)) (field "end_line" (int (pos last)) end))

abbrev pub recovered_lines : List String → ℕ → ℕ → List String
recovered_lines lines first last =
    collected (recover_ranges lines false (cons (range_of first last) nil) [])

recovered_lines-range_chunk :
    (lines : List String) (first last i j : ℕ)
    → first ≡ suc i
    → last ≡ suc j
    → i ≤ j
    → i < length lines
    → recovered_lines lines first last ≡ range_chunk lines false first last
unfolding recover_ranges Recover.recover_item Recover.check_range Recover.line_number
    Recover.continue get
recovered_lines-range_chunk lines first last i j e f h k = rw (e, f) (ground (arith, h, k))

module _ (o : Options) (lines : List String) where
  -- a block is read back by the first and the last line of its annotation
  abbrev restore_piece : Piece → List String
  restore_piece (kept k) = lines_at lines (k ∷ [])
  restore_piece (block start stop) =
      let note = annotation o lines start (stop - 1) in
      recovered_lines lines note.original_start_line note.original_end_line

  pub restore : List Piece → List String
  unfolding lines_at
  restore [] = []
  restore (p ∷ ps) = restore_piece p ++ restore ps

  first_line :
      (start stop : ℕ) → (annotation o lines start (stop - 1)).original_start_line ≡ suc start
  unfolding annotation
  first_line start stop = omega arith

  last_line :
      (start stop : ℕ) → (annotation o lines start (stop - 1)).original_end_line ≡ suc (stop - 1)
  unfolding annotation
  last_line start stop = omega arith

  chunk-block :
      (start stop : ℕ)
      → start < stop
      → stop ≤ length lines
      → let note = annotation o lines start (stop - 1) in
        range_chunk lines false note.original_start_line note.original_end_line
        ≡ lines_at lines (indices start (stop - start))
  unfolding range_chunk annotation
  chunk-block start stop h l =
      let e : start + 1 - 1 ≡ start = omega arith in
      let f : min (stop - 1 + 1) (length lines) ≡ stop = omega arith in
      rw (number_lines-false, lines_at-indices, e, f)

  restore_piece-block :
      (start stop : ℕ)
      → start < stop
      → stop ≤ length lines
      → restore_piece (block start stop) ≡ lines_at lines (indices start (stop - start))
  restore_piece-block start stop h l =
      recovered_lines-range_chunk lines _ _ start (stop - 1) (first_line start stop)
        (last_line start stop) (omega arith) (omega arith)
      ∙ chunk-block start stop h l

  restore-all_lines :
      (ps : List Piece) → IsInside (length lines) ps → restore ps ≡ lines_at lines (all_lines ps)
  unfolding restore all_lines IsInside
  restore-all_lines [] h = unfold lines_at in refl
  restore-all_lines (kept k ∷ ps) h =
      rw (restore-all_lines ps h, ← lines_at-append lines (k ∷ []) (all_lines ps))
  restore-all_lines (block start stop ∷ ps) h = rw (
    restore_piece-block start stop h.0 h.1,
    restore-all_lines ps h.2,
    ← lines_at-append lines (indices start (stop - start)) (all_lines ps),
  )

  -- If the kept lines are lines of a list in ascending order, the pruned text is that of a sequence
  -- of pieces, its annotations are those of the blocks among them, and the list is the kept lines
  -- with each block replaced by what the loop of `recover_text` collects from the same list for the
  -- first and the last line of the block's annotation.
  pub restore-reconstruct_lines :
      (keep : List ℕ)
      → IsAscending 0 keep
      → All (λ k. k < length lines) keep
      → (ps : List Piece) × (reconstruct_lines o lines keep
          ≡ some (record {
            out_lines = text_of_pieces o lines ps;
            annotations = notes_of_pieces o lines ps;
          }))
        × (restore ps ≡ lines)
  restore-reconstruct_lines keep ascending inside =
      let ps = layout (length lines) 0 keep in
      let whole = Layout.all_lines-layout (length lines) 0 keep (omega arith) ascending inside in
      (
        ps,
        Layout.reconstruct_lines-layout o lines keep ascending inside,
        restore-all_lines ps (layout-IsInside (length lines) 0 keep inside)
            ∙ ap (lines_at lines) whole
            ∙ lines_at-indices lines 0 (length lines - 0)
            ∙ ap (λ n. take n lines) (sub-zero (length lines))
            ∙ take-length lines,
      )
