-- ===== src/Pruner/Rebuild/Layout.antt =====
-- What the rebuilt text is, against a layout that is computed from the kept lines alone.
use mathlib.Core.List.{append_assoc, append-nil}
use native.Mathlib.Nat.{add-zero, zero-add, sub-zero}
use kimi_proxy.Base.{
  ℕ, zero, suc, ◌+◌, ◌-◌, ◌≤◌, ◌<◌, String, ◌≡◌, refl, sym, ap, ◌∙◌, Option, none, some, List, [],
  ◌∷◌, ◌++◌, length, get_elem?, ltb, arith, All, Bool-cases, inl, inr, if◌then◌else◌,
}
use kimi_proxy.Base.Sorting.{IsAscending}
use kimi_proxy.Pruner.Rebuild
use kimi_proxy.Pruner.Rebuild.{Options, Output, Annotation, kept_text, annotation}

-- A piece of the text: a line that is kept, or the lines from `start` to `stop - 1`, left out.
pub data Piece : Type 0 where
  kept : ℕ → Piece
  block : ℕ → ℕ → Piece

unfoldable pub block_before : ℕ → ℕ → List Piece → List Piece
block_before next k ps = if ltb next k then block next k ∷ ps else ps

-- the pieces of a text of `n` lines from the line `next` on
unfoldable pub layout : ℕ → ℕ → List ℕ → List Piece
unfolding block_before
layout n next [] = block_before next n []
layout n next (k ∷ ks) = block_before next k (kept k ∷ layout n (suc k) ks)

unfoldable pub indices : ℕ → ℕ → List ℕ
indices start zero = []
indices start (suc n) = start ∷ indices (suc start) n

-- the lines of a piece
abbrev pub lines_of : Piece → List ℕ
lines_of (kept k) = k ∷ []
lines_of (block start stop) = indices start (stop - start)

unfoldable pub all_lines : List Piece → List ℕ
all_lines [] = []
all_lines (p ∷ ps) = lines_of p ++ all_lines ps

unfoldable pub kept_lines : List Piece → List ℕ
kept_lines [] = []
kept_lines (kept k ∷ ps) = k ∷ kept_lines ps
kept_lines (block _ _ ∷ ps) = kept_lines ps

abbrev content_of : Option String → String
content_of none = ""
content_of (some s) = s

get_elem?-some :
    {A : Type 0} (xs : List A) (i : ℕ) → i < length xs → (x : A) × (get_elem? xs i ≡ some x)
get_elem?-some [] i h = absurd (omega arith)
get_elem?-some (x ∷ xs) zero h = (x, refl)
get_elem?-some (x ∷ xs) (suc i) h = get_elem?-some xs i (omega arith)

module _ (o : Options) (lines : List String) where
  abbrev text_of_piece : Piece → List String
  text_of_piece (kept k) = kept_text o lines k (content_of (get_elem? lines k)) ∷ []
  text_of_piece (block start stop) =
      if o.include_markers then (annotation o lines start (stop - 1)).marker ∷ [] else []

  -- what the pieces look like in the pruned text
  pub text_of_pieces : List Piece → List String
  text_of_pieces [] = []
  text_of_pieces (p ∷ ps) = text_of_piece p ++ text_of_pieces ps

  -- the annotations of the blocks
  pub notes_of_pieces : List Piece → List Annotation
  notes_of_pieces [] = []
  notes_of_pieces (kept _ ∷ ps) = notes_of_pieces ps
  notes_of_pieces (block start stop ∷ ps) = annotation o lines start (stop - 1) ∷ notes_of_pieces ps

  abbrev then_pieces : Output → List Piece → Output
  then_pieces out ps = record {
    out_lines = out.out_lines ++ text_of_pieces ps;
    annotations = out.annotations ++ notes_of_pieces ps;
  }

  emit_kept-layout :
      (k : ℕ) (out : Output) (ps : List Piece)
      → k < length lines
      → (out' : Output) × (Rebuild.emit_kept o lines k out ≡ some out')
        × (then_pieces out' ps ≡ then_pieces out (kept k ∷ ps))
  unfolding Rebuild.emit_kept text_of_pieces notes_of_pieces
  emit_kept-layout k out ps h =
      let (content, e) = get_elem?-some lines k h in
      let out' = record out { out_lines = out.out_lines ++ kept_text o lines k content ∷ [] } in
      (
        out',
        unfold Rebuild.emit_content in rw e,
        rw e (
            ground (
              arith,
              append_assoc out.out_lines (kept_text o lines k content ∷ []) (text_of_pieces ps),
            )),
      )

  emit_block-layout :
      (next stop : ℕ) (out : Output) (ps : List Piece)
      → then_pieces
          (if ltb next stop then Rebuild.emit_pruned_block o lines next stop out else out)
          ps
        ≡ then_pieces out (block_before next stop ps)
  unfolding Rebuild.emit_pruned_block text_of_pieces notes_of_pieces block_before
  emit_block-layout next zero out ps = ground arith
  emit_block-layout next (suc stop) out ps = ground (
    arith,
    append_assoc out.out_lines ((annotation o lines next stop).marker ∷ []) (text_of_pieces ps),
    append_assoc out.annotations (annotation o lines next stop ∷ []) (notes_of_pieces ps),
  )

  then_pieces-nil : (out : Output) → then_pieces out [] ≡ out
  unfolding text_of_pieces notes_of_pieces
  then_pieces-nil out = λ i. record {
    out_lines = append-nil out.out_lines i;
    annotations = append-nil out.annotations i;
  }

  emit_all-layout :
      (next : ℕ) (ks : List ℕ) (out : Output)
      → All (λ k. k < length lines) ks
      → Rebuild.emit_all o lines next ks out
        ≡ some (then_pieces out (layout (length lines) next ks))
  unfolding Rebuild.emit_all layout
  emit_all-layout next [] out h = ap some (
      sym (
        then_pieces-nil (
          if ltb next (length lines)
          then Rebuild.emit_pruned_block o lines next (length lines) out
          else out))
      ∙ emit_block-layout next (length lines) out [])
  emit_all-layout next (k ∷ ks) out h =
      let before = if ltb next k then Rebuild.emit_pruned_block o lines next k out else out in
      let rest = layout (length lines) (suc k) ks in
      let (out', e, f) = emit_kept-layout k before rest h.0 in
      rw e (
        emit_all-layout (suc k) ks out' h.1
        ∙ ap some (f ∙ emit_block-layout next k out (kept k ∷ rest)))

indices-append : (a n m : ℕ) → indices a n ++ indices (a + n) m ≡ indices a (n + m)
unfolding indices
indices-append a zero m = rw (add-zero, zero-add)
indices-append a (suc n) m =
    let e : a + suc n ≡ suc a + n = omega arith in
    let f : suc n + m ≡ suc (n + m) = omega arith in
    rw (e, f) (ap (◌∷◌ a) (indices-append (suc a) n m))

all_lines-block_before :
    (next k n : ℕ) (ps : List Piece)
    → next ≤ k
    → k ≤ n
    → all_lines ps ≡ indices k (n - k)
    → all_lines (block_before next k ps) ≡ indices next (n - next)
unfolding block_before all_lines
all_lines-block_before next k n ps h l e = elim (Bool-cases (ltb next k)) [
  | inl p ↦
      let f : next + (k - next) ≡ k = omega arith in
      let g : (k - next) + (n - k) ≡ n - next = omega arith in
      rw (p, e, ← g, ← indices-append next (k - next) (n - k), f)
  | inr p ↦ let f : next ≡ k = ground arith in rw (p, f, e)
]

indices-cons : (k n : ℕ) → k < n → indices k (n - k) ≡ k ∷ indices (suc k) (n - suc k)
unfolding indices
indices-cons k n h = let e : n - k ≡ suc (n - suc k) = omega arith in rw e

-- The pieces hold every line of the text once, in order.
pub all_lines-layout :
    (n next : ℕ) (ks : List ℕ)
    → next ≤ n
    → IsAscending next ks
    → All (λ k. k < n) ks
    → all_lines (layout n next ks) ≡ indices next (n - next)
unfolding layout all_lines
all_lines-layout n next [] l a h =
    let e : n - n ≡ 0 = omega arith in
    all_lines-block_before next n n [] l (omega arith) (unfold indices in rw e)
all_lines-layout n next (k ∷ ks) l a h =
    all_lines-block_before next k n (kept k ∷ layout n (suc k) ks) a.0 (omega arith)
      (ap (◌∷◌ k) (all_lines-layout n (suc k) ks h.0 a.1 h.1) ∙ sym (indices-cons k n h.0))

kept_lines-layout : (n next : ℕ) (ks : List ℕ) → kept_lines (layout n next ks) ≡ ks
unfolding layout kept_lines block_before
kept_lines-layout n next [] = ground arith
kept_lines-layout n next (k ∷ ks) = ground (arith, kept_lines-layout n (suc k) ks)

abbrev nothing : Output
nothing = record { out_lines = []; annotations = [] }

reconstruct_lines-emit_all :
    (o : Options) (lines : List String) (keep : List ℕ)
    → Rebuild.reconstruct_lines o lines keep ≡ Rebuild.emit_all o lines 0 keep nothing
unfolding Rebuild.reconstruct_lines
reconstruct_lines-emit_all o [] [] = refl
reconstruct_lines-emit_all o (x ∷ xs) [] = ground arith
reconstruct_lines-emit_all o lines (k ∷ ks) = refl

module _ (o : Options) (lines : List String) (keep : List ℕ) (ascending : IsAscending 0 keep)
    (inside : All (λ k. k < length lines) keep) where
  abbrev pub pieces : List Piece
  pieces = layout (length lines) 0 keep

  pub reconstruct_lines-layout :
      Rebuild.reconstruct_lines o lines keep
      ≡ some (record {
        out_lines = text_of_pieces o lines pieces;
        annotations = notes_of_pieces o lines pieces;
      })
  reconstruct_lines-layout =
      reconstruct_lines-emit_all o lines keep ∙ emit_all-layout o lines 0 keep nothing inside

  -- For kept lines of the text in ascending order the rebuilding never raises. Its result is
  -- the text of a sequence of pieces, its annotations are those of the blocks among them, the
  -- lines of the pieces are all the lines of the text in order and each once, and the pieces
  -- that are kept are those asked for.
  pub reconstruct_lines-pieces :
      (ps : List Piece) × (Rebuild.reconstruct_lines o lines keep
        ≡ some (record {
          out_lines = text_of_pieces o lines ps;
          annotations = notes_of_pieces o lines ps;
        }))
      × (all_lines ps ≡ indices 0 (length lines))
      × (kept_lines ps ≡ keep)
  reconstruct_lines-pieces = (
    pieces,
    reconstruct_lines-layout,
    rw (sub-zero) at (all_lines-layout (length lines) 0 keep (omega arith) ascending inside),
    kept_lines-layout (length lines) 0 keep,
  )
