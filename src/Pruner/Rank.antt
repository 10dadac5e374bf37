-- ===== src/Pruner/Rank.antt =====
-- `compute_deepinfra_keep_set` (deepinfra_engine.py): the active lines with the best scores.
use kimi_proxy.Base.{
  ℕ, zero, suc, ◌<◌, min, max, ℤ, pos_part, ◌≡◌, refl, ap, Bool, Option, none, some, List, [], ◌∷◌,
  map, length, length-map, take, get_elem?, arith, leb, or_else, ◌∙◌, String, ◌||◌, if◌then◌else◌,
}
use kimi_proxy.Base.Sorting.{sort_by, length-sort_by}
use kimi_proxy.Pruner.Target.{Rounding}
use kimi_proxy.Pruner.Select.{select_doc_indices, select_doc_indices-IsSelection}

-- An active line and its score. Scores are only compared, so a number stands for the float.
pub record Scored : Type 0 where
  pub line : ℕ
  pub score : ℕ

-- `sort(key=score, reverse=True)`: descending, and stable
higher_first : Scored → Scored → Bool
higher_first a b = leb b.score a.score

-- `xs[i]`, at an index that is in range
at : {A : Type 0} → A → List A → ℕ → A
at d xs i = or_else (get_elem? xs i) d

-- `(active_indices[doc_idx], scores_by_index.get(i, 0.0))` for each place `i` of the sample
score_docs : List ℕ → (ℕ → ℕ) → ℕ → List ℕ → List Scored
unfolding at
score_docs active scores i [] = []
score_docs active scores i (d ∷ ds) =
    record { line = at 0 active d; score = scores i } ∷ score_docs active scores (suc i) ds

best : ℕ → List Scored → List ℕ
best keep_target scored = map (λ s. s.line) (take keep_target (sort_by higher_first scored))

-- the reranker's scores of the documents by their place, or none where the call raises
module _ (fl : Rounding) (rerank : List String → Option (ℕ → ℕ)) where
  rank_docs : List ℕ → ℕ → List ℕ → Option (ℕ → ℕ) → Option (List ℕ)
  rank_docs active keep_target sampled none = none
  rank_docs active keep_target sampled (some scores) =
      some (best keep_target (score_docs active scores 0 sampled))

  unfoldable pub compute_deepinfra_keep_set : List String → List ℕ → ℕ → ℤ → Option (List ℕ)
  unfolding at score_docs best higher_first rank_docs
  compute_deepinfra_keep_set lines active keep_target max_docs =
      let sampled = select_doc_indices fl (length active) max_docs in
      if leb (length active) 0 || leb keep_target 0
      then some []
      else if leb (length active) keep_target
      then some active
      else rank_docs active keep_target sampled
          (rerank (map (λ d. at "" lines (at 0 active d)) sampled))

length-take : {A : Type 0} (n : ℕ) (xs : List A) → length (take n xs) ≡ min n (length xs)
length-take zero xs = omega arith
length-take (suc n) [] = omega arith
length-take (suc n) (x ∷ xs) = omega (arith, length-take n xs)

length-score_docs :
    (active : List ℕ) (scores : ℕ → ℕ) (i : ℕ) (ds : List ℕ)
    → length (score_docs active scores i ds) ≡ length ds
unfolding score_docs
length-score_docs active scores i [] = refl
length-score_docs active scores i (d ∷ ds) = ap suc (length-score_docs active scores (suc i) ds)

length-best : (k : ℕ) (scored : List Scored) → length (best k scored) ≡ min k (length scored)
unfolding best
length-best k scored =
    length-map (λ s. s.line) (take k (sort_by higher_first scored))
    ∙ length-take k (sort_by higher_first scored)
    ∙ ap (min k) (length-sort_by higher_first scored)

module _ (fl : Rounding) (rerank : List String → Option (ℕ → ℕ)) where
  length-rank_docs :
      (active : List ℕ) (k : ℕ) (sampled : List ℕ) (o : Option (ℕ → ℕ)) (out : List ℕ)
      → rank_docs fl rerank active k sampled o ≡ some out
      → length out ≡ min k (length sampled)
  unfolding rank_docs
  length-rank_docs active k sampled none out e = cc
  length-rank_docs active k sampled (some scores) out e =
      let l : out ≡ best k (score_docs active scores 0 sampled) = cc in
      ap length l
      ∙ length-best k (score_docs active scores 0 sampled)
      ∙ ap (min k) (length-score_docs active scores 0 sampled)

  -- When the target is at least 1, there are more active lines than that and the reranker
  -- answers, the number of lines that are kept is the target or the number of lines that were
  -- scored, whichever is less.
  pub length-compute_deepinfra_keep_set :
      (lines : List String) (active : List ℕ) (k : ℕ) (max_docs : ℤ) (out : List ℕ)
      → 0 < k
      → k < length active
      → compute_deepinfra_keep_set fl rerank lines active k max_docs ≡ some out
      → length out ≡ min k (min (length active) (max 1 (pos_part max_docs)))
  unfolding compute_deepinfra_keep_set
  length-compute_deepinfra_keep_set lines active k max_docs out pos_k more e =
      let sampled = select_doc_indices fl (length active) max_docs in
      let full = (select_doc_indices-IsSelection fl (length active) max_docs).full in
      length-rank_docs active k sampled (rerank (map (λ d. at "" lines (at 0 active d)) sampled))
        out (ground arith)
      ∙ ap (min k) full

  -- Where the target is more than `max_docs` (taken as at least 1) and there are more active
  -- lines than the target, fewer lines than the target are kept, if the reranker answers.
  deepinfra_keeps_too_few :
      (lines : List String) (active : List ℕ) (k : ℕ) (max_docs : ℤ) (out : List ℕ)
      → max 1 (pos_part max_docs) < k
      → k < length active
      → compute_deepinfra_keep_set fl rerank lines active k max_docs ≡ some out
      → length out < k
  deepinfra_keeps_too_few lines active k max_docs out few more e =
      omega
        (arith, length-compute_deepinfra_keep_set lines active k max_docs out (omega arith) more e)
