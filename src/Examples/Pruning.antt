-- ===== src/Examples/Pruning.antt =====
-- The pruner at concrete inputs.
use kimi_proxy.Base.{
  ℕ, ◌<◌, ◌-◌, ◌*◌, pos, String, ◌≡◌, refl, true, false, Option, none, some, List, [], ◌∷◌, length,
  arith, All, ltb, ◌=ₛ◌, if◌then◌else◌,
}
use kimi_proxy.Base.Sorting.{IsAscending}
use kimi_proxy.Examples.{fl}
use kimi_proxy.Pruner.Target
use kimi_proxy.Pruner.Target.{compute_keep_target, compute_keep_target_bounds}
use kimi_proxy.Pruner.Select.{select_doc_indices, IsSelection, select_doc_indices-IsSelection}
use kimi_proxy.Pruner.Thin.{IsThinned, compute_heuristic_keep_set-IsThinned}
use kimi_proxy.Pruner.Rebuild.{Options, reconstruct_lines}
use kimi_proxy.Pruner.Rebuild.Layout.{
  Piece, all_lines, kept_lines, indices, text_of_pieces, notes_of_pieces, reconstruct_lines-pieces,
}
use kimi_proxy.Pruner.Recover.Restore.{restore, restore-reconstruct_lines}
use kimi_proxy.Pruner.Store
use kimi_proxy.Pruner.Store.{PruneStore, second}
use kimi_proxy.Pruner.Store.Expiry.{get-put}

abbrev active : List ℕ
active = 1 ∷ 2 ∷ 5 ∷ 6 ∷ 9 ∷ []

active-IsAscending : IsAscending 0 active
active-IsAscending = (omega arith, (omega arith, (omega arith, (omega arith, (omega arith, tt)))))

compute_heuristic_keep_set-IsThinned_example :
    IsThinned fl active 3 active-IsAscending (Target.compute_heuristic_keep_set fl active 3)
compute_heuristic_keep_set-IsThinned_example =
    compute_heuristic_keep_set-IsThinned fl active 3 active-IsAscending

select_doc_indices-IsSelection_example : IsSelection 7 3 (select_doc_indices fl 7 (pos 3))
select_doc_indices-IsSelection_example = select_doc_indices-IsSelection fl 7 (pos 3)

abbrev lines : List String
lines = "a" ∷ "b" ∷ "c" ∷ "d" ∷ "e" ∷ "f" ∷ "g" ∷ "h" ∷ "i" ∷ "j" ∷ []

-- the reranker scores a line by its place
abbrev rerank : List String → Option (ℕ → ℕ)
rerank docs = some (λ i. i)

abbrev options : Options
options = record {
  prune_id = "prn_1";
  reason = "hors focus";
  annotate_lines = false;
  include_markers = true;
}

keep-inside : All (λ k. k < length lines) (1 ∷ 4 ∷ [])
keep-inside = (omega arith, (omega arith, tt))

keep-IsAscending : IsAscending 0 (1 ∷ 4 ∷ [])
keep-IsAscending = (omega arith, (omega arith, tt))

reconstruct_lines-pieces_example :
    (ps : List Piece) × (reconstruct_lines options lines (1 ∷ 4 ∷ [])
      ≡ some (record {
        out_lines = text_of_pieces options lines ps;
        annotations = notes_of_pieces options lines ps;
      }))
    × (all_lines ps ≡ indices 0 10)
    × (kept_lines ps ≡ 1 ∷ 4 ∷ [])
reconstruct_lines-pieces_example =
    reconstruct_lines-pieces options lines (1 ∷ 4 ∷ []) keep-IsAscending keep-inside

restore-reconstruct_lines_example :
    (ps : List Piece) × (reconstruct_lines options lines (1 ∷ 4 ∷ [])
      ≡ some (record {
        out_lines = text_of_pieces options lines ps;
        annotations = notes_of_pieces options lines ps;
      }))
    × (restore options lines ps ≡ lines)
restore-reconstruct_lines_example =
    restore-reconstruct_lines options lines (1 ∷ 4 ∷ []) keep-IsAscending keep-inside

abbrev store : PruneStore
store = record { ttl_s = 60; items = ("p", record { created_at_s = 5; lines = "x" ∷ [] }) ∷ [] }

get-put_example : (Store.get (Store.put store 7 "q" lines) 9 "q").1 ≡ (
    if "q" =ₛ "q"
    then if ltb (60 * second) (9 - 7) then none else some lines
    else (Store.get store 9 "q").1)
get-put_example = get-put store 7 9 "q" "q" lines (refl, tt) (omega arith)
