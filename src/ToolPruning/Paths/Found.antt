-- ===== src/ToolPruning/Paths/Found.antt =====
-- The walk of the arguments against a search without limits.
use kimi_proxy.Base.{
  ℕ, suc, ◌+◌, ◌≤◌, max, String, Bool, false, not, ◌&&◌, ◌||◌, List, [], ◌++◌, ◌≡◌, ap, arith, ◌=ₛ◌,
  elem, Option, ◌∙◌,
}
use kimi_proxy.Base.Text.{strip}
use kimi_proxy.Json.{
  Value, Items, Fields, null, bool, int, real, str, arr, obj, nil, cons, end, field,
}
use kimi_proxy.Python.{Python}
use kimi_proxy.ToolPruning.Paths.{
  normalize_path_like, walk, walk_items, walk_fields, path_like_argument_keys,
  extract_candidate_paths_from_arguments,
}
use kimi_proxy.ToolPruning.Paths

-- the nodes of a value, and the levels below it
unfoldable mutual
  pub nodes : Value → ℕ
  nodes (arr xs) = suc (nodes_items xs)
  nodes (obj d) = suc (nodes_fields d)
  nodes _ = 1

  pub nodes_items : Items → ℕ
  nodes_items nil = 0
  nodes_items (cons v xs) = nodes v + nodes_items xs

  pub nodes_fields : Fields → ℕ
  nodes_fields end = 0
  nodes_fields (field k v d) = nodes v + nodes_fields d

unfoldable mutual
  pub levels : Value → ℕ
  levels (arr xs) = levels_items xs
  levels (obj d) = levels_fields d
  levels _ = 0

  pub levels_items : Items → ℕ
  levels_items nil = 0
  levels_items (cons v xs) = max (suc (levels v)) (levels_items xs)

  pub levels_fields : Fields → ℕ
  levels_fields end = 0
  levels_fields (field k v d) = max (suc (levels v)) (levels_fields d)

recount : (xs : List String) (i j : ℕ) → i ≡ j → ◌≡◌ {A = List String × ℕ} (xs, i) (xs, j)
recount xs i j e = ap (λ n. (xs, n)) e

two :
    (a : List String × ℕ) (b : ℕ → List String × ℕ) (xs ys : List String) (i j k : ℕ)
    → a ≡ (xs, i + j)
    → b (i + j) ≡ (ys, i + j + k)
    → ◌≡◌ {A = List String × ℕ} (a.0 ++ (b a.1).0, (b a.1).1) (xs ++ ys, i + (j + k))
two a b xs ys i j k p q = rw (p, q) (recount (xs ++ ys) _ _ (omega arith))

module _ (urlparse : String → Option (String × String)) (py : Python) where
  -- all the texts below a key that is the name of a path, normalized
  unfoldable mutual
    unfolding Paths.listed

    pub paths_below : Value → Bool → List String
    paths_below (str s) active =
        let normalized = normalize_path_like urlparse s in
        Paths.listed (active && not (normalized =ₛ "")) normalized
    paths_below (arr xs) active = paths_below_items xs active
    paths_below (obj d) active = paths_below_fields d active
    paths_below _ active = []

    pub paths_below_items : Items → Bool → List String
    paths_below_items nil active = []
    paths_below_items (cons v xs) active = paths_below v active ++ paths_below_items xs active

    pub paths_below_fields : Fields → Bool → List String
    paths_below_fields end active = []
    paths_below_fields (field key v d) active =
        paths_below v (active || elem (py.lower (strip key)) path_like_argument_keys)
        ++ paths_below_fields d active

  module _ (max_depth max_nodes : ℕ) where
    within-inside :
        (depth visited : ℕ) (inside : List String × ℕ)
        → depth ≤ max_depth
        → suc visited ≤ max_nodes
        → Paths.within max_depth max_nodes depth visited inside ≡ inside
    unfolding Paths.within
    within-inside depth visited inside h k = ground arith

    mutual
      unfolding walk nodes levels paths_below

      walk-paths_below :
          (v : Value) (active : Bool) (depth visited : ℕ)
          → levels v + depth ≤ max_depth
          → visited + nodes v ≤ max_nodes
          → walk urlparse max_depth max_nodes py v active depth visited
            ≡ (paths_below v active, visited + nodes v)
      walk-paths_below (str s) active depth visited h k =
          within-inside depth visited _ (omega (arith, h)) (omega (arith, k))
          ∙ recount _ _ _ (omega arith)
      walk-paths_below (arr xs) active depth visited h k =
          within-inside depth visited _ (omega (arith, h)) (omega (arith, k))
          ∙ (walk_items-paths_below xs active depth (suc visited) h (omega (arith, k))
              ∙ recount _ _ _ (omega arith))
      walk-paths_below (obj xs) active depth visited h k =
          within-inside depth visited _ (omega (arith, h)) (omega (arith, k))
          ∙ (walk_fields-paths_below xs active depth (suc visited) h (omega (arith, k))
              ∙ recount _ _ _ (omega arith))
      walk-paths_below null active depth visited h k =
          within-inside depth visited _ (omega (arith, h)) (omega (arith, k))
          ∙ recount _ _ _ (omega arith)
      walk-paths_below (bool b) active depth visited h k =
          within-inside depth visited _ (omega (arith, h)) (omega (arith, k))
          ∙ recount _ _ _ (omega arith)
      walk-paths_below (int b) active depth visited h k =
          within-inside depth visited _ (omega (arith, h)) (omega (arith, k))
          ∙ recount _ _ _ (omega arith)
      walk-paths_below (real b) active depth visited h k =
          within-inside depth visited _ (omega (arith, h)) (omega (arith, k))
          ∙ recount _ _ _ (omega arith)

      walk_items-paths_below :
          (v : Items) (active : Bool) (depth visited : ℕ)
          → levels_items v + depth ≤ max_depth
          → visited + nodes_items v ≤ max_nodes
          → walk_items urlparse max_depth max_nodes py v active (suc depth) visited
            ≡ (paths_below_items v active, visited + nodes_items v)
      walk_items-paths_below nil active depth visited h k = recount [] _ _ (omega arith)
      walk_items-paths_below (cons v xs) active depth visited h k =
          two _ (walk_items urlparse max_depth max_nodes py xs active (suc depth)) _ _ visited
            (nodes v) (nodes_items xs)
            (walk-paths_below v active (suc depth) visited (omega (arith, h)) (omega (arith, k)))
            (walk_items-paths_below xs active depth (visited + nodes v) (omega (arith, h))
              (omega (arith, k)))

      walk_fields-paths_below :
          (v : Fields) (active : Bool) (depth visited : ℕ)
          → levels_fields v + depth ≤ max_depth
          → visited + nodes_fields v ≤ max_nodes
          → walk_fields urlparse max_depth max_nodes py v active (suc depth) visited
            ≡ (paths_below_fields v active, visited + nodes_fields v)
      walk_fields-paths_below end active depth visited h k = recount [] _ _ (omega arith)
      walk_fields-paths_below (field j v xs) active depth visited h k =
          two _ (walk_fields urlparse max_depth max_nodes py xs active (suc depth)) _ _ visited
            (nodes v) (nodes_fields xs)
            (walk-paths_below v _ (suc depth) visited (omega (arith, h)) (omega (arith, k)))
            (walk_fields-paths_below xs active depth (visited + nodes v) (omega (arith, h))
              (omega (arith, k)))

  -- In arguments that are no deeper and no larger than the limits, what is found are all the texts
  -- below a key that is the name of a path, normalized, in their order.
  pub extract_candidate_paths_from_arguments-paths_below :
      (args : Value) (max_depth max_nodes : ℕ)
      → levels args ≤ max_depth
      → nodes args ≤ max_nodes
      → extract_candidate_paths_from_arguments urlparse py args max_depth max_nodes
        ≡ paths_below args false
  unfolding extract_candidate_paths_from_arguments
  extract_candidate_paths_from_arguments-paths_below args max_depth max_nodes h k =
      ap (λ found. found.0)
        (walk-paths_below max_depth (max 1 max_nodes) args false 0 0 (omega (arith, h))
          (omega (arith, k)))
