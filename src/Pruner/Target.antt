-- ===== src/Pruner/Target.antt =====
-- How many lines to keep (`_compute_keep_target` of deepinfra_engine.py), and the uniform thinning
-- of layer 1 (layer1_heuristic.py). A set of line numbers is its ascending list. What the code
-- computes with floats is a parameter.
use kimi_proxy.Base.{
  ℕ, zero, suc, ◌≤◌, ◌<◌, min, max, ℤ, pos_part, not, ◌&&◌, Option, none, some, List, [], ◌∷◌,
  length, get_elem?, arith, ltb, leb, if◌then◌else◌,
}
use kimi_proxy.Base.Sorting.{sort_by, elem_ℕ}

-- the roundings of float arithmetic that the pruner relies on
pub record Rounding : Type 1 where
  pub Ratio : Type 0
  -- `int(math.ceil(n * (1.0 - max(0.0, min(1.0, ratio)))))`
  pub ceil_keep : ℕ → Ratio → ℕ
  -- `int(i * (n / k))`
  pub trunc_step : ℕ → ℕ → ℕ → ℕ
  -- `int(round(a / b))`
  pub round_div : ℕ → ℕ → ℕ

module _ (fl : Rounding) where
  open fl use {Ratio, ceil_keep, trunc_step}

  unfoldable pub compute_keep_target : ℕ → Ratio → ℤ → ℕ
  compute_keep_target zero max_prune_ratio min_keep_lines = 0
  compute_keep_target (suc n) max_prune_ratio min_keep_lines =
      min (suc n) (max (pos_part min_keep_lines) (ceil_keep (suc n) max_prune_ratio))

  -- The target is a number of lines that the text has, no less than the lines that the caller
  -- wants (or all, if the text has fewer) and no less than the ratio asks for.
  pub compute_keep_target_bounds :
      (n : ℕ) (r : Ratio) (m : ℤ)
      → (compute_keep_target n r m ≤ n)
        × (min n (pos_part m) ≤ compute_keep_target n r m)
        × (0 < n → min n (ceil_keep n r) ≤ compute_keep_target n r m)
  unfolding compute_keep_target
  compute_keep_target_bounds zero r m = (omega arith, omega arith, λ h. omega arith)
  compute_keep_target_bounds (suc n) r m = (omega arith, omega arith, λ h. omega arith)

  -- `new_keep.add(x)`
  unfoldable pub add_ℕ : ℕ → List ℕ → List ℕ
  add_ℕ x s = if elem_ℕ x s then s else x ∷ s

  -- `if idx < n_active: new_keep.add(active_indices[idx])`
  unfoldable pub add_found : Option ℕ → List ℕ → List ℕ
  add_found none s = s
  add_found (some x) s = add_ℕ x s

  -- the loop `for i in range(keep_target)`, from `i` on
  unfoldable pub pick : List ℕ → ℕ → ℕ → ℕ → List ℕ → List ℕ
  unfolding add_ℕ add_found
  pick active k i zero s = s
  pick active k i (suc rounds) s =
      pick active k (suc i) rounds (add_found (get_elem? active (trunc_step i (length active) k)) s)

  -- an end of the active lines is added only while there is room
  unfoldable pub add_end : ℕ → Option ℕ → List ℕ → List ℕ
  unfolding add_ℕ
  add_end k none s = s
  add_end k (some x) s = if not (elem_ℕ x s) && ltb (length s) k then add_ℕ x s else s

  unfoldable pub last : List ℕ → Option ℕ
  last [] = none
  last (x ∷ []) = some x
  last (x ∷ y ∷ xs) = last (y ∷ xs)

  unfoldable pub compute_heuristic_keep_set : List ℕ → ℕ → List ℕ
  unfolding pick add_end last
  compute_heuristic_keep_set active keep_target =
      if leb (length active) keep_target
      then active
      else if leb keep_target 0
      then []
      else sort_by leb (
          add_end keep_target (last active)
            (add_end keep_target (get_elem? active 0) (pick active keep_target 0 keep_target [])))
