-- ===== src/ToolPruning/Engine/FailOpen.antt =====
-- Pruning with a pruner that never gives a text.
use kimi_proxy.Base.{
  ℕ, zero, suc, ℤ, String, Bool, true, false, not, ◌≡◌, refl, arith, leb, ltb, pos_part, count,
  ◌=ₛ◌, Bool-cases, inl, inr, Option, none, some, eq_refl,
}
use kimi_proxy.Json.{
  Value, Items, Fields, null, bool, int, real, str, arr, obj, nil, cons, end, field, as_str, get,
}
use kimi_proxy.Python.{Python}
use kimi_proxy.ToolPruning.Metrics.{Metrics}
use kimi_proxy.ToolPruning.Engine.{
  Config, PruneRequest, Answer, raises, no_result, result, Run, fallback_or_original,
}
use kimi_proxy.ToolPruning.Engine

nonempty : Option String → Bool
nonempty none = false
nonempty (some s) = not (s =ₛ "")

-- not where the answer is an exception, no result, or a result without a text
unfoldable pub gives_text : Answer → Bool
unfolding nonempty
gives_text raises = false
gives_text no_result = false
gives_text (result r) = nonempty (as_str (get "pruned_text" r))

not-false : (b : Bool) → not b ≡ false → b ≡ true
not-false b h = ground arith

module _ (cfg : Config) (no_mask : pos_part cfg.max_chars_fallback ≡ 0) where
  fallback_or_original_unchanged : (s : String) → fallback_or_original s cfg ≡ s
  unfolding fallback_or_original
  fallback_or_original_unchanged s = rw no_mask refl

  nonempty_or_fail_unchanged :
      (s : String) (o : Option String) (m : Metrics)
      → nonempty o ≡ false
      → (Engine.nonempty_or_fail cfg s o m).0 ≡ s
  unfolding Engine.nonempty_or_fail Engine.open_fail nonempty
  nonempty_or_fail_unchanged s none m h = fallback_or_original_unchanged s
  nonempty_or_fail_unchanged s (some t) m h = rw (not-false _ h) (fallback_or_original_unchanged s)

  use_answer_unchanged :
      (s : String) (a : Answer) (m : Metrics)
      → gives_text a ≡ false
      → (Engine.use_answer cfg s a m).0 ≡ s
  unfolding Engine.use_answer Engine.open_fail gives_text
  use_answer_unchanged s raises m h = fallback_or_original_unchanged s
  use_answer_unchanged s no_result m h = fallback_or_original_unchanged s
  use_answer_unchanged s (result r) m h =
      nonempty_or_fail_unchanged s (as_str (get "pruned_text" r)) _ h

  module _ (pruner : ℕ → PruneRequest → Answer)
      (fails : (n : ℕ) (q : PruneRequest) → gives_text (pruner n q) ≡ false) (request_id : ℤ)
      (goal_hint source_type : String) where
    plain_with_unchanged :
        (s : String) (n : ℕ) (r : Run)
        → (Engine.plain_with cfg pruner request_id goal_hint source_type s n r).0 ≡ s
    unfolding Engine.plain_with Engine.spend
    plain_with_unchanged s zero r = refl
    plain_with_unchanged s (suc left) r = use_answer_unchanged s _ r.metrics (fails _ _)

    prune_leaf_unchanged :
        (s : String) (r : Run)
        → (Engine.prune_leaf cfg pruner request_id goal_hint source_type s r).1.1 ≡ false
    unfolding Engine.prune_leaf Engine.prune_plain_text
    prune_leaf_unchanged s r = elim (Bool-cases (ltb (count s) (pos_part cfg.min_chars))) [
      | inl p ↦ rw p refl
      | inr p ↦ rw (p, plain_with_unchanged s r.remaining r, eq_refl s) refl
    ]

    enter_unchanged :
        (v : Value) (depth : ℕ) (r : Run) (w : Value × (Run × Bool))
        → w.1.1 ≡ false
        → (Engine.enter cfg v depth r w).1.1 ≡ false
    unfolding Engine.enter
    enter_unchanged v depth r w h = ground arith

    mutual
      unfolding Engine.prune_json_value

      value_unchanged :
          (v : Value) (depth : ℕ) (r : Run)
          → (Engine.prune_json_value cfg pruner request_id goal_hint source_type v depth r).1.1
            ≡ false
      value_unchanged (str s) depth r = enter_unchanged (str s) depth r _ (prune_leaf_unchanged s _)
      value_unchanged (arr xs) depth r =
          enter_unchanged (arr xs) depth r _ (items_unchanged xs (suc depth) _)
      value_unchanged (obj d) depth r =
          enter_unchanged (obj d) depth r _ (fields_unchanged d (suc depth) _)
      value_unchanged null depth r = enter_unchanged null depth r _ refl
      value_unchanged (bool b) depth r = enter_unchanged (bool b) depth r _ refl
      value_unchanged (int i) depth r = enter_unchanged (int i) depth r _ refl
      value_unchanged (real x) depth r = enter_unchanged (real x) depth r _ refl

      items_unchanged :
          (xs : Items) (depth : ℕ) (r : Run)
          → (Engine.prune_json_items cfg pruner request_id goal_hint source_type xs depth r).1.1
            ≡ false
      items_unchanged nil depth r = refl
      items_unchanged (cons v xs) depth r =
          rw (value_unchanged v depth r) (items_unchanged xs depth _)

      fields_unchanged :
          (xs : Fields) (depth : ℕ) (r : Run)
          → (Engine.prune_json_fields cfg pruner request_id goal_hint source_type xs depth r).1.1
            ≡ false
      fields_unchanged end depth r = refl
      fields_unchanged (field k v xs) depth r =
          rw (value_unchanged v depth r) (fields_unchanged xs depth _)

    print_changed_unchanged :
        (py : Python) (s : String) (v : Value) (b : Bool)
        → b ≡ false
        → Engine.print_changed cfg pruner request_id goal_hint source_type py s v b ≡ s
    unfolding Engine.print_changed
    print_changed_unchanged py s v b h = rw h refl

    prune_parsed_unchanged :
        (py : Python) (s : String) (depth : ℕ) (r : Run) (o : Option Value)
        → (Engine.prune_parsed cfg pruner request_id goal_hint source_type py s depth r o).0 ≡ s
    unfolding Engine.prune_parsed Engine.prune_plain_text
    prune_parsed_unchanged py s depth r none = plain_with_unchanged s r.remaining r
    prune_parsed_unchanged py s depth r (some v) = elim (Bool-cases (leb cfg.max_depth depth)) [
      | inl p ↦ rw p refl
      | inr p ↦ rw p (print_changed_unchanged py s _ _ (value_unchanged v depth r))
    ]

    pub prune_text_maybe_json_unchanged :
        (py : Python) (s : String) (depth : ℕ) (r : Run)
        → (Engine.prune_text_maybe_json cfg pruner request_id goal_hint source_type py s depth r).0
          ≡ s
    unfolding Engine.prune_text_maybe_json Engine.prune_plain_text
    prune_text_maybe_json_unchanged py s depth r = elim (Bool-cases (leb r.remaining 0)) [
      | inl p ↦ rw p refl
      | inr p ↦ elim (Bool-cases (Engine.looks_like_json_string s)) [
        | inl q ↦ rw (p, q) (prune_parsed_unchanged py s depth r _)
        | inr q ↦ rw (p, q) (plain_with_unchanged s r.remaining r)
      ]
    ]
