-- ===== src/ToolPruning/Engine/Calls.antt =====
-- How the pruning of a text spends the calls of a response, and what it counts.
use kimi_proxy.Base.{
  ℕ, zero, suc, max, ◌+◌, ℤ, String, Bool, true, false, ◌≡◌, refl, arith, leb, ltb, pos_part, count,
  ◌=ₛ◌, Bool-cases, inl, inr, ◌≤◌, Option, none, some,
}
use kimi_proxy.Json.{
  Value, Items, Fields, null, bool, int, real, str, arr, obj, nil, cons, end, field, as_str, get,
}
use kimi_proxy.Python.{Python}
use kimi_proxy.ToolPruning.Metrics.{
  Metrics, skipped_total, record_pruner_call, record_fail_open, record_fallback_mask,
}
use kimi_proxy.ToolPruning.Engine.{Config, PruneRequest, Answer, raises, no_result, result, Run}
use kimi_proxy.ToolPruning.Engine

-- the metrics of a part of a run in which `n` calls were made
record IsCounted (n : ℕ) (m m' : Metrics) : Type 0 where
  total : m'.pruner_calls_total ≡ m.pruner_calls_total + n
  parts : m'.pruner_calls_ok + m'.pruner_calls_fail ≡ m.pruner_calls_ok + m.pruner_calls_fail + n
  skipped : skipped_total m' ≡ skipped_total m
  eligible : m'.eligible_total ≡ m.eligible_total
  calls : m'.calls_total ≡ m.calls_total

-- From `r` to `r'`, the calls that are made are those that the response has less.
pub record IsSpending (r r' : Run) : Type 0 where
  pub calls :
      r'.metrics.pruner_calls_total + r'.remaining ≡ r.metrics.pruner_calls_total + r.remaining
  pub fewer : r'.remaining ≤ r.remaining
  pub answers :
      r'.metrics.pruner_calls_ok + r'.metrics.pruner_calls_fail + r'.remaining
      ≡ r.metrics.pruner_calls_ok + r.metrics.pruner_calls_fail + r.remaining
  pub skipped : skipped_total r'.metrics ≡ skipped_total r.metrics
  pub eligible : r'.metrics.eligible_total ≡ r.metrics.eligible_total
  pub entered : r'.metrics.calls_total ≡ r.metrics.calls_total

pub IsSpending-refl : (r : Run) → IsSpending r r
IsSpending-refl r = record {
  calls = refl;
  fewer = omega arith;
  answers = refl;
  skipped = refl;
  eligible = refl;
  entered = refl;
}

pub IsSpending-trans : (r s t : Run) → IsSpending r s → IsSpending s t → IsSpending r t
IsSpending-trans r s t h k = record {
  calls = omega (arith, h.calls, k.calls);
  fewer = omega (arith, h.fewer, k.fewer);
  answers = omega (arith, h.answers, k.answers);
  skipped = cc;
  eligible = cc;
  entered = cc;
}

IsCounted-trans :
    (i j : ℕ) (m n o : Metrics) → IsCounted i m n → IsCounted j n o → IsCounted (i + j) m o
IsCounted-trans i j m n o h k = record {
  total = omega (arith, h.total, k.total);
  parts = omega (arith, h.parts, k.parts);
  skipped = cc;
  eligible = cc;
  calls = cc;
}

note_mask-IsCounted : (same : Bool) (m : Metrics) → IsCounted 0 m (Engine.note_mask same m)
unfolding Engine.note_mask record_fallback_mask
note_mask-IsCounted true m = record {
  total = omega arith;
  parts = omega arith;
  skipped = refl;
  eligible = refl;
  calls = refl;
}
note_mask-IsCounted false m = record {
  total = omega arith;
  parts = omega arith;
  skipped = refl;
  eligible = refl;
  calls = refl;
}

record_fail_open-IsCounted : (m : Metrics) → IsCounted 0 m (record_fail_open m)
unfolding record_fail_open
record_fail_open-IsCounted m = record {
  total = omega arith;
  parts = omega arith;
  skipped = refl;
  eligible = refl;
  calls = refl;
}

record_pruner_call-IsCounted :
    (ok raised : Bool) (m : Metrics) → IsCounted 1 m (record_pruner_call ok raised m)
unfolding record_pruner_call
record_pruner_call-IsCounted ok raised m = record {
  total = omega arith;
  parts = ground arith;
  skipped = refl;
  eligible = refl;
  calls = refl;
}

open_fail-IsCounted :
    (cfg : Config) (s : String) (m : Metrics) → IsCounted 0 m (Engine.open_fail cfg s m).1
unfolding Engine.open_fail
open_fail-IsCounted cfg s m =
    IsCounted-trans 0 0 _ _ _ (record_fail_open-IsCounted m) (note_mask-IsCounted _ _)

nonempty_or_fail-IsCounted :
    (cfg : Config) (s : String) (o : Option String) (m : Metrics)
    → IsCounted 0 m (Engine.nonempty_or_fail cfg s o m).1
unfolding Engine.nonempty_or_fail
nonempty_or_fail-IsCounted cfg s none m = open_fail-IsCounted cfg s m
nonempty_or_fail-IsCounted cfg s (some t) m = elim (Bool-cases (t =ₛ "")) [
  | inl p ↦ rw p (open_fail-IsCounted cfg s m)
  | inr p ↦ rw p (record {
    total = omega arith;
    parts = omega arith;
    skipped = refl;
    eligible = refl;
    calls = refl;
  })
]

use_answer-IsCounted :
    (cfg : Config) (s : String) (a : Answer) (m : Metrics)
    → IsCounted 1 m (Engine.use_answer cfg s a m).1
unfolding Engine.use_answer
use_answer-IsCounted cfg s raises m = IsCounted-trans 0 1 _ _ _ (record_fail_open-IsCounted m) (
    IsCounted-trans 1 0 _ _ _ (record_pruner_call-IsCounted false true _) (note_mask-IsCounted _ _))
use_answer-IsCounted cfg s no_result m =
    IsCounted-trans 1 0 _ _ _ (record_pruner_call-IsCounted false false m)
      (open_fail-IsCounted cfg s _)
use_answer-IsCounted cfg s (result d) m =
    IsCounted-trans 1 0 _ _ _ (record_pruner_call-IsCounted true false m)
      (nonempty_or_fail-IsCounted cfg s (as_str (get "pruned_text" d)) _)

spend-IsSpending :
    (cfg : Config) (s : String) (left : ℕ) (r : Run) (a : Answer)
    → r.remaining ≡ suc left
    → IsSpending r (Engine.spend cfg s left r a).1
unfolding Engine.spend
spend-IsSpending cfg s left r a e =
    let h = use_answer-IsCounted cfg s a r.metrics in
    record {
      calls = omega (arith, h.total, e);
      fewer = omega (arith, e);
      answers = omega (arith, h.parts, e);
      skipped = h.skipped;
      eligible = h.eligible;
      entered = h.calls;
    }

tick-IsSpending : (r : Run) → IsSpending r (Engine.tick r)
unfolding Engine.tick
tick-IsSpending r = record {
  calls = refl;
  fewer = omega arith;
  answers = refl;
  skipped = refl;
  eligible = refl;
  entered = refl;
}

enter-IsSpending :
    (cfg : Config) (v : Value) (depth : ℕ) (r : Run) (w : Value × (Run × Bool))
    → IsSpending (Engine.tick r) w.1.0
    → IsSpending r (Engine.enter cfg v depth r w).1.0
unfolding Engine.enter
enter-IsSpending cfg v depth r w h = elim (Bool-cases (leb (suc r.visited) (max 1 cfg.max_nodes))) [
  | inr p ↦ rw p (tick-IsSpending r)
  | inl p ↦ elim (Bool-cases (leb cfg.max_depth depth)) [
    | inl q ↦ rw (p, q) (tick-IsSpending r)
    | inr q ↦ rw (p, q) (IsSpending-trans _ _ _ (tick-IsSpending r) h)
  ]
]

module _ (cfg : Config) (pruner : ℕ → PruneRequest → Answer) (request_id : ℤ)
    (goal_hint source_type : String) where
  plain_with-IsSpending :
      (s : String) (n : ℕ) (r : Run)
      → r.remaining ≡ n
      → IsSpending r (Engine.plain_with cfg pruner request_id goal_hint source_type s n r).1
  unfolding Engine.plain_with
  plain_with-IsSpending s zero r e = IsSpending-refl r
  plain_with-IsSpending s (suc left) r e = spend-IsSpending cfg s left r _ e

  prune_plain_text-IsSpending :
      (s : String) (r : Run)
      → IsSpending r (Engine.prune_plain_text cfg pruner request_id goal_hint source_type s r).1
  unfolding Engine.prune_plain_text
  prune_plain_text-IsSpending s r = plain_with-IsSpending s r.remaining r refl

  prune_leaf-IsSpending :
      (s : String) (r : Run)
      → IsSpending r (Engine.prune_leaf cfg pruner request_id goal_hint source_type s r).1.0
  unfolding Engine.prune_leaf
  prune_leaf-IsSpending s r = elim (Bool-cases (ltb (count s) (pos_part cfg.min_chars))) [
    | inl p ↦ rw p (IsSpending-refl r)
    | inr p ↦ rw p (prune_plain_text-IsSpending s r)
  ]

  mutual
    unfolding Engine.prune_json_value Engine.tick

    value-IsSpending :
        (v : Value) (depth : ℕ) (r : Run)
        → IsSpending r
            (Engine.prune_json_value cfg pruner request_id goal_hint source_type v depth r).1.0
    value-IsSpending (str s) depth r =
        enter-IsSpending cfg (str s) depth r _ (prune_leaf-IsSpending s (Engine.tick r))
    value-IsSpending (arr xs) depth r =
        enter-IsSpending cfg (arr xs) depth r _ (items-IsSpending xs (suc depth) (Engine.tick r))
    value-IsSpending (obj d) depth r =
        enter-IsSpending cfg (obj d) depth r _ (fields-IsSpending d (suc depth) (Engine.tick r))
    value-IsSpending null depth r = enter-IsSpending cfg null depth r _ (IsSpending-refl _)
    value-IsSpending (bool b) depth r = enter-IsSpending cfg (bool b) depth r _ (IsSpending-refl _)
    value-IsSpending (int i) depth r = enter-IsSpending cfg (int i) depth r _ (IsSpending-refl _)
    value-IsSpending (real x) depth r = enter-IsSpending cfg (real x) depth r _ (IsSpending-refl _)

    items-IsSpending :
        (v : Items) (depth : ℕ) (r : Run)
        → IsSpending r
            (Engine.prune_json_items cfg pruner request_id goal_hint source_type v depth r).1.0
    items-IsSpending nil depth r = IsSpending-refl r
    items-IsSpending (cons v xs) depth r =
        IsSpending-trans r _ _ (value-IsSpending v depth r) (items-IsSpending xs depth _)

    fields-IsSpending :
        (v : Fields) (depth : ℕ) (r : Run)
        → IsSpending r
            (Engine.prune_json_fields cfg pruner request_id goal_hint source_type v depth r).1.0
    fields-IsSpending end depth r = IsSpending-refl r
    fields-IsSpending (field k v d) depth r =
        IsSpending-trans r _ _ (value-IsSpending v depth r) (fields-IsSpending d depth _)

  prune_parsed-IsSpending :
      (py : Python) (s : String) (depth : ℕ) (r : Run) (o : Option Value)
      → IsSpending r
          (Engine.prune_parsed cfg pruner request_id goal_hint source_type py s depth r o).1
  unfolding Engine.prune_parsed
  prune_parsed-IsSpending py s depth r none = prune_plain_text-IsSpending s r
  prune_parsed-IsSpending py s depth r (some v) = elim (Bool-cases (leb cfg.max_depth depth)) [
    | inl p ↦ rw p (IsSpending-refl r)
    | inr p ↦ rw p (value-IsSpending v depth r)
  ]

  -- Pruning one text, JSON or not, leaves the response with fewer calls by the number of calls
  -- that it makes, counts each of them once as a success or as a failure, and touches none of the
  -- counters of the responses.
  pub prune_text_maybe_json-IsSpending :
      (py : Python) (s : String) (depth : ℕ) (r : Run)
      → IsSpending r
          (Engine.prune_text_maybe_json cfg pruner request_id goal_hint source_type py s depth r).1
  unfolding Engine.prune_text_maybe_json
  prune_text_maybe_json-IsSpending py s depth r = elim (Bool-cases (leb r.remaining 0)) [
    | inl p ↦ rw p (IsSpending-refl r)
    | inr p ↦ elim (Bool-cases (Engine.looks_like_json_string s)) [
      | inl q ↦ rw (p, q) (prune_parsed-IsSpending py s depth r _)
      | inr q ↦ rw (p, q) (prune_plain_text-IsSpending s r)
    ]
  ]
