-- ===== src/ToolPruning/Respond/Counted.antt =====
-- What a response adds to the counters, and how many calls it makes.
use kimi_proxy.Base.{
  ℕ, suc, ◌+◌, ◌≤◌, String, Bool, true, false, ◌≡◌, refl, arith, ltb, pos_part, count, Bool-cases,
  inl, inr, Option, none, some,
}
use kimi_proxy.Json.{Value, Items, Fields, nil, cons, as_obj}
use kimi_proxy.Python.{Python}
use kimi_proxy.ToolPruning.Metrics.{
  Metrics, Skip, IsBalanced, skipped_total, record_call, record_skip, record_eligible,
  record_text_examined, record_text_after, record_response_changed, record_elapsed_ms, disabled,
  excluded_path, invalid_request, non_tools_call, server_pruner, tool_excluded, invalid_response,
  error_response, no_content,
}
use kimi_proxy.ToolPruning.Engine.{Config, PruneRequest, Answer, Run}
use kimi_proxy.ToolPruning.Engine.Calls.{
  IsSpending, IsSpending-refl, IsSpending-trans, prune_text_maybe_json-IsSpending,
}
use kimi_proxy.ToolPruning.Respond.{
  Checked, skipped, eligible, prune_content, maybe_prune_jsonrpc_response, check_call,
}
use kimi_proxy.ToolPruning.Respond

module _ (cfg : Config) (py : Python) (urlparse : String → Option (String × String)) where
  module _ (pruner : ℕ → PruneRequest → Answer) (time_ns : ℕ → ℕ) (request : Fields)
      (goal_hint source_type : String) where
    replaced-IsSpending :
        (item : Value) (d : Fields) (text : String) (n : ℕ) (r : Run) (w : String × Run)
        → IsSpending r w.1
        → IsSpending r
            (Respond.replaced cfg py urlparse pruner time_ns request goal_hint source_type item d
              text n w).1.0
    unfolding Respond.replaced Respond.note record_text_after
    replaced-IsSpending item d text n r w h = record {
      calls = h.calls;
      fewer = h.fewer;
      answers = h.answers;
      skipped = h.skipped;
      eligible = h.eligible;
      entered = h.entered;
    }

    examined-IsSpending :
        (n : ℕ) (over : Bool) (r : Run)
        → IsSpending r (Respond.note (record_text_examined n over) r)
    unfolding Respond.note record_text_examined
    examined-IsSpending n over r = record {
      calls = refl;
      fewer = omega arith;
      answers = refl;
      skipped = refl;
      eligible = refl;
      entered = refl;
    }

    prune_text_item-IsSpending :
        (item : Value) (n : ℕ) (r : Run) (o : Option (Fields × String))
        → IsSpending r
            (Respond.prune_text_item cfg py urlparse pruner time_ns request goal_hint source_type
              item n r o).1.0
    unfolding Respond.prune_text_item Respond.prune_examined
    prune_text_item-IsSpending item n r none = IsSpending-refl r
    prune_text_item-IsSpending item n r (some (d, text)) =
        elim (Bool-cases (ltb (count text) (pos_part cfg.min_chars))) [
          | inl p ↦ rw p (examined-IsSpending _ _ r)
          | inr p ↦ rw p (
              replaced-IsSpending item d text (suc n) r _ (
                IsSpending-trans r _ _ (examined-IsSpending _ _ r) (
                  prune_text_maybe_json-IsSpending cfg pruner _ goal_hint source_type py text 0 _)))
        ]

    prune_content-IsSpending :
        (items : Items) (n : ℕ) (r : Run)
        → IsSpending r
            (prune_content cfg py urlparse pruner time_ns request goal_hint source_type items n
              r).1.0
    unfolding prune_content
    prune_content-IsSpending nil n r = IsSpending-refl r
    prune_content-IsSpending (cons item items) n r =
        IsSpending-trans r _ _
          (prune_text_item-IsSpending item n r (Respond.item_text (as_obj item)))
          (prune_content-IsSpending items _ _)

  -- the counters after the guards, against those when the call was recorded
  record IsSettled (m m' : Metrics) : Type 0 where
    calls : m'.calls_total ≡ m.calls_total
    reasons : skipped_total m' + m'.eligible_total ≡ suc (skipped_total m + m.eligible_total)
    answers :
        m'.pruner_calls_ok + m'.pruner_calls_fail + m.pruner_calls_total
        ≡ m.pruner_calls_ok + m.pruner_calls_fail + m'.pruner_calls_total
    most : m'.pruner_calls_total ≤ m.pruner_calls_total + cfg.max_pruner_calls_per_response

  record_skip-IsSettled : (reason : Skip) (m : Metrics) → IsSettled m (record_skip reason m)
  unfolding record_skip
  record_skip-IsSettled disabled m = record {
    calls = refl;
    reasons = omega arith;
    answers = refl;
    most = omega arith;
  }
  record_skip-IsSettled excluded_path m = record {
    calls = refl;
    reasons = omega arith;
    answers = refl;
    most = omega arith;
  }
  record_skip-IsSettled invalid_request m = record {
    calls = refl;
    reasons = omega arith;
    answers = refl;
    most = omega arith;
  }
  record_skip-IsSettled non_tools_call m = record {
    calls = refl;
    reasons = omega arith;
    answers = refl;
    most = omega arith;
  }
  record_skip-IsSettled server_pruner m = record {
    calls = refl;
    reasons = omega arith;
    answers = refl;
    most = omega arith;
  }
  record_skip-IsSettled tool_excluded m = record {
    calls = refl;
    reasons = omega arith;
    answers = refl;
    most = omega arith;
  }
  record_skip-IsSettled invalid_response m = record {
    calls = refl;
    reasons = omega arith;
    answers = refl;
    most = omega arith;
  }
  record_skip-IsSettled error_response m = record {
    calls = refl;
    reasons = omega arith;
    answers = refl;
    most = omega arith;
  }
  record_skip-IsSettled no_content m = record {
    calls = refl;
    reasons = omega arith;
    answers = refl;
    most = omega arith;
  }

  with_content-IsSettled :
      (v : Value) (d e : Fields) (m : Metrics) (w : Items × (Run × Bool))
      → IsSpending
          (record {
            remaining = cfg.max_pruner_calls_per_response;
            visited = 0;
            metrics = record_eligible m;
          })
          w.1.0
      → IsSettled m (Respond.with_content cfg py urlparse v d e w).1
  unfolding Respond.with_content record_eligible record_response_changed
  with_content-IsSettled v d e m (xs, (r, true)) h = record {
    calls = h.entered;
    reasons = omega (arith, h.skipped, h.eligible);
    answers = omega (arith, h.answers, h.calls);
    most = omega (arith, h.calls);
  }
  with_content-IsSettled v d e m (xs, (r, false)) h = record {
    calls = h.entered;
    reasons = omega (arith, h.skipped, h.eligible);
    answers = omega (arith, h.answers, h.calls);
    most = omega (arith, h.calls);
  }

  prune_checked-IsSettled :
      (pruner : ℕ → PruneRequest → Answer) (time_ns : ℕ → ℕ) (server_name : String) (v : Value)
      (checked : Checked) (m : Metrics)
      → IsSettled m (Respond.prune_checked cfg py urlparse pruner time_ns server_name v checked m).1
  unfolding Respond.prune_checked Respond.prune_eligible
  prune_checked-IsSettled pruner time_ns server_name v (skipped reason) m =
      record_skip-IsSettled reason m
  prune_checked-IsSettled pruner time_ns server_name v (eligible request d e items) m =
      with_content-IsSettled v d e m _
        (prune_content-IsSpending pruner time_ns request _ _ items 0 _)

  module _ (pruner : ℕ → PruneRequest → Answer) (time_ns : ℕ → ℕ) (elapsed_ms : ℕ)
      (server_name : String) (request_json response_json : Value) (m : Metrics) where
    -- Whatever the pruner answers, a call keeps the counters balanced: the calls are those skipped
    -- for one of the nine reasons and the eligible ones, and the calls of the pruner are those that
    -- gave a result and those that did not.
    pub maybe_prune_jsonrpc_response-IsBalanced :
        IsBalanced m
        → IsBalanced
            (maybe_prune_jsonrpc_response cfg py urlparse pruner time_ns elapsed_ms server_name
              request_json response_json m).1
    unfolding maybe_prune_jsonrpc_response record_call record_elapsed_ms
    maybe_prune_jsonrpc_response-IsBalanced h =
        let k =
          prune_checked-IsSettled pruner time_ns server_name response_json
            (check_call cfg py urlparse server_name request_json response_json) (record_call m) in
        record {
          calls = omega (arith, k.reasons, k.calls, h.calls);
          pruner_calls = omega (arith, k.answers, h.pruner_calls);
        }

    -- A response makes no more calls of the pruner than the configuration allows, however many
    -- texts it has and however they are nested.
    pub maybe_prune_jsonrpc_response-pruner_calls_total :
        (maybe_prune_jsonrpc_response cfg py urlparse pruner time_ns elapsed_ms server_name
          request_json response_json m).1.pruner_calls_total
        ≤ m.pruner_calls_total + cfg.max_pruner_calls_per_response
    unfolding maybe_prune_jsonrpc_response record_call record_elapsed_ms
    maybe_prune_jsonrpc_response-pruner_calls_total =
        (prune_checked-IsSettled pruner time_ns server_name response_json
          (check_call cfg py urlparse server_name request_json response_json) (record_call m)).most
