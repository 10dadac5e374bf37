-- ===== src/ToolPruning/Respond/FailOpen.antt =====
-- A response whose texts the pruner does not prune.
use kimi_proxy.Base.{
  ℕ, suc, String, Bool, true, false, ◌≡◌, refl, ltb, pos_part, count, Bool-cases, inl, inr, Option,
  none, some, eq_refl,
}
use kimi_proxy.Json.{Value, Items, Fields, nil, cons, as_obj}
use kimi_proxy.Python.{Python}
use kimi_proxy.ToolPruning.Metrics.{Metrics, record_call}
use kimi_proxy.ToolPruning.Engine.{Config, PruneRequest, Answer, Run}
use kimi_proxy.ToolPruning.Engine.FailOpen.{gives_text, prune_text_maybe_json_unchanged}
use kimi_proxy.ToolPruning.Respond.{
  Checked, skipped, eligible, prune_content, maybe_prune_jsonrpc_response, check_call,
}
use kimi_proxy.ToolPruning.Respond

module _ (cfg : Config) (py : Python) (urlparse : String → Option (String × String))
    (pruner : ℕ → PruneRequest → Answer) (time_ns : ℕ → ℕ)
    (no_mask : pos_part cfg.max_chars_fallback ≡ 0)
    (fails : (n : ℕ) (q : PruneRequest) → gives_text (pruner n q) ≡ false) where
  module _ (request : Fields) (goal_hint source_type : String) where
    replaced_unchanged :
        (item : Value) (d : Fields) (text : String) (n : ℕ) (w : String × Run)
        → w.0 ≡ text
        → (Respond.replaced cfg py urlparse pruner time_ns request goal_hint source_type item d text
            n w).1.1.0
          ≡ false
    unfolding Respond.replaced
    replaced_unchanged item d text n w h = rw (h, eq_refl text) refl

    prune_examined_unchanged :
        (text : String) (n : ℕ) (r : Run)
        → (Respond.prune_examined cfg py urlparse pruner time_ns request goal_hint source_type text
            n r).0
          ≡ text
    unfolding Respond.prune_examined
    prune_examined_unchanged text n r =
        prune_text_maybe_json_unchanged cfg no_mask pruner fails _ goal_hint source_type py text 0 r

    prune_text_item_unchanged :
        (item : Value) (n : ℕ) (r : Run) (o : Option (Fields × String))
        → (Respond.prune_text_item cfg py urlparse pruner time_ns request goal_hint source_type item
            n r o).1.1.0
          ≡ false
    unfolding Respond.prune_text_item
    prune_text_item_unchanged item n r none = refl
    prune_text_item_unchanged item n r (some (d, text)) =
        elim (Bool-cases (ltb (count text) (pos_part cfg.min_chars))) [
          | inl p ↦ rw p refl
          | inr p ↦ rw p (
              replaced_unchanged item d text (suc n)
                (Respond.prune_examined cfg py urlparse pruner time_ns request goal_hint source_type
                  text n _)
                (prune_examined_unchanged text n _))
        ]

    prune_content_unchanged :
        (items : Items) (n : ℕ) (r : Run)
        → (prune_content cfg py urlparse pruner time_ns request goal_hint source_type items n r).1.1
          ≡ false
    unfolding prune_content
    prune_content_unchanged nil n r = refl
    prune_content_unchanged (cons item items) n r =
        rw (prune_text_item_unchanged item n r (Respond.item_text (as_obj item)))
          (prune_content_unchanged items _ _)

  with_content_unchanged :
      (v : Value) (d e : Fields) (w : Items × (Run × Bool))
      → w.1.1 ≡ false
      → (Respond.with_content cfg py urlparse v d e w).0 ≡ v
  unfolding Respond.with_content
  with_content_unchanged v d e (xs, (r, false)) h = refl
  with_content_unchanged v d e (xs, (r, true)) h = cc

  prune_checked_unchanged :
      (server_name : String) (v : Value) (checked : Checked) (m : Metrics)
      → (Respond.prune_checked cfg py urlparse pruner time_ns server_name v checked m).0 ≡ v
  unfolding Respond.prune_checked Respond.prune_eligible
  prune_checked_unchanged server_name v (skipped reason) m = refl
  prune_checked_unchanged server_name v (eligible request d e items) m =
      with_content_unchanged v d e
        (Respond.prune_eligible cfg py urlparse pruner time_ns server_name request items m)
        (prune_content_unchanged request _ _ items 0 _)

  -- When the pruner raises, gives no result, or gives a result without a text, and the
  -- configuration has no fallback mask, every response is returned as it is.
  pub maybe_prune_jsonrpc_response_unchanged :
      (elapsed_ms : ℕ) (server_name : String) (request_json response_json : Value) (m : Metrics)
      → (maybe_prune_jsonrpc_response cfg py urlparse pruner time_ns elapsed_ms server_name
          request_json response_json m).0
        ≡ response_json
  unfolding maybe_prune_jsonrpc_response
  maybe_prune_jsonrpc_response_unchanged elapsed_ms server_name request_json response_json m =
      prune_checked_unchanged server_name response_json
        (check_call cfg py urlparse server_name request_json response_json) (record_call m)
