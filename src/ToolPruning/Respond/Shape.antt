-- ===== src/ToolPruning/Respond/Shape.antt =====
-- The shape of a response.
use kimi_proxy.Base.{ℕ, String, ◌≡◌, refl, ap, inl, inr, Option, ◌∙◌, sym}
use kimi_proxy.Json.{Value, Items, nil, cons, str, arr, obj}
use kimi_proxy.Python.{Python}
use kimi_proxy.ToolPruning.Metrics.{Metrics}
use kimi_proxy.ToolPruning.Engine.{Config, PruneRequest, Answer}
use kimi_proxy.ToolPruning.Engine.Shape.{shape, shape_items, shape-put, is_null}
use kimi_proxy.ToolPruning.Respond.{maybe_prune_jsonrpc_response}
use kimi_proxy.ToolPruning.Respond.Kept.{
  IsRetexted, AreRetexted, IsRewritten, maybe_prune_jsonrpc_response-IsRewritten,
}

IsRetexted-shape : (v w : Value) → IsRetexted v w → shape w ≡ shape v
unfolding IsRetexted shape
IsRetexted-shape v w (inl p) = ap shape p
IsRetexted-shape v w (inr (d, s, t, is_d, is_s, is_w)) =
    ap shape is_w
    ∙ (ap obj (shape-put "text" (str t) d (ap is_null is_s) (sym (ap shape is_s)))
        ∙ sym (ap shape is_d))

AreRetexted-shape_items : (xs ys : Items) → AreRetexted xs ys → shape_items ys ≡ shape_items xs
unfolding AreRetexted shape_items
AreRetexted-shape_items nil nil h = refl
AreRetexted-shape_items nil (cons w ys) h = elim h [ ]
AreRetexted-shape_items (cons v xs) nil h = elim h [ ]
AreRetexted-shape_items (cons v xs) (cons w ys) h =
    let p = IsRetexted-shape v w h.0 in let q = AreRetexted-shape_items xs ys h.1 in cc

module _ (cfg : Config) (py : Python) (urlparse : String → Option (String × String))
    (pruner : ℕ → PruneRequest → Answer) (time_ns : ℕ → ℕ) (elapsed_ms : ℕ) (server_name : String)
    (request_json response_json : Value) where
  IsRewritten-shape :
      (answer : Value)
      → IsRewritten cfg py urlparse pruner time_ns server_name request_json response_json answer
      → shape answer ≡ shape response_json
  unfolding IsRewritten shape
  IsRewritten-shape answer (inl p) = ap shape p
  IsRewritten-shape answer (inr (request, response, result, content, content', h, k, e)) =
      ap shape e
      ∙ (ap obj (
            shape-put "result" _ response (ap is_null h.result_is) (
              ap obj (
                shape-put "content" (arr content') result (ap is_null h.content_is) (
                  ap arr (AreRetexted-shape_items content content' k)
                  ∙ sym (ap shape h.content_is)))
              ∙ sym (ap shape h.result_is)))
          ∙ sym (ap shape h.response_is))

  -- Whatever the pruner answers, the response keeps its shape: the keys and their order, the
  -- numbers, the Booleans and the nesting are those of the server's response; only texts differ.
  pub maybe_prune_jsonrpc_response-shape :
      (m : Metrics)
      → shape
          (maybe_prune_jsonrpc_response cfg py urlparse pruner time_ns elapsed_ms server_name
            request_json response_json m).0
        ≡ shape response_json
  maybe_prune_jsonrpc_response-shape m = IsRewritten-shape _ (
      maybe_prune_jsonrpc_response-IsRewritten cfg py urlparse pruner time_ns server_name
        request_json response_json elapsed_ms m)
