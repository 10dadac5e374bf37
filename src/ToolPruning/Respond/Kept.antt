-- ===== src/ToolPruning/Respond/Kept.antt =====
-- Where a response is changed.
use kimi_proxy.Base.{
  ℕ, suc, String, Bool, true, false, ◌≡◌, refl, arith, ltb, pos_part, count, Bool-cases, inl, inr,
  ◌⊎◌, Option, none, some, ◌=ₛ◌,
}
use kimi_proxy.Json.{Value, Items, Fields, nil, cons, str, arr, obj, get, put, as_obj}
use kimi_proxy.Python.{Python}
use kimi_proxy.ToolPruning.Metrics.{Metrics, record_call}
use kimi_proxy.ToolPruning.Engine.{Config, PruneRequest, Answer, Run}
use kimi_proxy.ToolPruning.Respond.{
  Checked, skipped, eligible, prune_content, maybe_prune_jsonrpc_response, check_call,
}
use kimi_proxy.ToolPruning.Respond
use kimi_proxy.ToolPruning.Respond.Guards.{IsPrunable, check_call-IsPrunable}

-- an item whose text, if it has one, is another
unfoldable pub IsRetexted : Value → Value → Type 0
IsRetexted v w =
    (w ≡ v)
    ⊎ ((d : Fields) × (s : String) × (t : String) × (v ≡ obj d)
        × (get "text" d ≡ str s)
        × (w ≡ obj (put "text" (str t) d)))

unfoldable pub AreRetexted : Items → Items → Type 0
unfolding IsRetexted
AreRetexted nil nil = Unit
AreRetexted (cons v xs) (cons w ys) = IsRetexted v w × AreRetexted xs ys
AreRetexted _ _ = ⊥

item_text_lem :
    (v : Value) (d : Fields) (text : String)
    → Respond.item_text (as_obj v) ≡ some (d, text)
    → (v ≡ obj d) × (get "text" d ≡ str text)
unfolding Respond.item_text Respond.nonempty_text
item_text_lem v d text h = ground arith

module _ (cfg : Config) (py : Python) (urlparse : String → Option (String × String)) where
  module _ (pruner : ℕ → PruneRequest → Answer) (time_ns : ℕ → ℕ) where
    module _ (request : Fields) (goal_hint source_type : String) where
      replaced-IsRetexted :
          (item : Value) (d : Fields) (text : String) (n : ℕ) (w : String × Run)
          → (item ≡ obj d) × (get "text" d ≡ str text)
          → IsRetexted item
              (Respond.replaced cfg py urlparse pruner time_ns request goal_hint source_type item d
                text n w).0
      unfolding Respond.replaced IsRetexted
      replaced-IsRetexted item d text n w h = elim (Bool-cases (w.0 =ₛ text)) [
        | inl p ↦ rw p (inl refl)
        | inr p ↦ rw p (inr (d, text, w.0, h.0, h.1, refl))
      ]

      prune_text_item-IsRetexted :
          (item : Value) (n : ℕ) (r : Run) (o : Option (Fields × String))
          → Respond.item_text (as_obj item) ≡ o
          → IsRetexted item
              (Respond.prune_text_item cfg py urlparse pruner time_ns request goal_hint source_type
                item n r o).0
      unfolding Respond.prune_text_item IsRetexted
      prune_text_item-IsRetexted item n r none e = inl refl
      prune_text_item-IsRetexted item n r (some (d, text)) e =
          elim (Bool-cases (ltb (count text) (pos_part cfg.min_chars))) [
            | inl p ↦ rw p (inl refl)
            | inr p ↦ rw p (
                replaced-IsRetexted item d text (suc n)
                  (Respond.prune_examined cfg py urlparse pruner time_ns request goal_hint
                    source_type text n _)
                  (item_text_lem item d text e))
          ]

      prune_content-AreRetexted :
          (items : Items) (n : ℕ) (r : Run)
          → AreRetexted items
              (prune_content cfg py urlparse pruner time_ns request goal_hint source_type items n
                r).0
      unfolding prune_content AreRetexted
      prune_content-AreRetexted nil n r = tt
      prune_content-AreRetexted (cons item items) n r =
          (prune_text_item-IsRetexted item n r _ refl, prune_content-AreRetexted items _ _)

    module _ (server_name : String) (request_json response_json : Value) where
      -- the answer to a call: the response, or the response with other texts
      unfoldable pub IsRewritten : Value → Type 0
      IsRewritten answer =
          (answer ≡ response_json)
          ⊎ ((request : Fields) × (response : Fields) × (result : Fields) × (content : Items)
              × (content' : Items) × IsPrunable cfg py urlparse server_name request_json
                  response_json request response result content
              × AreRetexted content content'
              × (answer ≡ obj (put "result" (obj (put "content" (arr content') result)) response)))

      with_content-IsRewritten :
          (request response result : Fields) (content : Items) (w : Items × (Run × Bool))
          → IsPrunable cfg py urlparse server_name request_json response_json request response
              result content
          → AreRetexted content w.0
          → IsRewritten (Respond.with_content cfg py urlparse response_json response result w).0
      unfolding Respond.with_content IsRewritten
      with_content-IsRewritten request response result content (xs, (r, true)) h k =
          inr (request, response, result, content, xs, h, k, refl)
      with_content-IsRewritten request response result content (xs, (r, false)) h k = inl refl

      prune_checked-IsRewritten :
          (checked : Checked) (m : Metrics)
          → check_call cfg py urlparse server_name request_json response_json ≡ checked
          → IsRewritten
              (Respond.prune_checked cfg py urlparse pruner time_ns server_name response_json
                checked m).0
      unfolding Respond.prune_checked Respond.prune_eligible IsRewritten
      prune_checked-IsRewritten (skipped reason) m e = inl refl
      prune_checked-IsRewritten (eligible request response result content) m e =
          with_content-IsRewritten request response result content
            (Respond.prune_eligible cfg py urlparse pruner time_ns server_name request content m)
            (check_call-IsPrunable cfg py urlparse request response result content server_name
              request_json response_json e)
            (prune_content-AreRetexted request _ _ content 0 _)

      -- A response is returned as it is, unless pruning is enabled, the server is not the pruner,
      -- the request is a call of another tool than the pruner's, the response has no error, and no
      -- path that is extracted from the arguments, or from texts of the content that are JSON, has an
      -- excluded directory as a segment. Then too, only texts of the items of `result.content`
      -- differ. Other texts of the content are not searched for paths.
      pub maybe_prune_jsonrpc_response-IsRewritten :
          (elapsed_ms : ℕ) (m : Metrics)
          → IsRewritten
              (maybe_prune_jsonrpc_response cfg py urlparse pruner time_ns elapsed_ms server_name
                request_json response_json m).0
      unfolding maybe_prune_jsonrpc_response
      maybe_prune_jsonrpc_response-IsRewritten elapsed_ms m =
          prune_checked-IsRewritten _ (record_call m) refl
