-- ===== src/ToolPruning/Client.antt =====
-- The requests to the pruner and its responses (mcp_tool_pruning/pruner_client.py).
use kimi_proxy.Base.{ℤ, String, Option, none, some, ◌=ₛ◌, ◌>>=◌, not, if◌then◌else◌}
use kimi_proxy.Json.{
  Value, Items, Fields, int, str, arr, obj, nil, cons, end, field, get, has, is_str, as_obj, as_arr,
  as_str,
}
use kimi_proxy.Python.{Python}

unfoldable pub build_prune_text_request_jsonrpc : ℤ → String → String → String → Fields → Fields
build_prune_text_request_jsonrpc request_id text goal_hint source_type options =
    field "jsonrpc" (str "2.0") (
      field "id" (int request_id) (
        field "method" (str "tools/call") (
          field "params"
            (obj (
              field "name" (str "prune_text") (
                field "arguments"
                  (obj (
                    field "text" (str text) (
                      field "goal_hint" (str goal_hint) (
                        field "source_type" (str source_type)
                          (field "options" (obj options) end)))))
                  end)))
            end)))

-- the texts of a list
only_texts : Items → Items
only_texts nil = nil
only_texts (cons (str s) xs) = cons (str s) (only_texts xs)
only_texts (cons v xs) = only_texts xs

stats_part : Value → Fields
stats_part (obj stats) = field "stats" (obj stats) end
stats_part _ = end

warnings_part : Value → Fields → Fields
unfolding only_texts
warnings_part (arr warnings) rest = field "warnings" (arr (only_texts warnings)) rest
warnings_part _ rest = rest

-- the fields of a result that are kept
unfoldable pub prune_result_of : Fields → Option Fields
unfolding stats_part warnings_part
prune_result_of parsed = as_str (get "prune_id" parsed) >>= (λ (prune_id : String).
    as_str (get "pruned_text" parsed) >>= (λ (pruned_text : String). some (
      field "prune_id" (str prune_id) (
        field "pruned_text" (str pruned_text)
          (warnings_part (get "warnings" parsed) (stats_part (get "stats" parsed)))))))

first_item : Items → Option Value
first_item nil = none
first_item (cons v xs) = some v

unless_empty : String → Option String
unless_empty s = if s =ₛ "" then none else some s

checked_response : Fields → Option Fields
checked_response response =
    if not (is_str "2.0" (get "jsonrpc" response))
    then none
    else if has "error" response
    then none
    else some response

unfoldable pub extract_prune_result_from_jsonrpc_response : Python → Value → Option Fields
unfolding checked_response first_item unless_empty prune_result_of
extract_prune_result_from_jsonrpc_response py response_json =
    as_obj response_json
    >>= checked_response
    >>= (λ (response : Fields). as_obj (get "result" response))
    >>= (λ (result : Fields). as_arr (get "content" result))
    >>= first_item
    >>= as_obj
    >>= (λ (first : Fields). as_str (get "text" first))
    >>= unless_empty
    >>= py.loads
    >>= as_obj
    >>= prune_result_of
