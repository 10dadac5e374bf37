-- ===== src/Pruner/Rpc.antt =====
-- The JSON-RPC endpoint of the pruner's server (mcp_pruner/server.py): the messages, and the
-- dispatch of a request to the tools. It is none where a tool or `json.dumps` raises.
pub mod Answered
use kimi_proxy.Base.{
  ℕ, zero, suc, ℤ, pos, negsuc, String, ◌<>◌, Bool, true, false, not, ◌||◌, Option, none, some,
  or_else, List, [], ◌∷◌, ◌>>=◌, ◌=ₛ◌, elem, if◌then◌else◌, is_some,
}
use kimi_proxy.Json.{
  Value, Items, Fields, null, bool, int, str, arr, obj, nil, cons, field, end, get, has, put,
  as_str, as_obj, is_str,
}
use kimi_proxy.Python.{Python}
use kimi_proxy.Config.Sections.{McpPrunerBackendConfig}
use kimi_proxy.Pruner.Target.{Rounding}
use kimi_proxy.Pruner.Rebuild.{Annotation}
use kimi_proxy.Pruner.Cache.{PrunerMetrics}
use kimi_proxy.Pruner.Store.{PruneStore}
use kimi_proxy.Pruner.Recover
use kimi_proxy.Pruner.Recover.{
  invalid_params, invalid_item, prune_id_not_found, invalid_range, recovered, tool_recover_text,
}
use kimi_proxy.Pruner.Backends.{Services}
use kimi_proxy.Pruner.Answer.{Server, Reply, invalid, payload, Payload, Numbers, Times}
use kimi_proxy.Pruner.Serve.{tool_prune_text}

error_object : ℤ → String → Option Value → Fields
error_object code message none = field "code" (int code) (field "message" (str message) end)
error_object code message (some details) =
    field "code" (int code) (field "message" (str message) (field "data" details end))

unfoldable pub jsonrpc_error : ℤ → String → Value → Option Value → Value
unfolding error_object
jsonrpc_error code message req_id details = obj (
    field "jsonrpc" (str "2.0")
      (field "id" req_id (field "error" (obj (error_object code message details)) end)))

unfoldable pub jsonrpc_result : Value → Value → Value
jsonrpc_result req_id result =
    obj (field "jsonrpc" (str "2.0") (field "id" req_id (field "result" result end)))

unfoldable pub jsonrpc_tool_result : Python → Value → Value → Option Value
unfolding jsonrpc_result
jsonrpc_tool_result py req_id tool_payload = py.dumps tool_payload >>= (λ (text : String). some (
    jsonrpc_result req_id (
      obj (
        field "content"
          (arr (cons (obj (field "type" (str "text") (field "text" (str text) end))) nil)) end))))

unfoldable pub extract_request_id : Value → Value
extract_request_id (obj d) = get "id" d
extract_request_id _ = null

-- the code -32602
abbrev invalid_code : ℤ
invalid_code = negsuc 32601

annotation_object : Annotation → Value
annotation_object a = obj (
    field "kind" (str "pruned_block") (
      field "original_start_line" (int (pos a.original_start_line)) (
        field "original_end_line" (int (pos a.original_end_line)) (
          field "pruned_line_count" (int (pos a.pruned_line_count))
            (field "reason" (str a.reason) (field "marker" (str a.marker) end))))))

annotation_objects : List Annotation → Items
unfolding annotation_object
annotation_objects [] = nil
annotation_objects (a ∷ annotations) = cons (annotation_object a) (annotation_objects annotations)

text_items : List String → Items
text_items [] = nil
text_items (s ∷ ss) = cons (str s) (text_items ss)

-- the payload of `prune_text`
unfoldable pub payload_fields : Payload → Fields
unfolding annotation_objects text_items
payload_fields p = field "prune_id" (str p.prune_id) (
    field "pruned_text" (str p.pruned_text) (
      field "annotations" (arr (annotation_objects p.annotations))
        (field "stats" (obj p.stats) (field "warnings" (arr (text_items p.warnings)) end))))

unfoldable pub prune_response : Python → Value → Reply → Option Value
unfolding payload_fields
prune_response py req_id (invalid message) = some (jsonrpc_error invalid_code message req_id none)
prune_response py req_id (payload p) = jsonrpc_tool_result py req_id (obj (payload_fields p))

max_line_field : Option ℕ → Fields
max_line_field none = end
max_line_field (some n) = field "max_line" (int (pos n)) end

unfoldable pub recover_response : Python → Value → Recover.Reply → Option Value
unfolding max_line_field
recover_response py req_id invalid_params = some (
    jsonrpc_error invalid_code "Invalid params: expected {prune_id, ranges, include_line_numbers}"
      req_id none)
recover_response py req_id invalid_item =
    some (jsonrpc_error invalid_code "Invalid params: range item must be object" req_id none)
recover_response py req_id (prune_id_not_found prune_id) = some (
    jsonrpc_error (negsuc 32003) "prune_id_not_found" req_id
      (some (obj (field "code" (str "prune_id_not_found") (field "prune_id" (str prune_id) end)))))
recover_response py req_id (invalid_range r max_line) = some (
    jsonrpc_error (negsuc 32004) "invalid_range" req_id (
      some (
        obj
          (field "code" (str "invalid_range") (field "range" (obj r) (max_line_field max_line))))))
recover_response py req_id (recovered raw_text prune_id ranges) = jsonrpc_tool_result py req_id (
    obj (
      field "raw_text" (str raw_text) (
        field "metadata"
          (obj (
            field "prune_id" (str prune_id)
              (field "ranges" (arr ranges) (field "line_numbering" (str "original") end))))
          end)))

-- `health` is the payload of the method, whose time of day is the clock's, and `tools_list` the
-- constant list of the tools
module _ (fl : Rounding) (nm : Numbers fl) (sv : Services) (toml_cfg : McpPrunerBackendConfig)
    (default_endpoint_url : String) (max_input_chars : ℤ) (t : Times) (prune_id : String)
    (py : Python) (health : PrunerMetrics → Value) (tools_list : Items) where
  call_prune : Server → Value → Fields → Option (Server × Value)
  call_prune s req_id args =
      tool_prune_text fl nm sv toml_cfg default_endpoint_url max_input_chars t prune_id s args
      >>= (λ (answer : Server × Reply).
          prune_response py req_id answer.1 >>= (λ (response : Value). some (answer.0, response)))

  call_recover : Server → Value → Fields → Option (Server × Value)
  call_recover s req_id args =
      let (store, reply) = tool_recover_text s.store t.looked args in
      recover_response py req_id reply
      >>= (λ (response : Value). some (record s { store = store }, response))

  same : Server → Option Value → Option (Server × Value)
  same s response = response >>= (λ (v : Value). some (s, v))

  call_tool : Server → Value → Option String → Fields → Option (Server × Value)
  unfolding call_prune call_recover same
  call_tool s req_id none args =
      some (s, jsonrpc_error invalid_code "Invalid params: missing tool name" req_id none)
  call_tool s req_id (some tool_name) args =
      if tool_name =ₛ "prune_text"
      then call_prune s req_id args
      else if elem tool_name ("recover_text" ∷ "recover_range" ∷ [])
      then call_recover s req_id args
      else if tool_name =ₛ "health"
      then same s (jsonrpc_tool_result py req_id (health s.metrics))
      else some (
        s,
        jsonrpc_error invalid_code ("Invalid params: unknown tool '" <> (tool_name <> "'")) req_id
            none,
      )

  -- a method of old, called with the arguments as its parameters
  direct :
      (Server → Value → Fields → Option (Server × Value))
      → Server
      → Value
      → Option Fields
      → Option (Server × Value)
  direct call s req_id none = some (s, jsonrpc_error invalid_code "Invalid params" req_id none)
  direct call s req_id (some params) = call s req_id params

  list_key : String → String
  list_key method =
      if method =ₛ "resources/templates/list"
      then "resourceTemplates"
      else if method =ₛ "prompts/list"
      then "prompts"
      else "resources"

  initialized : Value → Option String → Value
  initialized req_id protocol_version = jsonrpc_result req_id (
      obj (
        field "protocolVersion" (str (or_else protocol_version "2025-11-25")) (
          field "capabilities"
            (obj (
              field "tools" (obj end)
                (field "resources" (obj end) (field "prompts" (obj end) end))))
            (field "serverInfo"
              (obj (field "name" (str "mcp-pruner") (field "version" (str "0.1.0") end))) end))))

  dispatch : Server → Value → String → Option Fields → Option (Server × Value)
  unfolding call_tool direct list_key initialized
  dispatch s req_id method params =
      let params_dict = or_else params end in
      if method =ₛ "initialize"
      then some (s, initialized req_id (as_str (get "protocolVersion" params_dict)))
      else if method =ₛ "notifications/initialized"
      then some (s, jsonrpc_result req_id (obj (field "ok" (bool true) end)))
      else if method =ₛ "tools/list"
      then some (s, jsonrpc_result req_id (obj (field "tools" (arr tools_list) end)))
      else if method =ₛ "tools/call"
      then call_tool s req_id (as_str (get "name" params_dict))
          (or_else (as_obj (get "arguments" params_dict)) end)
      else if elem method ("resources/list" ∷ "resources/templates/list" ∷ "prompts/list" ∷ [])
      then some (s, jsonrpc_result req_id (obj (field (list_key method) (arr nil) end)))
      else if method =ₛ "health"
      then some (s, jsonrpc_result req_id (health s.metrics))
      else if method =ₛ "prune_text"
      then direct call_prune s req_id params
      else if elem method ("recover_text" ∷ "recover_range" ∷ [])
      then direct call_recover s req_id params
      else some (s, jsonrpc_error (negsuc 32600) ("Method not found: " <> method) req_id none)

  dispatch_checked : Server → Value → Bool → Option String → Option Fields → Option (Server × Value)
  unfolding dispatch
  dispatch_checked s req_id true (some method) params = dispatch s req_id method params
  dispatch_checked s req_id _ _ params =
      some (s, jsonrpc_error (negsuc 32599) "Invalid Request" req_id none)

  rpc_object : Server → Value → Option Fields → Option (Server × Value)
  unfolding dispatch_checked
  rpc_object s req_id none = some (s, jsonrpc_error (negsuc 32599) "Invalid Request" req_id none)
  rpc_object s req_id (some request) =
      dispatch_checked s req_id (is_str "2.0" (get "jsonrpc" request))
        (as_str (get "method" request)) (as_obj (get "params" request))

  -- the endpoint; none for a body that is no JSON
  unfoldable pub rpc : Server → Option Value → Option (Server × Value)
  unfolding rpc_object
  rpc s none = some (s, jsonrpc_error (negsuc 32699) "Parse error" null none)
  rpc s (some request) = rpc_object s (extract_request_id request) (as_obj request)
