-- ===== src/Pruner/Rpc/Answered.antt =====
-- The pruner's server answers what its client reads.
use kimi_proxy.Base.{String, false, some, ◌≡◌, refl, ◌∙◌, ◌=ₛ◌}
use kimi_proxy.Json.{Value, Fields, obj, arr, cons, nil, field, end, str, get, has}
use kimi_proxy.Python.{Python}
use kimi_proxy.ToolPruning.Client.{extract_prune_result_from_jsonrpc_response, prune_result_of}
use kimi_proxy.Pruner.Answer.{Payload, payload}
use kimi_proxy.Pruner.Rpc.{prune_response, payload_fields, jsonrpc_tool_result, jsonrpc_result}

tool_response : Value → String → Value
unfolding jsonrpc_result
tool_response req_id text = jsonrpc_result req_id (
    obj (
      field "content"
        (arr (cons (obj (field "type" (str "text") (field "text" (str text) end))) nil)) end))

result-payload_fields :
    (p : Payload)
    → (result : Fields) × (prune_result_of (payload_fields p) ≡ some result)
      × (get "prune_id" result ≡ str p.prune_id)
      × (get "pruned_text" result ≡ str p.pruned_text)
unfolding prune_result_of payload_fields get
result-payload_fields p = (_, refl, refl, refl)

extract-tool_response :
    (py : Python) (req_id : Value) (s : String) (d : Fields)
    → py.loads s ≡ some (obj d)
    → (s =ₛ "") ≡ false
    → extract_prune_result_from_jsonrpc_response py (tool_response req_id s) ≡ prune_result_of d
unfolding extract_prune_result_from_jsonrpc_response tool_response jsonrpc_result get has
extract-tool_response py req_id s d l e = rw (e, l) refl

-- The payload of `prune_text` survives the response: where `json.dumps` prints it as a text that is
-- not empty and that `json.loads` reads back, the client of the tool pruning takes from the server's
-- response a result with the id and the pruned text of the payload.
pub extract_prune_result_from_jsonrpc_response-prune_response :
    (py : Python) (req_id : Value) (p : Payload) (s : String)
    → py.dumps (obj (payload_fields p)) ≡ some s
    → py.loads s ≡ some (obj (payload_fields p))
    → (s =ₛ "") ≡ false
    → (response : Value) × (result : Fields) × (prune_response py req_id (payload p)
        ≡ some response)
      × (extract_prune_result_from_jsonrpc_response py response ≡ some result)
      × (get "prune_id" result ≡ str p.prune_id)
      × (get "pruned_text" result ≡ str p.pruned_text)
unfolding prune_response jsonrpc_tool_result tool_response
extract_prune_result_from_jsonrpc_response-prune_response py req_id p s d l e =
    let (result, k, same_id, same_text) = result-payload_fields p in
    (
      tool_response req_id s,
      result,
      rw d refl,
      extract-tool_response py req_id s (payload_fields p) l e ∙ k,
      same_id,
      same_text,
    )
