-- ===== src/Gateway/Serve.antt =====
-- The endpoint of the gateway (api_mcp_gateway_rpc of api/routes/mcp_gateway.py): the breaker, the
-- cache, the call of the server, the pruning of its answer, the masking. The answers of a server are
-- a function of how many requests were forwarded before: `post n 0` is the request itself, and
-- `post n k` the call of the pruner when the response has `k` calls left.
pub mod Guarded
pub mod Errors
use kimi_proxy.Base.{
  ℕ, suc, max, ℤ, pos, negsuc, pos_part, String, Bool, true, false, not, ◌||◌, Option, none, some,
  or_else, Dict, List, lookup, assign, ◌=ₛ◌, ◌>>=◌, if◌then◌else◌,
}
use kimi_proxy.Json.{Value, Fields, null, bool, int, real, str, arr, obj, as_obj, get, is_str}
use kimi_proxy.Python.{Python}
use kimi_proxy.Config.Values.{Floats}
use kimi_proxy.Config.Sections.{McpGatewayConfig, gateway_defaults, get_mcp_gateway_config}
use kimi_proxy.Config.Pruning.{ToolPruningConfig, get_mcp_tool_pruning_config}
use kimi_proxy.ToolPruning.Metrics.{Metrics}
use kimi_proxy.ToolPruning.Engine.{Config, PruneRequest, Answer, no_result, result}
use kimi_proxy.ToolPruning.Client.{
  build_prune_text_request_jsonrpc, extract_prune_result_from_jsonrpc_response,
}
use kimi_proxy.ToolPruning.Respond.{maybe_prune_jsonrpc_response}
use kimi_proxy.Gateway.Observe.{default_masking, mask_jsonrpc_response, build_jsonrpc_error}
use kimi_proxy.Gateway.Breaker
use kimi_proxy.Gateway.Breaker.{Ratios, CircuitBreaker, check_call}
use kimi_proxy.Gateway.Upstream.{
  Posted, UpstreamError, Forwarded, received, upstream_error, other_error, forward_jsonrpc,
}
use kimi_proxy.Gateway.Cache.{Cached, get_from_cache, update_cache}

-- the globals of the module
pub record Gateway : Type 0 where
  pub breakers : Dict CircuitBreaker
  pub cache : Cached
  pub forwarded : ℕ
  pub metrics : Metrics

-- a `JSONResponse`, or the exception that leaves the endpoint
pub data Reply : Type 0 where
  response : ℕ → Value → Reply
  raised : Reply

-- what the endpoint calls and does not implement
pub record Outside : Type 0 where
  pub py : Python
  pub floats : Floats
  pub ratios : Ratios
  pub urlparse : String → Option (String × String)
  pub words : Fields → List String
  pub digest : Fields → String
  pub post : ℕ → ℕ → ℕ → String → Value → Posted
  -- `get_config()`, none where it raises
  pub config : Option Fields
  pub resolve : ToolPruningConfig → Config
  -- the times of the lookup and of the storing
  pub now : ℕ
  pub stored_at : ℕ
  pub time_ns : ℕ → ℕ
  pub elapsed_ms : ℕ
  -- whether `JSONResponse` can write a value: it raises at a float that is not finite
  pub renders : Value → Bool

-- the breaker of a server, with the configuration of now
current_breaker : McpGatewayConfig → Option CircuitBreaker → CircuitBreaker
current_breaker config none =
    Breaker.init config.cb_max_failures config.cb_similarity_threshold config.cb_enabled
current_breaker config (some cb) = record cb {
  max_failures = config.cb_max_failures;
  similarity_threshold = config.cb_similarity_threshold;
  enabled = config.cb_enabled;
}

breaker_error : Value → Reply
breaker_error request_json = response 429 (
    obj (
      build_jsonrpc_error request_json (negsuc 31999)
        "Circuit Breaker ouvert : Boucle d'appels MCP répétitifs détectée." null))

invalid_request : Value → Reply
invalid_request request_json = response 400 (
    obj (
      build_jsonrpc_error request_json (negsuc 32599)
        "Requête JSON-RPC invalide (attendu objet JSON)" null))

unfoldable pub handle_gateway_error : UpstreamError → Value → Reply
handle_gateway_error e request_json =
    let answer = λ (code : ℤ) (status : ℕ).
      response status (obj (build_jsonrpc_error request_json code e.message e.details)) in
    if e.code =ₛ "unknown_server"
    then answer (negsuc 32000) 404
    else if (e.code =ₛ "timeout") || (e.code =ₛ "connect_error")
    then answer (negsuc 32001) 502
    else if e.code =ₛ "invalid_json"
    then answer (negsuc 32002) 502
    else answer (negsuc 32602) 502

module _ (o : Outside) where
  gateway_config : McpGatewayConfig
  gateway_config = or_else (o.config >>= get_mcp_gateway_config o.floats) gateway_defaults

  -- the breaker's call, and whether it refuses
  called : CircuitBreaker → Option Fields → CircuitBreaker × Bool
  called cb none = (cb, false)
  called cb (some params) = check_call o.ratios o.words cb params

  refusal : Value → CircuitBreaker × Bool → Option Reply
  unfolding breaker_error
  refusal request_json (cb, true) = some (breaker_error request_json)
  refusal request_json (cb, false) = none

  -- the check of a call of a tool by the server's breaker
  checked_call : String → Fields → Dict CircuitBreaker → CircuitBreaker × Bool
  unfolding gateway_config current_breaker called
  checked_call server_name request breakers =
      called (current_breaker gateway_config (lookup server_name breakers))
        (if is_str "tools/call" (get "method" request) then as_obj (get "params" request) else none)

  check_circuit_breaker : String → Fields → Dict CircuitBreaker → Dict CircuitBreaker × Option Reply
  unfolding gateway_config checked_call refusal
  check_circuit_breaker server_name request breakers =
      let checked = checked_call server_name request breakers in
      if not gateway_config.cb_enabled
      then (breakers, none)
      else (assign server_name checked.0 breakers, refusal (obj request) checked)

  answer_of : Option Fields → Answer
  answer_of none = no_result
  answer_of (some r) = result r

  pruner_answer : Forwarded → Answer
  unfolding answer_of
  pruner_answer (received v) = answer_of (extract_prune_result_from_jsonrpc_response o.py v)
  pruner_answer (upstream_error e) = no_result
  pruner_answer other_error = no_result

  pruner_callable : ℕ → ℕ → PruneRequest → Answer
  unfolding pruner_answer
  pruner_callable n left r = pruner_answer (
      forward_jsonrpc (o.post n left) "pruner"
        (obj (
          build_prune_text_request_jsonrpc r.request_id r.text r.goal_hint r.source_type r.options))
        (max 1 (pos_part r.call_timeout_ms)))

  prune_with : ℕ → String → Value → Value → Metrics → Option ToolPruningConfig → Value × Metrics
  unfolding pruner_callable
  prune_with n server_name request_json upstream m none = (upstream, m)
  prune_with n server_name request_json upstream m (some toml_cfg) =
      maybe_prune_jsonrpc_response (o.resolve toml_cfg) o.py o.urlparse (pruner_callable n)
        o.time_ns o.elapsed_ms server_name request_json upstream m

  apply_pruning : ℕ → String → Value → Value → Metrics → Value × Metrics
  unfolding prune_with
  apply_pruning n server_name request_json upstream m =
      prune_with n server_name request_json upstream m
        (o.config >>= get_mcp_tool_pruning_config o.floats)

  -- what is done with the answer of the server
  finish : Gateway → String → Fields → Option String → Forwarded → Gateway × Reply
  unfolding apply_pruning handle_gateway_error
  finish g server_name request key (received v) =
      let (pruned, m) = apply_pruning g.forwarded server_name (obj request) v g.metrics in
      let masked = mask_jsonrpc_response default_masking pruned in
      (
        record g {
          cache = update_cache o.stored_at g.cache server_name key masked;
          forwarded = suc g.forwarded;
          metrics = m;
        },
        response 200 masked,
      )
  finish g server_name request key (upstream_error e) =
      (record g { forwarded = suc g.forwarded }, handle_gateway_error e (obj request))
  finish g server_name request key other_error = (record g { forwarded = suc g.forwarded }, raised)

  from_cache : Gateway → String → Fields → Option String × Option Value → Gateway × Reply
  unfolding finish
  from_cache g server_name request (key, some v) = (g, response 200 v)
  from_cache g server_name request (key, none) =
      finish g server_name request key
        (forward_jsonrpc (o.post g.forwarded 0) server_name (obj request) 30000)

  unless_refused : Gateway → String → Fields → Option Reply → Gateway × Reply
  unfolding from_cache
  unless_refused g server_name request (some reply) = (g, reply)
  unless_refused g server_name request none =
      from_cache g server_name request (get_from_cache o.digest o.now g.cache server_name request)

  serve_object : Gateway → String → Value → Option Fields → Gateway × Reply
  unfolding invalid_request check_circuit_breaker unless_refused
  serve_object g server_name request_json none = (g, invalid_request request_json)
  serve_object g server_name request_json (some request) =
      let (breakers, refused) = check_circuit_breaker server_name request g.breakers in
      unless_refused (record g { breakers = breakers }) server_name request refused

  -- the making of a `JSONResponse`, which is the last step on each way
  unfoldable pub rendered : Reply → Reply
  rendered (response status v) = if o.renders v then response status v else raised
  rendered raised = raised

  -- the body is none where `request.json()` raises
  unfoldable pub api_mcp_gateway_rpc : Gateway → String → Option Value → Gateway × Reply
  unfolding serve_object rendered
  api_mcp_gateway_rpc g server_name none = (g, raised)
  api_mcp_gateway_rpc g server_name (some request_json) =
      let (g', reply) = serve_object g server_name request_json (as_obj request_json) in
      (g', rendered reply)
