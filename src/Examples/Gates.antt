-- ===== src/Examples/Gates.antt =====
-- The gateway at concrete requests.
use kimi_proxy.Base.{
  ◌*◌, ◌/◌, ℤ, pos, ◌≡◌, refl, String, true, none, some, List, [], ◌∷◌, arith, leb, ltb, union,
}
use kimi_proxy.Base.Text.{begins, contains}
use kimi_proxy.Json.{Value, Fields, str, int, obj, field, end, as_obj, get}
use kimi_proxy.ToolPruning.Settings.{resolve_mcp_tool_pruning_config}
use kimi_proxy.ToolPruning.Metrics.{Metrics}
use kimi_proxy.Gateway.Observe.{ObservationMaskingConfig, mask_response}
use kimi_proxy.Gateway.Observe.Masked.{Answers, mask_response-Answers}
use kimi_proxy.Gateway.Breaker.{Ratios, CircuitBreaker, init, tokenize, check_call}
use kimi_proxy.Gateway.Breaker.Loops.{after_calls, check_call_refuses}
use kimi_proxy.Gateway.Upstream.{answered}
use kimi_proxy.Gateway.Cache.{Cached, get_from_cache, update_cache, get_cache_key}
use kimi_proxy.Gateway.Cache.Fresh.{get_from_cache-update_cache_written}
use kimi_proxy.Gateway.Serve.{Gateway, Outside, api_mcp_gateway_rpc}
use kimi_proxy.Gateway.Serve.Guarded.{IsBounded, api_mcp_gateway_rpc-IsBounded}
use kimi_proxy.Gateway.Serve.Errors.{IsHandled, api_mcp_gateway_rpc-IsSettled}
use kimi_proxy.Examples.{py}
use kimi_proxy.Examples.Tools
use kimi_proxy.Json

-- ratios in percent
abbrev ratios : Ratios
ratios = record { quotient = λ a b. a * 100 / b; at_least = λ x y. leb y x }

abbrev words : Fields → List String
words params = "read" ∷ "a" ∷ "a" ∷ []

abbrev breaker : ℤ → CircuitBreaker
breaker limit = init limit 85 true

abbrev call : Fields
call = field "name" (str "read_file") end

check_call_refuses_example :
    (check_call ratios words (after_calls ratios words call 5 (breaker (pos 5))) call).1 ≡ true
unfolding init tokenize union
check_call_refuses_example =
    check_call_refuses ratios words call (breaker (pos 5)) refl refl refl 5 (omega arith) refl

abbrev digest : Fields → String
digest request = "abc"

abbrev write_call : Fields
write_call =
    field "method" (str "tools/call")
      (field "params" (obj (field "name" (str "write_file") end)) end)

abbrev reading : Fields
reading =
    field "id" (int (pos 7)) (field "method" (str "tools/call") (field "params" (obj call) end))

abbrev cached : Cached
cached = ("json-query:abc", (5, obj end)) ∷ ("pruner:abc", (6, obj end)) ∷ []

get_from_cache-update_cache_written_example :
    let key = (get_from_cache digest 7 cached "pruner" write_call).0 in
    let cache' = update_cache 8 cached "pruner" key (obj end) in
    ((get_from_cache digest 9 cache' "pruner" reading).1 ≡ none)
    × (get_from_cache digest 9 cache' "json-query" reading
        ≡ get_from_cache digest 9 cached "json-query" reading)
unfolding begins get_cache_key contains get
get_from_cache-update_cache_written_example =
    get_from_cache-update_cache_written digest 7 8 9 cached "pruner" "json-query" (obj end) reading
      write_call (field "name" (str "write_file") end) "write_file" refl refl refl refl

abbrev failure : Fields
failure = field "id" (int (pos 7)) (field "error" (obj (field "data" (str "trace") end)) end)

abbrev narrow : ObservationMaskingConfig
narrow = record { max_chars = pos 3; head_chars = pos 1; tail_chars = pos 1 }

mask_response-Answers_example :
    (Json.has "error" (mask_response narrow failure) ≡ Json.has "error" failure)
    × Answers narrow failure "error" (get "error" (mask_response narrow failure))
mask_response-Answers_example = mask_response-Answers narrow failure "error"

abbrev metrics : Metrics
metrics = Tools.m

abbrev outside : Outside
outside = record {
  py = py;
  floats = record { less = ltb; of_int = λ i. none; trunc = λ x. none; parse = λ s. none };
  ratios = ratios;
  urlparse = λ s. none;
  words = words;
  digest = digest;
  post = λ n k timeout url v. answered 200 "" (obj failure);
  config = some end;
  resolve = resolve_mcp_tool_pruning_config py Tools.floats (λ s. none) (λ s. none);
  now = 7;
  stored_at = 8;
  time_ns = λ n. n;
  elapsed_ms = 3;
  renders = λ v. true;
}

abbrev gateway : Gateway
gateway = record {
  breakers = ("pruner", breaker (pos 5)) ∷ [];
  cache = cached;
  forwarded = 2;
  metrics = metrics;
}

api_mcp_gateway_rpc-IsBounded_example :
    IsBounded (api_mcp_gateway_rpc outside gateway "pruner" (some (obj reading))).0
unfolding init
api_mcp_gateway_rpc-IsBounded_example =
    api_mcp_gateway_rpc-IsBounded outside gateway "pruner" (some (obj reading))
      ((omega arith, tt), omega arith)

api_mcp_gateway_rpc-IsSettled_example :
    IsHandled outside gateway "pruner"
      (some (obj reading))
      (api_mcp_gateway_rpc outside gateway "pruner" (some (obj reading))).1
api_mcp_gateway_rpc-IsSettled_example =
    api_mcp_gateway_rpc-IsSettled outside gateway "pruner" (some (obj reading))
