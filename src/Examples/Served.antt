-- ===== src/Examples/Served.antt =====
-- The tool `prune_text` at a concrete text.
use kimi_proxy.Base.{
  pos, ◌+◌, ◌-◌, ◌*◌, true, false, Option, none, some, [], ◌∷◌, ◌≡◌, refl, arith, ltb,
  if◌then◌else◌, or_else, elem, lookup,
}
use kimi_proxy.Base.Text.{strip}
use kimi_proxy.Python.{Python}
use kimi_proxy.ToolPruning.Client.{extract_prune_result_from_jsonrpc_response}
use kimi_proxy.Pruner.Rpc.{prune_response, payload_fields}
use kimi_proxy.Pruner.Rpc.Answered.{extract_prune_result_from_jsonrpc_response-prune_response}
use kimi_proxy.Json.{Value, Fields, get, put, as_str, str, int, real, bool, obj, field, end}
use kimi_proxy.Examples.{fl}
use kimi_proxy.Base.Words.{split}
use kimi_proxy.Base.Sorting.{sort_by, elem_ℕ}
use kimi_proxy.Pruner.Select.{range}
use kimi_proxy.Pruner.Target.{compute_heuristic_keep_set, compute_keep_target}
use kimi_proxy.Pruner.Rebuild.{
  reconstruct_pruned_text, reconstruct_lines, prune_reason, first_keyword,
}
use kimi_proxy.Config.Sections.{backend_parts, backend_defaults}
use kimi_proxy.Pruner.Store
use kimi_proxy.Pruner.Store.{second}
use kimi_proxy.Pruner.Store.Expiry.{IsDict}
use kimi_proxy.Pruner.Cache
use kimi_proxy.Pruner.Backends.{
  Services, kept, Pass, run_backends, get_pruning_backends_from_env, cleaned,
  clean_base64_and_hashes_inline,
}
use kimi_proxy.Pruner.Backends.Raises.{run_backends_raises}
use kimi_proxy.Pruner.Answer.{
  from_cache, pruned_entry, answered, concluded, Server, Reply, payload, invalid, Payload, Numbers,
  Times,
}
use kimi_proxy.Pruner.Serve.{tool_prune_text}
use kimi_proxy.Pruner.Serve.Stored.{get-tool_prune_text}

abbrev services : Services
services = record {
  splitlines = λ s. s ∷ "b" ∷ "c" ∷ [];
  count_tokens_text = λ s. 5;
  lower = λ s. s;
  env = λ name. none;
  parse_int = λ s. none;
  strip_uris = λ s. s;
  strip_hashes = λ s. s;
  local_rag = λ lines active goal_hint target. kept active;
  rerank = λ docs. none;
  rerank_failure = λ lines. record { code = none; message = "down"; status = none };
  latency_ms = 8;
}

-- percentages for ratios
abbrev numbers : Numbers fl
numbers = record {
  float_of = λ v. some 50;
  outside = λ r. false;
  bits = λ r. r;
  pruned_ratio = λ n k. 0;
  cost = λ saved. saved;
  add = λ a b. a + b;
  digest = λ backend text goal_hint source_type options. text;
}

abbrev times : Times
times = record { looked = 7; cached = 8; stored = 9; elapsed_ms = 2 }

abbrev server : Server
server = record {
  store = Store.init (pos 60);
  cache = Cache.init (pos 30) (pos 2);
  metrics = record {
    calls_total = 0;
    calls_deepinfra = 0;
    fallbacks_deepinfra = 0;
    cost_estimated_total_usd = 0;
  };
}

abbrev args : Fields
args = field "text" (str "a") (
    field "goal_hint" (str "fix") (
      field "source_type" (str "code") (
        field "options"
          (obj (
            field "max_prune_ratio" (real 50) (
              field "min_keep_lines" (int (pos 1)) (
                field "timeout_ms" (int (pos 1500))
                  (field "annotate_lines" (bool true) (field "include_markers" (bool true) end))))))
          end)))

abbrev answer : Option (Server × Reply)
answer =
    tool_prune_text fl numbers services backend_defaults "" (pos 1000) times "prn_1" server args

abbrev server_of : Option (Server × Reply) → Server
server_of none = server
server_of (some (s, r)) = s

abbrev no_payload : Payload
no_payload = record {
  prune_id = "";
  pruned_text = "";
  annotations = [];
  stats = end;
  warnings = [];
}

abbrev payload_in : Reply → Payload
payload_in (invalid message) = no_payload
payload_in (payload p) = p

abbrev payload_of : Option (Server × Reply) → Payload
payload_of none = no_payload
payload_of (some (s, r)) = payload_in r

answer_is : answer ≡ some (server_of answer, payload (payload_of answer))
unfolding tool_prune_text get elem from_cache Cache.get lookup Cache.init pruned_entry run_backends
    get_pruning_backends_from_env backend_parts split strip reconstruct_pruned_text
    compute_heuristic_keep_set range cleaned compute_keep_target reconstruct_lines prune_reason
    first_keyword sort_by elem_ℕ put answered concluded clean_base64_and_hashes_inline
answer_is = refl

text_is : as_str (get "text" args) ≡ some "a"
unfolding get
text_is = refl

no_items : IsDict server.store.items
unfolding Store.init
no_items = tt

get-tool_prune_text_example :
    (Store.get (server_of answer).store 20 (payload_of answer).prune_id).1
    ≡ (if ltb (server.store.ttl_s * second) (20 - 9) then none else some ("a" ∷ "b" ∷ "c" ∷ []))
get-tool_prune_text_example =
    get-tool_prune_text fl numbers services backend_defaults "" (pos 1000) times "prn_1" server
      (server_of answer) args "a" (payload_of answer) 20 text_is answer_is no_items (omega arith)

abbrev pass : Pass
pass = record {
  keep_set = 0 ∷ 1 ∷ 2 ∷ [];
  warnings = [];
  latency_ms = none;
  docs_scored = none;
  docs_total = none;
  http_status = none;
}

no_key : strip (or_else (services.env "DEEPINFRA_API_KEY") "") ≡ ""
unfolding strip
no_key = refl

has_deepinfra : elem "deepinfra" ("heuristic" ∷ "deepinfra" ∷ []) ≡ true
unfolding elem
has_deepinfra = refl

run_backends_raises_example :
    run_backends fl services backend_defaults ""
      ("a" ∷ "b" ∷ "c" ∷ [])
      "fix"
      1
      ("heuristic" ∷ "deepinfra" ∷ [])
      pass
    ≡ none
run_backends_raises_example =
    run_backends_raises fl services backend_defaults "" ("a" ∷ "b" ∷ "c" ∷ []) "fix" 1
      ("heuristic" ∷ "deepinfra" ∷ []) pass no_key has_deepinfra

-- the payload is printed as a short text, which is read back
abbrev py : Python
py = record {
  loads = λ s. some (obj (payload_fields (payload_of answer)));
  dumps = λ v. some "{}";
  lower = λ s. s;
  format = λ template tool_call_id tool_name original_chars. none;
  text = λ v. "";
  encoded = λ s. some 0;
}

extract_prune_result_from_jsonrpc_response-prune_response_example :
    (response : Value) × (result : Fields) × (prune_response py
        (int (pos 7))
        (payload (payload_of answer))
      ≡ some response)
    × (extract_prune_result_from_jsonrpc_response py response ≡ some result)
    × (get "prune_id" result ≡ str (payload_of answer).prune_id)
    × (get "pruned_text" result ≡ str (payload_of answer).pruned_text)
extract_prune_result_from_jsonrpc_response-prune_response_example =
    extract_prune_result_from_jsonrpc_response-prune_response py (int (pos 7)) (payload_of answer)
      "{}" refl refl refl
