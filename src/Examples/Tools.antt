-- ===== src/Examples/Tools.antt =====
-- The pruning of tools' responses and its configuration at concrete inputs.
use kimi_proxy.Base.{
  ℕ, pos, ◌≡◌, ◌≤◌, refl, arith, String, elem, true, false, Option, none, some, [], ◌∷◌, ltb, ◌=ₛ◌,
  if◌then◌else◌, ℤ,
}
use kimi_proxy.Base.Text.{strip, begins}
use kimi_proxy.Base.Words.{squeeze, forward}
use kimi_proxy.Json.{Value, Fields, int, str, arr, obj, nil, cons, field, end}
use kimi_proxy.Python.{Python}
use kimi_proxy.Config.Values.{Floats}
use kimi_proxy.ToolPruning.Metrics.{Metrics, IsBalanced}
use kimi_proxy.ToolPruning.Engine.{Config, PruneRequest, Answer, raises, result}
use kimi_proxy.ToolPruning.Engine.FailOpen.{gives_text}
use kimi_proxy.ToolPruning.Paths.{normalize_path_like, extract_candidate_paths_from_arguments}
use kimi_proxy.ToolPruning.Paths.Found.{
  levels, nodes, paths_below, extract_candidate_paths_from_arguments-paths_below,
}
use kimi_proxy.ToolPruning.Respond.{maybe_prune_jsonrpc_response}
use kimi_proxy.ToolPruning.Respond.Counted.{
  maybe_prune_jsonrpc_response-IsBalanced, maybe_prune_jsonrpc_response-pruner_calls_total,
}
use kimi_proxy.ToolPruning.Respond.Kept.{IsRewritten, maybe_prune_jsonrpc_response-IsRewritten}
use kimi_proxy.ToolPruning.Respond.FailOpen.{maybe_prune_jsonrpc_response_unchanged}

-- One text is the JSON of a list of one text.
abbrev py : Python
py = record {
  loads = λ s. if s =ₛ "[\"a long text\"]" then some (arr (cons (str "a long text") nil)) else none;
  dumps = λ v. some "[\"short\"]";
  lower = λ s. s;
  format = λ template tool_call_id tool_name original_chars. some tool_call_id;
  text = λ v. "user";
  encoded = λ s. some 0;
}

abbrev cfg : Config
cfg = record {
  enabled = true;
  min_chars = pos 4;
  call_timeout_ms = pos 1500;
  max_chars_fallback = pos 0;
  goal_hint_override = none;
  excluded_dirs = ".agents" ∷ [];
  options = end;
  max_depth = 20;
  max_nodes = 20000;
  max_pruner_calls_per_response = 3;
}

abbrev nowhere : String → Option (String × String)
nowhere s = none

abbrev pruner : ℕ → PruneRequest → Answer
pruner n q = result (field "pruned_text" (str "short") end)

abbrev arguments : Value
arguments = obj (field "path" (str "src\\main.c") (field "limit" (int (pos 3)) end))

abbrev request : Value
request = obj (
    field "jsonrpc" (str "2.0") (
      field "id" (int (pos 7)) (
        field "method" (str "tools/call") (
          field "params" (obj (field "name" (str "read") (field "arguments" arguments end))) end))))

abbrev item : String → Value
item s = obj (field "type" (str "text") (field "text" (str s) end))

abbrev response : Value
response = obj (
    field "jsonrpc" (str "2.0") (
      field "id" (int (pos 7)) (
        field "result"
          (obj
            (field "content" (arr (cons (item "[\"a long text\"]") (cons (item "abc") nil))) end))
          end)))

abbrev pub m : Metrics
m = record {
  calls_total = 0;
  skipped_disabled = 0;
  skipped_excluded_path = 0;
  skipped_invalid_request = 0;
  skipped_non_tools_call = 0;
  skipped_server_pruner = 0;
  skipped_tool_excluded = 0;
  skipped_invalid_response = 0;
  skipped_error_response = 0;
  skipped_no_content = 0;
  eligible_total = 0;
  responses_changed = 0;
  pruner_calls_total = 0;
  pruner_calls_ok = 0;
  pruner_calls_fail = 0;
  pruner_calls_exception = 0;
  fail_open_total = 0;
  fallback_mask_total = 0;
  texts_examined = 0;
  texts_over_threshold = 0;
  texts_pruned = 0;
  chars_before_total = 0;
  chars_after_total = 0;
  elapsed_ms_total = 0;
  elapsed_ms_max = 0;
}

maybe_prune_jsonrpc_response-IsRewritten_example :
    IsRewritten cfg py nowhere pruner
      (λ n. n)
      "files"
      request
      response
      (maybe_prune_jsonrpc_response cfg py nowhere pruner (λ n. n) 5 "files" request response m).0
maybe_prune_jsonrpc_response-IsRewritten_example =
    maybe_prune_jsonrpc_response-IsRewritten cfg py nowhere pruner (λ n. n) "files" request response
      5 m

maybe_prune_jsonrpc_response-pruner_calls_total_example :
    (maybe_prune_jsonrpc_response cfg py nowhere pruner
      (λ n. n)
      5
      "files"
      request
      response
      m).1.pruner_calls_total
    ≤ 3
maybe_prune_jsonrpc_response-pruner_calls_total_example =
    maybe_prune_jsonrpc_response-pruner_calls_total cfg py nowhere pruner (λ n. n) 5 "files" request
      response m

always_raises : (n : ℕ) (q : PruneRequest) → gives_text raises ≡ false
unfolding gives_text
always_raises n q = refl

maybe_prune_jsonrpc_response_unchanged_example :
    (maybe_prune_jsonrpc_response cfg py nowhere
      (λ n q. raises)
      (λ n. n)
      5
      "files"
      request
      response
      m).0
    ≡ response
maybe_prune_jsonrpc_response_unchanged_example =
    maybe_prune_jsonrpc_response_unchanged cfg py nowhere (λ n q. raises) (λ n. n) refl
      always_raises 5 "files" request response m

maybe_prune_jsonrpc_response-IsBalanced_example :
    IsBalanced
      (maybe_prune_jsonrpc_response cfg py nowhere pruner (λ n. n) 5 "files" request response m).1
maybe_prune_jsonrpc_response-IsBalanced_example =
    maybe_prune_jsonrpc_response-IsBalanced cfg py nowhere pruner (λ n. n) 5 "files" request
      response m (record { calls = refl; pruner_calls = refl })

-- A backslash becomes a slash.
found : extract_candidate_paths_from_arguments nowhere py arguments 20 20000 ≡ "src/main.c" ∷ []
unfolding extract_candidate_paths_from_arguments elem strip normalize_path_like squeeze forward
    begins
found = refl

few_levels : levels arguments ≤ 20
unfolding levels
few_levels = omega arith

few_nodes : nodes arguments ≤ 20000
unfolding nodes
few_nodes = omega arith

extract_candidate_paths_from_arguments-paths_below_example :
    extract_candidate_paths_from_arguments nowhere py arguments 20 20000
    ≡ paths_below nowhere py arguments false
extract_candidate_paths_from_arguments-paths_below_example =
    extract_candidate_paths_from_arguments-paths_below nowhere py arguments 20 20000 few_levels
      few_nodes

-- floats that are all numbers from 0.0, in the order of their bits
abbrev pub floats : Floats
floats = record { less = ltb; of_int = λ i. none; trunc = λ x. none; parse = λ s. none }

abbrev section : Fields
section = field "mcp_tool_pruning" (obj (field "timeout_ms" (int (pos 0)) end)) end

abbrev env : String → Option String
env name = if name =ₛ "KIMI_MCP_TOOL_PRUNING_EXCLUDED_DIRS" then some " , .git,.git" else none

abbrev int_text : String → Option ℤ
int_text s = none
