-- ===== src/ToolPruning/Respond.antt =====
-- The pruning of a response (maybe_prune_jsonrpc_response of mcp_tool_pruning/engine.py). The clock
-- gives the identifiers of calls for a request whose own is no integer, and the milliseconds that
-- the call took. The `except` around the pruning of a text is not there: nothing raises in it, as
-- `_prune_plain_text` and `_prune_text_maybe_json` catch what the pruner, `json.loads` and
-- `json.dumps` raise.
pub mod Counted
pub mod Guards
pub mod Kept
pub mod Shape
pub mod FailOpen
use kimi_proxy.Base.{
  ℕ, zero, suc, ◌+◌, ◌%◌, ◌^◌, ℤ, pos, negsuc, pos_part, add_ℕ, String, count, ◌<>◌, Bool, true,
  false, not, ◌||◌, ◌&&◌, Option, none, some, List, [], ◌∷◌, ◌++◌, ◌=ₛ◌, leb, ltb, if◌then◌else◌,
  elem,
}
use kimi_proxy.Base.Text.{strip, take_chars, join}
use kimi_proxy.Base.Words.{ends_any}
use kimi_proxy.Json.{
  Value, Items, Fields, null, bool, int, real, str, arr, obj, nil, cons, end, field, as_str, as_obj,
  as_arr, get, has, put, is_str,
}
use kimi_proxy.Python.{Python}
use kimi_proxy.ToolPruning.Metrics.{
  Metrics, Skip, disabled, excluded_path, invalid_request, non_tools_call, server_pruner,
  tool_excluded, invalid_response, error_response, no_content, record_call, record_skip,
  record_eligible, record_text_examined, record_text_after, record_response_changed,
  record_elapsed_ms,
}
use kimi_proxy.ToolPruning.Engine.{Config, PruneRequest, Answer, Run, prune_text_maybe_json}
use kimi_proxy.ToolPruning.Request.{
  extract_tool_call_name, extract_tool_call_arguments, derive_goal_hint_from_tool_call,
  derive_source_type, child_request_id,
}
use kimi_proxy.ToolPruning.Paths.{
  extract_candidate_paths_from_arguments, contains_excluded_path,
  response_content_contains_excluded_path,
}

-- what the guards let through
pub data Checked : Type 0 where
  skipped : Skip → Checked
  eligible : Fields → Fields → Fields → Items → Checked

unfoldable pub is_excluded_tool : Option String → Bool
is_excluded_tool none = false
is_excluded_tool (some name) = elem name ("prune_text" ∷ "recover_text" ∷ "health" ∷ [])

is_empty : Items → Bool
is_empty nil = true
is_empty (cons item items) = false

-- an item of the content with a text that is not empty
nonempty_text : Fields → Option String → Option (Fields × String)
nonempty_text item none = none
nonempty_text item (some text) = if text =ₛ "" then none else some (item, text)

pub item_text : Option Fields → Option (Fields × String)
unfolding nonempty_text
item_text none = none
item_text (some item) = nonempty_text item (as_str (get "text" item))

note : (Metrics → Metrics) → Run → Run
note f r = record r { metrics = f r.metrics }

module _ (cfg : Config) (py : Python) (urlparse : String → Option (String × String)) where
  check_content : Fields → Fields → Fields → Option Items → Checked
  check_content request response result none = skipped no_content
  check_content request response result (some content) =
      if is_empty content
      then skipped no_content
      else if contains_excluded_path urlparse
          (extract_candidate_paths_from_arguments urlparse py (extract_tool_call_arguments request)
            cfg.max_depth cfg.max_nodes)
          cfg.excluded_dirs
      then skipped excluded_path
      else if response_content_contains_excluded_path urlparse py cfg.excluded_dirs cfg.max_depth
          cfg.max_nodes content
      then skipped excluded_path
      else eligible request response result content

  check_result : Fields → Fields → Option Fields → Checked
  unfolding check_content
  check_result request response none = skipped invalid_response
  check_result request response (some result) =
      check_content request response result (as_arr (get "content" result))

  check_response : Fields → Option Fields → Checked
  unfolding check_result
  check_response request none = skipped invalid_response
  check_response request (some response) =
      if not (is_str "2.0" (get "jsonrpc" response))
      then skipped invalid_response
      else if has "error" response
      then skipped error_response
      else check_result request response (as_obj (get "result" response))

  check_request : Option Fields → Option Fields → Checked
  unfolding check_response is_excluded_tool
  check_request none response = skipped invalid_request
  check_request (some request) response =
      if not (is_str "2.0" (get "jsonrpc" request))
      then skipped invalid_request
      else if not (is_str "tools/call" (get "method" request))
      then skipped non_tools_call
      else if is_excluded_tool (extract_tool_call_name request)
      then skipped tool_excluded
      else check_response request response

  unfoldable pub check_call : String → Value → Value → Checked
  unfolding check_request is_empty
  check_call server_name request_json response_json =
      if not cfg.enabled
      then skipped disabled
      else if server_name =ₛ "pruner"
      then skipped server_pruner
      else check_request (as_obj request_json) (as_obj response_json)

  module _ (pruner : ℕ → PruneRequest → Answer) (time_ns : ℕ → ℕ) (request : Fields)
      (goal_hint source_type : String) where
    replaced : Value → Fields → String → ℕ → String × Run → Value × (Run × (Bool × ℕ))
    unfolding note
    replaced item d text call_seq (new_text, r) =
        let same = new_text =ₛ text in
        (
          if same then item else obj (put "text" (str new_text) d),
          (note (record_text_after (count new_text) (not same)) r, (not same, call_seq)),
        )

    prune_examined : String → ℕ → Run → String × Run
    prune_examined text call_seq r =
        prune_text_maybe_json cfg pruner
          (child_request_id (get "id" request) (17 + suc call_seq) (time_ns call_seq)) goal_hint
          source_type py text 0 r

    prune_text_item : Value → ℕ → Run → Option (Fields × String) → Value × (Run × (Bool × ℕ))
    unfolding replaced prune_examined
    prune_text_item item call_seq r none = (item, (r, (false, call_seq)))
    prune_text_item item call_seq r (some (d, text)) =
        let over = leb (pos_part cfg.min_chars) (count text) in
        let r' = note (record_text_examined (count text) over) r in
        if ltb (count text) (pos_part cfg.min_chars)
        then (item, (r', (false, call_seq)))
        else replaced item d text (suc call_seq) (prune_examined text call_seq r')

    unfoldable pub prune_content : Items → ℕ → Run → Items × (Run × Bool)
    unfolding prune_text_item item_text
    prune_content nil call_seq r = (nil, (r, false))
    prune_content (cons item items) call_seq r =
        let (item', (r', (changed, call_seq'))) =
          prune_text_item item call_seq r (item_text (as_obj item)) in
        let (items', (r'', rest)) = prune_content items call_seq' r' in
        (cons item' items', (r'', changed || rest))

  with_content : Value → Fields → Fields → Items × (Run × Bool) → Value × Metrics
  with_content response_json response result (content, (r, false)) = (response_json, r.metrics)
  with_content response_json response result (content, (r, true)) = (
    obj (put "result" (obj (put "content" (arr content) result)) response),
    record_response_changed r.metrics,
  )

  hint_for : String → Fields → Option String → String
  hint_for server_name request none =
      derive_goal_hint_from_tool_call server_name (extract_tool_call_name request) request
  hint_for server_name request (some goal_hint) =
      if goal_hint =ₛ ""
      then derive_goal_hint_from_tool_call server_name (extract_tool_call_name request) request
      else goal_hint

  prune_eligible :
      (ℕ → PruneRequest → Answer)
      → (ℕ → ℕ)
      → String
      → Fields
      → Items
      → Metrics
      → Items × (Run × Bool)
  unfolding hint_for
  prune_eligible pruner time_ns server_name request content m =
      prune_content pruner time_ns request (hint_for server_name request cfg.goal_hint_override)
        (derive_source_type py server_name request) content 0
        (record {
          remaining = cfg.max_pruner_calls_per_response;
          visited = 0;
          metrics = record_eligible m;
        })

  prune_checked :
      (ℕ → PruneRequest → Answer) → (ℕ → ℕ) → String → Value → Checked → Metrics → Value × Metrics
  unfolding with_content prune_eligible
  prune_checked pruner time_ns server_name response_json (skipped reason) m =
      (response_json, record_skip reason m)
  prune_checked pruner time_ns server_name response_json (eligible request response result content)
        m =
      with_content response_json response result
        (prune_eligible pruner time_ns server_name request content m)

  unfoldable pub maybe_prune_jsonrpc_response :
      (ℕ → PruneRequest → Answer) → (ℕ → ℕ) → ℕ → String → Value → Value → Metrics → Value × Metrics
  unfolding prune_checked check_call
  maybe_prune_jsonrpc_response pruner time_ns elapsed_ms server_name request_json response_json m =
      let (answer, m') =
        prune_checked pruner time_ns server_name response_json
          (check_call server_name request_json response_json) (record_call m) in
      (answer, record_elapsed_ms elapsed_ms m')
